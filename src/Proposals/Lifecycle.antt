-- ===== src/Proposals/Lifecycle.antt =====
-- shared/model/proposal-lifecycle.js: which decision stands for a suggestion, and its history.
pub mod Owned
pub mod Complete
use Prim.Native.String
use beepa.Prelude.{
  ℕ, zero, suc, String, Bool, true, false, not, ◌&&◌, ◌||◌, Option, none, some, List, [], ◌∷◌, ◌++◌,
  any, keep, has, get_or, ◌==◌, if◌then◌else◌,
}
use beepa.Js.{
  Value, undefined, str, get, truthy, as_array, as_string, is_text, is_number, strictly_equal,
}
use beepa.Matrix.Client.{Method, Outcome, ok, failed}
use beepa.Matrix.Actions.{Action, ◌>>=◌, pure, fail, guard}

abbrev pub proposal_decision_type : String
proposal_decision_type = "com.jkali.proposal_decision"

abbrev pub proposal_claim_type : String
proposal_claim_type = "com.jkali.proposal_claim"

-- `list.includes(value)` for a list of texts.
abbrev pub is_one_of : List String → Value → Bool
is_one_of texts (str s) = has texts s
is_one_of texts _ = false

abbrev pub is_decided : Value → Bool
is_decided c = is_one_of ("accepted" ∷ "declined" ∷ []) (get c "decision")

abbrev pub is_about : String → Value → Bool
is_about id c = is_number (get c "schema") 1 && is_text (get c "proposal_event_id") id

abbrev pub is_event : String → String → Value → Bool
is_event type id e = is_text (get e "type") type && is_text (get e "state_key") id

-- The test of the filter for `claims`.
unfoldable pub is_claim : String → String → Value → Bool
is_claim id owner e =
    is_event proposal_claim_type id e
    && is_text (get e "sender") owner
    && is_about id (get e "content")
    && is_decided (get e "content")

abbrev pub is_sent_state : Value → Bool
is_sent_state c =
    is_one_of ("sending" ∷ "sent" ∷ "unknown" ∷ "not_sent" ∷ "none" ∷ "scheduled" ∷ [])
      (get c "send_state")

-- The test of the last return.
unfoldable pub is_valid : String → Value → Bool
is_valid id c = is_about id c && is_decided c && is_sent_state c

-- `c`: the one claim, if the decision does not follow it, and else the decision.
unfoldable pub chosen : List Value → Value → Value
chosen (claim ∷ []) raw =
    let content = get claim "content" in
    if truthy content
      && (not (strictly_equal (get raw "claim_id") (get content "decision_event_id"))
          || not (strictly_equal (get raw "decision") (get content "decision")))
    then content
    else raw
chosen _ raw = raw

abbrev pub only_claim : List Value → Option Value
only_claim (claim ∷ []) = some (get claim "content")
only_claim _ = none

unfoldable pub decide_by : String → String → List Value → List Value → Option Value
unfolding chosen is_valid
decide_by id owner claims [] = only_claim claims
decide_by id owner claims (e ∷ []) =
    let c = chosen claims (get e "content") in
    if is_text (get e "sender") owner && is_valid id c then some c else none
decide_by id owner claims (e ∷ other ∷ more) = none

-- `proposalDecision(events, id, owner)`
unfoldable pub proposal_decision : Value → String → String → Option Value
unfolding is_claim decide_by
proposal_decision events id owner =
    let list = get_or (as_array events) [] in
    decide_by id owner (keep (is_claim id owner) list)
      (keep (is_event proposal_decision_type id) list)

module _ {World : Type 0} (api : Method → String → Action World Value)
    (encode : Value → String) where
  abbrev pub history_path : String → Value → String
  history_path room from = String.◌++◌ "/_matrix/client/v3/rooms/" (
      String.◌++◌ (encode (str room)) (
        String.◌++◌ "/messages?dir=b&limit=100&filter=" (
          String.◌++◌ (encode (str "{\"types\":[\"com.jkali.proposal\"]}"))
            (if truthy from then String.◌++◌ "&from=" (encode from) else ""))))

  -- The loop over the pages, with those that are left, `events`, `cursors` and `from`.
  unfoldable pub read_pages :
      ℕ → String → List Value → List Value → Value → Action World (List Value)
  read_pages zero room events cursors from = fail
  read_pages (suc n) room events cursors from = do
    data_ ← api Method.get (history_path room from)
    elim (as_array (get data_ "chunk")) [
      | none ↦ fail
      | some chunk ↦
          let next = get data_ "end" in
          let rest = read_pages n room (events ++ chunk) (next ∷ cursors) next in
          if not (truthy next)
          then pure (events ++ chunk)
          else if any (strictly_equal next) cursors
          then fail
          else rest
    ]

  -- `proposalHistory(api, room)`
  unfoldable pub proposal_history : String → Action World (List Value)
  unfolding read_pages
  proposal_history room = read_pages 100 room [] [] (str "")
