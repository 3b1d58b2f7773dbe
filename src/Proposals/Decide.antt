-- ===== src/Proposals/Decide.antt =====
-- `createProposalDecisions` of apps/user/proposal-decisions.js: deciding a suggestion.
pub mod Unsent
pub mod Recorded
pub mod Owned
mod Tests
use Prim.Native.Char.{code}
use Prim.Native.String
use Prim.Native.String.{[] as empty, ◌∷◌ as first_char}
use beepa.Prelude.{
  ℕ, zero, suc, String, Bool, true, false, not, ◌&&◌, ◌||◌, Option, none, some, List, [], ◌∷◌, keep,
  has, nat_eq, get_or, ◌==◌, if◌then◌else◌,
}
use beepa.Js.{
  Value, Fields, undefined, num, str, obj, field, end, whole, get, truthy, as_array, is_text,
  is_number, is_nullish, value_has_own, strictly_equal, is_space, some_chars,
}
use beepa.Matrix.Client.{Method, put, Outcome, ok, failed}
use beepa.Matrix.Actions.{Action, resume, ◌>>=◌, ◌>>◌, pure, fail, guard}
use beepa.OrderedConsent.Writer.Actions.{Session, same_session}
use beepa.Proposals.Lifecycle.{
  proposal_decision, proposal_decision_type, proposal_claim_type, is_event,
}

abbrev pub not_space : ℕ → Bool
not_space c = not (is_space c)

unfoldable pub inner_colon : String → Bool
inner_colon empty = false
inner_colon (first_char c s) =
    not_space (code c) && ((nat_eq (code c) b':' && some_chars not_space s) || inner_colon s)

-- `/^![^\s]+:[^\s]+$/.test(id)`
unfoldable pub is_room_id : String → Bool
unfolding inner_colon
is_room_id (first_char b (first_char c s)) =
    nat_eq (code b) b'!' && not_space (code c) && inner_colon s
is_room_id _ = false

-- `/^\$[^\s]+$/.test(id)`
unfoldable pub is_event_id : String → Bool
is_event_id (first_char c s) = nat_eq (code c) b'$' && some_chars not_space s
is_event_id empty = false

pub record Proposal : Type 0 where
  pub room_id : String
  pub event_id : String
  pub flagged : Bool
  pub for_room : Bool
  pub body : Value
  pub target_room : Value
  pub target_identifier : Value
  pub target_source : Value

-- What the code uses of its surroundings; `note` is the assignment to `p.decision`, and what is
-- awaited may change the session and the set `busy`.
pub record Desk : Type 1 where
  pub World : Type 0
  pub session : World → Session
  pub busy : World → List String
  pub set_busy : List String → World → World
  pub note : Value → World → World
  pub api : Method → String → Option Value → World → World × Outcome Value
  pub uuid : World → World × String
  pub wait : ℕ → World → World
  pub encode : String → String

-- What `send` resolves to.
pub data Sent : Type 0 where
  done scheduled other : Sent

abbrev pub sent_state : Outcome Sent → String
sent_state (ok done) = "sent"
sent_state (ok scheduled) = "scheduled"
sent_state (ok other) = "unknown"
sent_state (failed status) = "unknown"

-- The event is the suggestion that is shown, and still asks to be decided.
unfoldable pub is_unchanged : Proposal → String → Value → Bool
is_unchanged p user original =
    let content = get original "content" in
    is_text (get original "sender") user
    && is_text (get original "type") "com.jkali.proposal"
    && is_text (get original "event_id") p.event_id
    && is_text (get original "room_id") p.room_id
    && not (value_has_own original "state_key")
    && strictly_equal (get content "body") p.body
    && (if p.for_room
        then strictly_equal (get content "target_room") p.target_room
        else strictly_equal (get content "target_identifier") p.target_identifier
          && strictly_equal (get content "target_source") p.target_source)
    && not (is_text (get content "com.jkali.send_mode") "direct")
    && not (truthy (get content "com.jkali.auto_sent"))
    && not (truthy (get content "com.jkali.send_ambiguous"))

abbrev pub result_fields : Proposal → String → String → String → Fields → Fields
result_fields p id decision state rest = field "schema" (num (whole 1)) (
    field "proposal_event_id" (str p.event_id) (
      field "decision_id" (str id)
        (field "decision" (str decision) (field "send_state" (str state) rest))))

abbrev pub result_value : Proposal → String → String → String → Fields → Value
result_value p id decision state rest = obj (result_fields p id decision state rest)

-- `find(…)?.content`; none where a null event makes the search throw.
unfoldable pub claim_in : String → String → List Value → Option Value
claim_in id owner [] = some undefined
claim_in id owner (e ∷ es) =
    let rest = claim_in id owner es in
    if is_nullish e
    then none
    else if is_event proposal_claim_type id e && is_text (get e "sender") owner
    then some (get e "content")
    else rest

abbrev pub is_on : String → Value → Bool
is_on id claim = is_number (get claim "schema") 1 && is_text (get claim "proposal_event_id") id

-- The claim names this decision as the one that counts.
abbrev pub names : Value → String → Value → Bool
names written decision claim =
    strictly_equal (get claim "decision_event_id") (get written "event_id")
    && is_text (get claim "decision") decision

abbrev pub is_actionable : Proposal → Session → String → Bool
is_actionable p s decision =
    not (s.token == "")
    && not (s.user_id == "")
    && is_room_id p.room_id
    && is_event_id p.event_id
    && has ("accepted" ∷ "declined" ∷ []) decision
    && not p.flagged

module _ (desk : Desk) (p : Proposal) (identity : Session) (decision : String) where
  open desk use {World, session, busy, set_busy, note, api, uuid, wait, encode}

  unfoldable pub current : Action World (Unit {0})
  current w = guard (same_session (session w) identity) w

  abbrev pub room_path : String → String
  room_path rest = String.◌++◌ "/_matrix/client/v3/rooms/" (String.◌++◌ (encode p.room_id) rest)

  abbrev pub decision_path : String
  decision_path = room_path (
      String.◌++◌ "/state/"
        (String.◌++◌ proposal_decision_type (String.◌++◌ "/" (encode p.event_id))))

  abbrev pub noting : Value → Action World (Unit {0})
  noting v w = (note v w, ok tt)

  unfoldable pub ask : Method → String → Option Value → Action World Value
  unfolding current
  ask method path body = do v ← api method path body; current; pure v

  abbrev pub refuse_existing : Option Value → Action World (Unit {0})
  refuse_existing none = pure tt
  refuse_existing (some existing) = noting existing >> fail

  abbrev pub fresh_id : Action World String
  fresh_id w = let (w', id) = uuid w in (w', ok id)

  -- Up to the accepted PUT of the decision; the id and the answer.
  unfoldable pub record_decision : Action World (String × Value)
  unfolding ask is_unchanged
  record_decision = do
    events ← ask Method.get (room_path "/state") none
    refuse_existing (proposal_decision events p.event_id identity.user_id)
    original ← ask Method.get (room_path (String.◌++◌ "/event/" (encode p.event_id))) none
    guard (is_unchanged p identity.user_id original)
    id ← fresh_id
    let state = if decision == "accepted" then "sending" else "none"
    noting (result_value p id decision state end)
    written ← ask put decision_path (some (result_value p id decision state end))
    guard (truthy (get written "event_id"))
    pure (id, written)

  abbrev pub pause : ℕ → World → World
  pause zero w = w
  pause (suc n) w = wait 500 w

  -- What a claim that was read leads to; `rest` goes on waiting.
  abbrev pub on_claim : Value → Option Value → Action World (Unit {0}) → Action World (Unit {0})
  on_claim written none rest = fail
  on_claim written (some claim) rest =
      if is_on p.event_id claim
      then (if names written decision claim then pure tt else noting claim >> fail)
      else rest

  -- The loop over the polls, with those that are left.
  unfoldable pub await_claim : ℕ → Value → Action World (Unit {0})
  unfolding ask claim_in current
  await_claim zero written = fail
  await_claim (suc n) written = do
    state ← ask Method.get (room_path "/state") none
    let rest : Action World (Unit {0}) = λ w. (current >> await_claim n written) (pause n w)
    on_claim written (claim_in p.event_id identity.user_id (get_or (as_array state) [])) rest

  -- `try { ok = await send(); } catch {}`
  abbrev pub attempt : Action World Sent → Action World String
  attempt send w = let (w', outcome) = send w in (w', ok (sent_state outcome))

  -- After ownership was confirmed.
  unfoldable pub act : Action World Sent → String → Value → Action World Value
  unfolding ask current
  act send id written =
      let claim = field "claim_id" (get written "event_id") end in
      if decision == "accepted"
      then (do
        state ← attempt send
        current
        noting (result_value p id decision state claim)
        ask put decision_path (some (result_value p id decision state claim))
        pure (result_value p id decision state claim))
      else pure (result_value p id decision "none" claim)

  -- The body of the `try`.
  unfoldable pub decide_body : ℕ → Action World Sent → Action World Value
  unfolding record_decision await_claim act
  decide_body polls send = do
    (id, written) ← record_decision
    await_claim polls written
    act send id written

  abbrev pub key : String
  key = String.◌++◌ p.room_id (String.◌++◌ "/" p.event_id)

  -- `finally { busy.delete(key); }`
  abbrev pub release : World × Outcome Value → World × Outcome Value
  release (w, outcome) = (set_busy (keep (λ k. not (k == key)) (busy w)) w, outcome)

  unfoldable pub decide_as : ℕ → Action World Sent → Action World Value
  unfolding decide_body is_room_id is_event_id
  decide_as polls send w =
      if has (busy w) key || not (is_actionable p identity decision)
      then (w, failed none)
      else release (decide_body polls send (set_busy (key ∷ busy w) w))

-- `decide(p, decision, send)`
unfoldable pub decide :
    (desk : Desk) → ℕ → Proposal → String → Action desk.World Sent → Action desk.World Value
unfolding decide_as
decide desk polls p decision send w = decide_as desk p (desk.session w) decision polls send w
