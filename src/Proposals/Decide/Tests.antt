-- ===== src/Proposals/Decide/Tests.antt =====
-- A desk on which a suggestion is accepted and sent.
use beepa.Prelude.{
  String, Bool, true, false, Option, List, [], ◌∷◌, ◌≡◌, refl, ◌||◌, not, has, ◌==◌, if◌then◌else◌,
}
use beepa.Js.{
  Value, is_space, some_chars, undefined, str, num, whole, arr, obj, field, end, cons, nil,
}
use beepa.Matrix.Client.{Method, Outcome, ok}
use beepa.Matrix.Actions.{Action}
use beepa.OrderedConsent.Writer.Actions.{Session}
use beepa.Proposals.Lifecycle.{proposal_decision}
use beepa.Proposals.Decide.{Desk, Proposal, Sent, done, other, is_actionable, key, decide_as}
use beepa.Proposals.Decide.Unsent
use beepa.Proposals.Decide.Owned
use beepa.Proposals.Decide.Owned.{Claimed}
use beepa.Proposals.Decide.Recorded.{Recorded}

record Local : Type 0 where
  busy : List String
  written : Bool

abbrev claim : Value
claim = obj (
    field "type" (str "com.jkali.proposal_claim") (
      field "state_key" (str "$p") (
        field "sender" (str "@me:h") (
          field "content"
            (obj (
              field "schema" (num (whole 1)) (
                field "proposal_event_id" (str "$p")
                  (field "decision_event_id" (str "$d") (field "decision" (str "accepted") end)))))
            end))))

abbrev original : Value
original = obj (
    field "sender" (str "@me:h") (
      field "type" (str "com.jkali.proposal") (
        field "event_id" (str "$p") (
          field "room_id" (str "!r:h") (
            field "content" (obj (field "body" (str "hi") (field "target_room" (str "!t:h") end)))
              end)))))

abbrev answer : String → Bool → Value
answer path written =
    if path == "/_matrix/client/v3/rooms/!r:h/event/$p"
    then original
    else arr (if written then cons claim nil else nil)

abbrev serve : Method → String → Option Value → Local → Local × Outcome Value
serve Method.get path body w = (w, ok (answer path w.written))
serve method path body w = (record w { written = true }, ok (obj (field "event_id" (str "$d") end)))

abbrev me : Session
me = record { token = "t"; user_id = "@me:h" }

abbrev desk : Desk
desk = record {
  World = Local;
  session = λ w. me;
  busy = λ w. w.busy;
  set_busy = λ b w. record w { busy = b };
  note = λ v w. w;
  api = serve;
  uuid = λ w. (w, "u1");
  wait = λ n w. w;
  encode = λ s. s;
}

abbrev shown : Proposal
shown = record {
  room_id = "!r:h";
  event_id = "$p";
  flagged = false;
  for_room = true;
  body = str "hi";
  target_room = str "!t:h";
  target_identifier = undefined;
  target_source = undefined;
}

abbrev start : Local
start = record { busy = []; written = false }

abbrev sending : Action Local Sent
sending w = (w, ok done)

abbrev result : Value
result = obj (
    field "schema" (num (whole 1)) (
      field "proposal_event_id" (str "$p") (
        field "decision_id" (str "u1") (
          field "decision" (str "accepted")
            (field "send_state" (str "sent") (field "claim_id" (str "$d") end))))))

decide_as-Claimed_example :
    ((has [] (key desk shown me "accepted") || not (is_actionable shown me "accepted")) ≡ false)
    × ((id : String) × (written : Value) × (w₁ : Local) × Recorded desk shown me "accepted" id
          written
          (record start { busy = key desk shown me "accepted" ∷ [] })
          w₁
        × Claimed desk shown me "accepted" written w₁)
unfolding decide_as proposal_decision is_space some_chars
decide_as-Claimed_example =
    Owned.decide_as-Claimed desk shown me "accepted" 3 sending start
      (record { busy = []; written = true }) result refl

abbrev idle : Action Local Sent
idle w = (w, ok other)

decide_as-unsent_example :
    decide_as desk shown me "declined" 3 sending start
    ≡ decide_as desk shown me "declined" 3 idle start
decide_as-unsent_example =
    Unsent.decide_as-unsent desk shown me "declined" 3 sending idle start
      (λ id written w₁ w₂ u e e'. refl)
