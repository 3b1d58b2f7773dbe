-- ===== src/OrderedConsent/Writer/Tests.antt =====
-- A page on which `write` of apps/user/ordered-consent.js runs to its end.
use beepa.Prelude.{
  ◌⊎◌, ℕ, String, true, false, Option, none, some, List, [], ◌∷◌, ◌≡◌, refl, lookup, arith, get_or,
}
use beepa.Js.{
  undefined, Value, as_string, utf16_length, loose_room_id, printed, bool, num, str, arr, obj,
  field, end, cons, nil, whole,
}
use beepa.Matrix.Client.{Method, Outcome, ok, failed}
use beepa.Consent.Level.{Level, share, private}
use beepa.OrderedConsent.Writer.{
  intent_for, write, optional, capability_path, enter, is_refused, see_ordered,
}
use beepa.OrderedConsent.Checks.{capability_ok}
use beepa.OrderedConsent.Writer.Legacy
use beepa.OrderedConsent.Writer.Applied
use beepa.OrderedConsent.Writer.Retry
use beepa.OrderedConsent.Writer.Applied.{Commanded, Licensed}
use beepa.OrderedConsent.Writer.Actions.{Intent, Page, Session, Writer, Action}

record Local : Type 0 where
  session : Session
  writer : Writer
  account : List (String × Value)

abbrev answer_of : Option Value → Outcome Value
answer_of none = failed (some 404)
answer_of (some v) = ok v

abbrev serve : Method → String → Option Value → Local → Local × Outcome Value
serve Method.get path body w = (w, answer_of (lookup path w.account))
serve method path body w = (w, ok (obj end))

abbrev local : Page
local = record {
  World = Local;
  session = λ w. w.session;
  writer = λ w. w.writer;
  set_writer = λ s w. record w { writer = s };
  api = serve;
  uuid = λ w. (w, "c1");
  wait = λ n w. w;
  encode = λ v. get_or (as_string v) "";
}

abbrev me : Session
me = record { token = "t"; user_id = "@me:h" }

abbrev event : String → String → Value → Value
event type key content = obj (
    field "type" (str type)
      (field "state_key" (str key) (field "sender" (str "@me:h") (field "content" content end))))

abbrev n : ℕ → Value
n k = num (whole k)

abbrev control_state : Value
control_state = arr (
    cons (event "m.room.create" "" (obj end)) (
      cons
        (event "com.jkali.policy_control" ""
          (obj (field "schema" (n 1) (field "journal_epoch" (str "e1") end))))
        (cons (event "m.room.member" "@me:h" (obj (field "membership" (str "join") end))) (
          cons
            (event "m.room.power_levels" "" (
              obj (
                field "users" (obj (field "@me:h" (n 100) end)) (
                  field "events_default" (n 100) (
                    field "state_default" (n 100) (
                      field "invite" (n 100) (
                        field "kick" (n 100)
                          (field "ban" (n 100) (field "redact" (n 100) end)))))))))
            (cons (event "m.room.join_rules" "" (obj (field "join_rule" (str "invite") end))) (
              cons
                (event "m.room.history_visibility" ""
                  (obj (field "history_visibility" (str "joined") end)))
                (cons
                  (event "m.room.guest_access" ""
                    (obj (field "guest_access" (str "forbidden") end)))
                  nil)))))))

abbrev start : Local
start = record {
  session = me;
  writer = record { identity = none; ordered_seen = false; pending = [] };
  account =
      (
        "/_matrix/client/v3/user/@me:h/account_data/com.jkali.crm_control",
        obj (
            field "schema" (n 1) (
              field "manual" (bool true) (
                field "policy_room_id" (str "!c:h")
                  (field "journal_epoch" (str "e1") (field "generation" (str "g") end))))),
      )
      ∷ ("/_matrix/client/v3/rooms/!c:h/state", control_state)
      ∷ (
        "/_matrix/client/v3/rooms/!c:h/state/com.jkali.policy.result/c1",
        obj (
            field "schema" (n 1) (
              field "command_id" (str "c1") (
                field "room_id" (str "!r:h") (
                  field "state" (str "applied")
                    (field "operation_id" (str "o1") (field "revision" (n 4) end)))))),
      )
      ∷ (
        "/_matrix/client/v3/user/@me:h/rooms/!r:h/account_data/com.jkali.share_override",
        obj (
            field "state" (str "share") (
              field "com.jkali.policy_journal"
                (obj (field "operation_id" (str "o1") (field "revision" (n 4) end))) end)),
      )
      ∷ [];
}

abbrev refusing : Action Local (Option Level)
refusing w = (w, failed none)

abbrev finish : Local
finish = (write local 1 "!r:h" (some share) refusing start).0

finished : write local 1 "!r:h" (some share) refusing start ≡ (finish, ok (some share))
unfolding write loose_room_id printed utf16_length
finished = refl

write-ok_example :
    (is_refused "!r:h" me ≡ false)
    × (w₁ : Local) × (answer : Option Value) × (optional local me
          (capability_path local me)
          (enter local me start)
        ≡ (w₁, ok answer))
    × (((cap : Value) × (answer ≡ some cap)
          × (capability_ok cap ≡ true)
          × Commanded local me "!r:h" (some share) cap (see_ordered local w₁).0
          × (some share ≡ some share))
        ⊎ ((answer ≡ none) × Licensed local "!r:h" (some share) me refusing w₁ (some share)))
write-ok_example =
    Applied.write-ok local "!r:h" (some share) 1 refusing start finish (some share) finished

some_not_none :
    {C : Type 0} (a w : Local) (v : Value)
    → ◌≡◌ {A = Local × Outcome (Option Value)} (a, ok (some v)) (w, ok none)
    → C
some_not_none a w v h = ground (arith, h)

abbrev granting : Action Local (Option Level)
granting w = (w, ok (some share))

write-legacy_unused_example :
    write local 1 "!r:h" (some share) refusing start
    ≡ write local 1 "!r:h" (some share) granting start
unfolding optional
write-legacy_unused_example =
    Legacy.write-legacy_unused local 1 "!r:h" (some share) refusing granting start
      (λ w₁ absent untouched w₂ existing found. some_not_none _ w₁ _ absent)

abbrev capability : Value
capability = obj (
    field "schema" (n 1) (
      field "manual" (bool true) (
        field "policy_room_id" (str "!c:h")
          (field "journal_epoch" (str "e1") (field "generation" (str "g") end)))))

abbrev intent : Intent
intent = record {
  command_id = "c1";
  journal_epoch = "e1";
  room_id = "!r:h";
  level = "private";
  expected_revision = 0;
  control_room = str "!c:h";
  generation = "g";
}

abbrev unstamped : Local
unstamped = record start { account = [] }

abbrev chosen : Local
chosen = (intent_for local me "!r:h:private" "!r:h" (some private) capability [] unstamped).0

intent_for-again_example :
    intent_for local me "!r:h:private" "!r:h" (some private) capability (undefined ∷ []) chosen
    ≡ (chosen, ok intent)
unfolding intent_for capability_ok loose_room_id printed utf16_length
intent_for-again_example =
    Retry.intent_for-again local me "!r:h:private" "!r:h" (some private) capability "!c:h" refl []
      (undefined ∷ []) unstamped chosen chosen intent refl (λ s w. refl) refl refl
