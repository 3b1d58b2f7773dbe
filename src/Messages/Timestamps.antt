-- ===== src/Messages/Timestamps.antt =====
-- The corrections of times of shared/model/message_timestamps.js.
use Prim.Native.Char.{code}
use Prim.Native.String.{[] as empty, ◌∷◌ as first_char}
use beepa.Prelude.{
  String, Bool, true, false, ◌&&◌, Option, none, some, List, [], ◌∷◌, get_or, nat_eq, ◌==◌,
  if◌then◌else◌, lookup, insert, lookup-insert, ◌≡◌, refl, ap, ◌∙◌, Bool-cases, inl, inr,
}
use beepa.Js.{Value, undefined, num, whole, get, as_number, is_text, is_number}
use beepa.Crm.Format.{integer_between, text_of, string_test}

abbrev pub correction_type : String
correction_type = "com.beepa.timestamp_correction"

-- `validTimestamp`
abbrev pub valid_timestamp : Value → Bool
valid_timestamp v = integer_between 1 8640000000000000 v

abbrev pub starts_with_dollar : String → Bool
starts_with_dollar empty = false
starts_with_dollar (first_char c s) = nat_eq (code c) b'$'

-- Whether an event is a correction that the sender may make.
unfoldable pub is_correction : String → Value → Bool
is_correction sender ev =
    let c = get ev "content" in
    is_text (get ev "type") correction_type
    && is_text (get ev "sender") sender
    && string_test starts_with_dollar (get ev "state_key")
    && is_number (get c "version") 1
    && is_text (get c "source") "imessage"
    && valid_timestamp (get c "origin_ts")

abbrev pub origin_ts : Value → Value
origin_ts ev = get (get ev "content") "origin_ts"

abbrev pub corrected_event : Value → String
corrected_event ev = text_of (get ev "state_key")

-- The loop of `timestampCorrections`.
unfoldable pub corrections_from :
    String → List (String × Value) → List Value → List (String × Value)
unfolding is_correction
corrections_from sender result [] = result
corrections_from sender result (ev ∷ events) =
    corrections_from sender
      (if is_correction sender ev
        then insert (corrected_event ev) (origin_ts ev) result
        else result)
      events

-- `timestampCorrections`, for a list of events
unfoldable pub timestamp_corrections : List Value → String → List (String × Value)
unfolding corrections_from
timestamp_corrections events sender = if sender == "" then [] else corrections_from sender [] events

-- `messageTimestamp`
unfoldable pub message_timestamp : Value → List (String × Value) → Value
message_timestamp ev corrections =
    let corrected = get_or (lookup (text_of (get ev "event_id")) corrections) undefined in
    let original = get (get ev "content") "com.jkali.origin_ts" in
    if valid_timestamp corrected
    then corrected
    else if valid_timestamp original
    then original
    else elim (as_number (get ev "origin_server_ts")) [ some n ↦ num n | none ↦ num (whole 0) ]

-- The first of two values that is there.
unfoldable pub either : Option Value → Option Value → Option Value
either none other = other
either (some v) other = some v

-- The correction of an event that the last of the events makes.
abbrev pub last_correction : String → String → List Value → Option Value
last_correction sender id [] = none
last_correction sender id (ev ∷ events) =
    either (last_correction sender id events)
      (if is_correction sender ev && corrected_event ev == id then some (origin_ts ev) else none)

either_nothing : (o : Option Value) → either o none ≡ o
unfolding either
either_nothing none = refl
either_nothing (some v) = refl

either_new :
    (o : Option Value) (hit : Bool) (v : Value) (old : Option Value)
    → either o (if hit then some v else old) ≡ either (either o (if hit then some v else none)) old
unfolding either
either_new (some w) hit v old = refl
either_new none true v old = refl
either_new none false v old = refl

lookup-corrections_from :
    (sender id : String) (result : List (String × Value)) (events : List Value)
    → lookup id (corrections_from sender result events)
      ≡ either (last_correction sender id events) (lookup id result)
unfolding corrections_from either
lookup-corrections_from sender id result [] = refl
lookup-corrections_from sender id result (ev ∷ events) =
    elim (Bool-cases (is_correction sender ev)) [
      | inr other ↦
          rw (corrections_from, other)
            (rw (either_nothing (last_correction sender id events))
              (lookup-corrections_from sender id result events))
      | inl made ↦
          rw (corrections_from, made)
            (lookup-corrections_from sender id (insert (corrected_event ev) (origin_ts ev) result)
                events
              ∙ ap (either (last_correction sender id events))
                  (lookup-insert (corrected_event ev) id (origin_ts ev) result)
              ∙ either_new (last_correction sender id events) (corrected_event ev == id)
                  (origin_ts ev) (lookup id result))
    ]

-- The time that a correction gives an event is that of the last correction of the event, among all events,
-- that the sender made and that is well formed; there is none without a sender.
pub lookup-timestamp_corrections :
    (events : List Value) (sender id : String)
    → lookup id (timestamp_corrections events sender)
      ≡ (if sender == "" then none else last_correction sender id events)
unfolding timestamp_corrections
lookup-timestamp_corrections events sender id = elim (Bool-cases (sender == "")) [
  | inl absent ↦ rw (timestamp_corrections, absent) refl
  | inr present ↦
      rw (timestamp_corrections, present)
        (lookup-corrections_from sender id [] events
          ∙ either_nothing (last_correction sender id events))
]
