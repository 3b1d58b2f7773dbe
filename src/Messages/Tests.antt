-- ===== src/Messages/Tests.antt =====
-- Runs of the models of a message's time and of the native read state.
use beepa.Prelude.{ℕ, String, true, false, none, some, List, [], ◌∷◌, ◌≡◌, refl, All, lookup}
use beepa.Js.{Value, str, num, bool, obj, arr, of_entries, of_items, whole}
use beepa.Messages.Timestamps.{timestamp_corrections, last_correction}
use beepa.Messages.Timestamps
use beepa.Messages.NativeRead.{native_read_from_room, told, room_events}
use beepa.Messages.NativeRead.Latest
use beepa.Messages.NativeRead.Latest.{Covers}

abbrev object : List (String × Value) → Value
object fs = obj (of_entries fs)

abbrev correction : ℕ → Value
correction ts = object (
    ("type", str "com.beepa.timestamp_correction")
    ∷ ("sender", str "@b:h")
    ∷ ("state_key", str "$e")
    ∷ (
      "content",
      object (
          ("version", num (whole 1))
          ∷ ("source", str "imessage")
          ∷ ("origin_ts", num (whole ts))
          ∷ []),
    )
    ∷ [])

-- The later of two corrections of an event counts.
corrected :
    lookup "$e" (timestamp_corrections (correction 5 ∷ correction 7 ∷ []) "@b:h")
    ≡ some (num (whole 7))
unfolding timestamp_corrections
corrected = refl

lookup-timestamp_corrections_example :
    lookup "$e" (timestamp_corrections (correction 5 ∷ correction 7 ∷ []) "@b:h")
    ≡ last_correction "@b:h" "$e" (correction 5 ∷ correction 7 ∷ [])
lookup-timestamp_corrections_example =
    Timestamps.lookup-timestamp_corrections (correction 5 ∷ correction 7 ∷ []) "@b:h" "$e"

abbrev no_text : Value → String
no_text v = ""

abbrev read_event : ℕ → Value
read_event at = object (
    ("type", str "com.jkali.imessage_read_state")
    ∷ ("sender", str "@b:h")
    ∷ ("state_key", str "")
    ∷ (
      "content",
      object (
          ("schema", num (whole 1))
          ∷ ("supported", bool true)
          ∷ ("unread_count", num (whole 2))
          ∷ ("marked_unread", bool false)
          ∷ ("revision", str "aaaaaaaaaaaaaaaaaaaaaaaaaaaaaaaaaaaaaaaaaaaaaaaaaaaaaaaaaaaaaaaa")
          ∷ ("latest_ts", num (whole 1))
          ∷ ("observed_ts", num (whole at))
          ∷ []),
    )
    ∷ [])

abbrev room : Value
room =
    object (
      ("timeline", object (("events", arr (of_items (read_event 9 ∷ read_event 4 ∷ []))) ∷ []))
      ∷ [])

native_read_from_room-Covers_example :
    Covers (native_read_from_room no_text room "@b:h" none) none
    × All
        (λ ev. Covers (native_read_from_room no_text room "@b:h" none) (told no_text "@b:h" ev))
        (room_events no_text room)
native_read_from_room-Covers_example = Latest.native_read_from_room-Covers no_text room "@b:h" none
