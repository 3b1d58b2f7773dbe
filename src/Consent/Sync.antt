-- ===== src/Consent/Sync.antt =====
-- `overridesFromSync` of shared/model/consent.js.
pub mod LastEvent
use beepa.Prelude.{
  String, Bool, Option, none, some, List, [], ◌∷◌, lookup, insert, remove, get_or, if◌then◌else◌,
}
use beepa.Js.{Value, Fields, get, as_object, as_array, entries, is_text}
use beepa.Consent.Level.{Level, normalize_override}
use beepa.Consent.Keys.{consent_room_id}

-- SHARE_OVERRIDE_TYPE
abbrev pub share_override_type : String
share_override_type = "com.jkali.share_override"

abbrev pub is_override_event : Value → Bool
is_override_event e = is_text (get e "type") share_override_type

-- `if (v) out[rid] = v; else delete out[rid];`
unfoldable pub store_level : List (String × Level) → String → Option Level → List (String × Level)
store_level out rid none = remove rid out
store_level out rid (some level) = insert rid level out

-- The loop over the events of one room.
unfoldable pub apply_events : List (String × Level) → String → List Value → List (String × Level)
unfolding store_level
apply_events out rid [] = out
apply_events out rid (e ∷ es) =
    apply_events
      (if is_override_event e
        then store_level out rid (normalize_override (get e "content"))
        else out)
      rid es

-- The events of a room's block; none unless each part has its shape.
abbrev pub room_events : Value → List Value
room_events room = get_or (as_array (get (get room "account_data") "events")) []

-- One round of the loop over the joined rooms.
unfoldable pub apply_room : List (String × Level) → String → Value → List (String × Level)
unfolding apply_events
apply_room out rid room =
    if consent_room_id rid then apply_events out rid (room_events room) else out

unfoldable pub apply_rooms : List (String × Level) → List (String × Value) → List (String × Level)
unfolding apply_room
apply_rooms out [] = out
apply_rooms out ((rid, room) ∷ rooms) = apply_rooms (apply_room out rid room) rooms

abbrev pub joined_rooms : Option Fields → List (String × Value)
joined_rooms none = []
joined_rooms (some join) = entries join

unfoldable pub overrides_from_sync : Value → List (String × Level)
unfolding apply_rooms
overrides_from_sync sync_data =
    apply_rooms [] (joined_rooms (as_object (get (get sync_data "rooms") "join")))
