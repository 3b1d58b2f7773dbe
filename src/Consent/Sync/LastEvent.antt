-- ===== src/Consent/Sync/LastEvent.antt =====
-- What `overridesFromSync` reads out of a sync response.
use beepa.Prelude.{
  String, true, false, Option, none, some, List, [], ◌∷◌, ◌≡◌, refl, lookup, or_else, arith, eq_iff,
  Distinct, if◌then◌else◌, ◌==◌, lookup-insert, lookup-remove, Option-cases, Bool-cases, inl, inr,
}
use beepa.Js.{Value, obj, get, as_object, IsObject}
use beepa.Consent.Level.{Level, normalize_override}
use beepa.Consent.Keys.{consent_room_id}
use beepa.Consent.Sync.{
  is_override_event, store_level, apply_events, room_events, apply_room, apply_rooms, joined_rooms,
  overrides_from_sync,
}

-- What the last override event of a list says; `none` if there is no such event.
abbrev pub last_override : List Value → Option (Option Level)
last_override [] = none
last_override (e ∷ es) =
    or_else (last_override es)
      (if is_override_event e then some (normalize_override (get e "content")) else none)

abbrev pub level_after : Option (Option Level) → Option Level → Option Level
level_after none before = before
level_after (some level) before = level

lookup-store_level :
    (out : List (String × Level)) (rid j : String) (l : Option Level)
    → lookup j (store_level out rid l) ≡ (if rid == j then l else lookup j out)
unfolding store_level
lookup-store_level out rid j none = lookup-remove rid j out
lookup-store_level out rid j (some l) = lookup-insert rid j l out

lookup-apply_events :
    (out : List (String × Level)) (rid j : String) (es : List Value)
    → lookup j (apply_events out rid es)
      ≡ (if rid == j then level_after (last_override es) (lookup j out) else lookup j out)
unfolding apply_events
lookup-apply_events out rid j [] = ground arith
lookup-apply_events out rid j (e ∷ es) = elim (Bool-cases (is_override_event e)) [
  | inl yes_event ↦
      let l = normalize_override (get e "content") in
      ground (
        arith,
        lookup-apply_events (store_level out rid l) rid j es,
        lookup-store_level out rid j l,
      )
  | inr other ↦ ground (arith, lookup-apply_events out rid j es)
]

-- The room's own say, if its id has the shape of a room id.
abbrev pub room_level : String → Option Value → Option Level
room_level rid none = none
room_level rid (some room) =
    if consent_room_id rid then level_after (last_override (room_events room)) none else none

lookup-apply_room_ne :
    (out : List (String × Level)) (rid j : String) (room : Value)
    → (rid == j) ≡ false
    → lookup j (apply_room out rid room) ≡ lookup j out
unfolding apply_room
lookup-apply_room_ne out rid j room h =
    ground (arith, lookup-apply_events out rid j (room_events room))

lookup-apply_room_self :
    (out : List (String × Level)) (rid j : String) (room : Value)
    → (rid == j) ≡ true
    → lookup j out ≡ none
    → lookup j (apply_room out rid room) ≡ room_level j (some room)
unfolding apply_room
lookup-apply_room_self out rid j room h e =
    ground (arith, eq_iff rid j, lookup-apply_events out rid j (room_events room))

apply_rooms_absent :
    (out : List (String × Level)) (j : String) (rooms : List (String × Value))
    → lookup j rooms ≡ none
    → lookup j (apply_rooms out rooms) ≡ lookup j out
unfolding apply_rooms
apply_rooms_absent out j [] h = refl
apply_rooms_absent out j ((rid, r) ∷ rooms) h =
    ground
      (arith, lookup-apply_room_ne out rid j r, apply_rooms_absent (apply_room out rid r) j rooms)

apply_rooms_present :
    (out : List (String × Level)) (j : String) (room : Value) (rooms : List (String × Value))
    → Distinct rooms
    → lookup j rooms ≡ some room
    → lookup j out ≡ none
    → lookup j (apply_rooms out rooms) ≡ room_level j (some room)
unfolding apply_rooms
apply_rooms_present out j room [] d h o = cc
apply_rooms_present out j room ((rid, r) ∷ rooms) (fresh, d) h o = elim (Bool-cases (rid == j)) [
  | inl same ↦ ground (
    arith,
    eq_iff rid j,
    lookup-apply_room_self out rid j r,
    apply_rooms_absent (apply_room out rid r) j rooms,
  )
  | inr differ ↦ ground (
    arith,
    lookup-apply_room_ne out rid j r,
    apply_rooms_present (apply_room out rid r) j room rooms d,
  )
]

lookup-apply_rooms :
    (j : String) (rooms : List (String × Value))
    → Distinct rooms
    → lookup j (apply_rooms [] rooms) ≡ room_level j (lookup j rooms)
lookup-apply_rooms j rooms d = elim (Option-cases (lookup j rooms)) [
  | inl absent ↦ rw absent (apply_rooms_absent [] j rooms absent)
  | inr (room, found) ↦ rw found (apply_rooms_present [] j room rooms d found refl)
]

joined_rooms-Distinct : (v : Value) → IsObject v → Distinct (joined_rooms (as_object v))
joined_rooms-Distinct (obj fs) h = h
joined_rooms-Distinct _ h = tt

-- For every room id, the result holds the level of the last override event in that room's own
-- block, and nothing if there is no such event, if its level is cleared or unrecognized, or if the
-- id is not that of a room.
pub lookup-overrides_from_sync :
    (sync_data : Value) (j : String)
    → IsObject (get (get sync_data "rooms") "join")
    → lookup j (overrides_from_sync sync_data)
      ≡ room_level j (lookup j (joined_rooms (as_object (get (get sync_data "rooms") "join"))))
unfolding overrides_from_sync
lookup-overrides_from_sync sync_data j h =
    lookup-apply_rooms j (joined_rooms (as_object (get (get sync_data "rooms") "join")))
      (joined_rooms-Distinct (get (get sync_data "rooms") "join") h)
