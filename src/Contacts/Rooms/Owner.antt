-- ===== src/Contacts/Rooms/Owner.antt =====
-- Which profile holds a room after the changes of rooms.
use beepa.Prelude.{
  String, true, false, Option, none, some, List, [], ◌∷◌, ◌≡◌, refl, arith, eq_iff, eq_refl, has,
  any, ◌==◌, Bool-cases, inl, inr, if◌then◌else◌,
}
use beepa.Js.{Value, str}
use beepa.Matrix.Client.{room_id}
use beepa.Contacts.Profile.{Profile, normalize_profiles, text_or_empty}
use beepa.Contacts.Profile.WellFormed.{has-append}
use beepa.Contacts.Rooms.Texts.{has-without}
use beepa.Contacts.Rooms.{has_id, detach_room, attach_room, link_room, unlink_room}

-- The id of the first profile that holds the room.
abbrev pub owner : List Profile → String → Option String
owner [] room = none
owner (p ∷ ps) room = if has p.room_ids room then some p.id else owner ps room

owner-detach_room :
    (r x : String) (ps : List Profile)
    → owner (detach_room r ps) x ≡ (if r == x then none else owner ps x)
unfolding detach_room
owner-detach_room r x [] = ground arith
owner-detach_room r x (p ∷ ps) =
    ground (arith, has-without x r p.room_ids, owner-detach_room r x ps)

owner-attach_room_ne :
    (id r x : String) (ps : List Profile)
    → (r == x) ≡ false
    → owner (attach_room id r ps) x ≡ owner ps x
unfolding attach_room
owner-attach_room_ne id r x [] h = refl
owner-attach_room_ne id r x (p ∷ ps) h =
    ground (arith, has-append x p.room_ids (r ∷ []), owner-attach_room_ne id r x ps)

owner-attach_room_self :
    (id r : String) (ps : List Profile)
    → any (has_id id) ps ≡ true
    → owner ps r ≡ none
    → owner (attach_room id r ps) r ≡ some id
unfolding attach_room
owner-attach_room_self id r [] h o = cc
owner-attach_room_self id r (p ∷ ps) h o = ground (
  arith,
  has-append r p.room_ids (r ∷ []),
  eq_refl r,
  eq_iff p.id id,
  owner-attach_room_self id r ps,
)

any_id-detach_room :
    (id r : String) (ps : List Profile) → any (has_id id) (detach_room r ps) ≡ any (has_id id) ps
unfolding detach_room
any_id-detach_room id r [] = refl
any_id-detach_room id r (p ∷ ps) = ground (arith, any_id-detach_room id r ps)

owner-relink :
    (id r x : String) (ps : List Profile)
    → any (has_id id) ps ≡ true
    → owner (attach_room id r (detach_room r ps)) x ≡ (if r == x then some id else owner ps x)
owner-relink id r x ps found = elim (Bool-cases (r == x)) [
  | inl same ↦ ground (
    arith,
    eq_iff r x,
    any_id-detach_room id r ps,
    owner-detach_room r r ps,
    eq_refl r,
    owner-attach_room_self id r (detach_room r ps),
  )
  | inr differ ↦
      ground (arith, owner-detach_room r x ps, owner-attach_room_ne id r x (detach_room r ps))
]

any_id-attach_room :
    (j id r : String) (ps : List Profile) → any (has_id j) (attach_room id r ps) ≡ any (has_id j) ps
unfolding attach_room
any_id-attach_room j id r [] = refl
any_id-attach_room j id r (p ∷ ps) = ground (arith, any_id-attach_room j id r ps)

-- Linking keeps the ids of the store.
pub any_id-link_room :
    (server j id : String) (store room : Value)
    → any (has_id j) (link_room server store id room)
      ≡ any (has_id j) (normalize_profiles server store)
unfolding link_room
any_id-link_room server j id store room = ground (
  arith,
  any_id-attach_room j id (text_or_empty room)
      (detach_room (text_or_empty room) (normalize_profiles server store)),
  any_id-detach_room j (text_or_empty room) (normalize_profiles server store),
)

-- Linking a valid room to a profile that exists gives the room to that profile, and leaves every
-- other room where it was.
pub owner-link_room :
    (server id room other : String) (store : Value)
    → any (has_id id) (normalize_profiles server store) ≡ true
    → room_id server room ≡ true
    → owner (link_room server store id (str room)) other
      ≡ (if room == other then some id else owner (normalize_profiles server store) other)
unfolding link_room
owner-link_room server id room other store found valid =
    rw (found, valid) (owner-relink id room other (normalize_profiles server store) found)

-- Unlinking a room leaves it with no profile, and every other room where it was.
pub owner-unlink_room :
    (server room other : String) (store : Value)
    → owner (unlink_room server store room) other
      ≡ (if room == other then none else owner (normalize_profiles server store) other)
unfolding unlink_room
owner-unlink_room server room other store =
    owner-detach_room room other (normalize_profiles server store)
