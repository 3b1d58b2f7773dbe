-- ===== src/Contacts/Rooms/AsMap.antt =====
-- `roomProfileMap` against `profileForRoom`.
use beepa.Prelude.{
  String, true, false, Option, none, some, List, [], ◌∷◌, ◌++◌, ◌≡◌, refl, ◌∙◌, arith, has, find,
  lookup, insert, lookup-insert, eq_iff, or_else, Bool-cases, inl, inr, if◌then◌else◌,
}
use beepa.Js.{Value}
use beepa.Contacts.Profile.{Profile, normalize_profiles}
use beepa.Contacts.Profile.WellFormed.{
  NodupText, rooms_of, has-append, IsWellFormed, normalize_profiles-IsWellFormed,
}
use beepa.Contacts.Rooms.{map_rooms, map_profiles, room_profile_map, profile_for_room}

abbrev holder_of : String → List Profile → Option Profile
holder_of r ps = find (λ (p : Profile). has p.room_ids r) ps

lookup-map_rooms :
    (r : String) (p : Profile) (rids : List String) (out : List (String × Profile))
    → lookup r (map_rooms p rids out) ≡ (if has rids r then some p else lookup r out)
lookup-map_rooms r p [] out = refl
lookup-map_rooms r p (rid ∷ rids) out = ground (
  arith,
  lookup-map_rooms r p rids (insert rid p out),
  lookup-insert rid r p out,
  eq_iff r rid,
  eq_iff rid r,
)

not_held : (r : String) (ps : List Profile) → has (rooms_of ps) r ≡ false → holder_of r ps ≡ none
not_held r [] h = refl
not_held r (p ∷ ps) h = ground (arith, has-append r p.room_ids (rooms_of ps), not_held r ps)

later_free :
    (r : String) (xs ys : List String) → NodupText (xs ++ ys) → has xs r ≡ true → has ys r ≡ false
later_free r [] ys d h = cc
later_free r (x ∷ xs) ys d h =
    ground (arith, has-append x xs ys, eq_iff x r, eq_iff r x, later_free r xs ys d.1)

later_unique : (xs ys : List String) → NodupText (xs ++ ys) → NodupText ys
later_unique [] ys d = d
later_unique (x ∷ xs) ys d = later_unique xs ys d.1

lookup-map_profiles :
    (r : String) (ps : List Profile) (out : List (String × Profile))
    → NodupText (rooms_of ps)
    → lookup r (map_profiles ps out) ≡ or_else (holder_of r ps) (lookup r out)
lookup-map_profiles r [] out d = refl
lookup-map_profiles r (p ∷ ps) out d =
    lookup-map_profiles r ps (map_rooms p p.room_ids out) (later_unique p.room_ids (rooms_of ps) d)
    ∙ elim (Bool-cases (has p.room_ids r)) [
      | inl held ↦
          rw
            (
              lookup-map_rooms r p p.room_ids out,
              held,
              not_held r ps (later_free r p.room_ids (rooms_of ps) d held),
            )
            refl
      | inr free ↦ rw (lookup-map_rooms r p p.room_ids out, free) refl
    ]

-- The map that is built over all profiles has, for every room, the profile that the search by room
-- finds: since no room is in two profiles, that later profiles overwrite earlier ones does not show.
pub lookup-room_profile_map :
    (server : String) (store : Value) (r : String)
    → lookup r (room_profile_map server store) ≡ profile_for_room server store r
unfolding room_profile_map profile_for_room
lookup-room_profile_map server store r =
    lookup-map_profiles r (normalize_profiles server store) []
      (IsWellFormed.rooms_unique (normalize_profiles-IsWellFormed server store))
    ∙ ground arith
