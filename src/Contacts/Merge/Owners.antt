-- ===== src/Contacts/Merge/Owners.antt =====
-- The map `roomToProfile` of `autoMergeByNumber`, and the profiles.
use Prim.Native.String
use text.Mathlib.TextLemmas.{append-eq-nil_iff}
use beepa.Prelude.{
  ℕ, String, true, false, none, some, List, [], ◌∷◌, ◌++◌, ◌≡◌, refl, ◌∙◌, arith, eq_iff, has, any,
  All, or_else, lookup, insert, lookup-insert, ◌==◌, Bool-cases, Option-cases, inl, inr,
  if◌then◌else◌,
}
use beepa.Contacts.Profile.{Profile}
use beepa.Contacts.Profile.WellFormed.{NodupText, Avoids, rooms_of, has-append}
use beepa.Contacts.Profile.Idempotent.{append-Kept, Avoids-nil, has-append-false}
use beepa.Contacts.Rooms.{has_id}
use beepa.Contacts.Rooms.Owner.{owner}
use beepa.Contacts.Merge.{note_rooms, note_profiles, holders, Fresh, new_profile_id}

lookup-note_rooms :
    (id r : String) (rids : List String) (owners : List (String × String))
    → lookup r (note_rooms id rids owners) ≡ (if has rids r then some id else lookup r owners)
lookup-note_rooms id r [] owners = refl
lookup-note_rooms id r (rid ∷ rids) owners =
    ground
      (arith, lookup-note_rooms id r rids (insert rid id owners), lookup-insert rid r id owners)

Avoids-has : (c ys : List String) (r : String) → Avoids c ys → has ys r ≡ true → has c r ≡ false
Avoids-has c [] r a h = cc
Avoids-has c (y ∷ ys) r (fresh, a) h = ground (arith, eq_iff y r, Avoids-has c ys r a)

owner-none : (r : String) (ps : List Profile) → has (rooms_of ps) r ≡ false → owner ps r ≡ none
owner-none r [] h = refl
owner-none r (p ∷ ps) h =
    let (a, b) = has-append-false r p.room_ids (rooms_of ps) h in rw a (owner-none r ps b)

-- A room of the first profile is in no later one.
owner_of_head :
    (r : String) (p : Profile) (ps : List Profile)
    → NodupText (rooms_of (p ∷ ps))
    → has p.room_ids r ≡ true
    → owner ps r ≡ none
owner_of_head r p ps n h = elim (Bool-cases (has (rooms_of ps) r)) [
  | inl later ↦
      let (a, b) = append-Kept [] p.room_ids (rooms_of ps) (Avoids-nil _, n) in
      let out = Avoids-has (p.room_ids ++ []) (rooms_of ps) r b.0 later in
      ground (arith, has-append r p.room_ids [])
  | inr absent ↦ owner-none r ps absent
]

rooms_unique-tail :
    (p : Profile) (ps : List Profile) → NodupText (rooms_of (p ∷ ps)) → NodupText (rooms_of ps)
rooms_unique-tail p ps n = (append-Kept [] p.room_ids (rooms_of ps) (Avoids-nil _, n)).1.1

-- The snapshot taken before the loop says which profile holds each room.
pub lookup-note_profiles :
    (r : String) (ps : List Profile) (owners : List (String × String))
    → NodupText (rooms_of ps)
    → lookup r (note_profiles ps owners) ≡ or_else (owner ps r) (lookup r owners)
unfolding note_profiles
lookup-note_profiles r [] owners n = refl
lookup-note_profiles r (p ∷ ps) owners n =
    let rest =
      lookup-note_profiles r ps (note_rooms p.id p.room_ids owners) (rooms_unique-tail p ps n) in
    rest
    ∙ rw (lookup-note_rooms p.id r p.room_ids owners) (elim (Bool-cases (has p.room_ids r)) [
      | inl here ↦ rw (here, owner_of_head r p ps n here) refl
      | inr other ↦ rw other refl
    ])

-- A profile that holds a room is in the store.
pub any_id-owner :
    (id r : String) (ps : List Profile) → owner ps r ≡ some id → any (has_id id) ps ≡ true
any_id-owner id r [] h = cc
any_id-owner id r (p ∷ ps) h = ground (arith, eq_iff p.id id, any_id-owner id r ps)

pub holders-owned :
    (owners : List (String × String)) (rids : List String) (id : String)
    → has (holders owners rids) id ≡ true
    → (r : String) × (lookup r owners ≡ some id)
holders-owned owners [] id h = ground arith
holders-owned owners (rid ∷ rids) id h = elim (Option-cases (lookup rid owners)) [
  | inl free ↦ holders-owned owners rids id (ground arith)
  | inr (pid, held) ↦ elim (Bool-cases (has (holders owners rids) id)) [
    | inl later ↦ holders-owned owners rids id later
    | inr here ↦ (rid, ground (arith, eq_iff pid id))
  ]
]

pub holders-none :
    (owners : List (String × String)) (rids : List String)
    → holders owners rids ≡ []
    → All (λ r. lookup r owners ≡ none) rids
holders-none owners [] h = tt
holders-none owners (rid ∷ rids) h = ground (arith, holders-none owners rids)

pub new_profile_id-full : (fresh : Fresh) (n : ℕ) → (new_profile_id fresh n == "") ≡ false
unfolding new_profile_id
new_profile_id-full fresh n = elim (Bool-cases (String.◌++◌ "cp_" (fresh.suffix n) == "")) [
  | inl empty ↦
      let nothing : (◌≡◌ {A = String} "cp_" "") =
        (append-eq-nil_iff.0 ((eq_iff (String.◌++◌ "cp_" (fresh.suffix n)) "").0 empty)).0 in
      cc nothing
  | inr full ↦ full
]
