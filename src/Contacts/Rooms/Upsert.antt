-- ===== src/Contacts/Rooms/Upsert.antt =====
-- Creating, updating and removing a profile.
use mathlib.Core.Path.{subst}
use beepa.Prelude.{
  String, true, false, some, List, [], ◌∷◌, ◌++◌, ◌≡◌, refl, sym, ap, ap₂, ◌∙◌, arith, eq_iff,
  eq_refl, has, any, All, map, ◌||◌, ◌==◌, Bool-cases, inl, inr, if◌then◌else◌,
}
use beepa.Js.{Value, undefined, str}
use beepa.Matrix.Client.{room_id}
use beepa.Contacts.Profile.{Profile, handle_key, is_named, normalize_profiles, text_or_empty}
use beepa.Contacts.Profile.WellFormed.{
  NodupText, rooms_of, handles_of, IsWellFormed, has-append, All-append,
  normalize_profiles-IsWellFormed,
}
use beepa.Contacts.Rooms.{has_id, upsert_profile, update_profile, new_profile, renamed, reshared}
use beepa.Contacts.Rooms.Owner.{owner}
use beepa.Contacts.Rooms.Linking.{map-IsWellFormed}

NodupText-snoc :
    (xs : List String) (x : String) → NodupText xs → has xs x ≡ false → NodupText (xs ++ x ∷ [])
NodupText-snoc [] x n h = (refl, tt)
NodupText-snoc (y ∷ ys) x (a, n) h = (
  ground (arith, has-append y ys (x ∷ []), eq_iff y x, eq_iff x y),
  NodupText-snoc ys x n (ground arith),
)

update_one : String → Value → Value → Profile → Profile
update_one id name share p = if has_id id p then reshared share (renamed name p) else p

update_one-keeps :
    (id : String) (name share : Value) (p : Profile)
    → ((update_one id name share p).id ≡ p.id)
      × ((update_one id name share p).handle_ids ≡ p.handle_ids)
      × ((update_one id name share p).room_ids ≡ p.room_ids)
unfolding update_one
update_one-keeps id name share p = elim (Bool-cases (has_id id p)) [
  | inl here ↦ rw here (changed_keeps name share)
  | inr other ↦ rw other (refl, refl, refl)
]
  where
    reshared_keeps :
        (share : Value) (q : Profile)
        → ((reshared share q).id ≡ q.id)
          × ((reshared share q).handle_ids ≡ q.handle_ids)
          × ((reshared share q).room_ids ≡ q.room_ids)
    reshared_keeps undefined q = (refl, refl, refl)
    reshared_keeps _ q = (refl, refl, refl)

    changed_keeps :
        (name share : Value)
        → ((reshared share (renamed name p)).id ≡ p.id)
          × ((reshared share (renamed name p)).handle_ids ≡ p.handle_ids)
          × ((reshared share (renamed name p)).room_ids ≡ p.room_ids)
    changed_keeps (str n) share = reshared_keeps share (record p { display_name = n })
    changed_keeps _ share = reshared_keeps share p

rooms_of-update_profile :
    (id : String) (name share : Value) (ps : List Profile)
    → rooms_of (update_profile id name share ps) ≡ rooms_of ps
unfolding update_one
rooms_of-update_profile id name share [] = refl
rooms_of-update_profile id name share (p ∷ ps) =
    ap₂ (λ rs rest. rs ++ rest) (update_one-keeps id name share p).2
      (rooms_of-update_profile id name share ps)

update_profile-IsWellFormed :
    (server id : String) (name share : Value) (ps : List Profile)
    → IsWellFormed server ps
    → IsWellFormed server (update_profile id name share ps)
unfolding update_one
update_profile-IsWellFormed server id name share ps w =
    map-IsWellFormed (update_one id name share) (λ p. (update_one-keeps id name share p).0)
      (λ p. (update_one-keeps id name share p).1) server ps w
      (subst NodupText (sym (rooms_of-update_profile id name share ps)) w.rooms_unique)
      (subst (All (λ r. room_id server r ≡ true)) (sym (rooms_of-update_profile id name share ps))
        w.rooms_valid)

has-ids :
    (id : String) (ps : List Profile) → has (map (λ (p : Profile). p.id) ps) id ≡ any (has_id id) ps
has-ids id [] = refl
has-ids id (p ∷ ps) = ground (arith, has-ids id ps)

-- A profile with no rooms and no handles, put last.
module _ (server : String) (q : Profile) (no_rooms : q.room_ids ≡ [])
    (no_handles : q.handle_ids ≡ []) where
  rooms_of-snoc : (ps : List Profile) → rooms_of (ps ++ q ∷ []) ≡ rooms_of ps
  rooms_of-snoc [] = rw no_rooms refl
  rooms_of-snoc (p ∷ ps) = ap (λ rs. p.room_ids ++ rs) (rooms_of-snoc ps)

  handles_of-snoc : (ps : List Profile) → handles_of (ps ++ q ∷ []) ≡ handles_of ps
  handles_of-snoc [] = rw no_handles refl
  handles_of-snoc (p ∷ ps) = ap (λ hs. map handle_key p.handle_ids ++ hs) (handles_of-snoc ps)

  ids-snoc :
      (ps : List Profile)
      → map (λ (p : Profile). p.id) (ps ++ q ∷ []) ≡ map (λ (p : Profile). p.id) ps ++ q.id ∷ []
  ids-snoc [] = refl
  ids-snoc (p ∷ ps) = ap (λ is. p.id ∷ is) (ids-snoc ps)

  snoc-IsWellFormed :
      (ps : List Profile)
      → IsWellFormed server ps
      → (q.id == "") ≡ false
      → any (has_id q.id) ps ≡ false
      → IsWellFormed server (ps ++ q ∷ [])
  snoc-IsWellFormed ps w full new = record {
    ids_unique = rw (ids-snoc ps) (NodupText-snoc _ q.id w.ids_unique (has-ids q.id ps ∙ new));
    ids_full = All-append (λ (p : Profile). (p.id == "") ≡ false) ps (q ∷ []) w.ids_full (full, tt);
    rooms_unique = rw (rooms_of-snoc ps) w.rooms_unique;
    rooms_valid = rw (rooms_of-snoc ps) w.rooms_valid;
    handles_unique = rw (handles_of-snoc ps) w.handles_unique;
    handles_named =
        All-append (λ (p : Profile). All (λ h. is_named h ≡ true) p.handle_ids) ps (q ∷ [])
          w.handles_named (rw no_handles tt, tt);
  }

-- Creating or updating a profile keeps the store well formed.
pub upsert_profile-IsWellFormed :
    (server : String) (store id name share : Value)
    → IsWellFormed server (upsert_profile server store id name share)
unfolding upsert_profile
upsert_profile-IsWellFormed server store id name share =
    let norm = normalize_profiles server store in
    let ready = normalize_profiles-IsWellFormed server store in
    let key = text_or_empty id in
    elim (Bool-cases (key == "")) [
      | inl empty ↦ rw empty ready
      | inr full ↦ elim (Bool-cases (any (has_id key) norm)) [
        | inl old ↦ rw (full, old) (update_profile-IsWellFormed server key name share norm ready)
        | inr new ↦
            rw (full, new)
              (snoc-IsWellFormed server (new_profile key name share) refl refl norm ready full new)
      ]
    ]

owner-update_profile :
    (id : String) (name share : Value) (ps : List Profile) (room : String)
    → owner (update_profile id name share ps) room ≡ owner ps room
unfolding update_one
owner-update_profile id name share [] room = refl
owner-update_profile id name share (p ∷ ps) room =
    let rest = map (update_one id name share) ps in
    ap₂ (λ rs i. if has rs room then some i else owner rest room)
      (update_one-keeps id name share p).2 (update_one-keeps id name share p).0
    ∙ ap (λ o. if has p.room_ids room then some p.id else o)
        (owner-update_profile id name share ps room)

any_id-update_profile :
    (j id : String) (name share : Value) (ps : List Profile)
    → any (has_id j) (update_profile id name share ps) ≡ any (has_id j) ps
unfolding update_one
any_id-update_profile j id name share [] = refl
any_id-update_profile j id name share (p ∷ ps) =
    ap₂ (λ i b. (i == j) || b) (update_one-keeps id name share p).0
      (any_id-update_profile j id name share ps)

any_id-snoc :
    (j : String) (q : Profile) (ps : List Profile)
    → any (has_id j) (ps ++ q ∷ []) ≡ (any (has_id j) ps || has_id j q)
any_id-snoc j q [] = ground arith
any_id-snoc j q (p ∷ ps) = ground (arith, any_id-snoc j q ps)

owner-snoc :
    (q : Profile) (ps : List Profile) (room : String)
    → q.room_ids ≡ []
    → owner (ps ++ q ∷ []) room ≡ owner ps room
owner-snoc q [] room none_yet = rw none_yet refl
owner-snoc q (p ∷ ps) room none_yet = rw (owner-snoc q ps room none_yet)

-- Creating or updating a profile moves no room.
pub upsert_profile-owner :
    (server : String) (store name share : Value) (id room : String)
    → owner (upsert_profile server store (str id) name share) room
      ≡ owner (normalize_profiles server store) room
unfolding upsert_profile
upsert_profile-owner server store name share id room =
    let norm = normalize_profiles server store in
    elim (Bool-cases (id == "")) [
      | inl empty ↦ rw empty refl
      | inr full ↦ elim (Bool-cases (any (has_id id) norm)) [
        | inl old ↦ rw (full, old) (owner-update_profile id name share norm room)
        | inr new ↦ rw (full, new) (owner-snoc (new_profile id name share) norm room refl)
      ]
    ]

-- After a profile was created or updated under an id that is not empty, the store has it.
pub upsert_profile-present :
    (server : String) (store name share : Value) (id : String)
    → (id == "") ≡ false
    → any (has_id id) (upsert_profile server store (str id) name share) ≡ true
unfolding upsert_profile
upsert_profile-present server store name share id full =
    let norm = normalize_profiles server store in
    elim (Bool-cases (any (has_id id) norm)) [
      | inl old ↦ rw (full, old) (any_id-update_profile id id name share norm ∙ old)
      | inr new ↦
          rw (full, new)
            (rw (any_id-snoc id (new_profile id name share) norm, new, eq_refl id) refl)
    ]
