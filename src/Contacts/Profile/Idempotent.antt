-- ===== src/Contacts/Profile/Idempotent.antt =====
-- `normalizeProfiles` of shared/model/contacts.js on stores that are well formed.
use beepa.Prelude.{
  String, true, false, List, [], ◌∷◌, ◌++◌, ◌≡◌, refl, ap, ◌∙◌, arith, eq_iff, has, All, map,
}
use beepa.Js.{Value, str, items-of_items}
use beepa.Matrix.Client.{room_id}
use beepa.Contacts.Profile.{
  Handle, Profile, ShareState, share, share_token, norm_share, handle_key, keep_rooms, is_named,
  keep_handles, profile_of, normalize_from, normalize_profiles, handle_value, profile_value,
  store_value,
}
use beepa.Contacts.Profile.WellFormed.{
  Avoids, rooms_of, handles_of, IsWellFormed, Kept, KeptStore, normalize_profiles-IsWellFormed,
  normalize_from_kept, has-append,
}

pub cons-Avoids :
    (c : String) (claimed xs : List String)
    → Avoids claimed xs
    → has xs c ≡ false
    → Avoids (c ∷ claimed) xs
cons-Avoids c claimed [] h n = tt
cons-Avoids c claimed (x ∷ xs) h n =
    ground (arith, cons-Avoids c claimed xs, eq_iff c x, eq_iff x c)

cons-Kept :
    (c : String) (claimed xs : List String)
    → Kept claimed (c ∷ xs)
    → (has claimed c ≡ false) × Kept (c ∷ claimed) xs
cons-Kept c claimed xs ((fresh, a), (absent, n)) = (fresh, (cons-Avoids c claimed xs a absent, n))

pub has-append-false :
    (x : String) (xs ys : List String)
    → has (xs ++ ys) x ≡ false
    → (has xs x ≡ false) × (has ys x ≡ false)
has-append-false x xs ys h = ground (arith, has-append x xs ys)

pub append-Kept :
    (claimed xs ys : List String)
    → Kept claimed (xs ++ ys)
    → Kept claimed xs × Kept (xs ++ claimed) ys
append-Kept claimed [] ys h = ((tt, tt), h)
append-Kept claimed (x ∷ xs) ys ((fresh, a), (absent, n)) =
    let ((b, m), (c, u)) = append-Kept claimed xs ys (a, n) in
    let (out, apart) = has-append-false x xs ys absent in
    (((fresh, b), (out, m)), (cons-Avoids x (xs ++ claimed) ys c apart, u))

pub append-All {ℓ κ} :
    {A : Type ℓ} (P : A → Type κ) (xs ys : List A) → All P (xs ++ ys) → All P xs × All P ys
append-All P [] ys h = (tt, h)
append-All P (x ∷ xs) ys (p, h) = let (a, b) = append-All P xs ys h in ((p, a), b)

keep_rooms_id :
    (server : String) (claimed xs : List String)
    → Kept claimed xs
    → All (λ r. room_id server r ≡ true) xs
    → keep_rooms server claimed (map str xs) ≡ xs
unfolding keep_rooms
keep_rooms_id server claimed [] h v = refl
keep_rooms_id server claimed (x ∷ xs) h (valid, v) =
    let (fresh, k) = cons-Kept x claimed xs h in
    ground (arith, keep_rooms_id server (x ∷ claimed) xs k v)

keep_handles_id :
    (claimed : List String) (hs : List Handle)
    → Kept claimed (map handle_key hs)
    → All (λ h. is_named h ≡ true) hs
    → keep_handles claimed (map handle_value hs) ≡ hs
unfolding keep_handles
keep_handles_id claimed [] k v = refl
keep_handles_id claimed (h ∷ hs) k (named, v) =
    let (fresh, k') = cons-Kept (handle_key h) claimed (map handle_key hs) k in
    ground (arith, keep_handles_id (handle_key h ∷ claimed) hs k' v)

norm_share-share_token : (s : ShareState) → norm_share (str (share_token s)) ≡ s
unfolding norm_share
norm_share-share_token share = refl
norm_share-share_token _ = refl

profile_of-profile_value :
    (server : String) (rooms handles : List String) (p : Profile)
    → Kept rooms p.room_ids
    → All (λ r. room_id server r ≡ true) p.room_ids
    → Kept handles (map handle_key p.handle_ids)
    → All (λ h. is_named h ≡ true) p.handle_ids
    → profile_of server rooms handles (profile_value p) ≡ p
unfolding profile_of
profile_of-profile_value server rooms handles p r v h n =
    rw
      (
        items-of_items (map str p.room_ids),
        keep_rooms_id server rooms p.room_ids r v,
        items-of_items (map handle_value p.handle_ids),
        keep_handles_id handles p.handle_ids h n,
        norm_share-share_token p.share,
      )
      refl

normalize_from_id :
    (server : String) (ids rooms handles : List String) (ps : List Profile)
    → KeptStore server ids rooms handles ps
    → normalize_from server ids rooms handles (map profile_value ps) ≡ ps
unfolding normalize_from
normalize_from_id server ids rooms handles [] k = refl
normalize_from_id server ids rooms handles (p ∷ ps) (a, (full, b), c, d, e, (named, f)) =
    let (new, a') = cons-Kept p.id ids (map (λ (q : Profile). q.id) ps) a in
    let (r, c') = append-Kept rooms p.room_ids (rooms_of ps) c in
    let (v, d') = append-All (λ x. room_id server x ≡ true) p.room_ids (rooms_of ps) d in
    let (h, e') = append-Kept handles (map handle_key p.handle_ids) (handles_of ps) e in
    let same = profile_of-profile_value server rooms handles p r v h named in
    let rest =
      normalize_from_id server (p.id ∷ ids) (p.room_ids ++ rooms)
        (map handle_key p.handle_ids ++ handles) ps (a', b, c', d', e', f) in
    normalize_from_kept server ids rooms handles (profile_value p) (map profile_value ps)
      (ground arith)
    ∙ ap
        (λ (q : Profile).
          q
          ∷ normalize_from server (q.id ∷ ids) (q.room_ids ++ rooms)
              (map handle_key q.handle_ids ++ handles) (map profile_value ps))
        same
    ∙ ap (λ qs. p ∷ qs) rest

pub Avoids-nil : (xs : List String) → Avoids [] xs
Avoids-nil [] = tt
Avoids-nil (x ∷ xs) = (refl, Avoids-nil xs)

-- A well-formed store, written as a value and normalized, is the same store.
pub normalize_profiles-store_value :
    (server : String) (ps : List Profile)
    → IsWellFormed server ps
    → normalize_profiles server (store_value ps) ≡ ps
unfolding normalize_profiles
normalize_profiles-store_value server ps w = rw (items-of_items (map profile_value ps)) (
    normalize_from_id server [] [] [] ps (
      (Avoids-nil _, w.ids_unique),
      w.ids_full,
      (Avoids-nil _, w.rooms_unique),
      w.rooms_valid,
      (Avoids-nil _, w.handles_unique),
      w.handles_named,
    ))

-- Normalizing what was normalized before, as every helper of the module does, changes nothing.
pub normalize_profiles_idempotent :
    (server : String) (stored : Value)
    → normalize_profiles server (store_value (normalize_profiles server stored))
      ≡ normalize_profiles server stored
normalize_profiles_idempotent server stored =
    normalize_profiles-store_value server (normalize_profiles server stored)
      (normalize_profiles-IsWellFormed server stored)
