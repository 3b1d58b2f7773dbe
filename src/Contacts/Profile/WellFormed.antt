-- ===== src/Contacts/Profile/WellFormed.antt =====
-- The invariant of a normalized store, and `normalizeProfiles` of shared/model/contacts.js.
use beepa.Prelude.{
  String, Bool, true, false, List, [], ◌∷◌, ◌++◌, ◌≡◌, refl, sym, arith, eq_iff, has, All, map, not,
  ◌&&◌, ◌||◌, ◌==◌, Bool-cases, inl, inr,
}
use mathlib.Core.Path.{subst}
use beepa.Js.{Value, get}
use beepa.Matrix.Client.{room_id}
use beepa.Contacts.Profile.{
  Profile, handle_key, text_or_empty, array_or_empty, keep_rooms, handle_of, is_named, keep_handles,
  profile_of, normalize_from, normalize_profiles,
}

-- No text stands twice, and none of `xs` stands in `claimed`.
abbrev pub NodupText : List String → Type 0
NodupText [] = Unit
NodupText (x ∷ xs) = (has xs x ≡ false) × NodupText xs

abbrev pub Avoids : List String → List String → Type 0
Avoids claimed xs = All (λ x. has claimed x ≡ false) xs

abbrev pub rooms_of : List Profile → List String
rooms_of [] = []
rooms_of (p ∷ ps) = p.room_ids ++ rooms_of ps

abbrev pub handles_of : List Profile → List String
handles_of [] = []
handles_of (p ∷ ps) = map handle_key p.handle_ids ++ handles_of ps

-- Every room belongs to at most one profile, and so does every handle key; ids are unique and not
-- empty, room ids have their shape, and handles have both parts.
pub record IsWellFormed (server : String) (ps : List Profile) : Type 0 where
  pub ids_unique : NodupText (map (λ (p : Profile). p.id) ps)
  pub ids_full : All (λ (p : Profile). (p.id == "") ≡ false) ps
  pub rooms_unique : NodupText (rooms_of ps)
  pub rooms_valid : All (λ r. room_id server r ≡ true) (rooms_of ps)
  pub handles_unique : NodupText (handles_of ps)
  pub handles_named : All (λ (p : Profile). All (λ h. is_named h ≡ true) p.handle_ids) ps

pub has-append : (x : String) (xs ys : List String) → has (xs ++ ys) x ≡ (has xs x || has ys x)
has-append x [] ys = refl
has-append x (y ∷ xs) ys = ground (arith, has-append x xs ys)

pub Avoids-cons :
    (c : String) (claimed xs : List String)
    → Avoids (c ∷ claimed) xs
    → Avoids claimed xs × (has xs c ≡ false)
Avoids-cons c claimed [] h = (tt, refl)
Avoids-cons c claimed (x ∷ xs) h = ground (arith, Avoids-cons c claimed xs, eq_iff c x, eq_iff x c)

-- What both inner loops keep: texts that are new, each once.
abbrev pub Kept : List String → List String → Type 0
Kept claimed xs = Avoids claimed xs × NodupText xs

Kept-cons :
    (c : String) (claimed xs : List String)
    → has claimed c ≡ false
    → Kept (c ∷ claimed) xs
    → Kept claimed (c ∷ xs)
Kept-cons c claimed xs fresh (h, n) =
    let (apart, absent) = Avoids-cons c claimed xs h in ((fresh, apart), (absent, n))

keep_rooms-Kept :
    (server : String) (claimed : List String) (vs : List Value)
    → Kept claimed (keep_rooms server claimed vs)
unfolding keep_rooms
keep_rooms-Kept server claimed [] = (tt, tt)
keep_rooms-Kept server claimed (v ∷ vs) =
    elim (Bool-cases (room_id server (text_or_empty v) && not (has claimed (text_or_empty v)))) [
      | inl kept ↦
          rw (kept, keep_rooms)
            (Kept-cons (text_or_empty v) claimed _ (ground arith)
              (keep_rooms-Kept server (text_or_empty v ∷ claimed) vs))
      | inr dropped ↦ rw (dropped, keep_rooms) (keep_rooms-Kept server claimed vs)
    ]

keep_rooms-valid :
    (server : String) (claimed : List String) (vs : List Value)
    → All (λ r. room_id server r ≡ true) (keep_rooms server claimed vs)
unfolding keep_rooms
keep_rooms-valid server claimed [] = tt
keep_rooms-valid server claimed (v ∷ vs) = ground (
  arith,
  keep_rooms-valid server (text_or_empty v ∷ claimed) vs,
  keep_rooms-valid server claimed vs,
)

keep_handles-Kept :
    (claimed : List String) (vs : List Value)
    → Kept claimed (map handle_key (keep_handles claimed vs))
unfolding keep_handles
keep_handles-Kept claimed [] = (tt, tt)
keep_handles-Kept claimed (v ∷ vs) =
    elim (Bool-cases (is_named (handle_of v) && not (has claimed (handle_key (handle_of v))))) [
      | inl kept ↦
          rw (kept, keep_handles)
            (Kept-cons (handle_key (handle_of v)) claimed _ (ground arith)
              (keep_handles-Kept (handle_key (handle_of v) ∷ claimed) vs))
      | inr dropped ↦ rw (dropped, keep_handles) (keep_handles-Kept claimed vs)
    ]

keep_handles-named :
    (claimed : List String) (vs : List Value)
    → All (λ h. is_named h ≡ true) (keep_handles claimed vs)
unfolding keep_handles
keep_handles-named claimed [] = tt
keep_handles-named claimed (v ∷ vs) = ground (
  arith,
  keep_handles-named (handle_key (handle_of v) ∷ claimed) vs,
  keep_handles-named claimed vs,
)

pub Kept-append :
    (claimed xs ys : List String)
    → Kept claimed xs
    → Kept (xs ++ claimed) ys
    → Kept claimed (xs ++ ys)
Kept-append claimed [] ys h k = k
Kept-append claimed (x ∷ xs) ys ((fresh, a), (absent, n)) (b, m) =
    let (b', apart) = Avoids-cons x (xs ++ claimed) ys b in
    let (c, u) = Kept-append claimed xs ys (a, n) (b', m) in
    ((fresh, c), (rw (has-append x xs ys, absent, apart) refl, u))

pub All-append {ℓ κ} :
    {A : Type ℓ} (Good : A → Type κ) (front back : List A)
    → All Good front
    → All Good back
    → All Good (front ++ back)
All-append Good [] back h rest = rest
All-append Good (x ∷ front) back (good, h) rest = (good, All-append Good front back h rest)

-- A store that keeps clear of what was claimed before it.
abbrev pub KeptStore : String → List String → List String → List String → List Profile → Type 0
KeptStore server ids rooms handles ps =
    Kept ids (map (λ (p : Profile). p.id) ps)
    × All (λ (p : Profile). (p.id == "") ≡ false) ps
    × Kept rooms (rooms_of ps)
    × All (λ r. room_id server r ≡ true) (rooms_of ps)
    × Kept handles (handles_of ps)
    × All (λ (p : Profile). All (λ h. is_named h ≡ true) p.handle_ids) ps

KeptStore-cons :
    (server : String) (ids rooms handles : List String) (v : Value) (ps : List Profile)
    → (not (text_or_empty (get v "id") == "") && not (has ids (text_or_empty (get v "id")))) ≡ true
    → KeptStore server
        ((profile_of server rooms handles v).id ∷ ids)
        ((profile_of server rooms handles v).room_ids ++ rooms)
        (map handle_key (profile_of server rooms handles v).handle_ids ++ handles)
        ps
    → KeptStore server ids rooms handles (profile_of server rooms handles v ∷ ps)
unfolding profile_of
KeptStore-cons server ids rooms handles v ps ok (a, b, c, d, e, f) = (
  Kept-cons (text_or_empty (get v "id")) ids _ (ground arith) a,
  (ground arith, b),
  Kept-append rooms _ _ (keep_rooms-Kept server rooms (array_or_empty (get v "roomIds"))) c,
  All-append (λ r. room_id server r ≡ true) _ _
      (keep_rooms-valid server rooms (array_or_empty (get v "roomIds"))) d,
  Kept-append handles _ _ (keep_handles-Kept handles (array_or_empty (get v "handleIds"))) e,
  (keep_handles-named handles (array_or_empty (get v "handleIds")), f),
)

-- The test on the id that lets a stored profile into the result.
abbrev pub is_new_id : List String → Value → Bool
is_new_id ids v =
    not (text_or_empty (get v "id") == "") && not (has ids (text_or_empty (get v "id")))

pub normalize_from_kept :
    (server : String) (ids rooms handles : List String) (v : Value) (vs : List Value)
    → is_new_id ids v ≡ true
    → normalize_from server ids rooms handles (v ∷ vs)
      ≡ profile_of server rooms handles v
        ∷ normalize_from server
            ((profile_of server rooms handles v).id ∷ ids)
            ((profile_of server rooms handles v).room_ids ++ rooms)
            (map handle_key (profile_of server rooms handles v).handle_ids ++ handles)
            vs
unfolding normalize_from
normalize_from_kept server ids rooms handles v vs h = ground arith

normalize_from_dropped :
    (server : String) (ids rooms handles : List String) (v : Value) (vs : List Value)
    → is_new_id ids v ≡ false
    → normalize_from server ids rooms handles (v ∷ vs) ≡ normalize_from server ids rooms handles vs
unfolding normalize_from
normalize_from_dropped server ids rooms handles v vs h = ground arith

normalize_from-KeptStore :
    (server : String) (ids rooms handles : List String) (vs : List Value)
    → KeptStore server ids rooms handles (normalize_from server ids rooms handles vs)
unfolding normalize_from
normalize_from-KeptStore server ids rooms handles [] = ((tt, tt), tt, (tt, tt), tt, (tt, tt), tt)
normalize_from-KeptStore server ids rooms handles (v ∷ vs) = elim (Bool-cases (is_new_id ids v)) [
  | inl kept ↦
      let q = profile_of server rooms handles v in
      subst (KeptStore server ids rooms handles)
        (sym (normalize_from_kept server ids rooms handles v vs kept))
        (KeptStore-cons server ids rooms handles v _ kept (
          normalize_from-KeptStore server (q.id ∷ ids) (q.room_ids ++ rooms)
            (map handle_key q.handle_ids ++ handles) vs))
  | inr dropped ↦
      subst (KeptStore server ids rooms handles)
        (sym (normalize_from_dropped server ids rooms handles v vs dropped))
        (normalize_from-KeptStore server ids rooms handles vs)
]

-- Whatever was stored, the normalized store is well formed.
pub normalize_profiles-IsWellFormed :
    (server : String) (stored : Value) → IsWellFormed server (normalize_profiles server stored)
unfolding normalize_profiles
normalize_profiles-IsWellFormed server stored =
    let (a, b, c, d, e, f) =
      normalize_from-KeptStore server [] [] [] (array_or_empty (get stored "profiles")) in
    record {
      ids_unique = a.1;
      ids_full = b;
      rooms_unique = c.1;
      rooms_valid = d;
      handles_unique = e.1;
      handles_named = f;
    }
