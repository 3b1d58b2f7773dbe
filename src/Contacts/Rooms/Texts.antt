-- ===== src/Contacts/Rooms/Texts.antt =====
-- Lists of texts without one text, as `filter(r => r !== roomId)` leaves them.
use beepa.Prelude.{
  String, Bool, true, false, List, [], ◌∷◌, ◌++◌, ◌≡◌, refl, arith, eq_iff, has, All, keep, not,
  ◌==◌, if◌then◌else◌,
}
use beepa.Contacts.Profile.WellFormed.{NodupText}

abbrev pub without : String → List String → List String
without r xs = keep (λ y. not (y == r)) xs

pub has-without :
    (x r : String) (xs : List String) → has (without r xs) x ≡ (if r == x then false else has xs x)
has-without x r [] = ground arith
has-without x r (y ∷ ys) = ground (arith, has-without x r ys, eq_iff y r, eq_iff y x, eq_iff r x)

pub without-append :
    (r : String) (xs ys : List String) → without r (xs ++ ys) ≡ without r xs ++ without r ys
without-append r [] ys = refl
without-append r (x ∷ xs) ys = ground (arith, without-append r xs ys)

pub without-NodupText : (r : String) (xs : List String) → NodupText xs → NodupText (without r xs)
without-NodupText r [] h = tt
without-NodupText r (x ∷ xs) (a, h) = ground (arith, without-NodupText r xs h, has-without x r xs)

pub without-All {κ} :
    (P : String → Type κ) (r : String) (xs : List String) → All P xs → All P (without r xs)
without-All P r [] h = tt
without-All P r (x ∷ xs) (p, h) = put (not (x == r)) (without-All P r xs h)
  where
    put : (b : Bool) → All P (without r xs) → All P (if b then x ∷ without r xs else without r xs)
    put true rest = (p, rest)
    put false rest = rest
