-- ===== src/Crm/Ensures.antt =====
-- What holds of the result of code that may throw.
use beepa.Prelude.{String, Bool, true, false, ◌≡◌, refl, arith}
use mathlib.Core.Path.{subst}
use beepa.Crm.Checked.{fine-fine, Checked, fine, refused, ◌>>=◌, ◌>>◌, need}

-- A predicate on the result, if the code does not throw.
pub record Ensures {ℓ κ} {A : Type ℓ} (P : A → Type κ) (m : Checked A) : Type (ℓ ⊔ κ) where
  pub holds : (a : A) → m ≡ fine a → P a

module _ {ℓ κ μ} {A : Type ℓ} {B : Type κ} {P : B → Type μ} where
  pub Ensures-bind :
      (m : Checked A) (f : A → Checked B)
      → ((a : A) → m ≡ fine a → Ensures P (f a))
      → Ensures P (m >>= f)
  unfolding ◌>>=◌
  Ensures-bind (fine a) f h = h a refl
  Ensures-bind (refused code) f h = record { holds = λ a e. ground (arith, e) }

  pub Ensures-after :
      (m : Checked A) (f : A → Checked B) → ((a : A) → Ensures P (f a)) → Ensures P (m >>= f)
  Ensures-after m f h = Ensures-bind m f (λ a _. h a)

module _ {κ μ} {B : Type κ} {P : B → Type μ} where
  pub Ensures-fine : (b : B) → P b → Ensures P (fine b)
  Ensures-fine b h = record { holds = λ a e. subst P (fine-fine b a e) h }

  pub Ensures-need :
      (test : Bool) (code : String) (k : Checked B)
      → (test ≡ true → Ensures P k)
      → Ensures P (need test code >> k)
  unfolding need ◌>>◌
  Ensures-need true code k h = h refl
  Ensures-need false code k h = record { holds = λ a e. ground (arith, e) }

  pub Ensures-then : (m : Checked (Unit {0})) (k : Checked B) → Ensures P k → Ensures P (m >> k)
  unfolding ◌>>◌
  Ensures-then (fine a) k h = h
  Ensures-then (refused code) k h = record { holds = λ a e. ground (arith, e) }
