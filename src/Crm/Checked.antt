-- ===== src/Crm/Checked.antt =====
-- Code that throws an error with a code, as `requireValue` of shared/model/crm.js does.
use beepa.Prelude.{String, Bool, true, false, List, [], ◌∷◌, ◌≡◌, refl, arith, if◌then◌else◌}

pub data Checked {ℓ} (A : Type ℓ) : Type ℓ where
  fine : A → Checked A
  refused : String → Checked A

infixl 5 ◌>>=◌ ◌>>◌
unfoldable pub ◌>>=◌ {ℓ κ} : {A : Type ℓ} {B : Type κ} → Checked A → (A → Checked B) → Checked B
fine a >>= f = f a
refused code >>= f = refused code

unfoldable pub ◌>>◌ {ℓ} : {B : Type ℓ} → Checked (Unit {0}) → Checked B → Checked B
unfolding ◌>>=◌
m >> k = m >>= λ _. k

-- `requireValue(test, code)`, and `requireValue(test)`.
unfoldable pub need : Bool → String → Checked (Unit {0})
need test code = if test then fine tt else refused code

abbrev pub require : Bool → Checked (Unit {0})
require test = need test "invalid-payload"

-- A check for each element, in order.
abbrev pub each {ℓ} : {A : Type ℓ} → (A → Checked (Unit {0})) → List A → Checked (Unit {0})
each check [] = fine tt
each check (x ∷ xs) = check x >> each check xs

-- What a check that went through must have done.
pub bind-fine {ℓ κ} :
    {A : Type ℓ} {B : Type κ} (m : Checked A) (f : A → Checked B) (b : B)
    → (m >>= f) ≡ fine b
    → (a : A) × (m ≡ fine a) × (f a ≡ fine b)
unfolding ◌>>=◌
bind-fine (fine a) f b h = (a, refl, h)
bind-fine (refused code) f b h = ground (arith, h)

pub need-fine {ℓ} :
    {B : Type ℓ} (test : Bool) (code : String) (k : Checked B) (b : B)
    → (need test code >> k) ≡ fine b
    → (test ≡ true) × (k ≡ fine b)
unfolding need ◌>>◌
need-fine true code k b h = (refl, h)
need-fine false code k b h = ground (arith, h)

pub fine-fine {ℓ} : {A : Type ℓ} (a b : A) → ◌≡◌ {A = Checked A} (fine a) (fine b) → a ≡ b
fine-fine a b h = ground (arith, h)
