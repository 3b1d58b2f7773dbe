-- ===== src/Matrix/Actions/Inversion.antt =====
-- What an action that returned must have done.
use beepa.Prelude.{ℕ, Bool, true, false, Option, ◌≡◌, refl, sym, ap, arith, if◌then◌else◌}
use beepa.Matrix.Client.{Outcome, ok, failed}
use beepa.Matrix.Actions.{Action, resume, guard}

pub resume-ok :
    {W A B : Type 0} (x : W × Outcome A) (k : A → Action W B) (w' : W) (b : B)
    → resume x k ≡ (w', ok b)
    → (w : W) × (a : A) × (x ≡ (w, ok a)) × (k a w ≡ (w', ok b))
resume-ok (w, ok a) k w' b h = (w, a, refl, h)
resume-ok (w, failed status) k w' b h = ground (arith, h)

pub guard-ok :
    {W B : Type 0} (test : Bool) (w : W) (k : Action W B) (w' : W) (b : B)
    → resume (guard test w) (λ _. k) ≡ (w', ok b)
    → (test ≡ true) × (k w ≡ (w', ok b))
guard-ok true w k w' b h = (refl, h)
guard-ok false w k w' b h = ground (arith, h)

-- What an action that returned says of a world and a value.
pub pure-ok :
    {W B : Type 0} (w : W) (a : B) (w' : W) (b : B)
    → ◌≡◌ {A = W × Outcome B} (w, ok a) (w', ok b)
    → (w' ≡ w) × (b ≡ a)
pure-ok w a w' b h = (ap (λ x. x.0) (sym h), ground (arith, h))

pub fail_never :
    {W B : Type 0} {C : Type 0} (w : W) (status : Option ℕ) (w' : W) (b : B)
    → ◌≡◌ {A = W × Outcome B} (w, failed status) (w', ok b)
    → C
fail_never w status w' b h = ground (arith, h)

pub if-ok :
    {W B : Type 0} (test : Bool) (w : W) (status : Option ℕ) (x : W × Outcome B) (w' : W) (b : B)
    → (if test then (w, failed status) else x) ≡ (w', ok b)
    → (test ≡ false) × (x ≡ (w', ok b))
if-ok true w status x w' b h = ground (arith, h)
if-ok false w status x w' b h = (refl, h)
