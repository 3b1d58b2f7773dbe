-- ===== src/Matrix/Actions/Agreement.antt =====
-- When two continuations of an action make no difference.
use beepa.Prelude.{Bool, true, false, ◌≡◌, refl, if◌then◌else◌}
use beepa.Matrix.Client.{Outcome, ok, failed}
use beepa.Matrix.Actions.{Action, resume, guard}

-- Two continuations that agree on the result, if there is one, are the same.
pub resume_agree :
    {W A B : Type 0} (x : W × Outcome A) (k k' : A → Action W B)
    → ((w : W) (a : A) → x ≡ (w, ok a) → k a w ≡ k' a w)
    → resume x k ≡ resume x k'
resume_agree (w, ok a) k k' h = h w a refl
resume_agree (w, failed status) k k' h = refl

pub guard_agree :
    {W B : Type 0} (test : Bool) (w : W) (k k' : Action W B)
    → (test ≡ true → k w ≡ k' w)
    → resume (guard test w) (λ _. k) ≡ resume (guard test w) (λ _. k')
guard_agree true w k k' h = h refl
guard_agree false w k k' h = refl

pub else_agree :
    {A : Type 0} (test : Bool) (x : A) {y y' : A}
    → y ≡ y'
    → (if test then x else y) ≡ (if test then x else y')
else_agree true x h = refl
else_agree false x h = h
