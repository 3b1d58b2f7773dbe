-- ===== src/Matrix/Actions.antt =====
-- Asynchronous code as a function on the world: an await is a step of it, and a throw ends it.
pub mod Inversion
pub mod Agreement
use beepa.Prelude.{Bool, Option, none, if◌then◌else◌}
use beepa.Matrix.Client.{Outcome, ok, failed}

abbrev pub Action : Type 0 → Type 0 → Type 0
Action W A = W → W × Outcome A

abbrev pub resume : {W A B : Type 0} → W × Outcome A → (A → Action W B) → W × Outcome B
resume (w, ok a) k = k a w
resume (w, failed status) k = (w, failed status)

infixl 5 ◌>>=◌ ◌>>◌
abbrev pub ◌>>=◌ : {W A B : Type 0} → Action W A → (A → Action W B) → Action W B
◌>>=◌ m k w = resume (m w) k

abbrev pub ◌>>◌ : {W A B : Type 0} → Action W A → Action W B → Action W B
◌>>◌ m n = m >>= λ _. n

abbrev pub pure : {W A : Type 0} → A → Action W A
pure a w = (w, ok a)

-- A thrown error without a status.
abbrev pub fail : {W A : Type 0} → Action W A
fail w = (w, failed none)

-- `if (!test) fail(…)`
abbrev pub guard : {W : Type 0} → Bool → Action W (Unit {0})
guard test w = if test then (w, ok tt) else (w, failed none)

abbrev pub gets : {W A : Type 0} → (W → A) → Action W A
gets f w = (w, ok (f w))
