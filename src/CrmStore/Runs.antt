-- ===== src/CrmStore/Runs.antt =====
-- What holds of the world after code of apps/master/crm-store.js, whether it returns or throws.
use beepa.Prelude.{String, ◌≡◌, refl}
use beepa.Crm.Checked.{Checked, fine, refused}
use beepa.CrmStore.Tasks.{Task, resume}

abbrev pub Holds :
    {World A : Type 0} → (World → Type 0) → (World → A → Type 0) → World × Checked A → Type 0
Holds thrown returned (w, fine a) = returned w a
Holds thrown returned (w, refused message) = thrown w

-- `thrown` holds of the world if the code throws, and `returned` of the world and the result if not.
pub record Runs {World A : Type 0} (thrown : World → Type 0) (returned : World → A → Type 0)
    (result : World × Checked A) : Type 0 where
  pub holds : Holds thrown returned result

module _ {World A : Type 0} {thrown : World → Type 0} {returned : World → A → Type 0} where
  pub Runs-done : (w : World) (a : A) → returned w a → Runs thrown returned (w, fine a)
  Runs-done w a h = record { holds = h }

  pub Runs-throw :
      (w : World) (message : String) → thrown w → Runs thrown returned (w, refused message)
  Runs-throw w message h = record { holds = h }

  -- What holds of a known result.
  pub Runs-fine :
      (result : World × Checked A) (w : World) (a : A)
      → result ≡ (w, fine a)
      → Runs thrown returned result
      → returned w a
  Runs-fine result w a h run = (rw (h) at run).holds

module _ {World A B : Type 0} {thrown : World → Type 0} {between : World → A → Type 0}
    {returned : World → B → Type 0} where
  pub Runs-bind :
      (m : World × Checked A) (f : A → Task World B)
      → Runs thrown between m
      → ((w : World) (a : A) → between w a → Runs thrown returned (f a w))
      → Runs thrown returned (resume m f)
  unfolding resume
  Runs-bind (w, fine a) f h k = k w a h.holds
  Runs-bind (w, refused message) f h k = record { holds = h.holds }

module _ {World A : Type 0} {thrown : World → Type 0} {returned : World → A → Type 0} where
  -- After an error that is not thrown yet.
  pub Runs-checked :
      (w : World) (result : Checked A)
      → thrown w
      → ((a : A) → result ≡ fine a → returned w a)
      → Runs thrown returned (w, result)
  Runs-checked w (fine a) t h = record { holds = h a refl }
  Runs-checked w (refused message) t h = record { holds = t }

module _ {World A : Type 0} {thrown : World → Type 0} {returned weaker : World → A → Type 0} where
  pub Runs-weaken :
      (result : World × Checked A)
      → Runs thrown returned result
      → ((w : World) (a : A) → returned w a → weaker w a)
      → Runs thrown weaker result
  Runs-weaken (w, fine a) h k = record { holds = k w a h.holds }
  Runs-weaken (w, refused message) h k = record { holds = h.holds }
