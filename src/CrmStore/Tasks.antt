-- ===== src/CrmStore/Tasks.antt =====
-- The variables that `createCRMStore` of apps/master/crm-store.js closes over, what it is given by its
-- caller, and the await and throw of its code.
use beepa.Prelude.{String, Bool, true, false, not, ◌&&◌, Option, none, List, []}
use beepa.Js.{Value}
use beepa.Matrix.Client.{Method}
use beepa.Crm.Checked.{Checked, fine, refused, need}
use beepa.Crm.State.{Crm}

-- The closure's variables but `refreshing` and `appending`; the sets have the newest element first.
pub record Store : Type 0 where
  pub room_id : Option String
  pub state : Option Crm
  pub cursor : Option String
  pub ready : Bool
  pub closed : Bool
  pub seen_events : List String
  pub applied_events : List String

abbrev pub new_store : Store
new_store = record {
  room_id = none;
  state = none;
  cursor = none;
  ready = false;
  closed = false;
  seen_events = [];
  applied_events = [];
}

-- Code that awaits and throws errors with a text.
abbrev pub Task : Type 0 → Type 0 → Type 0
Task World A = World → World × Checked A

module _ {World A B : Type 0} where
  unfoldable pub resume : World × Checked A → (A → Task World B) → World × Checked B
  resume (w, fine a) f = f a w
  resume (w, refused message) f = (w, refused message)

  infixl 5 ◌>>=◌
  abbrev pub ◌>>=◌ : Task World A → (A → Task World B) → Task World B
  ◌>>=◌ m f w = resume (m w) f

module _ {World B : Type 0} where
  infixl 5 ◌>>◌
  abbrev pub ◌>>◌ : Task World (Unit {0}) → Task World B → Task World B
  ◌>>◌ m k w = resume (m w) (λ _. k)

module _ {World : Type 0} where
  -- A value, or an error, of code that awaits nothing.
  abbrev pub done : {A : Type 0} → Checked A → Task World A
  done result w = (w, result)

  abbrev pub gets : {A : Type 0} → (World → A) → Task World A
  gets f w = (w, fine (f w))

  abbrev pub change : (World → World) → Task World (Unit {0})
  change f w = (f w, fine tt)

-- What the code does not define itself. Other code runs while one of the calls is awaited, so that each
-- may change the world, and `close` may be called. `hashing` is the wait for a digest; `refreshing` is
-- what the read that is under way comes to, when there is one.
pub record Outside : Type 1 where
  pub World : Type 0
  pub store : World → Store
  pub set_store : Store → World → World
  pub is_current : World → Bool
  pub bootstrap : Task World Value
  pub api : Method → String → Option Value → Task World Value
  pub hashing : World → World
  pub on_change : World → World
  pub refreshing : World → Option (World × Checked (Unit {0}))
  pub encode : String → String

module _ (outside : Outside) where
  open outside use {World, store, set_store, is_current, on_change}

  -- `active()`
  abbrev pub is_active : World → Bool
  is_active w = not (store w).closed && is_current w

  unfoldable pub active : Task World (Unit {0})
  unfolding need
  active w = (w, need (is_active w) "CRM session changed")

  -- `publish()`
  unfoldable pub publish : Task World (Unit {0})
  unfolding active
  publish = active >> change on_change

  -- An assignment to some of the variables.
  abbrev pub update : (Store → Store) → Task World (Unit {0})
  update f w = (set_store (f (store w)) w, fine tt)

-- `ready = b`
abbrev pub with_ready : Bool → Store → Store
with_ready b s = record s { ready = b }

-- `close()`
abbrev pub close_store : Store → Store
close_store s = record new_store { closed = true }
