-- ===== src/Crm/State.antt =====
-- The state of shared/model/crm.js, and how it reads and writes an entity.
use Prim.Native.String
use beepa.Prelude.{
  ℕ, String, Bool, true, false, not, ◌&&◌, Option, none, some, List, [], ◌∷◌, map, has, is_some,
  nat_eq, if◌then◌else◌, lookup, insert,
}
use beepa.Js.{Value, undefined, str, obj, end, get, truthy, strictly_equal}
use beepa.Crm.Checked.{Checked, fine, refused, ◌>>=◌, ◌>>◌, need}
use beepa.Crm.Format.{id, mxid, room, bounded_identity, text_of}

-- The dictionaries of the state that hold entities.
pub data Collection : Type 0 where
  persons : Collection
  bindings : Collection
  lists : Collection
  memberships : Collection
  batches : Collection
  batch_cancellations : Collection

abbrev pub collection_number : Collection → ℕ
collection_number persons = 0
collection_number bindings = 1
collection_number lists = 2
collection_number memberships = 3
collection_number batches = 4
collection_number batch_cancellations = 5

abbrev pub same_collection : Collection → Collection → Bool
same_collection a b = nat_eq (collection_number a) (collection_number b)

pub record Outcome : Type 0 where
  pub accepted : Bool
  pub code : String
  pub duplicate : Bool

pub record Remembered : Type 0 where
  pub serialized : String
  pub outcome : Outcome

pub record Control : Type 0 where
  pub revision : ℕ
  pub settings : Value

pub record Crm : Type 0 where
  pub workspace_id : String
  pub manager_mxid : String
  pub control : Option Control
  pub entities : Collection → List (String × Value)
  pub operations : List (String × Remembered)

-- `createCRMState`
unfoldable pub create_crm_state : Value → Value → Checked Crm
unfolding bounded_identity mxid room
create_crm_state workspace manager = do
  need (bounded_identity room workspace && bounded_identity mxid manager) "invalid-workspace"
  fine (record {
    workspace_id = text_of workspace;
    manager_mxid = text_of manager;
    control = none;
    entities = λ _. [];
    operations = [];
  })

-- The names that an object has from `Object.prototype` and `ID` lets through.
abbrev pub inherited_names : List String
inherited_names =
    "toString" ∷ "toLocaleString" ∷ "valueOf" ∷ "hasOwnProperty" ∷ "isPrototypeOf"
    ∷ "propertyIsEnumerable" ∷ []

-- A dictionary has no prototype until the first `{ ...dictionary, [k]: v }`, which makes an object.
abbrev pub is_inherited {ℓ} : {A : Type ℓ} → String → List (String × A) → Bool
is_inherited k [] = false
is_inherited k (e ∷ m) = has inherited_names k

-- `dictionary[k]`; an inherited function has none of the fields that the code reads.
unfoldable pub entry : String → List (String × Value) → Value
entry k m = elim (lookup k m) [
  | some v ↦ v
  | none ↦ if is_inherited k m then obj end else undefined
]

-- `state[collection][entityId]`
abbrev pub entity : Crm → Collection → String → Value
entity state c k = entry k (state.entities c)

-- `state[collection][x]`, where `x` may be no text; the callers require `id(x)`.
abbrev pub entity_at : Crm → Collection → Value → Value
entity_at state c (str k) = entity state c k
entity_at state c _ = undefined

-- `own(state[collection], x)`
abbrev pub own_entity : Crm → Collection → Value → Bool
own_entity state c (str k) = is_some (lookup k (state.entities c))
own_entity state c _ = false

-- `setEntity`
unfoldable pub set_entity : Crm → Collection → String → Value → Crm
set_entity state c k v = record {
  workspace_id = state.workspace_id;
  manager_mxid = state.manager_mxid;
  control = state.control;
  entities = λ d. if same_collection c d then insert k v (state.entities d) else state.entities d;
  operations = state.operations;
}

-- `setEntity(next, 'operations', op_id, ...)`
unfoldable pub remember : Crm → String → Remembered → Crm
remember state op_id r = record {
  workspace_id = state.workspace_id;
  manager_mxid = state.manager_mxid;
  control = state.control;
  entities = state.entities;
  operations = insert op_id r state.operations;
}

-- `membershipKey`
unfoldable pub membership_key : Value → Value → Checked String
membership_key (str l) (str p) = do
  need (id (str l) && id (str p)) "invalid-id"
  fine (String.◌++◌ l (String.◌++◌ "/" p))
membership_key _ _ = refused "invalid-id"

-- `current`
unfoldable pub current : Crm → Collection → String → Value → Checked Value
unfolding entry
current state c k base = do
  let e = entity state c k
  need (truthy e) "not-found"
  need (strictly_equal (get e "revision") base) "revision-conflict"
  fine e

-- `fresh`
unfoldable pub fresh : Crm → Collection → String → ℕ → Checked (Unit {0})
fresh state c k base =
    need (not (is_some (lookup k (state.entities c))) && nat_eq base 0) "revision-conflict"

-- A test of each element that may throw, until one holds.
abbrev pub some_checked {ℓ} : {A : Type ℓ} → (A → Checked Bool) → List A → Checked Bool
some_checked test [] = fine false
some_checked test (x ∷ xs) =
    let rest = some_checked test xs in test x >>= λ holds. if holds then fine true else rest

-- The values of a collection.
abbrev pub all_values : Crm → Collection → List Value
all_values state c = map (λ (e : String × Value). e.1) (state.entities c)
