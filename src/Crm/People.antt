-- ===== src/Crm/People.antt =====
-- The operations on the settings, persons and bindings of `applyCRMOperation` of shared/model/crm.js.
use beepa.Prelude.{
  ℕ, suc, String, Bool, false, not, ◌&&◌, ◌||◌, Option, none, some, List, [], ◌∷◌, all, length,
  nat_eq, leb, ◌==◌, if◌then◌else◌,
}
use beepa.Js.{Value, str, num, obj, of_entries, whole, get, strictly_equal, is_text}
use beepa.Crm.Checked.{Checked, fine, ◌>>=◌, ◌>>◌, need, require}
use beepa.Crm.Canonical.{Host, canonical, copy}
use beepa.Crm.Format.{
  keys, id, mxid, text_within, generation, bounded_identity, integer_between, is_boolean, is_null,
  one_of, all_different, elements, is_array, spread, with_field, contact_identity,
}
use beepa.Crm.State.{
  Crm, Control, persons, bindings, set_entity, current, fresh, own_entity, some_checked, all_values,
}

abbrev pub revision_value : ℕ → Value
revision_value n = num (whole n)

-- `state.control?.revision || 0`
abbrev pub control_revision : Option Control → ℕ
control_revision none = 0
control_revision (some c) = c.revision

abbrev pub settings_keys : List String
settings_keys =
    "allow_model_context" ∷ "sending_mode" ∷ "allowed_accounts" ∷ "notifications_enabled"
    ∷ "retention_days" ∷ []

unfoldable pub set_control : Crm → Control → Crm
set_control state c = record {
  workspace_id = state.workspace_id;
  manager_mxid = state.manager_mxid;
  control = some c;
  entities = state.entities;
  operations = state.operations;
}

abbrev pub accounts_ok : Value → Bool
accounts_ok v =
    is_null v
    || (is_array v
        && leb (length (elements v)) 100
        && all_different (elements v)
        && all (bounded_identity mxid) (elements v))

module _ (host : Host) (state : Crm) (entity_id : String) (base : ℕ) (p : Value) where
  -- `case 'control.settings'`
  unfoldable pub control_settings : Checked Crm
  unfolding keys set_control copy bounded_identity mxid
  control_settings = do
    keys p settings_keys []
    need (entity_id == "control" && nat_eq base (control_revision state.control))
        "revision-conflict"
    require (is_boolean (get p "allow_model_context") && is_boolean (get p "notifications_enabled"))
    require (one_of ("read_only" ∷ "draft_confirm" ∷ []) (get p "sending_mode"))
    require (accounts_ok (get p "allowed_accounts"))
    require (integer_between 1 365 (get p "retention_days"))
    q ← copy host p
    fine (set_control state (record { revision = suc base; settings = q }))

  -- `case 'person.create'`
  unfoldable pub person_create : Checked Crm
  unfolding keys text_within fresh set_entity
  person_create = do
    keys p ("label" ∷ []) []
    require (text_within 160 (get p "label"))
    fresh state persons entity_id base
    fine (
        set_entity state persons entity_id (
          obj (
            of_entries (
              ("person_id", str entity_id)
              ∷ ("label", get p "label")
              ∷ ("revision", revision_value 1)
              ∷ []))))

  -- Whether a binding already links the contact to the account.
  abbrev pub links_contact : Value → Checked Bool
  links_contact b =
      if strictly_equal (get b "owner_mxid") (get p "owner_mxid")
        && strictly_equal (get b "generation") (get p "generation")
      then (canonical host (get b "contact") >>= λ x.
          canonical host (get p "contact") >>= λ y. fine (x == y))
      else fine false

  -- `case 'binding.create'`
  unfoldable pub binding_create : Checked Crm
  unfolding keys text_within bounded_identity mxid contact_identity fresh canonical copy spread
      with_field set_entity
  binding_create = do
    keys p ("person_id" ∷ "owner_mxid" ∷ "generation" ∷ "contact" ∷ "contact_version" ∷ []) []
    require (
        id (get p "person_id")
        && own_entity state persons (get p "person_id")
        && bounded_identity mxid (get p "owner_mxid")
        && generation (get p "generation")
        && text_within 256 (get p "contact_version"))
    contact_identity (get p "contact")
    fresh state bindings entity_id base
    linked ← some_checked links_contact (all_values state bindings)
    need (not linked) "binding-already-linked"
    q ← copy host p
    fine (
        set_entity state bindings entity_id (
          with_field
            (with_field (with_field q "binding_id" (str entity_id)) "availability" (str "shared"))
            "revision" (revision_value 1)))

  abbrev pub availabilities : List String
  availabilities = "shared" ∷ "unavailable" ∷ "tombstone" ∷ []

  -- `case 'binding.update'`
  unfoldable pub binding_update : Checked Crm
  unfolding keys text_within current copy spread with_field set_entity
  binding_update = do
    keys p ("contact_version" ∷ "availability" ∷ []) []
    require
        (text_within 256 (get p "contact_version") && one_of availabilities (get p "availability"))
    old ← current state bindings entity_id (revision_value base)
    need
        (not (is_text (get old "availability") "tombstone")
          || (is_text (get p "availability") "shared"
              && not (strictly_equal (get p "contact_version") (get old "contact_version"))))
        "binding-tombstoned"
    q ← copy host p
    fine (
        set_entity state bindings entity_id
          (with_field (spread old q) "revision" (revision_value (suc base))))
