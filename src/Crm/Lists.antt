-- ===== src/Crm/Lists.antt =====
-- The operations on lists of `applyCRMOperation` of shared/model/crm.js.
use beepa.Prelude.{
  ℕ, suc, String, Bool, true, false, not, ◌&&◌, ◌||◌, List, [], ◌∷◌, map, all, keep, ◌==◌,
  if◌then◌else◌,
}
use beepa.Js.{Value, str, bool, arr, obj, of_entries, of_items, get, truthy, is_text, value_has_own}
use beepa.Crm.Checked.{Checked, fine, ◌>>=◌, ◌>>◌, need, require, each}
use beepa.Crm.Canonical.{Host, canonical, copy, sort_by_text}
use beepa.Crm.Format.{
  keys, id, text_within, integer_between, is_boolean, is_null, one_of, elements, is_array, values,
  spread, with_field,
}
use beepa.Crm.Monitoring.{monitoring_routing, validate_monitoring_options, are_channels}
use beepa.Crm.State.{Crm, lists, memberships, set_entity, current, fresh, all_values}
use beepa.Crm.Format.{text_of}
use beepa.Crm.People.{revision_value}

abbrev pub monitoring_options : List String
monitoring_options =
    "schedule" ∷ "repeat_ms" ∷ "activity_enabled" ∷ "reminders_enabled" ∷ "presentation" ∷ "routing"
    ∷ []

abbrev pub monitoring_keys : List String
monitoring_keys =
    "enabled" ∷ "all_messages" ∷ "channels" ∷ "waiting_them_ms" ∷ "waiting_us_ms" ∷ "preview" ∷ []

abbrev pub wait_ok : Value → Bool
wait_ok v = is_null v || integer_between 60000 31536000000 v

-- The operations of a list's active memberships, sorted.
abbrev pub active_operations : Crm → String → List Value
active_operations state list_id =
    map (λ (e : String × Value). e.1)
      (sort_by_text (
        map (λ m. (text_of (get m "operation_id"), get m "operation_id"))
          (keep (λ m. is_text (get m "list_id") list_id && not (truthy (get m "removed")))
            (all_values state memberships))))

module _ (host : Host) (state : Crm) (entity_id : String) (base : ℕ) (p : Value) where
  -- `{ ...old, ...change, revision: base + 1 }` at the list
  abbrev pub edit_list : Value → String → Value → Crm
  edit_list old k v =
      set_entity state lists entity_id
        (with_field (with_field old k v) "revision" (revision_value (suc base)))

  abbrev pub current_list : Checked Value
  current_list = current state lists entity_id (revision_value base)

  abbrev pub purpose_ok : Bool
  purpose_ok =
      not (truthy (get p "purpose")) || one_of ("monitoring" ∷ "outreach" ∷ []) (get p "purpose")

  -- `case 'list.create'`
  unfoldable pub list_create : Checked Crm
  unfolding keys text_within fresh with_field set_entity
  list_create = do
    let created = obj (
        of_entries (
          ("list_id", str entity_id)
          ∷ ("name", get p "name")
          ∷ ("archived", bool false)
          ∷ ("revision", revision_value 1)
          ∷ ("creator_mxid", str state.manager_mxid)
          ∷ []))
    keys p ("name" ∷ []) ("purpose" ∷ [])
    require (text_within 160 (get p "name") && purpose_ok)
    fresh state lists entity_id base
    fine (
        set_entity state lists entity_id (
          if truthy (get p "purpose")
          then with_field created "purpose" (get p "purpose")
          else created))

  -- `case 'list.monitoring'`
  unfoldable pub list_monitoring : Checked Crm
  unfolding keys validate_monitoring_options current monitoring_routing spread copy with_field
      set_entity
  list_monitoring = do
    keys p monitoring_keys monitoring_options
    validate_monitoring_options host p
    old ← current_list
    require (
        not (truthy (get old "archived"))
        && is_boolean (get p "enabled")
        && is_boolean (get p "all_messages")
        && is_boolean (get p "preview"))
    require (are_channels (get p "channels"))
    _ ← monitoring_routing p
    each (λ w. monitoring_routing (spread p w) >>= λ _. fine tt) (values (get old "watches"))
    each (λ k. require (wait_ok (get p k))) ("waiting_them_ms" ∷ "waiting_us_ms" ∷ [])
    q ← copy host p
    fine (edit_list old "monitoring" q)

  -- `case 'list.rename'`
  unfoldable pub list_rename : Checked Crm
  unfolding keys current text_within with_field set_entity
  list_rename = do
    keys p ("name" ∷ []) []
    old ← current_list
    need (not (truthy (get old "archived"))) "list-archived"
    require (text_within 160 (get p "name"))
    fine (edit_list old "name" (get p "name"))

  abbrev pub check_members : Checked (Unit {0})
  check_members = do
    require (
        is_array (get p "membership_operations")
        && all id (elements (get p "membership_operations")))
    given ← canonical host (get p "membership_operations")
    active ← canonical host (arr (of_items (active_operations state entity_id)))
    need (given == active) "membership-conflict"

  -- `case 'list.archive'`
  unfoldable pub list_archive : Checked Crm
  unfolding keys current canonical sort_by_text with_field set_entity
  list_archive = do
    keys p [] ("membership_operations" ∷ [])
    old ← current_list
    need (not (truthy (get old "archived"))) "list-archived"
    (if value_has_own p "membership_operations" then check_members else fine tt)
    fine (edit_list old "archived" (bool true))

  -- `case 'list.restore'`
  unfoldable pub list_restore : Checked Crm
  unfolding keys current with_field set_entity
  list_restore = do
    keys p [] []
    old ← current_list
    need (truthy (get old "archived")) "list-not-archived"
    fine (edit_list old "archived" (bool false))
