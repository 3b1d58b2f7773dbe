-- ===== src/Crm/Members.antt =====
-- The operations on memberships and batches of `applyCRMOperation` of shared/model/crm.js.
use beepa.Prelude.{
  ℕ, suc, String, Bool, true, false, not, ◌&&◌, List, [], ◌∷◌, nat_eq, ◌==◌, if◌then◌else◌, remove,
}
use beepa.Js.{
  Value, str, bool, obj, of_entries, get, truthy, strictly_equal, is_text, value_has_own,
}
use beepa.Crm.Checked.{Checked, fine, ◌>>=◌, ◌>>◌, need, require}
use beepa.Crm.Canonical.{Host, canonical, copy}
use beepa.Crm.Format.{
  keys, id, room, generation, bounded_identity, text_within, spread, with_field, contact_identity,
  own_entries,
}
use beepa.Crm.State.{
  Crm, persons, bindings, lists, memberships, batches, batch_cancellations, set_entity, fresh,
  entity, entity_at, own_entity, membership_key, some_checked, all_values,
}
use beepa.Crm.Manifest.{validate_manifest, crm_schema, same_field}
use beepa.Crm.People.{revision_value}

abbrev pub request_keys : List String
request_keys =
    "schema" ∷ "command_id" ∷ "owner_mxid" ∷ "generation" ∷ "journal_epoch" ∷ "binding_id"
    ∷ "contact" ∷ "contact_version" ∷ "membership_operation_id" ∷ "proposal_room_id" ∷ []

-- `delete value[k]`
unfoldable pub without_field : Value → String → Value
without_field v k = obj (of_entries (remove k (own_entries v)))

module _ (host : Host) (state : Crm) (entity_id : String) (base : ℕ) (op_id : String)
    (p : Value) where
  -- Whether the entity id is that of a membership under another key.
  abbrev pub id_is_taken : String → Value → Checked Bool
  id_is_taken key m =
      if is_text (get m "membership_id") entity_id
      then (membership_key (get m "list_id") (get m "person_id") >>= λ k. fine (not (k == key)))
      else fine false

  -- What both operations on a membership require, with the membership's key.
  unfoldable pub membership_slot : Checked String
  unfolding membership_key
  membership_slot = do
    let list = entity_at state lists (get p "list_id")
    require (
        id (get p "list_id")
        && id (get p "person_id")
        && own_entity state persons (get p "person_id"))
    need (truthy list && not (truthy (get list "archived"))) "list-archived"
    key ← membership_key (get p "list_id") (get p "person_id")
    let old = entity state memberships key
    need
        (if truthy old
          then is_text (get old "membership_id") entity_id
            && strictly_equal (get old "revision") (revision_value base)
          else nat_eq base 0)
        "revision-conflict"
    taken ← some_checked (id_is_taken key) (all_values state memberships)
    need (not taken) "membership-id-collision"
    fine key

  -- What a direct request must say.
  unfoldable pub check_request : Value → Value → Checked (Unit {0})
  unfolding keys contact_identity canonical text_within bounded_identity room
  check_request request binding = do
    keys request request_keys []
    contact_identity (get request "contact")
    requested ← canonical host (get request "contact")
    bound ← canonical host (get binding "contact")
    need
        (strictly_equal (get request "schema") crm_schema
          && is_text (get request "command_id") op_id
          && is_text (get request "membership_operation_id") op_id
          && same_field "owner_mxid" request binding
          && same_field "generation" request binding
          && generation (get request "journal_epoch")
          && same_field "binding_id" request binding
          && same_field "contact_version" request binding
          && requested == bound
          && not (value_has_own (get request "contact") "profile_id")
          && bounded_identity room (get request "proposal_room_id"))
        "direct-request-mismatch"

  -- `{ ...old, ...copy(p), membership_id, revision, removed, operation_id }`
  abbrev pub membership_value : Value → Value → Bool → Value
  membership_value old q removed =
      with_field
        (with_field
          (with_field (with_field (spread old q) "membership_id" (str entity_id)) "revision"
            (revision_value (suc base)))
          "removed" (bool removed))
        "operation_id" (str op_id)

  -- `case 'member.set'`
  unfoldable pub member_set : Checked Crm
  unfolding keys membership_slot check_request copy spread with_field without_field set_entity
  member_set = do
    let binding =
        if id (get p "binding_id")
        then entity_at state bindings (get p "binding_id")
        else bool false
    keys p ("list_id" ∷ "person_id" ∷ []) ("binding_id" ∷ "direct_request" ∷ [])
    key ← membership_slot
    need
        (truthy binding
          && same_field "person_id" binding p
          && is_text (get binding "availability") "shared")
        "binding-unavailable"
    (if value_has_own p "direct_request"
        then check_request (get p "direct_request") binding
        else fine tt)
    q ← copy host p
    let member = membership_value (entity state memberships key) q false
    fine (
        set_entity state memberships key (
          if value_has_own p "direct_request"
          then member
          else without_field member "direct_request"))

  -- `case 'member.remove'`
  unfoldable pub member_remove : Checked Crm
  unfolding keys membership_slot copy spread with_field set_entity
  member_remove = do
    keys p ("list_id" ∷ "person_id" ∷ []) []
    key ← membership_slot
    let old = entity state memberships key
    need (truthy old && not (truthy (get old "removed"))) "not-found"
    q ← copy host p
    fine (set_entity state memberships key (membership_value old q true))

  -- `case 'batch.review'`
  unfoldable pub batch_review : Checked Crm
  unfolding fresh validate_manifest copy set_entity
  batch_review = do
    fresh state batches entity_id base
    require (is_text (get p "batch_id") entity_id)
    validate_manifest host state p
    q ← copy host p
    fine (set_entity state batches entity_id q)

  -- `case 'batch.cancel_requested'`
  unfoldable pub batch_cancel_requested : Checked Crm
  unfolding keys set_entity
  batch_cancel_requested = do
    let batch = entity state batches entity_id
    keys p ("payload_hash" ∷ []) []
    need (nat_eq base 0 && truthy batch && same_field "payload_hash" p batch)
        "batch-cancel-mismatch"
    fine (
        if truthy (entity state batch_cancellations entity_id)
        then state
        else set_entity state batch_cancellations entity_id (
            obj (
              of_entries (
                ("batch_id", str entity_id)
                ∷ ("payload_hash", get p "payload_hash")
                ∷ ("operation_id", str op_id)
                ∷ []))))
