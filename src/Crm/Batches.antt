-- ===== src/Crm/Batches.antt =====
-- `createReviewedBatch` of shared/model/crm.js.
pub mod Made
pub mod Child
pub mod Envelopes
mod Tests
use beepa.Prelude.{
  ℕ, String, Bool, true, false, not, ◌&&◌, ◌||◌, ◌-◌, Option, none, some, List, [], ◌∷◌, ◌++◌, map,
  keep, any, all, find, length, is_some, nat_eq, leb, ltb, if◌then◌else◌, lookup, insert, get_or,
}
use beepa.Js.{
  Value, undefined, str, num, arr, obj, whole, of_items, of_entries, get, truthy, is_nullish,
  is_text, strictly_equal, value_has_own,
}
use beepa.Crm.Checked.{Checked, fine, refused, ◌>>=◌, ◌>>◌, need, each}
use beepa.Crm.Canonical.{Host, canonical, copy, utf8_length, crm_max_bytes}
use beepa.Crm.Format.{
  id, text_of, keys, generation, elements, is_array, is_plain, event_text, string_test, spread,
  with_field,
}
use beepa.Crm.State.{Crm, lists, bindings, memberships, entity_at, entity, membership_key}
use beepa.Crm.Manifest.{crm_schema, crm_max_batch_items, fold_checked, validate_manifest}
use beepa.Crm.Members.{without_field}
use beepa.Crm.Verified.{digest, account_child_id, verify_reviewed_batch}

-- What `createReviewedBatch` is given besides the state.
pub record Wanted : Type 0 where
  pub batch_id : Value
  pub list_id : Value
  pub items : Value
  pub reviewed_at : Value

-- An element of `groups`.
pub record Group : Type 0 where
  pub child_id : String
  pub owner_mxid : Value
  pub generation : Value
  pub journal_epoch : Value
  pub proposal_room_id : Value
  pub item_ids : List Value

abbrev pub group_value : Group → Value
group_value g = obj (
    of_entries (
      ("child_id", str g.child_id)
      ∷ ("owner_mxid", g.owner_mxid)
      ∷ ("generation", g.generation)
      ∷ ("journal_epoch", g.journal_epoch)
      ∷ ("proposal_room_id", g.proposal_room_id)
      ∷ ("item_ids", arr (of_items g.item_ids))
      ∷ []))

-- `groups` and `frozenItems`
pub record Draft : Type 0 where
  pub groups : List (String × Group)
  pub frozen_items : List Value

abbrev pub group_values : List (String × Group) → List Value
group_values groups = map (λ (e : String × Group). group_value e.1) groups

-- `a ?? b`
abbrev pub or_else_value : Value → Value → Value
or_else_value a b = if is_nullish a then b else a

-- The binding of a membership and the epoch of an item.
abbrev pub binding_of : Crm → Value → Value
binding_of state member =
    if truthy member then entity_at state bindings (get member "binding_id") else undefined

abbrev pub epoch_of : Value → Value → Value
epoch_of member input =
    or_else_value (get (get member "direct_request") "journal_epoch") (get input "journal_epoch")

-- The item with what the binding and the membership say.
abbrev pub frozen_item : Value → Value → Value → String → Value
frozen_item input binding member child_id = spread (without_field input "journal_epoch") (
    obj (
      of_entries (
        ("binding_id", get binding "binding_id")
        ∷ ("binding_revision", get binding "revision")
        ∷ ("membership_revision", get member "revision")
        ∷ ("membership_operation_id", get member "operation_id")
        ∷ ("contact_version", get binding "contact_version")
        ∷ ("owner_mxid", get binding "owner_mxid")
        ∷ ("generation", get binding "generation")
        ∷ ("child_id", str child_id)
        ∷ [])))

-- `groups.get(child_id)`, set before if it was missing, with the item's id pushed.
unfoldable pub group_with :
    List (String × Group) → String → Value → Value → Value → Checked (List (String × Group))
group_with groups child_id binding journal_epoch input =
    let new : Group = record {
      child_id = child_id;
      owner_mxid = get binding "owner_mxid";
      generation = get binding "generation";
      journal_epoch = journal_epoch;
      proposal_room_id = get input "proposal_room_id";
      item_ids = [];
    } in
    let child : Group = get_or (lookup child_id groups) new in
    need
      (strictly_equal child.proposal_room_id (get input "proposal_room_id")
        && strictly_equal child.journal_epoch journal_epoch)
      "child-mismatch"
    >> fine (
        insert child_id (record child { item_ids = child.item_ids ++ (get input "item_id" ∷ []) })
          groups)

abbrev pub payload_entries : Crm → Wanted → Value → Draft → List (String × Value)
payload_entries state wanted list draft =
    ("schema", crm_schema)
    ∷ ("batch_id", wanted.batch_id)
    ∷ ("workspace_id", str state.workspace_id)
    ∷ ("manager_mxid", str state.manager_mxid)
    ∷ ("list_id", wanted.list_id)
    ∷ ("list_revision", get list "revision")
    ∷ ("reviewed_at", wanted.reviewed_at)
    ∷ ("items", arr (of_items draft.frozen_items))
    ∷ ("children", arr (of_items (group_values draft.groups)))
    ∷ []

module _ (host : Host) (hash : String → String) where
  -- A turn of the loop over the items.
  unfoldable pub add_input : Crm → Wanted → Draft → Value → Checked Draft
  unfolding keys membership_key account_child_id group_with copy spread without_field
  add_input state wanted draft input = do
    keys input ("item_id" ∷ "person_id" ∷ "proposal_room_id" ∷ "route" ∷ "body" ∷ [])
        ("journal_epoch" ∷ [])
    key ← membership_key wanted.list_id (get input "person_id")
    let member = entity state memberships key
    let binding = binding_of state member
    need
        (truthy binding
          && not (truthy (get member "removed"))
          && is_text (get binding "availability") "shared")
        "binding-unavailable"
    child_id ←
        account_child_id host hash wanted.batch_id (get binding "owner_mxid")
          (get binding "generation")
    let journal_epoch = epoch_of member input
    need (generation journal_epoch) "missing-journal-epoch"
    need
        (strictly_equal (get input "journal_epoch") undefined
          || strictly_equal (get input "journal_epoch") journal_epoch)
        "child-mismatch"
    groups ← group_with draft.groups child_id binding journal_epoch input
    reviewed ← copy host input
    fine (record {
      groups = groups;
      frozen_items = draft.frozen_items ++ (frozen_item reviewed binding member child_id ∷ []);
    })

  -- From the hash of the payload on.
  unfoldable pub sealed : Crm → List (String × Value) → Checked Value
  unfolding digest validate_manifest canonical utf8_length
  sealed state payload = do
    payload_hash ← digest host hash (obj (of_entries payload))
    let manifest = obj (of_entries (payload ++ (("payload_hash", str payload_hash) ∷ [])))
    validate_manifest host state manifest
    text ← canonical host manifest
    need (leb (utf8_length text) (crm_max_bytes - 1000)) "payload-too-large"
    fine manifest

  -- `createReviewedBatch`
  unfoldable pub create_reviewed_batch : Crm → Wanted → Checked Value
  unfolding add_input sealed
  create_reviewed_batch state wanted = do
    need
        (id wanted.batch_id
          && id wanted.list_id
          && is_array wanted.items
          && ltb 0 (length (elements wanted.items))
          && leb (length (elements wanted.items)) crm_max_batch_items)
        "batch-size"
    let list = entity_at state lists wanted.list_id
    need (truthy list && not (truthy (get list "archived"))) "list-archived"
    draft ←
        fold_checked (add_input state wanted) (record { groups = []; frozen_items = [] })
          (elements wanted.items)
    sealed state (payload_entries state wanted list draft)
