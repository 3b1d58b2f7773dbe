-- ===== src/Crm/Batches/Child.antt =====
-- `createCRMChildEnvelope` and `crmMessageKey` of shared/model/crm.js.
use beepa.Prelude.{
  String, Bool, ◌&&◌, Option, List, [], ◌∷◌, ◌++◌, keep, any, all, find, length, nat_eq,
  if◌then◌else◌, get_or,
}
use beepa.Js.{
  Value, undefined, str, num, arr, obj, whole, of_items, of_entries, get, truthy, strictly_equal,
  value_has_own,
}
use beepa.Crm.Checked.{Checked, fine, ◌>>=◌, ◌>>◌, need, each}
use beepa.Crm.Canonical.{Host, canonical, copy}
use beepa.Crm.Format.{text_of, generation, elements, is_plain, event_text, string_test, with_field}
use beepa.Crm.Manifest.{crm_schema}
use beepa.Crm.Verified.{digest, verify_reviewed_batch}

-- The child and its items, in order.
abbrev pub child_of : Value → Value → Option Value
child_of manifest child_id =
    find (λ c. strictly_equal (get c "child_id") child_id) (elements (get manifest "children"))

abbrev pub child_items : Value → Value → List Value
child_items manifest child_id =
    keep (λ i. strictly_equal (get i "child_id") child_id) (elements (get manifest "items"))

abbrev pub child_payload : Value → Value → Value → List Value → List (String × Value)
child_payload manifest child child_id items =
    ("schema", crm_schema)
    ∷ ("owner_mxid", get child "owner_mxid")
    ∷ ("generation", get child "generation")
    ∷ ("journal_epoch", get child "journal_epoch")
    ∷ ("batch_id", get manifest "batch_id")
    ∷ ("child_id", child_id)
    ∷ ("workspace_id", get manifest "workspace_id")
    ∷ ("payload_hash", get manifest "payload_hash")
    ∷ ("reviewed_at", get manifest "reviewed_at")
    ∷ ("parent_item_count", num (whole (length (elements (get manifest "items")))))
    ∷ ("items", arr (of_items items))
    ∷ []

-- An item that may have a reference to its event; the item ids of a reviewed batch are texts.
unfoldable pub with_reference : Value → Value → Checked Value
unfolding event_text with_field
with_reference events item =
    let event = get events (text_of (get item "item_id")) in
    if value_has_own events (text_of (get item "item_id"))
    then (need (string_test event_text event) "invalid-proposal-event"
        >> fine (with_field item "proposal_event_id" event))
    else fine item

unfoldable pub with_references : Value → List Value → Checked (List Value)
unfolding with_reference
with_references events [] = fine []
with_references events (i ∷ items) =
    with_reference events i >>= λ j. with_references events items >>= λ js. fine (j ∷ js)

-- What `createCRMChildEnvelope` makes before it looks at a reference: the child, its items and their hash.
pub record Reviewed : Type 0 where
  pub child : Value
  pub items : List Value
  pub child_hash : String

module _ (host : Host) (hash : String → String) where
  unfoldable pub reviewed_child : Value → Value → Bool → Checked Reviewed
  unfolding verify_reviewed_batch copy digest
  reviewed_child manifest child_id plain_events = do
    need (verify_reviewed_batch host hash manifest) "invalid-manifest-hash"
    let child = get_or (child_of manifest child_id) undefined
    let items = child_items manifest child_id
    need (truthy child && generation (get child "journal_epoch") && plain_events) "invalid-child"
    each (λ i. copy host i >>= λ _. fine tt) items
    need
        (nat_eq (length items) (length (elements (get child "item_ids")))
          && all (λ i. any (strictly_equal (get i "item_id")) (elements (get child "item_ids")))
              items)
        "child-mismatch"
    child_hash ← digest host hash (obj (of_entries (child_payload manifest child child_id items)))
    fine (record { child = child; items = items; child_hash = child_hash })

  -- `createCRMChildEnvelope`
  unfoldable pub create_crm_child_envelope : Value → Value → Value → Checked Value
  unfolding reviewed_child with_references
  create_crm_child_envelope manifest child_id events = do
    reviewed ← reviewed_child manifest child_id (is_plain events)
    items ← with_references events reviewed.items
    fine (
        obj (
          of_entries (
            child_payload manifest reviewed.child child_id items
            ++ (("phase", str "submit") ∷ ("child_hash", str reviewed.child_hash) ∷ []))))

-- `crmMessageKey`
unfoldable pub crm_message_key : Host → Value → Checked String
unfolding canonical
crm_message_key host record_ = canonical host (
    arr (
      of_items (
        get record_ "owner_mxid"
        ∷ get record_ "generation"
        ∷ get record_ "conversation_id"
        ∷ get record_ "source_id"
        ∷ [])))
