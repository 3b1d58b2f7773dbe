-- ===== src/Crm/Manifest.antt =====
-- `validateManifest` of shared/model/crm.js.
use beepa.Prelude.{
  ℕ, String, Bool, false, not, ◌&&◌, ◌||◌, List, [], ◌∷◌, ◌++◌, all, has, keep, length, get_or,
  is_some, nat_eq, leb, ltb, lookup,
}
use beepa.Js.{
  Value, undefined, num, str, arr, whole, get, truthy, strictly_equal, is_text, every_char,
  is_space, utf16_length, cons, nil, value_has_own,
}
use beepa.Crm.Checked.{Checked, fine, ◌>>=◌, ◌>>◌, need, require}
use beepa.Crm.Canonical.{Host, canonical, bounded}
use beepa.Crm.Format.{
  text_of, keys, id, mxid, room, generation, revision, bounded_identity, hash_text, positive_safe,
  elements, is_array, string_test, text_within, validate_route,
}
use beepa.Crm.State.{Crm, lists, bindings, memberships, current, membership_key}

abbrev pub crm_schema : Value
crm_schema = num (whole 1)

abbrev pub crm_max_batch_items : ℕ
crm_max_batch_items = 50

-- A loop that may throw.
abbrev pub fold_checked {ℓ κ} :
    {A : Type ℓ} {B : Type κ} → (B → A → Checked B) → B → List A → Checked B
fold_checked step b [] = fine b
fold_checked step b (x ∷ xs) = step b x >>= λ c. fold_checked step c xs

abbrev pub child_keys : List String
child_keys =
    "child_id" ∷ "owner_mxid" ∷ "generation" ∷ "journal_epoch" ∷ "proposal_room_id" ∷ "item_ids"
    ∷ []

-- A turn of the first loop over the children; the map keeps the order of its keys.
unfoldable pub add_child : List (String × Value) → Value → Checked (List (String × Value))
unfolding keys bounded_identity mxid room text_within
add_child children child = do
  let item_ids = get child "item_ids"
  keys child child_keys []
  require (
      id (get child "child_id")
      && bounded_identity mxid (get child "owner_mxid")
      && generation (get child "generation")
      && generation (get child "journal_epoch")
      && bounded_identity room (get child "proposal_room_id"))
  require (is_array item_ids && ltb 0 (length (elements item_ids)) && all id (elements item_ids))
  require (not (is_some (lookup (text_of (get child "child_id")) children)))
  fine (children ++ ((text_of (get child "child_id"), child) ∷ []))

abbrev pub item_keys : List String
item_keys =
    "item_id" ∷ "person_id" ∷ "binding_id" ∷ "binding_revision" ∷ "membership_revision"
    ∷ "membership_operation_id" ∷ "contact_version" ∷ "owner_mxid" ∷ "generation" ∷ "child_id"
    ∷ "proposal_room_id" ∷ "route" ∷ "body" ∷ []

-- The test of a message's text.
unfoldable pub body_ok : Value → Bool
unfolding every_char is_space utf16_length
body_ok (str s) =
    not (every_char is_space s) && leb (utf16_length s) 8000 && every_char (λ c. not (nat_eq c 0)) s
body_ok _ = false

abbrev pub same_field : String → Value → Value → Bool
same_field k a b = strictly_equal (get a k) (get b k)

-- `child.item_ids.filter(x => x === item.item_id).length === 1`
abbrev pub lists_once : Value → Value → Bool
lists_once child item =
    nat_eq (length (keep (strictly_equal (get item "item_id")) (elements (get child "item_ids")))) 1

-- The recipients and the items that the loop over the items has seen.
pub record Seen : Type 0 where
  pub people : List String
  pub item_ids : List String

abbrev pub manifest_keys : List String
manifest_keys =
    "schema" ∷ "batch_id" ∷ "workspace_id" ∷ "manager_mxid" ∷ "list_id" ∷ "list_revision"
    ∷ "reviewed_at" ∷ "items" ∷ "children" ∷ "payload_hash" ∷ []

abbrev pub all_item_ids : List (String × Value) → List Value
all_item_ids [] = []
all_item_ids ((k, c) ∷ cs) = elements (get c "item_ids") ++ all_item_ids cs

-- What the loop asks of an item, its binding, its membership and its child.
abbrev pub matches_binding : Value → Value → Value → Bool
matches_binding item binding member =
    not (truthy (get member "removed"))
    && same_field "binding_id" member item
    && same_field "person_id" binding item
    && is_text (get binding "availability") "shared"

abbrev pub matches_versions : Value → Value → Value → Bool
matches_versions item binding member =
    strictly_equal (get item "membership_operation_id") (get member "operation_id")
    && same_field "contact_version" item binding

abbrev pub matches_child : Value → Value → Bool
matches_child item child =
    truthy child
    && same_field "owner_mxid" child item
    && same_field "generation" child item
    && same_field "proposal_room_id" child item
    && lists_once child item

module _ (host : Host) where
  -- A turn of the second loop over the children.
  unfoldable pub add_account : List String → (String × Value) → Checked (List String)
  unfolding canonical
  add_account accounts (k, child) = do
    account ←
        canonical host (arr (cons (get child "owner_mxid") (cons (get child "generation") nil)))
    need (not (has accounts account)) "duplicate-account-child"
    fine (accounts ++ (account ∷ []))

  -- A turn of the loop over the items.
  unfoldable pub add_item : Crm → Value → List (String × Value) → Seen → Value → Checked Seen
  unfolding keys body_ok current membership_key validate_route
  add_item state manifest children seen item = do
    let person = text_of (get item "person_id")
    let item_id = text_of (get item "item_id")
    let child = get_or (lookup (text_of (get item "child_id")) children) undefined
    keys item item_keys []
    require (
        id (get item "item_id")
        && id (get item "person_id")
        && id (get item "binding_id")
        && id (get item "child_id")
        && revision (get item "binding_revision")
        && revision (get item "membership_revision"))
    need (body_ok (get item "body")) "invalid-body"
    need (not (has seen.people person) && not (has seen.item_ids item_id)) "duplicate-recipient"
    binding ← current state bindings (text_of (get item "binding_id")) (get item "binding_revision")
    key ← membership_key (get manifest "list_id") (get item "person_id")
    member ← current state memberships key (get item "membership_revision")
    need (matches_binding item binding member) "binding-unavailable"
    need (matches_versions item binding member) "binding-unavailable"
    need (same_field "owner_mxid" binding item && same_field "generation" binding item)
        "owner-mismatch"
    validate_route (get item "route")
    need
        (value_has_own (get binding "contact") "profile_id"
          || (same_field "source" (get binding "contact") (get item "route")
              && same_field "network_id" (get binding "contact") (get item "route")))
        "route-mismatch"
    need (matches_child item child) "child-mismatch"
    need
        (not (truthy (get member "direct_request"))
          || same_field "journal_epoch" (get member "direct_request") child)
        "child-mismatch"
    fine (record { people = person ∷ seen.people; item_ids = item_id ∷ seen.item_ids })

  -- `validateManifest`, with the recipients and items that it found
  unfoldable pub manifest_items : Crm → Value → Checked Seen
  unfolding keys hash_text current add_child add_account add_item
  manifest_items state manifest = do
    let children = get manifest "children"
    let items = get manifest "items"
    keys manifest manifest_keys []
    require (
        strictly_equal (get manifest "schema") crm_schema
        && id (get manifest "batch_id")
        && is_text (get manifest "workspace_id") state.workspace_id
        && is_text (get manifest "manager_mxid") state.manager_mxid)
    require (
        id (get manifest "list_id")
        && revision (get manifest "list_revision")
        && positive_safe (get manifest "reviewed_at"))
    require (string_test hash_text (get manifest "payload_hash"))
    list ← current state lists (text_of (get manifest "list_id")) (get manifest "list_revision")
    need (not (truthy (get list "archived"))) "list-archived"
    need
        (is_array items
          && ltb 0 (length (elements items))
          && leb (length (elements items)) crm_max_batch_items)
        "batch-size"
    require (
        is_array children
        && ltb 0 (length (elements children))
        && leb (length (elements children)) (length (elements items)))
    by_id ← fold_checked add_child [] (elements children)
    _ ← fold_checked add_account [] by_id
    seen ←
        fold_checked (add_item state manifest by_id) (record { people = []; item_ids = [] })
          (elements items)
    need
        (nat_eq (length (all_item_ids by_id)) (length seen.item_ids)
          && all (string_test (has seen.item_ids)) (all_item_ids by_id))
        "child-mismatch"
    fine seen

  -- `validateManifest`
  unfoldable pub validate_manifest : Crm → Value → Checked (Unit {0})
  unfolding manifest_items bounded
  validate_manifest state manifest = do
    _ ← manifest_items state manifest
    _ ← bounded host manifest
    fine tt
