-- ===== src/Crm/Verified.antt =====
-- The digest of a batch and `applyVerifiedCRMOperation` of shared/model/crm.js.
use Prim.Native.String
use beepa.Prelude.{
  String, Bool, true, false, not, ◌&&◌, ◌||◌, List, [], ◌∷◌, is_some, if◌then◌else◌, lookup,
}
use beepa.Js.{Value, undefined, null, str, arr, of_items, get, is_text}
use beepa.Crm.Checked.{Checked, fine, refused, ◌>>=◌, ◌>>◌, need, require}
use beepa.Crm.Canonical.{Host, canonical, bounded}
use beepa.Crm.Format.{id, is_array, elements, text_of}
use beepa.Crm.State.{Crm, is_inherited}
use beepa.Crm.Members.{without_field}
use beepa.Crm.Apply.{Applied, apply_crm_operation, rejected}
pub mod Integrity

-- `hash` is SHA-256 of a text, as 64 hexadecimal digits.
module _ (host : Host) (hash : String → String) where
  -- `digest(value)`
  unfoldable pub digest : Value → Checked String
  unfolding canonical
  digest v = canonical host v >>= λ text. fine (hash text)

  -- `accountChildId`
  unfoldable pub account_child_id : Value → Value → Value → Checked String
  unfolding digest
  account_child_id batch owner enrollment =
      digest (arr (of_items (batch ∷ owner ∷ enrollment ∷ []))) >>= λ d.
      fine (String.◌++◌ "child-" d)

  -- The loop of `verifyReviewedBatch`.
  unfoldable pub verify_children : Value → List Value → Checked Bool
  unfolding account_child_id
  verify_children batch [] = fine true
  verify_children batch (child ∷ children) =
      let rest = verify_children batch children in
      account_child_id batch (get child "owner_mxid") (get child "generation") >>= λ child_id.
      if is_text (get child "child_id") child_id then rest else fine false

  -- The `try` of `verifyReviewedBatch`; what is no list of children throws.
  unfoldable pub verify : Value → Checked Bool
  unfolding bounded digest verify_children without_field
  verify manifest = do
    _ ← bounded host manifest
    found ← digest (without_field manifest "payload_hash")
    (if is_text (get manifest "payload_hash") found
        then (need (is_array (get manifest "children")) "not iterable"
            >> verify_children (get manifest "batch_id") (elements (get manifest "children")))
        else fine false)

  abbrev pub caught : Checked Bool → Bool
  caught (fine b) = b
  caught (refused code) = false

  -- `verifyReviewedBatch`
  unfoldable pub verify_reviewed_batch : Value → Bool
  unfolding verify
  verify_reviewed_batch manifest = caught (verify manifest)

  -- `id(operation?.op_id) && state.operations[operation.op_id]`
  abbrev pub is_known : Crm → Value → Bool
  is_known state operation =
      id (get operation "op_id")
      && (is_some (lookup (text_of (get operation "op_id")) state.operations)
          || is_inherited (text_of (get operation "op_id")) state.operations)

  -- `applyVerifiedCRMOperation`
  unfoldable pub apply_verified_crm_operation : Crm → Value → Applied
  unfolding apply_crm_operation verify_reviewed_batch
  apply_verified_crm_operation state operation =
      if not (is_known state operation)
        && is_text (get operation "type") "batch.review"
        && not (verify_reviewed_batch (get operation "payload"))
      then record { state = state; outcome = rejected "invalid-manifest-hash" }
      else apply_crm_operation host state operation
