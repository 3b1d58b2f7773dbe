-- ===== src/Crm/Batches/Tests.antt =====
-- Runs of `createReviewedBatch` and `createCRMChildEnvelope` of shared/model/crm.js.
use beepa.Prelude.{String, true, [], ◌∷◌, ◌≡◌, refl}
use beepa.Js.{Value, str, num, whole, arr, of_items, get}
use beepa.Crm.Checked.{Checked, fine, refused, ◌>>=◌, ◌>>◌, need}
use beepa.Crm.Format.{id_text, text_within}
use beepa.Crm.Manifest.{validate_manifest}
use beepa.Crm.Verified.{verify_reviewed_batch}
use beepa.Crm.Apply.{apply_crm_operation}
use beepa.Crm.Tests.{host, hash, object, with_member, route, manifest}
use beepa.Crm.Batches.{Wanted, create_reviewed_batch}
use beepa.Crm.Batches.Child.{create_crm_child_envelope}
use beepa.Crm.Batches.Made
use beepa.Crm.Batches.Envelopes
use beepa.Crm.Batches.Envelopes.{IsChildHash}

abbrev wanted : Wanted
wanted = record {
  batch_id = str "t1";
  list_id = str "l1";
  items = arr (
      of_items (
        object (
          ("item_id", str "i1")
          ∷ ("person_id", str "p1")
          ∷ ("proposal_room_id", str "!q:h")
          ∷ ("route", route)
          ∷ ("body", str "Hello")
          ∷ ("journal_epoch", str "j")
          ∷ [])
        ∷ []));
  reviewed_at = num (whole 5);
}

abbrev child_id : Value
child_id = str "child-aaaaaaaaaaaaaaaaaaaaaaaaaaaaaaaaaaaaaaaaaaaaaaaaaaaaaaaaaaaaaaaa"

abbrev references : Value
references = object (("i1", str "$p") ∷ [])

abbrev result_of : Checked Value → Value
result_of (fine v) = v
result_of (refused code) = str code

abbrev batch_made : Value
batch_made = result_of (create_reviewed_batch host hash with_member wanted)

abbrev enveloped : Value
enveloped = result_of (create_crm_child_envelope host hash manifest child_id references)

create_reviewed_batch-Verified_example :
    (verify_reviewed_batch host hash batch_made ≡ true)
    × (validate_manifest host with_member batch_made ≡ fine tt)
unfolding apply_crm_operation create_reviewed_batch ◌>>=◌ ◌>>◌ need id_text
create_reviewed_batch-Verified_example =
    Made.create_reviewed_batch-Verified host hash with_member wanted batch_made refl

create_crm_child_envelope-hash_example :
    (verify_reviewed_batch host hash manifest ≡ true)
    × (child_hash : String) × (get enveloped "child_hash" ≡ str child_hash)
    × IsChildHash host hash manifest child_id child_hash
unfolding create_crm_child_envelope ◌>>=◌ ◌>>◌ need id_text text_within
create_crm_child_envelope-hash_example =
    Envelopes.create_crm_child_envelope-hash host hash manifest child_id references enveloped refl
