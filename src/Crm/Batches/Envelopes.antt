-- ===== src/Crm/Batches/Envelopes.antt =====
-- The envelopes that `createCRMChildEnvelope` of shared/model/crm.js returns.
use beepa.Prelude.{String, Bool, true, ◌≡◌, refl, sym, get_or}
use beepa.Js.{Value, undefined, str, obj, of_entries, get}
use beepa.Crm.Checked.{fine, bind-fine, need-fine, fine-fine}
use beepa.Crm.Canonical.{Host}
use beepa.Crm.Format.{is_plain}
use beepa.Crm.Verified.{digest, verify_reviewed_batch}
use beepa.Crm.Batches.Child.{
  Reviewed, child_of, child_items, child_payload, reviewed_child, create_crm_child_envelope,
}
use beepa.Crm.Batches.Made.{then-fine}

module _ (host : Host) (hash : String → String) (manifest child_id : Value) where
  -- The child of the batch.
  abbrev pub the_child : Value
  the_child = get_or (child_of manifest child_id) undefined

  -- The hash is that of the child with its items as the batch has them.
  abbrev pub IsChildHash : String → Type 0
  IsChildHash child_hash =
      digest host hash (
        obj
          (of_entries (child_payload manifest the_child child_id (child_items manifest child_id))))
      ≡ fine child_hash

  reviewed_child-hash :
      (plain_events : Bool) (reviewed : Reviewed)
      → reviewed_child host hash manifest child_id plain_events ≡ fine reviewed
      → (verify_reviewed_batch host hash manifest ≡ true) × IsChildHash reviewed.child_hash
  unfolding reviewed_child
  reviewed_child-hash plain_events reviewed h =
      let (verified, h1) = need-fine _ _ _ _ h in
      let (_, h2) = need-fine _ _ _ _ h1 in
      let (_, h3) = then-fine _ _ _ h2 in
      let (_, h4) = need-fine _ _ _ _ h3 in
      let (child_hash, hashed, h5) = bind-fine _ _ _ h4 in
      (verified, rw (sym (fine-fine _ _ h5)) hashed)

  -- An envelope is made for a batch with the hash and child ids of its contents only, and its child hash
  -- is that of the child with the items as the batch has them, whatever references to proposal events
  -- the items of the envelope carry.
  pub create_crm_child_envelope-hash :
      (events envelope : Value)
      → create_crm_child_envelope host hash manifest child_id events ≡ fine envelope
      → (verify_reviewed_batch host hash manifest ≡ true)
        × (child_hash : String) × (get envelope "child_hash" ≡ str child_hash)
        × IsChildHash child_hash
  unfolding create_crm_child_envelope
  create_crm_child_envelope-hash events envelope h =
      let (reviewed, made, h1) = bind-fine _ _ _ h in
      let (items, referred, h2) = bind-fine _ _ _ h1 in
      let (verified, hashed) = reviewed_child-hash (is_plain events) reviewed made in
      rw (sym (fine-fine _ _ h2)) (verified, reviewed.child_hash, refl, hashed)
