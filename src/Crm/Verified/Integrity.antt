-- ===== src/Crm/Verified/Integrity.antt =====
-- The batches in the states that `applyVerifiedCRMOperation` of shared/model/crm.js reaches.
use beepa.Prelude.{
  ℕ, [], ◌∷◌, All, ◌∙◌, String, true, false, not, ◌&&◌, some, List, ◌≡◌, refl, sym, arith, get_or,
  inl, inr, lookup, lookup-insert, Bool-cases, eq_iff, ◌==◌,
}
use beepa.Js.{Value, undefined, null, bool, num, str, arr, obj, get, as_natural, is_text}
use beepa.Crm.Checked.{fine, need-fine, fine-fine}
use beepa.Crm.Canonical.{Host}
use beepa.Crm.Format.{text_of}
use beepa.Crm.State.{Crm, batches, same_collection, create_crm_state, remember}
use beepa.Crm.Members.{batch_review}
use beepa.Crm.Apply.{
  Kind, handle, handle_operation, settle, kind_of, kinds, list_monitoring_op, list_watch_op,
  list_contact_obligation_op, list_obligation_op, list_seen_op, list_rename_op, list_archive_op,
  list_restore_op, control_settings_op, person_create_op, binding_create_op, binding_update_op,
  list_create_op, member_set_op, member_remove_op, batch_review_op, batch_cancel_op, unknown_op,
}
use beepa.Crm.Ensures.{Ensures, Ensures-then, Ensures-bind, Ensures-fine}
use beepa.Crm.Frame.{handle-Writes, collection_of}
use beepa.Crm.Seen.{copy-fine}
use beepa.Crm.Replay.{Checked-cases, apply-cases, op_key}
use beepa.Crm.Verified.{verify_reviewed_batch, apply_verified_crm_operation, is_known}

module _ (host : Host) (hash : String → String) where
  -- Each batch of the state has the hash and the child ids of its contents.
  abbrev pub AllVerified : Crm → Type 0
  AllVerified state =
      (k : String) (v : Value)
      → lookup k (state.entities batches) ≡ some v
      → verify_reviewed_batch host hash v ≡ true

  module _ (state : Crm) (e : String) (b : ℕ) (o : String) (p : Value) where
    batch_review-AllVerified :
        verify_reviewed_batch host hash p ≡ true
        → Ensures (λ next. AllVerified state → AllVerified next) (batch_review host state e b o p)
    unfolding batch_review
    batch_review-AllVerified valid = Ensures-then _ _ (
        Ensures-then _ _ (
          Ensures-then _ _ (
            Ensures-bind _ _ λ q c. Ensures-fine _ λ all k v found.
              let same = copy-fine host p q c in
              let cases = rw (lookup-insert e k q (state.entities batches)) at found in
              elim (Bool-cases (e == k)) [
                | inl hit ↦
                    let is_q : q ≡ v = ground (arith, rw (hit) at cases) in
                    rw (sym is_q, sym same) valid
                | inr miss ↦ all k v (rw (miss) at cases)
              ])))

    elsewhere :
        (kind : Kind)
        → same_collection (collection_of kind) batches ≡ false
        → Ensures (λ next. AllVerified state → AllVerified next) (handle host state kind e b o p)
    elsewhere kind other = record {
      holds = λ next h all k v found.
          let wrote = (handle-Writes host state e b o p kind).holds next h in
          all k v (rw (wrote.others batches other) at found);
    }

    handle-AllVerified :
        (kind : Kind)
        → (same_collection (collection_of kind) batches ≡ true
            → verify_reviewed_batch host hash p ≡ true)
        → Ensures (λ next. AllVerified state → AllVerified next) (handle host state kind e b o p)
    unfolding handle
    handle-AllVerified batch_review_op valid = batch_review-AllVerified (valid refl)
    handle-AllVerified control_settings_op valid = elsewhere control_settings_op refl
    handle-AllVerified person_create_op valid = elsewhere person_create_op refl
    handle-AllVerified binding_create_op valid = elsewhere binding_create_op refl
    handle-AllVerified binding_update_op valid = elsewhere binding_update_op refl
    handle-AllVerified list_create_op valid = elsewhere list_create_op refl
    handle-AllVerified member_set_op valid = elsewhere member_set_op refl
    handle-AllVerified member_remove_op valid = elsewhere member_remove_op refl
    handle-AllVerified batch_cancel_op valid = elsewhere batch_cancel_op refl
    handle-AllVerified unknown_op valid = elsewhere unknown_op refl
    handle-AllVerified list_monitoring_op valid = elsewhere list_monitoring_op refl
    handle-AllVerified list_watch_op valid = elsewhere list_watch_op refl
    handle-AllVerified list_contact_obligation_op valid = elsewhere list_contact_obligation_op refl
    handle-AllVerified list_obligation_op valid = elsewhere list_obligation_op refl
    handle-AllVerified list_seen_op valid = elsewhere list_seen_op refl
    handle-AllVerified list_rename_op valid = elsewhere list_rename_op refl
    handle-AllVerified list_archive_op valid = elsewhere list_archive_op refl
    handle-AllVerified list_restore_op valid = elsewhere list_restore_op refl

  -- Only the type "batch.review" has a kind that writes batches.
  abbrev ReviewEntry : String × Kind → Type 0
  ReviewEntry entry =
      same_collection (collection_of entry.1) batches ≡ true → entry.0 ≡ "batch.review"

  review_entry :
      (s : String) (m : List (String × Kind))
      → All ReviewEntry m
      → same_collection (collection_of (get_or (lookup s m) unknown_op)) batches ≡ true
      → s ≡ "batch.review"
  review_entry s [] a h = ground (arith, h)
  review_entry s ((k, kind) ∷ m) (a, as_) h = elim (Bool-cases (k == s)) [
    | inl hit ↦ sym ((eq_iff k s).0 hit) ∙ a (rw (hit) at h)
    | inr miss ↦ review_entry s m as_ (rw (miss) at h)
  ]

  other : {s : String} → false ≡ true → s ≡ "batch.review"
  other h = ground (arith, h)

  review_kind :
      (t : Value)
      → same_collection (collection_of (kind_of t)) batches ≡ true
      → is_text t "batch.review" ≡ true
  review_kind undefined h = ground (arith, h)
  review_kind null h = ground (arith, h)
  review_kind (bool b) h = ground (arith, h)
  review_kind (num n) h = ground (arith, h)
  review_kind (arr vs) h = ground (arith, h)
  review_kind (obj fs) h = ground (arith, h)
  review_kind (str s) h =
      rw
        (review_entry s kinds
          (
            other,
            (
              other,
              (
                other,
                (
                  other,
                  (
                    other,
                    (
                      other,
                      (
                        other,
                        (
                          other,
                          (
                            other,
                            (
                              other,
                              (other, (other, (other, (other, (other, (λ h. refl, (other, tt))))))),
                            ),
                          ),
                        ),
                      ),
                    ),
                  ),
                ),
              ),
            ),
          )
          h)
        refl

  settle-AllVerified :
      (state : Crm) (operation : Value) (text : String)
      → (is_text (get operation "type") "batch.review" ≡ true
          → verify_reviewed_batch host hash (get operation "payload") ≡ true)
      → AllVerified state
      → AllVerified
          (settle host state (op_key operation) text (handle_operation host state operation)).state
  unfolding settle remember handle_operation
  settle-AllVerified state operation text valid all =
      elim (Checked-cases (handle_operation host state operation)) [
        | inl (next, h) ↦ rw (h) (
            (handle-AllVerified state (text_of (get operation "entity_id"))
                (get_or (as_natural (get operation "base_revision")) 0) (op_key operation)
                (get operation "payload") (kind_of (get operation "type"))
                (λ r. valid (review_kind (get operation "type") r))).holds
              next h all)
        | inr (c, h) ↦ rw (h) all
      ]

  apply-AllVerified :
      (state : Crm) (operation : Value)
      → AllVerified state
      → AllVerified (apply_verified_crm_operation host hash state operation).state
  unfolding apply_verified_crm_operation
  apply-AllVerified state operation all =
      let refused_batch =
        not (is_known host hash state operation)
        && is_text (get operation "type") "batch.review"
        && not (verify_reviewed_batch host hash (get operation "payload")) in
      elim (Bool-cases refused_batch) [
        | inl wrong ↦ rw (apply_verified_crm_operation, wrong) all
        | inr checked ↦
            rw (apply_verified_crm_operation, checked)
              (apply-cases host (λ out. AllVerified out.state) state operation (λ o h. all)
                (λ text h new i.
                  settle-AllVerified state operation text
                    (λ r. ground (rw (new, i) at checked, r, arith)) all))
      ]

-- The states that verified operations lead to.
pub data VerifiedHistory (host : Host) (hash : String → String) (start : Crm) : Crm → Type 0 where
  begin : VerifiedHistory host hash start start
  followed_by :
      (operation : Value) {state : Crm}
      → VerifiedHistory host hash start state
      → VerifiedHistory host hash start
          (apply_verified_crm_operation host hash state operation).state

module _ (host : Host) (hash : String → String) where
  History-AllVerified :
      (start state : Crm)
      → VerifiedHistory host hash start state
      → AllVerified host hash start
      → AllVerified host hash state
  History-AllVerified start state begin all = all
  History-AllVerified start state (followed_by operation {state = before} h) all =
      apply-AllVerified host hash before operation (History-AllVerified start before h all)

  -- In every state that verified operations lead to from a created one, each batch has the payload hash
  -- and the child ids that its contents give.
  pub create_crm_state-AllVerified :
      (workspace manager : Value) (start state : Crm)
      → create_crm_state workspace manager ≡ fine start
      → VerifiedHistory host hash start state
      → AllVerified host hash state
  unfolding create_crm_state
  create_crm_state-AllVerified workspace manager start state h after =
      History-AllVerified start state after λ k v found.
        let (_, made) = need-fine _ _ _ _ h in
        ground (arith, rw (sym (fine-fine _ _ made)) at found)
