-- ===== src/Crm/Links/Reached.antt =====
-- The bindings in the states that the operations of shared/model/crm.js reach.
use beepa.Prelude.{ℕ, String, false, ◌≡◌, refl, sym, arith, get_or, inl, inr}
use beepa.Js.{Value, get, as_natural}
use beepa.Crm.Checked.{fine, need-fine, fine-fine}
use beepa.Crm.Canonical.{Host}
use beepa.Crm.State.{Crm, bindings, same_collection, remember, create_crm_state}
use beepa.Crm.Format.{text_of}
use beepa.Crm.Apply.{
  Kind, handle, handle_operation, settle, kind_of, list_monitoring_op, list_watch_op,
  list_contact_obligation_op, list_obligation_op, list_seen_op, list_rename_op, list_archive_op,
  list_restore_op, control_settings_op, person_create_op, binding_create_op, binding_update_op,
  list_create_op, member_set_op, member_remove_op, batch_review_op, batch_cancel_op, unknown_op,
}
use beepa.Crm.Ensures.{Ensures}
use beepa.Crm.Frame.{handle-Writes, collection_of}
use beepa.Crm.Replay.{Checked-cases, apply-cases, op_key}
use beepa.Crm.History.{History, begin, followed_by}
use beepa.Crm.Links.{LinkedOnce}
use beepa.Crm.Links.Once.{OnceMore, binding_create-OnceMore, binding_update-OnceMore}

module _ (host : Host) (state : Crm) (e : String) (b : ℕ) (o : String) (p : Value) where
  elsewhere :
      (kind : Kind)
      → same_collection (collection_of kind) bindings ≡ false
      → Ensures (OnceMore host state e b p) (handle host state kind e b o p)
  elsewhere kind other = record {
    holds = λ next h once.
        let wrote = (handle-Writes host state e b o p kind).holds next h in
        rw (wrote.others bindings other) once;
  }

  handle-OnceMore :
      (kind : Kind) → Ensures (OnceMore host state e b p) (handle host state kind e b o p)
  unfolding handle
  handle-OnceMore binding_create_op = binding_create-OnceMore host state e b p
  handle-OnceMore binding_update_op = binding_update-OnceMore host state e b p
  handle-OnceMore control_settings_op = elsewhere control_settings_op refl
  handle-OnceMore person_create_op = elsewhere person_create_op refl
  handle-OnceMore list_create_op = elsewhere list_create_op refl
  handle-OnceMore member_set_op = elsewhere member_set_op refl
  handle-OnceMore member_remove_op = elsewhere member_remove_op refl
  handle-OnceMore batch_review_op = elsewhere batch_review_op refl
  handle-OnceMore batch_cancel_op = elsewhere batch_cancel_op refl
  handle-OnceMore unknown_op = elsewhere unknown_op refl
  handle-OnceMore list_monitoring_op = elsewhere list_monitoring_op refl
  handle-OnceMore list_watch_op = elsewhere list_watch_op refl
  handle-OnceMore list_contact_obligation_op = elsewhere list_contact_obligation_op refl
  handle-OnceMore list_obligation_op = elsewhere list_obligation_op refl
  handle-OnceMore list_seen_op = elsewhere list_seen_op refl
  handle-OnceMore list_rename_op = elsewhere list_rename_op refl
  handle-OnceMore list_archive_op = elsewhere list_archive_op refl
  handle-OnceMore list_restore_op = elsewhere list_restore_op refl

abbrev pub LinksOnce : Host → Crm → Type 0
LinksOnce host state = LinkedOnce host (state.entities bindings)

module _ (host : Host) where
  settle-LinksOnce :
      (state : Crm) (operation : Value) (text : String)
      → LinksOnce host state
      → LinksOnce host
          (settle host state (op_key operation) text (handle_operation host state operation)).state
  unfolding settle remember handle_operation
  settle-LinksOnce state operation text once =
      elim (Checked-cases (handle_operation host state operation)) [
        | inl (next, h) ↦ rw (h) (
            (handle-OnceMore host state (text_of (get operation "entity_id"))
                (get_or (as_natural (get operation "base_revision")) 0) (op_key operation)
                (get operation "payload") (kind_of (get operation "type"))).holds
              next h once)
        | inr (c, h) ↦ rw (h) once
      ]

  History-LinksOnce :
      (start state : Crm) → History host start state → LinksOnce host start → LinksOnce host state
  History-LinksOnce start state begin once = once
  History-LinksOnce start state (followed_by operation {state = before} h) once =
      let earlier = History-LinksOnce start before h once in
      apply-cases host (λ out. LinksOnce host out.state) before operation (λ o same. earlier)
        (λ text valid new i. settle-LinksOnce before operation text earlier)

  -- In every state that operations lead to from a created one, no two bindings link the same contact of
  -- the same account and generation, where contacts count as the same when `canonicalCRMJSON` makes the
  -- same of them.
  pub create_crm_state-LinksOnce :
      (workspace manager : Value) (start state : Crm)
      → create_crm_state workspace manager ≡ fine start
      → History host start state
      → LinksOnce host state
  unfolding create_crm_state
  create_crm_state-LinksOnce workspace manager start state h after =
      History-LinksOnce start state after λ i j a b f g same.
        let (_, made) = need-fine _ _ _ _ h in ground (arith, rw (sym (fine-fine _ _ made)) at f)
