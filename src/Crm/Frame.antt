-- ===== src/Crm/Frame.antt =====
-- What no operation of `applyCRMOperation` of shared/model/crm.js changes.
use beepa.Prelude.{
  ℕ, String, true, false, some, is_some, arith, Bool-cases, inl, inr, ◌≡◌, refl, lookup,
  lookup-insert, eq_iff,
}
use beepa.Js.{Value, truthy}
use beepa.Crm.Checked.{Checked, fine}
use beepa.Crm.Canonical.{Host}
use beepa.Crm.State.{
  Crm, Control, entity, Collection, batches, persons, bindings, lists, memberships,
  batch_cancellations, set_entity, same_collection,
}
use beepa.Crm.People.{set_control, control_settings, person_create, binding_create, binding_update}
use beepa.Crm.Lists.{list_create}
use beepa.Crm.Members.{member_set, member_remove, batch_review, batch_cancel_requested}
use beepa.Crm.Apply.{
  Kind, handle, list_monitoring_op, list_watch_op, list_contact_obligation_op, list_obligation_op,
  list_seen_op, list_rename_op, list_archive_op, list_restore_op, control_settings_op,
  person_create_op, binding_create_op, binding_update_op, list_create_op, member_set_op,
  member_remove_op, batch_review_op, batch_cancel_op, unknown_op,
}
use beepa.Crm.Edits.{Edited, handle-Edited, is_list_edit}
use beepa.Crm.Ensures.{Ensures-need, Ensures, Ensures-fine, Ensures-after, Ensures-then}

-- The next state differs at most in one collection and in the settings.
pub record Writes (c : Collection) (state next : Crm) : Type 0 where
  pub workspace : state.workspace_id ≡ next.workspace_id
  pub manager : state.manager_mxid ≡ next.manager_mxid
  pub remembered : state.operations ≡ next.operations
  pub others : (d : Collection) → same_collection c d ≡ false → next.entities d ≡ state.entities d

-- The next state has the same workspace and manager, remembers the same, and keeps each reviewed batch.
pub record Keeps (state next : Crm) : Type 0 where
  pub workspace : state.workspace_id ≡ next.workspace_id
  pub manager : state.manager_mxid ≡ next.manager_mxid
  pub remembered : state.operations ≡ next.operations
  pub reviewed :
      (k : String) (v : Value)
      → lookup k (state.entities batches) ≡ some v
      → lookup k (next.entities batches) ≡ some v

-- The collection that a kind of operation writes, if it writes one.
abbrev pub collection_of : Kind → Collection
collection_of binding_create_op = Collection.bindings
collection_of binding_update_op = Collection.bindings
collection_of list_create_op = Collection.lists
collection_of member_set_op = Collection.memberships
collection_of member_remove_op = Collection.memberships
collection_of batch_review_op = Collection.batches
collection_of batch_cancel_op = Collection.batch_cancellations
collection_of control_settings_op = Collection.persons
collection_of person_create_op = Collection.persons
collection_of unknown_op = Collection.persons
collection_of _ = Collection.lists

module _ (state : Crm) where
  pub set_entity-Writes :
      (c : Collection) (k : String) (v : Value) → Writes c state (set_entity state c k v)
  unfolding set_entity
  set_entity-Writes c k v = record {
    workspace = refl;
    manager = refl;
    remembered = refl;
    others = λ d h. rw (h) refl;
  }

  wrote :
      (c : Collection) (k : String) (v : Value)
      → Ensures (Writes c state) (fine (set_entity state c k v))
  wrote c k v = Ensures-fine _ (set_entity-Writes c k v)

  same-Writes : (c : Collection) → Writes c state state
  same-Writes c = record {
    workspace = refl;
    manager = refl;
    remembered = refl;
    others = λ d h. refl;
  }

  set_control-Writes : (c : Collection) (new : Control) → Writes c state (set_control state new)
  unfolding set_control
  set_control-Writes c new = record {
    workspace = refl;
    manager = refl;
    remembered = refl;
    others = λ d h. refl;
  }

  Writes-Keeps :
      (c : Collection) (next : Crm)
      → same_collection c batches ≡ false
      → Writes c state next
      → Keeps state next
  Writes-Keeps c next other w = record {
    workspace = w.workspace;
    manager = w.manager;
    remembered = w.remembered;
    reviewed = λ k v h. rw (w.others batches other) h;
  }

set_batch-Keeps :
    (state : Crm) (k : String) (v : Value)
    → is_some (lookup k (state.entities batches)) ≡ false
    → Keeps state (set_entity state batches k v)
unfolding set_entity
set_batch-Keeps state k v new = record {
  workspace = refl;
  manager = refl;
  remembered = refl;
  reviewed = λ j w h.
      rw (lookup-insert k j v (state.entities batches)) (ground (eq_iff k j, new, h, arith));
}

module _ (host : Host) (state : Crm) (e : String) (b : ℕ) (p : Value) where
  Edited-Writes : (m : Checked Crm) → Ensures (Edited state e b) m → Ensures (Writes lists state) m
  Edited-Writes m h = record {
    holds = λ next found.
        let edit = h.holds next found in rw (edit.result) (set_entity-Writes state lists e _);
  }

  control_settings-Writes : Ensures (Writes persons state) (control_settings host state e b p)
  unfolding control_settings
  control_settings-Writes = Ensures-then _ _ (
      Ensures-then _ _ (
        Ensures-then _ _ (
          Ensures-then _ _ (
            Ensures-then _ _ (
              Ensures-then _ _
                (Ensures-after _ _ λ q. Ensures-fine _ (set_control-Writes state persons _)))))))

  person_create-Writes : Ensures (Writes persons state) (person_create host state e b p)
  unfolding person_create
  person_create-Writes =
      Ensures-then _ _ (Ensures-then _ _ (Ensures-then _ _ (wrote state persons e _)))

  binding_create-Writes : Ensures (Writes bindings state) (binding_create host state e b p)
  unfolding binding_create
  binding_create-Writes = Ensures-then _ _ (
      Ensures-then _ _ (
        Ensures-then _ _ (
          Ensures-then _ _ (
            Ensures-after _ _
              λ l. Ensures-then _ _ (Ensures-after _ _ λ q. wrote state bindings e _)))))

  binding_update-Writes : Ensures (Writes bindings state) (binding_update host state e b p)
  unfolding binding_update
  binding_update-Writes = Ensures-then _ _ (
      Ensures-then _ _ (
        Ensures-after _ _
          λ old. Ensures-then _ _ (Ensures-after _ _ λ q. wrote state bindings e _)))

  list_create-Writes : Ensures (Writes lists state) (list_create host state e b p)
  unfolding list_create
  list_create-Writes =
      Ensures-then _ _ (Ensures-then _ _ (Ensures-then _ _ (wrote state lists e _)))

module _ (host : Host) (state : Crm) (e : String) (b : ℕ) (o : String) (p : Value) where
  member_set-Writes : Ensures (Writes memberships state) (member_set host state e b o p)
  unfolding member_set
  member_set-Writes = Ensures-then _ _ (
      Ensures-after _ _ λ key.
        Ensures-then _ _ (Ensures-then _ _ (Ensures-after _ _ λ q. wrote state memberships key _)))

  member_remove-Writes : Ensures (Writes memberships state) (member_remove host state e b o p)
  unfolding member_remove
  member_remove-Writes = Ensures-then _ _ (
      Ensures-after _ _
        λ key. Ensures-then _ _ (Ensures-after _ _ λ q. wrote state memberships key _))

  batch_review-Keeps : Ensures (Keeps state) (batch_review host state e b o p)
  unfolding batch_review
  batch_review-Keeps = Ensures-need _ _ _ λ new. Ensures-then _ _ (
      Ensures-then _ _
        (Ensures-after _ _ λ q. Ensures-fine _ (set_batch-Keeps state e _ (ground (arith, new)))))

  batch_cancel_requested-Writes :
      Ensures (Writes batch_cancellations state) (batch_cancel_requested host state e b o p)
  unfolding batch_cancel_requested
  batch_cancel_requested-Writes = Ensures-then _ _ (
      Ensures-then _ _ (
        Ensures-fine _ (elim (Bool-cases (truthy (entity state batch_cancellations e))) [
          | inl h ↦ rw (h) (same-Writes state batch_cancellations)
          | inr h ↦ rw (h) (set_entity-Writes state batch_cancellations e _)
        ])))

  batch_review-Writes : Ensures (Writes batches state) (batch_review host state e b o p)
  unfolding batch_review
  batch_review-Writes =
      Ensures-then _ _
        (Ensures-then _ _ (Ensures-then _ _ (Ensures-after _ _ λ q. wrote state batches e _)))

  edits :
      (kind : Kind)
      → is_list_edit kind ≡ true
      → Ensures (Writes lists state) (handle host state kind e b o p)
  edits kind h = Edited-Writes host state e b p _ (handle-Edited host state e b o p kind h)

  -- An operation writes only the collection of its kind, and never the workspace, the manager or what is remembered.
  pub handle-Writes :
      (kind : Kind) → Ensures (Writes (collection_of kind) state) (handle host state kind e b o p)
  unfolding handle
  handle-Writes control_settings_op = control_settings-Writes host state e b p
  handle-Writes person_create_op = person_create-Writes host state e b p
  handle-Writes binding_create_op = binding_create-Writes host state e b p
  handle-Writes binding_update_op = binding_update-Writes host state e b p
  handle-Writes list_create_op = list_create-Writes host state e b p
  handle-Writes member_set_op = member_set-Writes
  handle-Writes member_remove_op = member_remove-Writes
  handle-Writes batch_review_op = batch_review-Writes
  handle-Writes batch_cancel_op = batch_cancel_requested-Writes
  handle-Writes unknown_op = record { holds = λ a h. ground (arith, h) }
  handle-Writes list_monitoring_op = edits list_monitoring_op refl
  handle-Writes list_watch_op = edits list_watch_op refl
  handle-Writes list_contact_obligation_op = edits list_contact_obligation_op refl
  handle-Writes list_obligation_op = edits list_obligation_op refl
  handle-Writes list_seen_op = edits list_seen_op refl
  handle-Writes list_rename_op = edits list_rename_op refl
  handle-Writes list_archive_op = edits list_archive_op refl
  handle-Writes list_restore_op = edits list_restore_op refl

  keeps :
      (kind : Kind)
      → same_collection (collection_of kind) batches ≡ false
      → Ensures (Keeps state) (handle host state kind e b o p)
  keeps kind other = record {
    holds = λ next h.
        Writes-Keeps state (collection_of kind) next other ((handle-Writes kind).holds next h);
  }

  -- No operation changes the workspace, the manager, what is remembered or a reviewed batch.
  pub handle-Keeps : (kind : Kind) → Ensures (Keeps state) (handle host state kind e b o p)
  unfolding handle
  handle-Keeps batch_review_op = batch_review-Keeps
  handle-Keeps control_settings_op = keeps control_settings_op refl
  handle-Keeps person_create_op = keeps person_create_op refl
  handle-Keeps binding_create_op = keeps binding_create_op refl
  handle-Keeps binding_update_op = keeps binding_update_op refl
  handle-Keeps list_create_op = keeps list_create_op refl
  handle-Keeps member_set_op = keeps member_set_op refl
  handle-Keeps member_remove_op = keeps member_remove_op refl
  handle-Keeps batch_cancel_op = keeps batch_cancel_op refl
  handle-Keeps unknown_op = keeps unknown_op refl
  handle-Keeps list_monitoring_op = keeps list_monitoring_op refl
  handle-Keeps list_watch_op = keeps list_watch_op refl
  handle-Keeps list_contact_obligation_op = keeps list_contact_obligation_op refl
  handle-Keeps list_obligation_op = keeps list_obligation_op refl
  handle-Keeps list_seen_op = keeps list_seen_op refl
  handle-Keeps list_rename_op = keeps list_rename_op refl
  handle-Keeps list_archive_op = keeps list_archive_op refl
  handle-Keeps list_restore_op = keeps list_restore_op refl
