-- ===== src/Crm/Apply.antt =====
-- `applyCRMOperation` of shared/model/crm.js.
use beepa.Prelude.{
  ℕ, String, true, false, ◌&&◌, none, some, List, [], ◌∷◌, get_or, ◌==◌, if◌then◌else◌, lookup,
}
use beepa.Js.{Value, str, get, as_natural, strictly_equal, is_text}
use beepa.Crm.Checked.{Checked, fine, refused, ◌>>◌, need}
use beepa.Crm.Canonical.{Host, bounded}
use beepa.Crm.Format.{keys, id, revision, is_plain}
use beepa.Crm.State.{Crm, Outcome, remember, is_inherited}
use beepa.Crm.Manifest.{crm_schema}
use beepa.Crm.Format.{text_of}
use beepa.Crm.People.{control_settings, person_create, binding_create, binding_update}
use beepa.Crm.Lists.{list_create, list_monitoring, list_rename, list_archive, list_restore}
use beepa.Crm.Timers.{list_watch, list_contact_obligation, list_obligation, list_seen}
use beepa.Crm.Members.{member_set, member_remove, batch_review, batch_cancel_requested}

-- What the operation type selects.
pub data Kind : Type 0 where
  control_settings_op person_create_op binding_create_op binding_update_op : Kind
  list_create_op list_monitoring_op list_watch_op list_contact_obligation_op : Kind
  list_obligation_op list_seen_op list_rename_op list_archive_op list_restore_op : Kind
  member_set_op member_remove_op batch_review_op batch_cancel_op unknown_op : Kind

abbrev pub kinds : List (String × Kind)
kinds =
    ("control.settings", control_settings_op)
    ∷ ("person.create", person_create_op)
    ∷ ("binding.create", binding_create_op)
    ∷ ("binding.update", binding_update_op)
    ∷ ("list.create", list_create_op)
    ∷ ("list.monitoring", list_monitoring_op)
    ∷ ("list.watch", list_watch_op)
    ∷ ("list.contact_obligation", list_contact_obligation_op)
    ∷ ("list.obligation", list_obligation_op)
    ∷ ("list.seen", list_seen_op)
    ∷ ("list.rename", list_rename_op)
    ∷ ("list.archive", list_archive_op)
    ∷ ("list.restore", list_restore_op)
    ∷ ("member.set", member_set_op)
    ∷ ("member.remove", member_remove_op)
    ∷ ("batch.review", batch_review_op)
    ∷ ("batch.cancel_requested", batch_cancel_op)
    ∷ []

abbrev pub kind_of : Value → Kind
kind_of (str s) = get_or (lookup s kinds) unknown_op
kind_of _ = unknown_op

abbrev pub operation_keys : List String
operation_keys =
    "schema" ∷ "op_id" ∷ "workspace_id" ∷ "type" ∷ "entity_id" ∷ "base_revision" ∷ "payload" ∷ []

pub record Applied : Type 0 where
  pub state : Crm
  pub outcome : Outcome

abbrev pub rejected : String → Outcome
rejected c = record { accepted = false; code = c; duplicate = false }

abbrev pub accepted_outcome : Outcome
accepted_outcome = record { accepted = true; code = "accepted"; duplicate = false }

-- `{ ...previous.outcome, duplicate: true }`
abbrev pub duplicated : Outcome → Outcome
duplicated o = record { accepted = o.accepted; code = o.code; duplicate = true }

module _ (host : Host) (state : Crm) where
  -- The first `try` of `applyCRMOperation`: the serialized operation.
  unfoldable pub envelope : Value → Checked String
  unfolding keys bounded
  envelope operation = do
    keys operation operation_keys []
    need
        (strictly_equal (get operation "schema") crm_schema
          && id (get operation "op_id")
          && id (get operation "entity_id")
          && revision (get operation "base_revision")
          && is_text (get operation "workspace_id") state.workspace_id
          && is_plain (get operation "payload"))
        "invalid-operation"
    bounded host operation

  -- The `switch`.
  unfoldable pub handle : Kind → String → ℕ → String → Value → Checked Crm
  unfolding control_settings person_create binding_create binding_update list_create list_monitoring
      list_rename list_archive list_restore list_watch list_contact_obligation list_obligation
      list_seen member_set member_remove batch_review batch_cancel_requested
  handle control_settings_op e b o p = control_settings host state e b p
  handle person_create_op e b o p = person_create host state e b p
  handle binding_create_op e b o p = binding_create host state e b p
  handle binding_update_op e b o p = binding_update host state e b p
  handle list_create_op e b o p = list_create host state e b p
  handle list_monitoring_op e b o p = list_monitoring host state e b p
  handle list_watch_op e b o p = list_watch host state e b p
  handle list_contact_obligation_op e b o p = list_contact_obligation host state e b p
  handle list_obligation_op e b o p = list_obligation host state e b p
  handle list_seen_op e b o p = list_seen host state e b p
  handle list_rename_op e b o p = list_rename host state e b p
  handle list_archive_op e b o p = list_archive host state e b p
  handle list_restore_op e b o p = list_restore host state e b p
  handle member_set_op e b o p = member_set host state e b o p
  handle member_remove_op e b o p = member_remove host state e b o p
  handle batch_review_op e b o p = batch_review host state e b o p
  handle batch_cancel_op e b o p = batch_cancel_requested host state e b o p
  handle unknown_op e b o p = refused "unknown-operation"

  unfoldable pub handle_operation : Value → Checked Crm
  unfolding handle
  handle_operation operation =
      handle (kind_of (get operation "type")) (text_of (get operation "entity_id"))
        (get_or (as_natural (get operation "base_revision")) 0) (text_of (get operation "op_id"))
        (get operation "payload")

  -- The end: the outcome is remembered, of a refused operation too.
  unfoldable pub settle : String → String → Checked Crm → Applied
  unfolding remember
  settle op_id text (fine next) = record {
    state = remember next op_id (record { serialized = text; outcome = accepted_outcome });
    outcome = accepted_outcome;
  }
  settle op_id text (refused c) = record {
    state = remember state op_id (record { serialized = text; outcome = rejected c });
    outcome = rejected c;
  }

  -- What follows once the operation has a serialization; an inherited name is no remembered operation.
  unfoldable pub apply_serialized : Value → String → Applied
  unfolding handle_operation settle
  apply_serialized operation text =
      let op_id = text_of (get operation "op_id") in
      elim (lookup op_id state.operations) [
        | some previous ↦ record {
          state = state;
          outcome =
              if previous.serialized == text
              then duplicated previous.outcome
              else rejected "operation-id-collision";
        }
        | none ↦
            if is_inherited op_id state.operations
            then record { state = state; outcome = rejected "operation-id-collision" }
            else settle op_id text (handle_operation operation)
      ]

  -- `applyCRMOperation`
  unfoldable pub apply_crm_operation : Value → Applied
  unfolding envelope apply_serialized
  apply_crm_operation operation = elim (envelope operation) [
    | refused c ↦ record { state = state; outcome = rejected c }
    | fine text ↦ apply_serialized operation text
  ]
