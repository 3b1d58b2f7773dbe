-- ===== src/Crm/Replay.antt =====
-- Replays of operations by `applyCRMOperation` of shared/model/crm.js.
use mathlib.Core.Path.{subst⁻¹}
use beepa.Prelude.{
  String, true, false, none, some, get_or, ◌≡◌, ◌⊎◌, inl, inr, refl, sym, ◌∙◌, ◌==◌, if◌then◌else◌,
  lookup, lookup-insert, eq_refl, Bool-cases, Option-cases,
}
use beepa.Js.{Value, get, as_natural}
use beepa.Crm.Checked.{Checked, fine, refused}
use beepa.Crm.Canonical.{Host}
use beepa.Crm.State.{Crm, Remembered, Outcome, remember, is_inherited}
use beepa.Crm.Format.{text_of}
use beepa.Crm.Apply.{
  Applied, apply_crm_operation, apply_serialized, envelope, settle, handle_operation, rejected,
  duplicated, accepted_outcome, kind_of,
}
use beepa.Crm.Frame.{Keeps, handle-Keeps}
use beepa.Crm.Ensures.{Ensures}

pub Checked-cases {ℓ} :
    {A : Type ℓ} (m : Checked A) → ((a : A) × (m ≡ fine a)) ⊎ ((c : String) × (m ≡ refused c))
Checked-cases (fine a) = inl (a, refl)
Checked-cases (refused c) = inr (c, refl)

abbrev pub op_key : Value → String
op_key operation = text_of (get operation "op_id")

-- The verdict of an outcome, without the mark of a duplicate.
abbrev pub SameVerdict : Outcome → Outcome → Type 0
SameVerdict a b = (a.accepted ≡ b.accepted) × (a.code ≡ b.code)

module _ (host : Host) where
  pub envelope-workspace :
      (state next : Crm) (operation : Value)
      → state.workspace_id ≡ next.workspace_id
      → envelope host state operation ≡ envelope host next operation
  unfolding envelope
  envelope-workspace state next operation h = rw (h) refl

  pub handle_operation-Keeps :
      (state : Crm) (operation : Value)
      → Ensures (Keeps state) (handle_operation host state operation)
  unfolding handle_operation
  handle_operation-Keeps state operation =
      handle-Keeps host state (text_of (get operation "entity_id"))
        (get_or (as_natural (get operation "base_revision")) 0) (op_key operation)
        (get operation "payload") (kind_of (get operation "type"))

  -- What `settle` remembers, in a state that keeps the workspace.
  pub settle-remembers :
      (state : Crm) (operation : Value) (op_id text : String)
      → let out = settle host state op_id text (handle_operation host state operation) in
        (lookup op_id out.state.operations
          ≡ some (record { serialized = text; outcome = out.outcome }))
        × (state.workspace_id ≡ out.state.workspace_id)
  unfolding settle remember
  settle-remembers state operation op_id text =
      elim (Checked-cases (handle_operation host state operation)) [
        | inl (next, h) ↦
            let kept = (handle_operation-Keeps state operation).holds next h in
            rw (h) (
              rw
                  (
                    lookup-insert op_id op_id
                        (record { serialized = text; outcome = accepted_outcome }) next.operations,
                    eq_refl op_id,
                  )
                  refl,
              kept.workspace,
            )
        | inr (c, h) ↦ rw (h) (
          rw
              (
                lookup-insert op_id op_id (record { serialized = text; outcome = rejected c })
                    state.operations,
                eq_refl op_id,
              )
              refl,
          refl,
        )
      ]

  -- What a call of a refused envelope, of a known operation and of a new one is.
  pub apply-refused :
      (state : Crm) (operation : Value) (c : String)
      → envelope host state operation ≡ refused c
      → apply_crm_operation host state operation ≡ record { state = state; outcome = rejected c }
  unfolding apply_crm_operation
  apply-refused state operation c h = rw (apply_crm_operation, h) refl

  pub apply-fine :
      (state : Crm) (operation : Value) (text : String)
      → envelope host state operation ≡ fine text
      → apply_crm_operation host state operation ≡ apply_serialized host state operation text
  unfolding apply_crm_operation
  apply-fine state operation text h = rw (apply_crm_operation, h) refl

  pub serialized-known :
      (state : Crm) (operation : Value) (text : String) (r : Remembered)
      → lookup (op_key operation) state.operations ≡ some r
      → apply_serialized host state operation text ≡ record {
        state = state;
        outcome =
            if r.serialized == text
            then duplicated r.outcome
            else rejected "operation-id-collision";
      }
  unfolding apply_serialized
  serialized-known state operation text r h = rw (apply_serialized, h) refl

  pub serialized-inherited :
      (state : Crm) (operation : Value) (text : String)
      → lookup (op_key operation) state.operations ≡ none
      → is_inherited (op_key operation) state.operations ≡ true
      → apply_serialized host state operation text
        ≡ record { state = state; outcome = rejected "operation-id-collision" }
  unfolding apply_serialized
  serialized-inherited state operation text h i = rw (apply_serialized, h, i) refl

  pub serialized-new :
      (state : Crm) (operation : Value) (text : String)
      → lookup (op_key operation) state.operations ≡ none
      → is_inherited (op_key operation) state.operations ≡ false
      → apply_serialized host state operation text
        ≡ settle host state (op_key operation) text (handle_operation host state operation)
  unfolding apply_serialized
  serialized-new state operation text h i = rw (apply_serialized, h, i) refl

  -- The two ways of a call: nothing changes, or a new operation is settled.
  pub apply-cases {ℓ} :
      (P : Applied → Type ℓ) (state : Crm) (operation : Value)
      → ((o : Outcome)
          → apply_crm_operation host state operation ≡ record { state = state; outcome = o }
          → P (record { state = state; outcome = o }))
      → ((text : String)
          → envelope host state operation ≡ fine text
          → lookup (op_key operation) state.operations ≡ none
          → is_inherited (op_key operation) state.operations ≡ false
          → P (settle host state (op_key operation) text (handle_operation host state operation)))
      → P (apply_crm_operation host state operation)
  apply-cases P state operation unchanged settled =
      elim (Checked-cases (envelope host state operation)) [
        | inr (c, h) ↦ still (rejected c) (apply-refused state operation c h)
        | inl (text, h) ↦ elim (Option-cases (lookup (op_key operation) state.operations)) [
          | inr (r, found) ↦
              still _
                (apply-fine state operation text h ∙ serialized-known state operation text r found)
          | inl new ↦ elim (Bool-cases (is_inherited (op_key operation) state.operations)) [
            | inl i ↦ still _ (
                apply-fine state operation text h ∙ serialized-inherited state operation text new i)
            | inr i ↦
                subst⁻¹ P
                  (apply-fine state operation text h ∙ serialized-new state operation text new i)
                  (settled text h new i)
          ]
        ]
      ]
    where
      still :
          (o : Outcome)
          → apply_crm_operation host state operation ≡ record { state = state; outcome = o }
          → P (apply_crm_operation host state operation)
      still o h = subst⁻¹ P h (unchanged o h)

  abbrev pub Stable : Crm → Value → Applied → Type 0
  Stable state operation first =
      let again = apply_crm_operation host first.state operation in
      (again.state ≡ first.state) × SameVerdict again.outcome first.outcome

  settled-Stable :
      (state : Crm) (operation : Value) (text : String)
      → envelope host state operation ≡ fine text
      → Stable state operation
          (settle host state (op_key operation) text (handle_operation host state operation))
  settled-Stable state operation text h =
      let out = settle host state (op_key operation) text (handle_operation host state operation) in
      let (known, workspace) = settle-remembers state operation (op_key operation) text in
      rw
        (
          apply-fine out.state operation text
              (sym (envelope-workspace state out.state operation workspace) ∙ h),
          serialized-known out.state operation text
              (record { serialized = text; outcome = out.outcome }) known,
          eq_refl text,
        )
        (refl, (refl, refl))

  -- Applying an operation a second time, right after the first, changes nothing and gives the verdict
  -- and the code of the first time, whether that was an acceptance or a refusal.
  pub apply_crm_operation_twice :
      (state : Crm) (operation : Value)
      → Stable state operation (apply_crm_operation host state operation)
  apply_crm_operation_twice state operation =
      apply-cases (Stable state operation) state operation (λ o h. rw (h) (refl, (refl, refl)))
        (λ text h new i. settled-Stable state operation text h)
