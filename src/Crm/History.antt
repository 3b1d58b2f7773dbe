-- ===== src/Crm/History.antt =====
-- Sequences of operations applied by `applyCRMOperation` of shared/model/crm.js.
use beepa.Prelude.{
  String, false, none, some, ◌≡◌, inl, inr, refl, sym, ◌∙◌, arith, lookup, insert, lookup-insert,
  eq_iff, eq_refl,
}
use beepa.Js.{Value}
use beepa.Crm.Checked.{fine}
use beepa.Crm.Canonical.{Host}
use beepa.Crm.State.{Crm, Remembered, batches, remember, is_inherited}
use beepa.Crm.Apply.{apply_crm_operation, envelope, settle, handle_operation, Applied}
use beepa.Crm.Replay.{
  Checked-cases, op_key, envelope-workspace, handle_operation-Keeps, settle-remembers, apply-fine,
  serialized-known, serialized-new, SameVerdict, apply-cases,
}

-- The states that operations lead to.
pub data History (host : Host) (start : Crm) : Crm → Type 0 where
  begin : History host start start
  followed_by :
      (operation : Value) {state : Crm}
      → History host start state
      → History host start (apply_crm_operation host state operation).state

-- What no operation takes back.
pub record Preserves (state next : Crm) : Type 0 where
  pub workspace : state.workspace_id ≡ next.workspace_id
  pub outcomes :
      (k : String) (r : Remembered)
      → lookup k state.operations ≡ some r
      → lookup k next.operations ≡ some r
  pub reviewed :
      (k : String) (v : Value)
      → lookup k (state.entities batches) ≡ some v
      → lookup k (next.entities batches) ≡ some v

module _ (host : Host) where
  same-Preserves : (state : Crm) → Preserves state state
  same-Preserves state = record { workspace = refl; outcomes = λ k r h. h; reviewed = λ k v h. h }

  -- A new outcome under a key that remembers none.
  remember-outcomes :
      (state : Crm) (op_id k : String) (new r : Remembered)
      → lookup op_id state.operations ≡ none
      → lookup k state.operations ≡ some r
      → lookup k (insert op_id new state.operations) ≡ some r
  remember-outcomes state op_id k new r absent h =
      rw (lookup-insert op_id k new state.operations) (ground (eq_iff op_id k, absent, h, arith))

  settle-Preserves :
      (state : Crm) (operation : Value) (text : String)
      → lookup (op_key operation) state.operations ≡ none
      → Preserves state
          (settle host state (op_key operation) text (handle_operation host state operation)).state
  unfolding settle remember
  settle-Preserves state operation text new =
      elim (Checked-cases (handle_operation host state operation)) [
        | inl (next, h) ↦
            let kept = (handle_operation-Keeps host state operation).holds next h in
            rw (h) (record {
              workspace = kept.workspace;
              outcomes = λ k r f. rw (sym kept.remembered) (remember-outcomes state _ k _ r new f);
              reviewed = kept.reviewed;
            })
        | inr (c, h) ↦ rw (h) (record {
          workspace = refl;
          outcomes = λ k r f. remember-outcomes state _ k _ r new f;
          reviewed = λ k v f. f;
        })
      ]

  apply_crm_operation-Preserves :
      (state : Crm) (operation : Value)
      → Preserves state (apply_crm_operation host state operation).state
  apply_crm_operation-Preserves state operation =
      apply-cases host (λ out. Preserves state out.state) state operation
        (λ o h. same-Preserves state) (λ text h new i. settle-Preserves state operation text new)

  -- Whatever operations follow, the workspace stays, a remembered outcome stays what it was, and a
  -- reviewed batch is never changed or removed.
  pub History-Preserves : (start state : Crm) → History host start state → Preserves start state
  History-Preserves start state begin = same-Preserves start
  History-Preserves start state (followed_by operation h) =
      let before = History-Preserves start _ h in
      let after = apply_crm_operation-Preserves _ operation in
      record {
        workspace = before.workspace ∙ after.workspace;
        outcomes = λ k r f. after.outcomes k r (before.outcomes k r f);
        reviewed = λ k v f. after.reviewed k v (before.reviewed k v f);
      }

  -- The verdict on an operation with a valid envelope, whose id is neither remembered nor a name that
  -- objects inherit, is final: whatever operations follow, applying it again changes nothing and gives the
  -- verdict and the code of the first time.
  pub verdict_final :
      (state later : Crm) (operation : Value) (text : String)
      → envelope host state operation ≡ fine text
      → lookup (op_key operation) state.operations ≡ none
      → is_inherited (op_key operation) state.operations ≡ false
      → History host (apply_crm_operation host state operation).state later
      → ((apply_crm_operation host later operation).state ≡ later)
        × SameVerdict
            (apply_crm_operation host later operation).outcome
            (apply_crm_operation host state operation).outcome
  verdict_final state later operation text valid new ordinary after =
      let first =
        settle host state (op_key operation) text (handle_operation host state operation) in
      let applied =
        apply-fine host state operation text valid
        ∙ serialized-new host state operation text new ordinary in
      let (known, workspace) = settle-remembers host state operation (op_key operation) text in
      let reached = rw (applied) at after in
      let kept = History-Preserves first.state later reached in
      let same =
        sym (envelope-workspace host state later operation (workspace ∙ kept.workspace)) ∙ valid in
      rw
        (
          applied,
          apply-fine host later operation text same,
          serialized-known host later operation text _ (kept.outcomes _ _ known),
          eq_refl text,
        )
        (refl, (refl, refl))

  -- What a refusal leaves.
  abbrev pub RefusedKeeps : Crm → Applied → Type 0
  RefusedKeeps state out =
      out.outcome.accepted ≡ false
      → (out.state.entities ≡ state.entities) × (out.state.control ≡ state.control)

  settle-RefusedKeeps :
      (state : Crm) (operation : Value) (text : String)
      → RefusedKeeps state
          (settle host state (op_key operation) text (handle_operation host state operation))
  unfolding settle remember
  settle-RefusedKeeps state operation text =
      elim (Checked-cases (handle_operation host state operation)) [
        | inl (next, h) ↦ rw (h) (λ r. ground (arith, r))
        | inr (c, h) ↦ rw (h) (λ r. (refl, refl))
      ]

  -- A refused operation changes no entity and not the settings.
  pub refused_keeps :
      (state : Crm) (operation : Value)
      → (apply_crm_operation host state operation).outcome.accepted ≡ false
      → ((apply_crm_operation host state operation).state.entities ≡ state.entities)
        × ((apply_crm_operation host state operation).state.control ≡ state.control)
  refused_keeps state operation =
      apply-cases host (RefusedKeeps state) state operation (λ o h r. (refl, refl))
        (λ text h new i. settle-RefusedKeeps state operation text)
