-- ===== src/Crm/Edits/Exclusive.antt =====
-- The revision of a list in shared/model/crm.js over the operations that follow an edit of it.
use beepa.Prelude.{
  ℕ, suc, ◌<◌, ◌≢◌, String, true, false, none, some, get_or, ◌≡◌, refl, sym, ◌∙◌, arith, ◌==◌,
  eq_iff, eq_refl, lookup, Bool-cases, inl, inr, is_some,
}
use beepa.Js.{Value, get, as_natural}
use beepa.Crm.Checked.{fine}
use beepa.Crm.Canonical.{Host}
use beepa.Crm.Format.{text_of, with_field}
use beepa.Crm.State.{Crm, lists, set_entity, same_collection, remember, is_inherited, fresh}
use beepa.Crm.People.{revision_value}
use beepa.Crm.Lists.{list_create}
use beepa.Crm.Apply.{
  Kind, handle, handle_operation, settle, envelope, apply_crm_operation, kind_of,
  list_monitoring_op, list_watch_op, list_contact_obligation_op, list_obligation_op, list_seen_op,
  list_rename_op, list_archive_op, list_restore_op, control_settings_op, person_create_op,
  binding_create_op, binding_update_op, list_create_op, member_set_op, member_remove_op,
  batch_review_op, batch_cancel_op, unknown_op,
}
use beepa.Crm.Ensures.{Ensures, Ensures-then, Ensures-need, Ensures-fine}
use beepa.Crm.Edits.{
  Edited, handle-Edited, is_list_edit, current-fine, lookup-set_entity, get-with_field_same,
}
use beepa.Crm.Frame.{handle-Writes, collection_of}
use beepa.Crm.Replay.{
  Checked-cases, apply-cases, apply-refused, apply-fine, serialized-new, serialized-inherited,
  op_key,
}
use beepa.Crm.History.{History, begin, followed_by}
use beepa.Crm.Links.{current-own}

-- The list is at a revision above `b`.
pub Beyond : String → ℕ → Crm → Type 0
Beyond e b state =
    (r : ℕ) × (v : Value) × (b < r)
    × (lookup e (state.entities lists) ≡ some v)
    × (get v "revision" ≡ revision_value r)

-- The base of an operation, as the handlers read it.
abbrev pub base_of : Value → ℕ
base_of operation = get_or (as_natural (get operation "base_revision")) 0

abbrev pub target_of : Value → String
target_of operation = text_of (get operation "entity_id")

-- An accepted edit was made at the revision that the list had.
Edited-base :
    {state next : Crm} {e : String} {b r : ℕ} (v : Value)
    → Edited state e b next
    → lookup e (state.entities lists) ≡ some v
    → get v "revision" ≡ revision_value r
    → r ≡ b
Edited-base {state} {next} {e} {b} {r} v h found at =
    let own = current-own state lists e b h.old h.is_current in
    let is_old : v ≡ h.old = ground (arith, sym found ∙ own) in
    let (_, _, same) = current-fine state lists e (revision_value b) h.old h.is_current in
    ground (arith, rw (sym is_old, at) at same)

-- It leaves the list at the next one.
Edited-Beyond : {state next : Crm} {e : String} {b : ℕ} → Edited state e b next → Beyond e b next
unfolding Beyond
Edited-Beyond {state} {next} {e} {b} h =
    let new = with_field (with_field h.old h.field h.value) "revision" (revision_value (suc b)) in
    (
      suc b,
      new,
      omega arith,
      rw (h.result, lookup-set_entity state lists lists e e new, eq_refl e) refl,
      get-with_field_same (with_field h.old h.field h.value) "revision" (revision_value (suc b)),
    )

module _ (host : Host) (e : String) (b : ℕ) where
  Stays : Crm → Crm → Type 0
  Stays state next = Beyond e b state → Beyond e b next

  same_lists-Stays :
      (state next : Crm) → next.entities lists ≡ state.entities lists → Stays state next
  unfolding Stays Beyond
  same_lists-Stays state next h beyond = rw (h) beyond

  other-Stays :
      (state : Crm) (k : String) (v : Value)
      → k == e ≡ false
      → Stays state (set_entity state lists k v)
  unfolding Stays Beyond
  other-Stays state k v other (r, w, above, found, at) =
      (r, w, above, rw (lookup-set_entity state lists lists k e v, other) found, at)

  Edited-Stays :
      {state next : Crm} {k : String} {base : ℕ} → Edited state k base next → Stays state next
  unfolding Stays Beyond
  Edited-Stays {state} {next} {k} {base} h (r, v, above, found, at) = elim (Bool-cases (k == e)) [
    | inl hit ↦
        let is_e : k ≡ e = (eq_iff k e).0 hit in
        let (r', w, above', found', at') = Edited-Beyond h in
        let is_base = Edited-base v h (rw (is_e) found) at in
        (r', w, ground (arith, above, above', is_base), rw (sym is_e) found', at')
    | inr other ↦ rw (h.result) (other-Stays state k _ other (r, v, above, found, at))
  ]

  create-Stays :
      (state : Crm) (k : String) (v : Value)
      → is_some (lookup k (state.entities lists)) ≡ false
      → Stays state (set_entity state lists k v)
  unfolding Stays Beyond
  create-Stays state k v new (r, w, above, found, at) = elim (Bool-cases (k == e)) [
    | inl hit ↦ ground (arith, rw ((eq_iff k e).0 hit, found) at new)
    | inr other ↦ other-Stays state k v other (r, w, above, found, at)
  ]

  list_create-Stays :
      (state : Crm) (k : String) (base : ℕ) (p : Value)
      → Ensures (Stays state) (list_create host state k base p)
  unfolding list_create fresh
  list_create-Stays state k base p = Ensures-then _ _ (
      Ensures-then _ _
        (Ensures-need _ _ _ λ new. Ensures-fine _ (create-Stays state k _ (ground (arith, new)))))

  elsewhere :
      (state : Crm) (k : String) (base : ℕ) (o : String) (p : Value) (kind : Kind)
      → same_collection (collection_of kind) lists ≡ false
      → Ensures (Stays state) (handle host state kind k base o p)
  elsewhere state k base o p kind other = record {
    holds = λ next h.
        same_lists-Stays state next
          (((handle-Writes host state k base o p kind).holds next h).others lists other);
  }

  edit :
      (state : Crm) (k : String) (base : ℕ) (o : String) (p : Value) (kind : Kind)
      → is_list_edit kind ≡ true
      → Ensures (Stays state) (handle host state kind k base o p)
  edit state k base o p kind is_edit = record {
    holds =
        λ next h. Edited-Stays ((handle-Edited host state k base o p kind is_edit).holds next h);
  }

  handle-Stays :
      (state : Crm) (k : String) (base : ℕ) (o : String) (p : Value) (kind : Kind)
      → Ensures (Stays state) (handle host state kind k base o p)
  unfolding handle
  handle-Stays state k base o p list_create_op = list_create-Stays state k base p
  handle-Stays state k base o p list_monitoring_op = edit state k base o p list_monitoring_op refl
  handle-Stays state k base o p list_watch_op = edit state k base o p list_watch_op refl
  handle-Stays state k base o p list_contact_obligation_op =
      edit state k base o p list_contact_obligation_op refl
  handle-Stays state k base o p list_obligation_op = edit state k base o p list_obligation_op refl
  handle-Stays state k base o p list_seen_op = edit state k base o p list_seen_op refl
  handle-Stays state k base o p list_rename_op = edit state k base o p list_rename_op refl
  handle-Stays state k base o p list_archive_op = edit state k base o p list_archive_op refl
  handle-Stays state k base o p list_restore_op = edit state k base o p list_restore_op refl
  handle-Stays state k base o p control_settings_op =
      elsewhere state k base o p control_settings_op refl
  handle-Stays state k base o p person_create_op = elsewhere state k base o p person_create_op refl
  handle-Stays state k base o p binding_create_op =
      elsewhere state k base o p binding_create_op refl
  handle-Stays state k base o p binding_update_op =
      elsewhere state k base o p binding_update_op refl
  handle-Stays state k base o p member_set_op = elsewhere state k base o p member_set_op refl
  handle-Stays state k base o p member_remove_op = elsewhere state k base o p member_remove_op refl
  handle-Stays state k base o p batch_review_op = elsewhere state k base o p batch_review_op refl
  handle-Stays state k base o p batch_cancel_op = elsewhere state k base o p batch_cancel_op refl
  handle-Stays state k base o p unknown_op = elsewhere state k base o p unknown_op refl

  settle-Stays :
      (state : Crm) (operation : Value) (text : String)
      → Stays state
          (settle host state (op_key operation) text (handle_operation host state operation)).state
  unfolding settle remember handle_operation Stays Beyond
  settle-Stays state operation text beyond =
      elim (Checked-cases (handle_operation host state operation)) [
        | inl (next, h) ↦ rw (h) (
            (handle-Stays state (target_of operation) (base_of operation) (op_key operation)
                (get operation "payload") (kind_of (get operation "type"))).holds
              next h beyond)
        | inr (c, h) ↦ rw (h) beyond
      ]

  History-Stays : (start state : Crm) → History host start state → Stays start state
  unfolding Stays
  History-Stays start state begin beyond = beyond
  History-Stays start state (followed_by operation {state = before} h) beyond =
      let earlier = History-Stays start before h beyond in
      apply-cases host (λ out. Beyond e b out.state) before operation (λ o same. earlier)
        (λ text valid new i. settle-Stays before operation text earlier)

module _ (host : Host) where
  -- A handled edit: the list is then beyond the base, and no edit with that base is accepted there.
  handled-Beyond :
      (state next : Crm) (operation : Value)
      → is_list_edit (kind_of (get operation "type")) ≡ true
      → handle_operation host state operation ≡ fine next
      → Beyond (target_of operation) (base_of operation) next
  unfolding handle_operation
  handled-Beyond state next operation is_edit h = Edited-Beyond (
      (handle-Edited host state (target_of operation) (base_of operation) (op_key operation)
          (get operation "payload") (kind_of (get operation "type")) is_edit).holds
        next h)

  stale_edit_refused :
      (state next : Crm) (operation : Value)
      → is_list_edit (kind_of (get operation "type")) ≡ true
      → Beyond (target_of operation) (base_of operation) state
      → handle_operation host state operation ≢ fine next
  unfolding handle_operation Beyond
  stale_edit_refused state next operation is_edit (r, v, above, found, at) h =
      let edit =
        (handle-Edited host state (target_of operation) (base_of operation) (op_key operation)
            (get operation "payload") (kind_of (get operation "type")) is_edit).holds
          next h in
      ground (arith, above, Edited-base v edit found at)

  accepted-Beyond :
      (state : Crm) (operation : Value) (text : String)
      → is_list_edit (kind_of (get operation "type")) ≡ true
      → (settle host state
          (op_key operation)
          text
          (handle_operation host state operation)).outcome.accepted
        ≡ true
      → Beyond
          (target_of operation)
          (base_of operation)
          (settle host state (op_key operation) text (handle_operation host state operation)).state
  unfolding settle remember Beyond
  accepted-Beyond state operation text is_edit accepted =
      elim (Checked-cases (handle_operation host state operation)) [
        | inl (next, h) ↦ rw (h) (handled-Beyond state next operation is_edit h)
        | inr (c, h) ↦ ground (arith, rw (h) at accepted)
      ]

  settle-refuses :
      (state : Crm) (operation : Value) (text : String)
      → is_list_edit (kind_of (get operation "type")) ≡ true
      → Beyond (target_of operation) (base_of operation) state
      → (settle host state
          (op_key operation)
          text
          (handle_operation host state operation)).outcome.accepted
        ≡ false
  unfolding settle
  settle-refuses state operation text is_edit beyond =
      elim (Checked-cases (handle_operation host state operation)) [
        | inl (next, h) ↦ absurd (stale_edit_refused state next operation is_edit beyond h)
        | inr (c, h) ↦ rw (h) refl
      ]

  apply-refuses :
      (state : Crm) (operation : Value)
      → is_list_edit (kind_of (get operation "type")) ≡ true
      → lookup (op_key operation) state.operations ≡ none
      → Beyond (target_of operation) (base_of operation) state
      → (apply_crm_operation host state operation).outcome.accepted ≡ false
  apply-refuses state operation is_edit new beyond =
      elim (Checked-cases (envelope host state operation)) [
        | inr (c, h) ↦ rw (apply-refused host state operation c h) refl
        | inl (text, h) ↦ elim (Bool-cases (is_inherited (op_key operation) state.operations)) [
          | inl i ↦
              rw
                (
                  apply-fine host state operation text h,
                  serialized-inherited host state operation text new i,
                )
                refl
          | inr i ↦
              rw
                (
                  apply-fine host state operation text h,
                  serialized-new host state operation text new i,
                )
                (settle-refuses state operation text is_edit beyond)
        ]
      ]

  -- Of two edits of a list with the same base revision, at most one is accepted: once an edit with a
  -- valid envelope, whose id is neither remembered nor a name that objects inherit, was accepted, then
  -- whatever operations follow, every edit of that list with that base, under an id that is not
  -- remembered by then, is refused.
  pub list_edits_exclusive :
      (state later : Crm) (first second : Value) (text : String)
      → is_list_edit (kind_of (get first "type")) ≡ true
      → envelope host state first ≡ fine text
      → lookup (op_key first) state.operations ≡ none
      → is_inherited (op_key first) state.operations ≡ false
      → (apply_crm_operation host state first).outcome.accepted ≡ true
      → History host (apply_crm_operation host state first).state later
      → is_list_edit (kind_of (get second "type")) ≡ true
      → get second "entity_id" ≡ get first "entity_id"
      → get second "base_revision" ≡ get first "base_revision"
      → lookup (op_key second) later.operations ≡ none
      → (apply_crm_operation host later second).outcome.accepted ≡ false
  unfolding Stays
  list_edits_exclusive state later first second text is_edit valid new ordinary accepted after
        is_edit' same_list same_base new' =
      let applied =
        apply-fine host state first text valid
        ∙ serialized-new host state first text new ordinary in
      let reached = History-Stays host (target_of first) (base_of first) _ later after in
      let made = accepted-Beyond state first text is_edit (rw (applied) at accepted) in
      apply-refuses later second is_edit' new'
        (rw (same_list, same_base) (reached (rw (applied) made)))
