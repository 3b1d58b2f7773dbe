-- ===== src/CrmStore/Append/Outcomes.antt =====
-- What `append` of apps/master/crm-store.js reports.
use beepa.Prelude.{
  String, true, false, not, ◌||◌, Option, none, some, ◌≡◌, refl, sym, ◌⊎◌, inl, inr, arith, ap, ◌∙◌,
  ◌==◌, eq_iff, lookup, Bool-cases, Option-cases, leb,
}
use beepa.Js.{Value, get}
use beepa.Crm.Checked.{Checked, fine, refused, fine-fine}
use beepa.Crm.Canonical.{Host, canonical, utf8_length, crm_max_bytes}
use beepa.Crm.Format.{text_of}
use beepa.Crm.State.{Crm, Outcome, Remembered}
use beepa.Crm.Replay.{Checked-cases}
use beepa.Crm.Verified.{apply_verified_crm_operation}
use beepa.CrmStore.Tasks.{Outside, Store}
use beepa.CrmStore.Runs.{Runs, Runs-bind, Runs-done, Runs-fine, Runs-checked, Runs-throw}
use beepa.CrmStore.Append.{
  Report, append, work, preview_and_send, send, observed, frozen_text, unsent,
}

-- The outcome is what the state remembers for the operation, with the text of the operation.
abbrev pub FromReplay : Option Crm → Value → String → Outcome → Type 0
FromReplay found operation serialized outcome =
    (state : Crm) × (r : Remembered) × (found ≡ some state)
    × (lookup (text_of (get operation "op_id")) state.operations ≡ some r)
    × (r.serialized ≡ serialized)
    × (r.outcome ≡ outcome)

observed-FromReplay :
    (found : Option Crm) (operation : Value) (serialized event_id : String) (report : Report)
    → observed found (text_of (get operation "op_id")) serialized event_id ≡ fine report
    → (report.event_id ≡ some event_id) × FromReplay found operation serialized report.outcome
unfolding observed
observed-FromReplay none operation serialized event_id report h = ground (arith, h)
observed-FromReplay (some state) operation serialized event_id report h =
    elim (Option-cases (lookup (text_of (get operation "op_id")) state.operations)) [
      | inl absent ↦ ground (arith, rw (observed, absent) at h)
      | inr (r, known) ↦ elim (Bool-cases (r.serialized == serialized)) [
        | inr other ↦ ground (arith, rw (observed, known, other) at h)
        | inl same ↦
            let made = fine-fine _ _ (rw (observed, known, same) at h) in
            rw (sym made)
              (refl, (state, r, refl, known, (eq_iff r.serialized serialized).0 same, refl))
      ]
    ]

stopped :
    (o : Outcome)
    → (not o.accepted || o.duplicate) ≡ true
    → (o.accepted ≡ false) ⊎ (o.duplicate ≡ true)
stopped o h = ground (h, arith)

module _ (host : Host) (hash : String → String) (manager : String) (outside : Outside) where
  open outside use {World, store}

  -- The outcome is that of the preview on some state, which refused the operation or knew it.
  abbrev pub FromPreview : Value → Outcome → Type 0
  FromPreview operation outcome =
      (state : Crm) × ((apply_verified_crm_operation host hash state operation).outcome ≡ outcome)
      × ((outcome.accepted ≡ false) ⊎ (outcome.duplicate ≡ true))

  abbrev pub Reported : Value → String → World → Report → Type 0
  Reported operation serialized w report = elim report.event_id [
    | none ↦ FromPreview operation report.outcome
    | some event_id ↦ FromReplay (store w).state operation serialized report.outcome
  ]

  abbrev Reports : Value → String → World × Checked Report → Type 0
  Reports operation serialized =
      Runs {World = World} {A = Report} (λ w. Unit) (Reported operation serialized)

  anything :
      {A : Type 0} {result : World × Checked A}
      → Runs {World = World} {A = A} (λ w. Unit) (λ w a. Unit) result
  anything {result = (w, fine a)} = Runs-done w a tt
  anything {result = (w, refused message)} = Runs-throw w message tt

  abbrev IsStore : World → Store → Type 0
  IsStore w s = s ≡ store w

  send-Reports :
      (operation : Value) (serialized room : String) (w : World)
      → Reports operation serialized (send host hash manager outside operation serialized room w)
  unfolding send
  send-Reports operation serialized room w = Runs-bind _ _ anything λ w result _.
      Runs-bind _ _ anything λ w _ _. Runs-bind _ _ anything λ w _ _.
        Runs-bind _ _ anything λ w _ _. Runs-bind _ _ anything λ w _ _.
          Runs-bind _ _ (Runs-done {returned = IsStore} w (store w) refl) λ w s is.
            Runs-checked w
              (observed s.state (text_of (get operation "op_id")) serialized
                (text_of (get result "event_id")))
              tt
              λ report h.
                let (id, found) = observed-FromReplay s.state operation serialized _ report h in
                rw (id) (rw (is) at found)

  preview-Reports :
      (operation : Value) (serialized : String) (state : Crm) (room : String) (w : World)
      → Reports operation serialized
          (preview_and_send host hash manager outside operation serialized state room w)
  unfolding preview_and_send
  preview-Reports operation serialized state room w =
      let preview = (apply_verified_crm_operation host hash state operation).outcome in
      Runs-bind _ _ anything λ w _ _. Runs-bind _ _ anything λ w _ _.
        elim (Bool-cases (not preview.accepted || preview.duplicate)) [
          | inl stops ↦
              rw (stops) (Runs-done w (unsent preview) (state, refl, stopped preview stops))
          | inr goes ↦ rw (goes) (send-Reports operation serialized room w)
        ]

  work-Reports :
      (operation : Value) (serialized : String) (w : World)
      → Reports operation serialized (work host hash manager outside operation serialized w)
  unfolding work
  work-Reports operation serialized w = Runs-bind _ _ anything λ w _ _.
      Runs-bind _ _ anything λ w _ _. Runs-bind _ _ anything λ w _ _.
        Runs-bind _ _ anything λ w _ _.
          Runs-bind _ _ (Runs-done {returned = IsStore} w (store w) refl) λ w s is.
            Runs-bind _ _ anything λ w _ _. elim (Option-cases s.state) [
              | inl absent ↦ rw (absent) (Runs-throw w "TypeError" tt)
              | inr (state, found) ↦ elim (Option-cases s.room_id) [
                | inl absent ↦ rw (found, absent) (Runs-throw w "TypeError" tt)
                | inr (room, bound) ↦
                    rw (found, bound) (preview-Reports operation serialized state room w)
              ]
            ]

  abbrev get_checked : World × Checked Report → Checked Report
  get_checked result = result.1

  frozen-canonical :
      (operation : Value) (serialized : String)
      → frozen_text host operation ≡ fine serialized
      → canonical host operation ≡ fine serialized
  unfolding frozen_text
  frozen-canonical operation serialized h = elim (Checked-cases (canonical host operation)) [
    | inr (code, thrown) ↦ ground (arith, rw (frozen_text, thrown) at h)
    | inl (text, made) ↦ elim (Bool-cases (leb (utf8_length text) crm_max_bytes)) [
      | inl fits ↦ made ∙ (rw (frozen_text, made, fits) at h)
      | inr large ↦ ground (arith, rw (frozen_text, made, large) at h)
    ]
  ]

  -- What `append` returns without an event id is the outcome of the preview on some state, which refused
  -- the operation or knew it already. What it returns with an event id is what the state of the store,
  -- at the return, remembers under the operation's id, for an operation with the same serialization:
  -- a write is reported from the replay alone.
  pub append-Reported :
      (operation : Value) (w later : World) (report : Report)
      → append host hash manager outside operation w ≡ (later, fine report)
      → (serialized : String) × (canonical host operation ≡ fine serialized)
        × Reported operation serialized later report
  unfolding append frozen_text
  append-Reported operation w later report h = elim (Checked-cases (frozen_text host operation)) [
    | inr (message, thrown) ↦ ground (arith, ap get_checked (rw (append, thrown) at h))
    | inl (serialized, frozen) ↦ (
      serialized,
      frozen-canonical operation serialized frozen,
      Runs-fine _ later report (rw (append, frozen) at h) (work-Reports operation serialized w),
    )
  ]
