-- ===== src/CrmStore/Replayed/Refreshed.antt =====
-- What `refresh` of apps/master/crm-store.js leaves in the store.
use beepa.Prelude.{
  ℕ, zero, suc, String, Bool, true, false, Option, some, [], ◌≡◌, refl, sym, ap, ◌∙◌, inl, inr,
  arith, Option-cases, if◌then◌else◌,
}
use mathlib.Core.Path.{subst}
use beepa.Js.{Value, undefined, str}
use beepa.Matrix.Client.{Method}
use beepa.Crm.Checked.{Checked, fine, refused}
use beepa.Crm.Canonical.{Host}
use beepa.Crm.Format.{bounded_identity}
use beepa.Crm.State.{Crm, create_crm_state}
use beepa.CrmStore.Tasks.{Store, Outside, Task, is_active, publish, with_ready, done}
use beepa.CrmStore.Runs.{Runs, Runs-bind, Runs-done, Runs-checked, Runs-throw, Runs-weaken}
use beepa.CrmStore.{
  read_store, read_once, finish, start_again, read_pages, finish_unless_again, caught, refresh,
}
use beepa.CrmStore.Entries.{Reading, Ended, ended, again, keep_reading, reset_store, bound_room}
use beepa.CrmStore.Timeline.{timeline_state-History}
use beepa.Crm.Verified.Integrity.{AllVerified, VerifiedHistory, create_crm_state-AllVerified}
use beepa.CrmStore.Replayed.Binding
use beepa.CrmStore.Replayed.Binding.{
  no_workspace, started, active-Fine, update-Runs, bind_unless-Runs,
}
use beepa.CrmStore.Replayed.Pages.{Quiet, Same, Quiet-Safe, ReplaysEnded, read_loop-Runs}

module _ (host : Host) (hash : String → String) (manager : String) (outside : Outside) where
  open outside use {
    World, store, set_store, is_current, api, hashing, bootstrap, on_change, refreshing,
  }

  abbrev Good : Store → Type 0
  Good = Binding.Good host hash manager outside

  abbrev Fine : World → Type 0
  Fine = Binding.Fine host hash manager outside

  abbrev Calm : World → World → Type 0
  Calm = Quiet host hash manager outside

  module _ (stored : (s : Store) (w : World) → store (set_store s w) ≡ s)
      (api_quiet : (method : Method) (path : String) (body : Option Value) (w : World)
        → Calm w (api method path body w).0)
      (hashing_quiet : (w : World) → Calm w (hashing w))
      (bootstrap_quiet : (w : World) → Calm w (bootstrap w).0)
      (on_change_quiet : (w : World) → Calm w (on_change w))
      (pending_fine : (w : World) (pending : World × Checked (Unit {0}))
        → Fine w
        → refreshing w ≡ some pending
        → Fine pending.0) where
    publish-Runs : (w : World) → Fine w → Runs Fine (λ v a. Fine v) (publish outside w)
    unfolding publish
    publish-Runs w good = Runs-bind _ _ (active-Fine host hash manager outside w good) λ v a same.
        let now = Quiet-Safe host hash manager outside w v good (inl same) in
        Runs-done _ tt
          (Quiet-Safe host hash manager outside v (on_change v) now (on_change_quiet v))

    -- What a reading leaves to be kept.
    abbrev Kept : World → Ended → Type 0
    Kept w again = Fine w
    Kept w (ended reading cursor ready) =
        Fine w
        × ((room : String) × ((store w).room_id ≡ some room)
            × ReplaysEnded host hash manager outside room (ended reading cursor ready))

    read_store-Runs :
        (w : World) → Fine w → Runs Fine Kept (read_store host hash manager outside (store w) w)
    unfolding read_store
    read_store-Runs w (inl bare) = elim (Option-cases (store w).room_id) [
      | inl no_room ↦ rw (read_store, no_room) (Runs-throw w _ (inl bare))
      | inr (room, is_room) ↦ rw (read_store, is_room, bare.0) (Runs-throw w _ (inl bare))
    ]
    read_store-Runs w (inr (room, state, events, is_room, is_state, served, replays)) =
        rw (read_store, is_room, is_state)
          (Runs-weaken _
            (read_loop-Runs host hash manager outside api_quiet hashing_quiet room 200 events
              (record {
                state = state;
                seen = (store w).seen_events;
                applied = (store w).applied_events;
              })
              (store w).cursor [] w now served replays)
            kept)
      where
        now : Fine w
        now = inr (room, state, events, is_room, is_state, served, replays)

        kept :
            (v : World) (result : Ended)
            → Same host hash manager outside w v
              × ReplaysEnded host hash manager outside room result
            → Kept v result
        kept v again h = Quiet-Safe host hash manager outside w v now (inl h.0)
        kept v (ended reading cursor ready) h = (
          Quiet-Safe host hash manager outside w v now (inl h.0),
          (room, ap (λ (s : Store). s.room_id) h.0 ∙ is_room, h.1),
        )

    read_once-Runs : (w : World) → Fine w → Runs Fine Kept (read_once host hash manager outside w)
    unfolding read_once
    read_once-Runs w good = Runs-bind _ _ (active-Fine host hash manager outside w good) λ v a same.
        Runs-bind _ _
          (update-Runs host hash manager outside stored bootstrap_quiet (with_ready false) v
            (Quiet-Safe host hash manager outside w v good (inl same)))
          λ x a now.
            Runs-bind _ _ (bind_unless-Runs host hash manager outside stored bootstrap_quiet x now)
              λ y a bound.
                Runs-bind _ _
                  (Runs-done {returned = λ z s. (z ≡ y) × (s ≡ store y)} y (store y) (refl, refl))
                  λ z s is. rw (is.0, is.1) (read_store-Runs y bound)

    finish-Runs :
        (reading : Reading) (cursor : Option String) (ready : Bool) (w : World)
        → Kept w (ended reading cursor ready)
        → Runs Fine (λ v a. Fine v) (finish host hash manager outside reading cursor ready w)
    unfolding finish
    finish-Runs reading cursor ready w (good, (room, is_room, (events, served, replays))) =
        Runs-bind _ _ (active-Fine host hash manager outside w good) λ v a same.
          Runs-bind _ _
            (update-Runs host hash manager outside stored bootstrap_quiet
              (keep_reading reading cursor ready) v
              (inr (
                room,
                reading.state,
                events,
                ap (λ (s : Store). s.room_id) same ∙ is_room,
                refl,
                served,
                replays,
              )))
            λ x a now. publish-Runs x now

    reset-Good :
        (state : Crm) (s : Store)
        → Good s
        → create_crm_state (bound_room s) (str manager) ≡ fine state
        → Good (reset_store state s)
    unfolding bounded_identity
    reset-Good state s good made = elim (Option-cases s.room_id) [
      | inl no_room ↦
          no_workspace undefined (str manager) state refl (rw (bound_room, no_room) at made)
      | inr (room, is_room) ↦
          started host hash manager outside room state (reset_store state s) is_room refl refl refl
            (rw (bound_room, is_room) at made)
    ]

    start_again-Runs :
        (w : World) → Fine w → Runs Fine (λ v a. Fine v) (start_again host hash manager outside w)
    unfolding start_again
    start_again-Runs w good =
        Runs-bind _ _
          (Runs-done {returned = λ z s. (z ≡ w) × (s ≡ store w)} w (store w) (refl, refl))
          λ z s is.
            rw (is.0, is.1)
              (Runs-bind
                {between = λ v state.
                  (v ≡ w) × (create_crm_state (bound_room (store w)) (str manager) ≡ fine state)}
                _ _ (Runs-checked w _ good (λ state made. (refl, made)))
                λ v state h. rw (h.0) (
                  update-Runs host hash manager outside stored bootstrap_quiet (reset_store state) w
                    (reset-Good state (store w) good h.1)))

    ended-Runs :
        (v : World) (rebuilt : Task World (Unit {0}))
        → (Fine v → Runs Fine (λ x a. Fine x) (rebuilt v))
        → (result : Ended) → Kept v result
        → Runs Fine (λ x a. Fine x) (finish_unless_again host hash manager outside rebuilt result v)
    ended-Runs v rebuilt k again now = k now
    ended-Runs v rebuilt k (ended reading cursor ready) kept =
        finish-Runs reading cursor ready v kept

    read_pages-Runs :
        (rebuilds : ℕ) (w : World)
        → Fine w
        → Runs Fine (λ v a. Fine v) (read_pages host hash manager outside rebuilds w)
    unfolding read_pages
    read_pages-Runs zero w good = Runs-bind _ _ (read_once-Runs w good) λ v result kept.
        ended-Runs v (done (refused "CRM history changed during replay; refresh again"))
          (λ now. Runs-throw v _ now) result kept
    read_pages-Runs (suc rebuilds) w good = Runs-bind _ _ (read_once-Runs w good) λ v result kept.
        ended-Runs v _
          (λ now.
            Runs-bind _ _ (start_again-Runs v now) λ x a fresh. read_pages-Runs rebuilds x fresh)
          result kept

    caught-Runs :
        (result : World × Checked (Unit {0}))
        → Runs Fine (λ v a. Fine v) result
        → Runs Fine (λ v a. Fine v) (caught host hash manager outside result)
    unfolding caught
    caught-Runs (w, fine u) run = run
    caught-Runs (w, refused message) run =
        Runs-bind _ _
          (update-Runs host hash manager outside stored bootstrap_quiet (with_ready false) w
            run.holds)
          λ v a now.
            Runs-bind _ _ (Runs-done {returned = λ x b. x ≡ v} v (is_active outside v) refl)
              λ x open_ is.
                Runs-bind _ _ (published x open_ (subst Fine (sym is) now))
                  λ y a last. Runs-throw y message last
      where
        published :
            (x : World) (open_ : Bool)
            → Fine x
            → Runs Fine (λ v a. Fine v) ((if open_ then publish outside else done (fine tt)) x)
        published x true now = publish-Runs x now
        published x false now = Runs-done x tt now

    -- A store stands for a timeline if it has no state, no cursor and no seen events, or if its state is
    -- that of the events of whole pages, which the server answered along its cursors from the first page
    -- on, each id counting once and sent by the manager for this room. If other code leaves the store
    -- alone while `refresh` awaits it, unless it closes the store, and a read that was under way before
    -- leaves a store that stands for a timeline, then `refresh` makes of such a store such a store,
    -- whether it returns or throws.
    pub refresh-StandsFor :
        (w : World) → Fine w → Runs Fine (λ v a. Fine v) (refresh host hash manager outside w)
    unfolding refresh
    refresh-StandsFor w good =
        Runs-bind _ _ (active-Fine host hash manager outside w good) λ v a same.
          let now = Quiet-Safe host hash manager outside w v good (inl same) in
          elim (Option-cases (refreshing v)) [
            | inl idle ↦
                rw (idle)
                  (caught-Runs (read_pages host hash manager outside 3 v) (read_pages-Runs 3 v now))
            | inr (pending, found) ↦ rw (found) (either pending (pending_fine v pending now found))
          ]
      where
        either :
            (pending : World × Checked (Unit {0}))
            → Fine pending.0
            → Runs Fine (λ v a. Fine v) pending
        either (v, fine u) now = Runs-done v u now
        either (v, refused message) now = Runs-throw v message now

    -- From a store that stands for a timeline, if other code leaves the store alone while `refresh` awaits
    -- it, unless it closes the store, and a read that was under way before leaves a store that stands for
    -- a timeline: each batch of the state that `refresh` leaves has the payload hash and the child ids
    -- that its contents give.
    pub refresh-AllVerified :
        (w : World) (state : Crm)
        → Fine w
        → (store (refresh host hash manager outside w).0).state ≡ some state
        → AllVerified host hash state
    refresh-AllVerified w state good is_state =
        elim (always (refresh host hash manager outside w) (refresh-StandsFor w good)) [
          | inl (no_state, no_cursor, no_seen) ↦ ground (sym no_state ∙ is_state, arith)
          | inr (room, kept, events, is_room, is_kept, served, replays) ↦
              create_crm_state-AllVerified host hash (str room) (str manager) replays.start state
                replays.created
                (subst (VerifiedHistory host hash replays.start)
                  (sym replays.state_is ∙ some-some (sym is_kept ∙ is_state))
                  (timeline_state-History host hash replays.start events))
        ]
      where
        always :
            (result : World × Checked (Unit {0})) → Runs Fine (λ v a. Fine v) result → Fine result.0
        always (v, fine u) run = run.holds
        always (v, refused message) run = run.holds

        some-some : {a b : Crm} → ◌≡◌ {A = Option Crm} (some a) (some b) → a ≡ b
        some-some h = ground (arith, h)
