-- ===== src/CrmStore/Replayed/Binding.antt =====
-- The binding of the store of apps/master/crm-store.js to its room.
use beepa.Prelude.{
  String, false, none, some, [], has, ◌≡◌, refl, sym, ap, ◌∙◌, inl, inr, arith, Bool-cases, is_some,
}
use mathlib.Core.Path.{subst}
use beepa.Js.{Value, undefined, null, bool, num, arr, obj, str, get, as_string}
use beepa.Crm.Checked.{fine, need-fine}
use beepa.Crm.Canonical.{Host}
use beepa.Crm.Format.{bounded_identity, room as room_text}
use beepa.Crm.State.{Crm, create_crm_state}
use beepa.CrmStore.Tasks.{Store, Outside, active, update}
use beepa.CrmStore.Runs.{Runs, Runs-bind, Runs-done, Runs-checked, Runs-throw}
use beepa.CrmStore.{bind, bind_to, new_workspace, bind_unless_bound}
use beepa.CrmStore.Entries.{is_workspace}
use beepa.CrmStore.Replayed.{Served, nothing}
use beepa.CrmStore.Replayed.Pages.{
  StandsFor, Unbound, Quiet, Safe, Same, Quiet-Safe, call-Runs, active-Runs,
}

pub no_workspace :
    {P : Type 0} (room owner : Value) (state : Crm)
    → bounded_identity room_text room ≡ false
    → create_crm_state room owner ≡ fine state
    → P
unfolding create_crm_state
no_workspace room owner state no_text h =
    let (named, _) = need-fine _ _ _ _ h in ground (named, no_text, arith)

module _ (host : Host) (hash : String → String) (manager : String) (outside : Outside) where
  open outside use {World, store, set_store, bootstrap}

  -- What a store stands for, and a world in which it stands for something.
  abbrev pub Good : Store → Type 0
  Good = StandsFor host hash manager outside

  abbrev pub Fine : World → Type 0
  Fine = Safe host hash manager outside

  -- A store without a room has no state.
  Good-Unbound :
      (s : Store) → Good s → is_some s.room_id ≡ false → Unbound host hash manager outside s
  Good-Unbound s (inl bare) h = bare
  Good-Unbound s (inr (room, state, events, is_room, is_state, served, replays)) h =
      ground (rw (is_room) at h, arith)

  -- A store from which no event was read, with its room and the state made for it.
  pub started :
      (room : String) (state : Crm) (s : Store)
      → s.room_id ≡ some room
      → s.state ≡ some state
      → s.cursor ≡ none
      → s.seen_events ≡ []
      → create_crm_state (str room) (str manager) ≡ fine state
      → Good s
  started room state s is_room is_state no_cursor no_seen made = inr (
    room,
    state,
    [],
    is_room,
    is_state,
    subst (λ c. Served host hash manager outside room c []) (sym no_cursor) nothing,
    record {
      start = state;
      created = made;
      own = tt;
      state_is = refl;
      seen_are = λ k. ap (λ xs. has xs k) no_seen;
    },
  )

  bound_at :
      (room : Value) (state : Crm) (s : Store)
      → s.room_id ≡ as_string room
      → s.state ≡ some state
      → s.cursor ≡ none
      → s.seen_events ≡ []
      → create_crm_state room (str manager) ≡ fine state
      → Good s
  unfolding bounded_identity
  bound_at (str r) state s a b c d made = started r state s a b c d made
  bound_at undefined state s a b c d made = no_workspace undefined (str manager) state refl made
  bound_at null state s a b c d made = no_workspace null (str manager) state refl made
  bound_at (bool x) state s a b c d made = no_workspace (bool x) (str manager) state refl made
  bound_at (num n) state s a b c d made = no_workspace (num n) (str manager) state refl made
  bound_at (arr vs) state s a b c d made = no_workspace (arr vs) (str manager) state refl made
  bound_at (obj fs) state s a b c d made = no_workspace (obj fs) (str manager) state refl made

  pub active-Fine :
      (w : World)
      → Fine w
      → Runs Fine (λ v a. Same host hash manager outside w v) (active outside w)
  active-Fine w good = active-Runs host hash manager outside w w good (inl refl)

  module _ (stored : (s : Store) (w : World) → store (set_store s w) ≡ s)
      (bootstrap_quiet : (w : World) → Quiet host hash manager outside w (bootstrap w).0) where
    pub update-Runs :
        (f : Store → Store) (w : World)
        → Good (f (store w))
        → Runs Fine (λ v a. Fine v) (update outside f w)
    update-Runs f w good = Runs-done _ tt (subst Good (sym (stored (f (store w)) w)) good)

    new_workspace-Runs :
        (info : Value) (w : World)
        → Unbound host hash manager outside (store w)
        → Runs Fine (λ v a. Fine v) (new_workspace host hash manager outside info w)
    unfolding new_workspace
    new_workspace-Runs info w (no_state, no_cursor, no_seen) =
        Runs-bind _ _
          (Runs-done {returned = λ v a. store v ≡ named} (set_store named w) tt (stored named w))
          λ v a is.
            let cursor_is = ap (λ (s : Store). s.cursor) is ∙ no_cursor in
            let seen_is = ap (λ (s : Store). s.seen_events) is ∙ no_seen in
            Runs-bind
              {between = λ x state.
                (x ≡ v) × (create_crm_state (get info "room_id") (str manager) ≡ fine state)}
              _ _
              (Runs-checked v _
                (inl (ap (λ (s : Store). s.state) is ∙ no_state, cursor_is, seen_is))
                (λ state made. (refl, made)))
              λ x state h. rw (h.0) (
                update-Runs (λ s. record s { state = some state }) v
                  (bound_at (get info "room_id") state (record (store v) { state = some state })
                    (ap (λ (s : Store). s.room_id) is) refl cursor_is seen_is h.1))
      where
        named : Store
        named = record (store w) { room_id = as_string (get info "room_id") }

    bind_to-Runs :
        (info : Value) (w : World)
        → Fine w
        → Runs Fine (λ v a. Fine v) (bind_to host hash manager outside info w)
    unfolding bind_to
    bind_to-Runs info w good = elim (Bool-cases (is_workspace manager (store w).room_id info)) [
      | inr other ↦ rw (bind_to, other) (Runs-throw w _ good)
      | inl same ↦ elim (Bool-cases (is_some (store w).room_id)) [
        | inl has_room ↦ rw (bind_to, same, has_room) (Runs-done w _ good)
        | inr bare ↦
            rw (bind_to, same, bare) (new_workspace-Runs info w (Good-Unbound (store w) good bare))
      ]
    ]

    bind-Runs : (w : World) → Fine w → Runs Fine (λ v a. Fine v) (bind host hash manager outside w)
    unfolding bind
    bind-Runs w good = Runs-bind _ _ (active-Fine w good) λ v a same.
        let now = Quiet-Safe host hash manager outside w v good (inl same) in
        Runs-bind _ _ (call-Runs host hash manager outside v _ now (bootstrap_quiet v))
          λ x info call.
            Runs-bind _ _ (active-Runs host hash manager outside v x now call.0) λ y a same_again.
              bind_to-Runs info y (Quiet-Safe host hash manager outside v y now (inl same_again))

    pub bind_unless-Runs :
        (w : World)
        → Fine w
        → Runs Fine (λ v a. Fine v) (bind_unless_bound host hash manager outside w)
    unfolding bind_unless_bound
    bind_unless-Runs w good = elim (Bool-cases (is_some (store w).room_id)) [
      | inl has_room ↦ rw (bind_unless_bound, has_room) (Runs-done w _ good)
      | inr bare ↦ rw (bind_unless_bound, bare) (bind-Runs w good)
    ]
