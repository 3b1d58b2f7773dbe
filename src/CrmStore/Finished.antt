-- ===== src/CrmStore/Finished.antt =====
-- The end of the loop over the pages of apps/master/crm-store.js.
use beepa.Prelude.{
  ℕ, zero, suc, ◌≤◌, String, true, false, Option, none, some, List, [], ◌∷◌, has, length, All, ◌≡◌,
  refl, sym, ap, ◌∙◌, arith, inl, inr, Bool-cases,
}
use mathlib.Core.Path.{subst}
use beepa.Js.{Value, get, is_text}
use beepa.Matrix.Client.{Method}
use beepa.Crm.Checked.{fine, need}
use beepa.Crm.Canonical.{Host}
use beepa.Crm.State.{Crm}
use beepa.Crm.Format.{elements, event_text, string_test, text_of}
use beepa.CrmStore.Tasks.{Store, Outside, resume, active, with_ready, publish}
use beepa.CrmStore.Entries.{
  Reading, Ended, ended, continued, entry_of, own_entry_of, is_own, is_redaction, is_redacted,
  crm_operation_type, is_page, next_cursor, same_cursor, pass, next_page, keep_reading,
}
use beepa.CrmStore.{
  apply_event, read_event, read_events, follow_entry, read_loop, pages_path, refresh, read_pages,
  read_once, bind_unless_bound, read_store, finish,
}

module _ (host : Host) (hash : String → String) (manager : String) (outside : Outside) where
  open outside use {World, store, set_store, is_current, api, hashing, on_change, refreshing}

  -- An operation of the manager in the room, redacted or not.
  abbrev pub IsOperation : String → Value → Type 0
  IsOperation room e =
      (string_test event_text (get e "event_id") ≡ true)
      × (is_own manager room e ≡ true)
      × (is_redaction e ≡ false)
      × (is_text (get e "type") crm_operation_type ≡ true)

  -- The server answers the reads from a cursor on, and the store stays open, with these pages of operations, the last of which names
  -- no further cursor, and the others one that is new.
  abbrev pub Serves : String → World → Option String → List String → List Value → Value → Type 0
  Serves room w cursor visited [] last =
      (after : World) × (api Method.get (pages_path host hash manager outside room cursor) none w
        ≡ (after, fine last))
      × ((store after).closed ≡ false)
      × (is_page last ≡ true)
      × All (IsOperation room) (elements (get last "chunk"))
      × (next_cursor last ≡ none)
  Serves room w cursor visited (page ∷ pages) last =
      (after : World) × (end_ : String) × (api Method.get
          (pages_path host hash manager outside room cursor) none w
        ≡ (after, fine page))
      × ((store after).closed ≡ false)
      × (is_page page ≡ true)
      × All (IsOperation room) (elements (get page "chunk"))
      × (next_cursor page ≡ some end_)
      × (same_cursor cursor end_ ≡ false)
      × (has visited end_ ≡ false)
      × Serves room after (some end_) (end_ ∷ visited) pages last

  module _ (current : (w : World) → is_current w ≡ true) (alone : (w : World) → hashing w ≡ w)
      (room : String) where
    active-goes : (w : World) → (store w).closed ≡ false → active outside w ≡ (w, fine tt)
    unfolding active need
    active-goes w shut = rw (active, shut, current w) refl

    read_event-goes :
        (reading : Reading) (e : Value) (w : World)
        → (store w).closed ≡ false
        → IsOperation room e
        → (next : Reading) × (read_event host hash manager outside room reading e w
            ≡ (w, fine (continued next)))
    unfolding read_event resume follow_entry entry_of own_entry_of
    read_event-goes reading e w shut (named, own, other, type) =
        elim (Bool-cases (has reading.seen (text_of (get e "event_id")))) [
          | inl old ↦ (reading, rw (read_event, entry_of, named, old) refl)
          | inr new ↦ elim (Bool-cases (is_redacted e)) [
            | inl gone ↦ (
              pass (text_of (get e "event_id")) reading,
              rw (read_event, entry_of, own_entry_of, named, new, own, other, type, gone) refl,
            )
            | inr there ↦ (
              apply_event host hash manager outside reading (text_of (get e "event_id"))
                  (get e "content"),
              rw
                  (
                    read_event,
                    entry_of,
                    own_entry_of,
                    named,
                    new,
                    own,
                    other,
                    type,
                    there,
                    alone w,
                    active-goes w shut,
                  )
                  refl,
            )
          ]
        ]

    read_events-goes :
        (events : List Value) (reading : Reading) (w : World)
        → (store w).closed ≡ false
        → All (IsOperation room) events
        → (next : Reading) × (read_events host hash manager outside room reading events w
            ≡ (w, fine (continued next)))
    unfolding read_events resume
    read_events-goes [] reading w shut all = (reading, refl)
    read_events-goes (e ∷ events) reading w shut (one, all) =
        let (next, step) = read_event-goes reading e w shut one in
        let (last, rest) = read_events-goes events next w shut all in
        (last, rw (read_events, step) rest)

    -- While the session is current and nothing else runs during the hashing: from an open store, with a server that answers with
    -- pages of the manager's operations, whose cursors are new and the last of which names none, the
    -- loop ends with all of the history read, as long as the pages are not more than it may read.
    pub read_loop-finishes :
        (pages : ℕ) (more : List Value) (last : Value) (reading : Reading) (cursor : Option String)
        (visited : List String) (w : World)
        → length more ≤ pages
        → (store w).closed ≡ false
        → Serves room w cursor visited more last
        → (after : World) × (next : Reading) × (end_ : Option String) × (read_loop host hash manager
              outside
              (suc pages)
              room
              reading
              cursor
              visited
              w
            ≡ (after, fine (ended next end_ true)))
          × ((store after).closed ≡ false)
    unfolding read_loop resume need
    read_loop-finishes pages [] last reading cursor visited w few shut
          (after, answer, still, ok, all, no_more) =
        let (next, read) = read_events-goes (elements (get last "chunk")) reading after still all in
        (
          after,
          next,
          cursor,
          rw
              (
                read_loop,
                active-goes w shut,
                answer,
                active-goes after still,
                ok,
                read,
                next_page,
                no_more,
              )
              refl,
          still,
        )
    read_loop-finishes zero (page ∷ more) last reading cursor visited w few shut served =
        ground (few, arith)
    read_loop-finishes (suc pages) (page ∷ more) last reading cursor visited w few shut
          (after, end_, answer, still, ok, all, has_more, moves, fresh, served) =
        let (next, read) = read_events-goes (elements (get page "chunk")) reading after still all in
        let (final, latest, stop, rest, open_) =
          read_loop-finishes pages more last next (some end_) (end_ ∷ visited) after
            (omega (arith, few)) still served in
        (
          final,
          latest,
          stop,
          rw
              (
                read_loop,
                active-goes w shut,
                answer,
                active-goes after still,
                ok,
                read,
                next_page,
                has_more,
                moves,
                fresh,
              )
              rest,
          open_,
        )

    read_once-goes :
        (w begun after : World) (state : Crm) (result : Ended)
        → (store w).closed ≡ false
        → set_store (with_ready false (store w)) w ≡ begun
        → (store begun).room_id ≡ some room
        → (store begun).state ≡ some state
        → read_loop host hash manager outside 200 room
            (record {
              state = state;
              seen = (store begun).seen_events;
              applied = (store begun).applied_events;
            })
            (store begun).cursor
            []
            begun
          ≡ (after, fine result)
        → read_once host hash manager outside w ≡ (after, fine result)
    unfolding read_once resume
    read_once-goes w begun after state result shut is is_room is_state loop =
        rw
          (
            read_once,
            active-goes w shut,
            is,
            bind_unless_bound,
            is_room,
            read_store,
            is_room,
            is_state,
            loop,
          )
          refl

    finish-goes :
        (w after : World) (next : Reading) (end_ : Option String)
        → (store w).closed ≡ false
        → (store after).closed ≡ false
        → (store (set_store (keep_reading next end_ true (store after)) after)).closed ≡ false
        → refreshing w ≡ none
        → read_once host hash manager outside w ≡ (after, fine (ended next end_ true))
        → refresh host hash manager outside w
          ≡ (on_change (set_store (keep_reading next end_ true (store after)) after), fine tt)
    unfolding refresh resume
    finish-goes w after next end_ shut still last idle once =
        rw
          (
            refresh,
            active-goes w shut,
            idle,
            read_pages,
            once,
            finish,
            active-goes after still,
            publish,
            active-goes (set_store (keep_reading next end_ true (store after)) after) last,
          )
          refl

    -- While the session is current and nothing else touches the store: a `refresh` of an open store with a
    -- room and a state, with a server that answers with at most 200 pages of the manager's operations,
    -- whose cursors are new and the last of which names none, returns and leaves the store ready.
    pub refresh-finishes :
        ((s : Store) (w : World) → store (set_store s w) ≡ s)
        → ((w : World) → store (on_change w) ≡ store w)
        → ((w : World) → refreshing w ≡ none)
        → (state : Crm) (more : List Value) (last : Value) (w : World) → (store w).closed ≡ false
        → (store w).room_id ≡ some room
        → (store w).state ≡ some state
        → length more ≤ 199
        → Serves room (set_store (with_ready false (store w)) w) (store w).cursor [] more last
        → (after : World) × (refresh host hash manager outside w ≡ (after, fine tt))
          × ((store after).ready ≡ true)
    refresh-finishes stored told idle state more last w shut is_room is_state few served =
        let begun = set_store (with_ready false (store w)) w in
        let same = stored (with_ready false (store w)) w in
        let reading : Reading = record {
          state = state;
          seen = (store begun).seen_events;
          applied = (store begun).applied_events;
        } in
        let (after, next, end_, loop, still) =
          read_loop-finishes 199 more last reading (store begun).cursor [] begun few
            (ap (λ (s : Store). s.closed) same ∙ shut)
            (subst (λ c. Serves room begun c [] more last) (sym (ap (λ (s : Store). s.cursor) same))
              served) in
        let kept = set_store (keep_reading next end_ true (store after)) after in
        let once =
          read_once-goes w begun after state (ended next end_ true) shut refl
            (ap (λ (s : Store). s.room_id) same ∙ is_room)
            (ap (λ (s : Store). s.state) same ∙ is_state) loop in
        (
          on_change kept,
          finish-goes w after next end_ shut still
              (ap (λ (s : Store). s.closed)
                  (stored (keep_reading next end_ true (store after)) after)
                ∙ still)
              (idle w) once,
          rw (told kept, stored (keep_reading next end_ true (store after)) after) refl,
        )
