-- ===== src/CrmStore/Replayed/Pages.antt =====
-- The loop over the pages of apps/master/crm-store.js, in a world where other code may close the store.
use beepa.Prelude.{
  append-again, append-nil, ℕ, zero, suc, String, true, Option, none, some, List, [], ◌∷◌, ◌++◌,
  has, ltb, length, ◌≡◌, refl, sym, ap, ◌∙◌, ◌⊎◌, inl, inr, arith, eq_iff, Bool-cases, Option-cases,
}
use mathlib.Core.Path.{subst}
use beepa.Js.{Value, get}
use beepa.Matrix.Client.{Method}
use beepa.Crm.Checked.{Checked, fine, refused, need}
use beepa.Crm.Canonical.{Host}
use beepa.Crm.Format.{elements}
use beepa.Crm.State.{Crm}
use beepa.CrmStore.Tasks.{Store, Outside, Task, close_store, active}
use beepa.CrmStore.Runs.{Runs, Runs-bind, Runs-done, Runs-checked, Runs-throw}
use beepa.CrmStore.{read_event, read_events, read_loop, follow_entry}
use beepa.CrmStore.Entries.{
  Reading, Entry, known, rebuilding, passed, operates, Step, continued, rebuild, Ended, ended,
  again, entry_of, next_cursor, unless_rebuild, next_page, same_cursor,
}
use beepa.CrmStore.Replayed.{
  cursor_after, Served, page_after, Replays, ReplaysEntry, entry_of-Replays,
}

module _ (host : Host) (hash : String → String) (manager : String) (outside : Outside) where
  open outside use {
    World, store, set_store, is_current, api, hashing, bootstrap, on_change, refreshing,
  }

  -- The store stands for the events of whole pages, or has no state yet.
  abbrev pub Unbound : Store → Type 0
  Unbound s = (s.state ≡ none) × (s.cursor ≡ none) × (s.seen_events ≡ [])

  abbrev pub Bound : Store → Type 0
  Bound s =
      (room : String) × (state : Crm) × (events : List Value) × (s.room_id ≡ some room)
      × (s.state ≡ some state)
      × Served host hash manager outside room s.cursor events
      × Replays host hash manager outside room events
          (record { state = state; seen = s.seen_events; applied = s.applied_events })

  abbrev pub StandsFor : Store → Type 0
  StandsFor s = Unbound s ⊎ Bound s

  -- Meanwhile nothing was changed in the store, unless it was closed.
  abbrev pub Quiet : World → World → Type 0
  Quiet w after = (store after ≡ store w) ⊎ (store after ≡ close_store (store w))

  abbrev pub Safe : World → Type 0
  Safe w = StandsFor (store w)

  abbrev pub Same : World → World → Type 0
  Same w after = store after ≡ store w

  pub Quiet-Safe : (w after : World) → Safe w → Quiet w after → Safe after
  Quiet-Safe w after safe (inl same) = subst StandsFor (sym same) safe
  Quiet-Safe w after safe (inr shut) = subst StandsFor (sym shut) (inl (refl, refl, refl))

  -- After a call, and after the test that follows it.
  pub call-Runs :
      {A : Type 0} (w : World) (result : World × Checked A)
      → Safe w
      → Quiet w result.0
      → Runs Safe (λ v a. Quiet w v × (result ≡ (v, fine a))) result
  call-Runs w (v, fine a) safe quiet = Runs-done v a (quiet, refl)
  call-Runs w (v, refused message) safe quiet = Runs-throw v message (Quiet-Safe w v safe quiet)

  pub active-Runs :
      (w after : World)
      → Safe w
      → Quiet w after
      → Runs Safe (λ v a. Same w v) (active outside after)
  unfolding active need
  active-Runs w after safe (inl same) =
      Runs-checked after _ (Quiet-Safe w after safe (inl same)) (λ a h. same)
  active-Runs w after safe (inr shut) =
      Runs-checked after _ (Quiet-Safe w after safe (inr shut))
        (λ a h. ground (arith, rw (ap (λ (s : Store). s.closed) shut) at h))

  -- What the loop over the pages ends with.
  abbrev pub ReplaysEnded : String → Ended → Type 0
  ReplaysEnded room again = Unit
  ReplaysEnded room (ended reading cursor ready) =
      (events : List Value) × Served host hash manager outside room cursor events
      × Replays host hash manager outside room events reading

  module _
      (api_quiet : (method : Method) (path : String) (body : Option Value) (w : World)
        → Quiet w (api method path body w).0)
      (hashing_quiet : (w : World) → Quiet w (hashing w)) (room : String) where
    abbrev ReplaysStep : List Value → Step → Type 0
    ReplaysStep events (continued next) = Replays host hash manager outside room events next
    ReplaysStep events rebuild = Unit

    follow_entry-Runs :
        (events : List Value) (reading : Reading) (e : Value)
        (old : Replays host hash manager outside room events reading) (w : World) (entry : Entry)
        → Safe w
        → ReplaysEntry host hash manager outside room events reading e old entry
        → Runs Safe
            (λ v step. Same w v × ReplaysStep (events ++ (e ∷ [])) step)
            (follow_entry host hash manager outside reading e entry w)
    unfolding follow_entry
    follow_entry-Runs events reading e old w known safe h = Runs-done w _ (refl, h)
    follow_entry-Runs events reading e old w rebuilding safe h = Runs-done w _ (refl, h)
    follow_entry-Runs events reading e old w (passed event_id) safe h = Runs-done w _ (refl, h)
    follow_entry-Runs events reading e old w (operates event_id) safe h =
        Runs-bind _ _ (Runs-done {returned = λ x a. Quiet w x} (hashing w) tt (hashing_quiet w))
          λ x a quiet.
            Runs-bind _ _ (active-Runs w x safe quiet) λ y b same. Runs-done y _ (same, h)

    read_event-Runs :
        (events : List Value) (reading : Reading) (e : Value) (w : World)
        → Safe w
        → Replays host hash manager outside room events reading
        → Runs Safe
            (λ v step. Same w v × ReplaysStep (events ++ (e ∷ [])) step)
            (read_event host hash manager outside room reading e w)
    unfolding read_event
    read_event-Runs events reading e w safe old =
        Runs-bind
          {between = λ v entry.
            (v ≡ w) × ReplaysEntry host hash manager outside room events reading e old entry}
          _ _
          (Runs-checked w (entry_of manager room reading e) safe (λ entry h.
            (refl, entry_of-Replays host hash manager outside room events reading e old entry h)))
          λ v entry h. rw (h.0) (follow_entry-Runs events reading e old w entry safe h.1)

    unless_rebuild-Runs :
        {A : Type 0} {returned : World → A → Type 0} (w v : World) (events : List Value)
        (rebuilt : A) (go_on : Reading → Task World A)
        → returned v rebuilt
        → ((next : Reading)
            → Replays host hash manager outside room events next
            → Runs Safe returned (go_on next v))
        → (step : Step) → ReplaysStep events step
        → Runs Safe returned (unless_rebuild rebuilt go_on step v)
    unless_rebuild-Runs w v events rebuilt go_on r k rebuild h = Runs-done v rebuilt r
    unless_rebuild-Runs w v events rebuilt go_on r k (continued next) h = k next h

    read_events-Runs :
        (chunk : List Value) (events : List Value) (reading : Reading) (w : World)
        → Safe w
        → Replays host hash manager outside room events reading
        → Runs Safe
            (λ v step. Same w v × ReplaysStep (events ++ chunk) step)
            (read_events host hash manager outside room reading chunk w)
    unfolding read_events
    read_events-Runs [] events reading w safe old = Runs-done w _ (refl, rw (append-nil events) old)
    read_events-Runs (e ∷ chunk) events reading w safe old =
        Runs-bind _ _ (read_event-Runs events reading e w safe old) λ v step h.
          unless_rebuild-Runs w v (events ++ (e ∷ [])) rebuild
            (λ next. read_events host hash manager outside room next chunk) (h.0, tt)
            (λ next new.
              rw (sym h.0, sym (append-again events e chunk))
                (read_events-Runs chunk (events ++ (e ∷ [])) next v (Quiet-Safe w v safe (inl h.0))
                  new))
            step h.1

    same_cursor-some :
        (cursor : Option String) (end_ : String)
        → same_cursor cursor end_ ≡ true
        → cursor ≡ some end_
    same_cursor-some none end_ h = ground (arith, h)
    same_cursor-some (some c) end_ h = ap some ((eq_iff c end_).0 h)

    next_page-Runs :
        (page : Value) (cursor : Option String) (visited : List String)
        (next_turn : Reading → Option String → List String → Task World Ended) (next : Reading)
        (w u : World) (events : List Value)
        → Served host hash manager outside room
            (cursor_after host hash manager outside cursor page)
            events
        → Replays host hash manager outside room events next
        → Same w u
        → Safe u
        → ((end_ : String)
            → Served host hash manager outside room (some end_) events
            → Runs Safe
                (λ v result. Same w v × ReplaysEnded room result)
                (next_turn next (some end_) (end_ ∷ visited) u))
        → Runs Safe
            (λ v result. Same w v × ReplaysEnded room result)
            (next_page page cursor visited next_turn next u)
    next_page-Runs page cursor visited next_turn next w u events served new now safe turn =
        elim (Option-cases (next_cursor page)) [
          | inl last ↦
              rw (next_page, last)
                (Runs-done u _ (now, (events, rw (cursor_after, last) at served, new)))
          | inr (end_, more) ↦
              let served_more = rw (cursor_after, more) at served in
              elim (Bool-cases (same_cursor cursor end_)) [
                | inl stays ↦ elim (Bool-cases (ltb 0 (length (elements (get page "chunk"))))) [
                  | inl stuck ↦ rw (next_page, more, stays, stuck) (Runs-throw u _ safe)
                  | inr empty ↦
                      rw (next_page, more, stays, empty)
                        (Runs-done u _
                          (now, (events, rw (same_cursor-some cursor end_ stays) served_more, new)))
                ]
                | inr moves ↦ elim (Bool-cases (has visited end_)) [
                  | inl loops ↦ rw (next_page, more, moves, loops) (Runs-throw u _ safe)
                  | inr fresh ↦ rw (next_page, more, moves, fresh) (turn end_ served_more)
                ]
              ]
        ]

    pub read_loop-Runs :
        (pages : ℕ) (events : List Value) (reading : Reading) (cursor : Option String)
        (visited : List String) (w : World)
        → Safe w
        → Served host hash manager outside room cursor events
        → Replays host hash manager outside room events reading
        → Runs Safe
            (λ v result. Same w v × ReplaysEnded room result)
            (read_loop host hash manager outside pages room reading cursor visited w)
    unfolding read_loop
    read_loop-Runs zero events reading cursor visited w safe served old =
        Runs-done w _ (refl, (events, served, old))
    read_loop-Runs (suc pages) events reading cursor visited w safe served old =
        Runs-bind _ _ (active-Runs w w safe (inl refl)) λ v a same.
          Runs-bind _ _ (call-Runs v _ (Quiet-Safe w v safe (inl same)) (api_quiet _ _ _ v))
            λ x page call.
              Runs-bind _ _ (active-Runs v x (Quiet-Safe w v safe (inl same)) call.0)
                λ y a same_again.
                  Runs-bind _ _
                    (Runs-checked {returned = λ z a. Same w z} y _ (at_y v y same same_again)
                      (λ a h. same_again ∙ same))
                    λ z a still.
                      Runs-bind _ _
                        (read_events-Runs (elements (get page "chunk")) events reading z
                          (Quiet-Safe w z safe (inl still)) old)
                        λ u step h.
                          let now = h.0 ∙ still in
                          unless_rebuild-Runs w u (events ++ elements (get page "chunk")) again
                            (next_page page cursor visited
                              (read_loop host hash manager outside pages room))
                            (now, tt)
                            (λ next new.
                              next_page-Runs page cursor visited
                                (read_loop host hash manager outside pages room) next w u
                                (events ++ elements (get page "chunk"))
                                (page_after v x page served call.1) new now
                                (Quiet-Safe w u safe (inl now))
                                (λ end_ more. rw (sym now) (
                                  read_loop-Runs pages (events ++ elements (get page "chunk")) next
                                    (some end_) (end_ ∷ visited) u (Quiet-Safe w u safe (inl now))
                                    more new)))
                            step h.1
      where
        at_y : (v y : World) → Same w v → Same v y → Safe y
        at_y v y same same_again = Quiet-Safe w y safe (inl (same_again ∙ same))
