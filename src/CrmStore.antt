-- ===== src/CrmStore.antt =====
-- `createCRMStore` of apps/master/crm-store.js: the CRM state replayed from the pages of a Matrix timeline.
pub mod Tasks
pub mod Entries
pub mod Runs
pub mod Timeline
pub mod Replayed
pub mod Append
pub mod Finished
pub mod Tests
use Prim.Native.String
use beepa.Prelude.{
  ℕ, zero, suc, String, Bool, true, false, not, ◌&&◌, ◌||◌, Option, none, some, List, [], ◌∷◌, has,
  is_some, get_or, leb, ltb, length, ◌==◌, if◌then◌else◌, lookup,
}
use beepa.Js.{
  Value, undefined, str, get, truthy, is_text, is_number, as_string, value_has_own, strictly_equal,
  sigil_colon, some_chars, is_alphanumeric, utf16_length,
}
use beepa.Prelude.{nat_eq}
use beepa.Matrix.Client.{Method}
use beepa.Crm.Checked.{Checked, fine, refused, need}
use beepa.Crm.Canonical.{Host, canonical, utf8_length, crm_max_bytes}
use beepa.Crm.Format.{event_text, is_array, elements, text_of, string_test}
use beepa.Crm.State.{Crm, Outcome, create_crm_state}
use beepa.Crm.Verified.{apply_verified_crm_operation}
use beepa.CrmStore.Tasks.{
  Store, Outside, Task, resume, ◌>>=◌, ◌>>◌, done, gets, change, active, publish, update, is_active,
  with_ready,
}
use beepa.CrmStore.Entries.{
  crm_operation_type, room_head_char, room_tail_char, workspace_room, Reading, Entry, Step, Ended,
  has_value, redacted_event, is_own, is_redaction, is_redacted, own_entry_of, entry_of, pass,
  is_page, next_cursor, same_cursor, keep_reading, reset_store, bound_room, is_workspace,
  unless_rebuild, next_page, known, rebuilding, passed, operates, continued, rebuild, ended, again,
}

-- `hash` is SHA-256 of a text, as 64 hexadecimal digits.
module _ (host : Host) (hash : String → String) (manager : String) (outside : Outside) where
  open outside use {World, store, set_store, bootstrap, api, hashing, refreshing, encode}

  -- What a call of `applyVerifiedCRMOperation` does to the variables of the loop.
  unfoldable pub apply_event : Reading → String → Value → Reading
  apply_event reading event_id content = record {
    state = (apply_verified_crm_operation host hash reading.state content).state;
    seen = event_id ∷ reading.seen;
    applied = event_id ∷ reading.applied;
  }

  -- The assignments of `bind`, of which the second may throw.
  unfoldable pub new_workspace : Value → Task World (Unit {0})
  unfolding create_crm_state
  new_workspace info = do
    update outside λ s. record s { room_id = as_string (get info "room_id") }
    state ← done (create_crm_state (get info "room_id") (str manager))
    update outside λ s. record s { state = some state }

  unfoldable pub bind_to : Value → Task World (Unit {0})
  unfolding new_workspace workspace_room
  bind_to info w =
      if not (is_workspace manager (store w).room_id info)
      then (w, refused "CRM workspace identity changed")
      else if is_some (store w).room_id
      then (w, fine tt)
      else new_workspace info w

  unfoldable pub bind : Task World (Unit {0})
  unfolding active bind_to
  bind = do active outside; info ← bootstrap; active outside; bind_to info

  -- What follows the tests of an event.
  unfoldable pub follow_entry : Reading → Value → Entry → Task World Step
  unfolding active apply_event
  follow_entry reading event known = done (fine (continued reading))
  follow_entry reading event rebuilding = done (fine rebuild)
  follow_entry reading event (passed event_id) = done (fine (continued (pass event_id reading)))
  follow_entry reading event (operates event_id) = do
    change hashing
    active outside
    done (fine (continued (apply_event reading event_id (get event "content"))))

  -- The body of the loop over a page's events.
  unfoldable pub read_event : String → Reading → Value → Task World Step
  unfolding entry_of follow_entry
  read_event room reading event = do
    entry ← done (entry_of manager room reading event)
    follow_entry reading event entry

  unfoldable pub read_events : String → Reading → List Value → Task World Step
  unfolding read_event
  read_events room reading [] = done (fine (continued reading))
  read_events room reading (event ∷ events) =
      read_event room reading event
      >>= unless_rebuild rebuild (λ next. read_events room next events)

  abbrev pub pages_path : String → Option String → String
  pages_path room cursor = String.◌++◌ "/_matrix/client/v3/rooms/" (
      String.◌++◌ (encode room) (
        String.◌++◌ "/messages?dir=f&limit=100&filter=" (
          String.◌++◌ (encode "{\"types\":[\"com.jkali.crm.operation\",\"m.room.redaction\"]}")
            (elim cursor [ none ↦ "" | some c ↦ String.◌++◌ "&from=" (encode c) ]))))

  -- The loop over the pages, with the number of pages that are left. The room is the bound one, which
  -- only `close` takes away, and `active` throws then.
  unfoldable pub read_loop : ℕ → String → Reading → Option String → List String → Task World Ended
  unfolding read_events active need is_page
  read_loop zero room reading cursor visited = done (fine (ended reading cursor false))
  read_loop (suc pages) room reading cursor visited = do
    active outside
    page ← api Method.get (pages_path room cursor) none
    active outside
    done (need (is_page page) "Incomplete CRM history")
    step ← read_events room reading (elements (get page "chunk"))
    unless_rebuild again (next_page page cursor visited (read_loop pages room)) step

  -- The loop from the variables of the closure. A room without a state, which only an error of
  -- `createCRMState` leaves, is not read; the code throws at the first operation it meets.
  unfoldable pub read_store : Store → Task World Ended
  unfolding read_loop
  read_store s = elim s.room_id [
    | none ↦ done (refused "TypeError")
    | some room ↦ elim s.state [
      | none ↦ done (refused "TypeError")
      | some state ↦
          read_loop 200 room
            (record { state = state; seen = s.seen_events; applied = s.applied_events }) s.cursor []
    ]
  ]

  unfoldable pub bind_unless_bound : Task World (Unit {0})
  unfolding bind
  bind_unless_bound w = if is_some (store w).room_id then (w, fine tt) else bind w

  -- What precedes the loop of `readPages`, and the loop.
  unfoldable pub read_once : Task World Ended
  unfolding active bind_unless_bound read_store
  read_once = do
    active outside
    update outside (with_ready false)
    bind_unless_bound
    s ← gets store
    read_store s

  -- The assignments after the loop.
  unfoldable pub finish : Reading → Option String → Bool → Task World (Unit {0})
  unfolding active publish
  finish reading cursor ready = do
    active outside
    update outside (keep_reading reading cursor ready)
    publish outside

  -- `state = createCRMState(...)` and the calls of `clear`.
  unfoldable pub start_again : Task World (Unit {0})
  unfolding create_crm_state
  start_again = do
    s ← gets store
    state ← done (create_crm_state (bound_room s) (str manager))
    update outside (reset_store state)

  abbrev pub finish_unless_again : Task World (Unit {0}) → Ended → Task World (Unit {0})
  finish_unless_again rebuilt again = rebuilt
  finish_unless_again rebuilt (ended reading cursor ready) = finish reading cursor ready

  -- `readPages(rebuilds)`, with the number of rebuilds that are left.
  unfoldable pub read_pages : ℕ → Task World (Unit {0})
  unfolding read_once finish start_again
  read_pages zero =
      read_once
      >>= finish_unless_again (done (refused "CRM history changed during replay; refresh again"))
  read_pages (suc rebuilds) = read_once >>= finish_unless_again (start_again >> read_pages rebuilds)

  -- The `catch` of `refresh`.
  unfoldable pub caught : World × Checked (Unit {0}) → World × Checked (Unit {0})
  unfolding publish
  caught (w, fine u) = (w, fine u)
  caught (w, refused message) =
      (update outside (with_ready false) >>= λ _. gets (is_active outside) >>= λ is_open.
      (if is_open then publish outside else done (fine tt)) >>= λ _. done (refused message))
        w

  -- `refresh()`
  unfoldable pub refresh : Task World (Unit {0})
  unfolding active caught read_pages
  refresh = active outside >> λ w. elim (refreshing w) [
    | some pending ↦ pending
    | none ↦ caught (read_pages 3 w)
  ]
