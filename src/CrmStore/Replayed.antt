-- ===== src/CrmStore/Replayed.antt =====
-- The variables of the loop of apps/master/crm-store.js over the events of a page.
pub mod Pages
pub mod Binding
pub mod Refreshed
use beepa.Prelude.{
  ℕ, zero, suc, String, Bool, true, false, not, ◌&&◌, ◌||◌, Option, none, some, List, [], ◌∷◌, ◌++◌,
  map, has, ◌≡◌, refl, sym, ap, ◌∙◌, ◌⊎◌, inl, inr, arith, ◌==◌, eq_iff, Bool-cases, Option-cases,
  All, if◌then◌else◌, is_some,
}
use mathlib.Core.Path.{subst}
use beepa.Contacts.Profile.WellFormed.{All-append}
use beepa.Js.{Value, undefined, null, bool, num, arr, obj, str, get, is_text}
use beepa.Matrix.Client.{Method}
use beepa.Crm.Checked.{Checked, fine, refused, fine-fine}
use beepa.Crm.Canonical.{Host}
use beepa.Crm.Format.{elements, string_test, event_text}
use beepa.Crm.State.{Crm, create_crm_state}
use beepa.CrmStore.Tasks.{Store, Outside, Task, resume, close_store, is_active}
use beepa.CrmStore.Runs.{Runs, Runs-bind, Runs-done, Runs-fine, Runs-checked, Runs-throw}
use beepa.CrmStore.Timeline.{
  event_key, is_operation, first_events, has-last, timeline_state, timeline-known,
  first_events-known, timeline-passed, timeline-operates, first_events-last,
}
use beepa.CrmStore.{apply_event, read_event, read_events, read_loop, pages_path}
use beepa.CrmStore.Entries.{
  Reading, Entry, known, rebuilding, passed, operates, Step, continued, rebuild, Ended, ended,
  again, entry_of, is_own, pass, next_cursor, own_entry_of, is_redaction, is_redacted, has_value,
  redacted_event, crm_operation_type,
}

is_text-other :
    (v : Value) → is_text v "m.room.redaction" ≡ true → is_text v crm_operation_type ≡ false
is_text-other undefined h = refl
is_text-other null h = refl
is_text-other (bool b) h = refl
is_text-other (num n) h = refl
is_text-other (arr vs) h = refl
is_text-other (obj fs) h = refl
is_text-other (str s) h = rw ((eq_iff s "m.room.redaction").0 h) refl

module _ (host : Host) (hash : String → String) (manager : String) (outside : Outside) where
  open outside use {
    World, store, set_store, is_current, api, hashing, bootstrap, on_change, refreshing,
  }

  -- `nextCursor` after a page.
  abbrev pub cursor_after : Option String → Value → Option String
  cursor_after cursor page = elim (next_cursor page) [ none ↦ cursor | some end_ ↦ some end_ ]

  -- The events of whole pages that the server answered with, from the first one on, each read from the
  -- cursor that the one before left.
  pub data Served (room : String) : Option String → List Value → Type 0 where
    nothing : Served room none []
    page_after :
        {cursor : Option String} {events : List Value} (w after : World) (page : Value)
        → Served room cursor events
        → api Method.get (pages_path host hash manager outside room cursor) none w
          ≡ (after, fine page)
        → Served room (cursor_after cursor page) (events ++ elements (get page "chunk"))

  -- The variables of the loop are those of a list of events, each of which is the manager's.
  pub record Replays (room : String) (events : List Value) (reading : Reading) : Type 0 where
    pub start : Crm
    pub created : create_crm_state (str room) (str manager) ≡ fine start
    pub own : All (λ e. is_own manager room e ≡ true) (first_events [] events)
    pub state_is : reading.state ≡ timeline_state host hash start events
    pub seen_are : (k : String) → has reading.seen k ≡ has (map event_key events) k

  module _ (room : String) (events : List Value) (reading : Reading) (e : Value)
      (old : Replays room events reading) where
    abbrev pub with_event : List Value
    with_event = events ++ (e ∷ [])

    old_key :
        {b : Bool}
        → has reading.seen (event_key e) ≡ b
        → has (map event_key events) (event_key e) ≡ b
    old_key h = sym (old.seen_are (event_key e)) ∙ h

    known-Replays : has reading.seen (event_key e) ≡ true → Replays room with_event reading
    known-Replays h = record {
      start = old.start;
      created = old.created;
      own = rw (first_events-known [] events e (old_key h)) old.own;
      state_is = old.state_is ∙ sym (timeline-known host hash old.start events e (old_key h));
      seen_are = λ k.
          rw (has-last events e k, sym (old.seen_are k))
            (ground (arith, h, eq_iff (event_key e) k));
    }

    own-with :
        has reading.seen (event_key e) ≡ false
        → is_own manager room e ≡ true
        → All (λ d. is_own manager room d ≡ true) (first_events [] with_event)
    own-with new good =
        rw (first_events-last [] events e, old_key new)
          (All-append (λ d. is_own manager room d ≡ true) (first_events [] events) (e ∷ []) old.own
            (good, tt))

    seen-with :
        (k : String) → ((event_key e == k) || has reading.seen k) ≡ has (map event_key with_event) k
    seen-with k = rw (has-last events e k, old.seen_are k) (ground arith)

    passed-Replays :
        has reading.seen (event_key e) ≡ false
        → is_own manager room e ≡ true
        → is_operation e ≡ false
        → Replays room with_event (pass (event_key e) reading)
    passed-Replays new good not_one = record {
      start = old.start;
      created = old.created;
      own = own-with new good;
      state_is =
          old.state_is ∙ sym (timeline-passed host hash old.start events e (old_key new) not_one);
      seen_are = seen-with;
    }

    operates-Replays :
        has reading.seen (event_key e) ≡ false
        → is_own manager room e ≡ true
        → is_operation e ≡ true
        → Replays room with_event
            (apply_event host hash manager outside reading (event_key e) (get e "content"))
    unfolding apply_event
    operates-Replays new good one = record {
      start = old.start;
      created = old.created;
      own = own-with new good;
      state_is =
          rw (old.state_is)
            (sym (timeline-operates host hash old.start events e (old_key new) one));
      seen_are = seen-with;
    }

    -- What the tests of the loop found.
    abbrev pub ReplaysEntry : Entry → Type 0
    ReplaysEntry known = Replays room with_event reading
    ReplaysEntry rebuilding = Unit
    ReplaysEntry (passed id) = Replays room with_event (pass id reading)
    ReplaysEntry (operates id) =
        Replays room with_event (apply_event host hash manager outside reading id (get e "content"))

    made :
        {found entry : Entry}
        → ◌≡◌ {A = Checked Entry} (fine found) (fine entry)
        → ReplaysEntry found
        → ReplaysEntry entry
    made same h = subst ReplaysEntry (fine-fine _ _ same) h

    redaction_is_none : is_redaction e ≡ true → is_operation e ≡ false
    redaction_is_none h = ground (is_text-other (get e "type") h, arith)

    own_entry :
        {entry : Entry}
        → has reading.seen (event_key e) ≡ false
        → is_own manager room e ≡ true
        → own_entry_of reading e ≡ fine entry
        → ReplaysEntry entry
    unfolding own_entry_of
    own_entry {entry = entry} new good h = elim (Bool-cases (is_redaction e)) [
      | inl one ↦ elim (Bool-cases (has_value reading.applied (redacted_event e))) [
        | inl hit ↦ made (rw (own_entry_of, one, hit) at h) tt
        | inr miss ↦
            made (rw (own_entry_of, one, miss) at h)
              (passed-Replays new good (redaction_is_none one))
      ]
      | inr other ↦ elim (Bool-cases (is_text (get e "type") crm_operation_type)) [
        | inr wrong ↦ ground (arith, rw (own_entry_of, other, wrong) at h)
        | inl type ↦ elim (Bool-cases (is_redacted e)) [
          | inl gone ↦
              made (rw (own_entry_of, other, type, gone) at h)
                (passed-Replays new good (ground (type, gone, arith)))
          | inr there ↦
              made (rw (own_entry_of, other, type, there) at h)
                (operates-Replays new good (ground (type, there, arith)))
        ]
      ]
    ]

    pub entry_of-Replays :
        (entry : Entry) → entry_of manager room reading e ≡ fine entry → ReplaysEntry entry
    unfolding entry_of
    entry_of-Replays entry h = elim (Bool-cases (string_test event_text (get e "event_id"))) [
      | inr bad ↦ ground (arith, rw (entry_of, bad) at h)
      | inl named ↦ elim (Bool-cases (has reading.seen (event_key e))) [
        | inl old_one ↦ made (rw (entry_of, named, old_one) at h) (known-Replays old_one)
        | inr new ↦ elim (Bool-cases (is_own manager room e)) [
          | inr foreign ↦ ground (arith, rw (entry_of, named, new, foreign) at h)
          | inl good ↦ own_entry new good (rw (entry_of, named, new, good) at h)
        ]
      ]
    ]
