-- ===== src/CrmStore/Entries.antt =====
-- The events and pages that apps/master/crm-store.js reads, and the variables that they change.
use beepa.Prelude.{
  ℕ, String, Bool, true, false, not, ◌&&◌, ◌||◌, Option, none, some, List, [], ◌∷◌, has, is_some,
  leb, ltb, length, ◌==◌, if◌then◌else◌,
}
use beepa.Js.{
  Value, undefined, str, get, truthy, is_text, is_number, as_string, value_has_own, strictly_equal,
  sigil_colon, some_chars, is_alphanumeric,
}
use beepa.Prelude.{nat_eq}
use beepa.Crm.Checked.{Checked, fine, refused}
use beepa.Crm.Format.{event_text, is_array, elements, text_of, string_test}
use beepa.Crm.State.{Crm}
use beepa.CrmStore.Tasks.{Store, Task, done}

-- `CRM_OPERATION_TYPE`
abbrev pub crm_operation_type : String
crm_operation_type = "com.jkali.crm.operation"

abbrev pub room_head_char : ℕ → Bool
room_head_char c =
    is_alphanumeric c
    || nat_eq c b'.'
    || nat_eq c b'_'
    || nat_eq c b'~'
    || nat_eq c b'='
    || nat_eq c b'/'
    || nat_eq c b'+'
    || nat_eq c b'-'

abbrev pub room_tail_char : ℕ → Bool
room_tail_char c = is_alphanumeric c || nat_eq c b'.' || nat_eq c b':' || nat_eq c b'-'

-- `ROOM`
unfoldable pub workspace_room : String → Bool
unfolding sigil_colon some_chars
workspace_room s = sigil_colon b'!' room_head_char (some_chars room_tail_char) s

-- `nextState`, `nextSeen` and `nextApplied`; the newest element of a set comes first.
pub record Reading : Type 0 where
  pub state : Crm
  pub seen : List String
  pub applied : List String

-- What one event of a page is: read before, one that only counts as seen, the redaction of an applied
-- operation, or an operation.
pub data Entry : Type 0 where
  known rebuilding : Entry
  passed operates : String → Entry

-- What the events of a page come to.
pub data Step : Type 0 where
  continued : Reading → Step
  rebuild : Step

-- What the loop over the pages comes to: the variables at its end, or the start of a rebuild.
pub data Ended : Type 0 where
  ended : Reading → Option String → Bool → Ended
  again : Ended

-- `set.has(x)`
abbrev pub has_value : List String → Value → Bool
has_value set (str s) = has set s
has_value set _ = false

-- The redacted event: `event.content?.redacts || event.redacts`.
abbrev pub redacted_event : Value → Value
redacted_event event =
    let target = get (get event "content") "redacts" in
    if truthy target then target else get event "redacts"

-- Whether the test for `Unverified CRM operation` before the type is read holds not.
unfoldable pub is_own : String → String → Value → Bool
is_own manager room event =
    is_text (get event "sender") manager
    && not (value_has_own event "state_key")
    && (strictly_equal (get event "room_id") undefined || is_text (get event "room_id") room)

abbrev pub is_redaction : Value → Bool
is_redaction event = is_text (get event "type") "m.room.redaction"

abbrev pub is_redacted : Value → Bool
is_redacted event = truthy (get (get event "unsigned") "redacted_because")

-- The tests on the type of a new event of the manager, in order.
unfoldable pub own_entry_of : Reading → Value → Checked Entry
own_entry_of reading event =
    let event_id = text_of (get event "event_id") in
    if is_redaction event
    then fine
        (if has_value reading.applied (redacted_event event) then rebuilding else passed event_id)
    else if not (is_text (get event "type") crm_operation_type)
    then refused "Unverified CRM operation"
    else if is_redacted event
    then fine (passed event_id)
    else fine (operates event_id)

-- The tests of the loop over a page's events, in order.
unfoldable pub entry_of : String → String → Reading → Value → Checked Entry
unfolding event_text is_own own_entry_of
entry_of manager room reading event =
    if not (string_test event_text (get event "event_id"))
    then refused "Invalid CRM history event"
    else if has reading.seen (text_of (get event "event_id"))
    then fine known
    else if not (is_own manager room event)
    then refused "Unverified CRM operation"
    else own_entry_of reading event

-- `nextSeen.add(event.event_id)`
abbrev pub pass : String → Reading → Reading
pass event_id reading = record reading { seen = event_id ∷ reading.seen }

-- The test for `Incomplete CRM history`.
unfoldable pub is_page : Value → Bool
is_page page =
    is_array (get page "chunk")
    && leb (length (elements (get page "chunk"))) 100
    && (strictly_equal (get page "end") undefined || is_some (as_string (get page "end")))

-- `end`, if it is no empty text.
abbrev pub next_cursor : Value → Option String
next_cursor page = if truthy (get page "end") then as_string (get page "end") else none

abbrev pub same_cursor : Option String → String → Bool
same_cursor none end_ = false
same_cursor (some c) end_ = c == end_

-- The test of `bind`, negated.
abbrev pub is_workspace : String → Option String → Value → Bool
is_workspace manager bound info =
    is_text (get info "manager_mxid") manager
    && is_number (get info "schema_version") 1
    && string_test workspace_room (get info "room_id")
    && (elim bound [ none ↦ true | some room ↦ is_text (get info "room_id") room ])

-- The end of `readPages`.
abbrev pub keep_reading : Reading → Option String → Bool → Store → Store
keep_reading reading cursor ready s = record s {
  state = some reading.state;
  cursor = cursor;
  ready = ready;
  seen_events = reading.seen;
  applied_events = reading.applied;
}

-- The start of a rebuild.
abbrev pub reset_store : Crm → Store → Store
reset_store state s = record s {
  state = some state;
  cursor = none;
  seen_events = [];
  applied_events = [];
}

abbrev pub bound_room : Store → Value
bound_room s = elim s.room_id [ none ↦ undefined | some room ↦ str room ]

-- What goes on unless a rebuild is wanted.
abbrev pub unless_rebuild : {World A : Type 0} → A → (Reading → Task World A) → Step → Task World A
unless_rebuild rebuilt go_on rebuild = done (fine rebuilt)
unless_rebuild rebuilt go_on (continued next) = go_on next

-- The end of the loop's body, with what the next turn does.
abbrev pub next_page :
    {World : Type 0}
    → Value
    → Option String
    → List String
    → (Reading → Option String → List String → Task World Ended)
    → Reading
    → Task World Ended
next_page page cursor visited next_turn next = elim (next_cursor page) [
  | none ↦ done (fine (ended next cursor true))
  | some end_ ↦
      if same_cursor cursor end_
      then done (
          if ltb 0 (length (elements (get page "chunk")))
          then refused "CRM history cursor did not advance"
          else fine (ended next cursor true))
      else if has visited end_
      then done (refused "CRM history cursor loop")
      else next_turn next (some end_) (end_ ∷ visited)
]
