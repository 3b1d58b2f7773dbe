-- ===== src/OrderedConsent/Writer.antt =====
-- `createOrderedConsentWriter` of apps/user/ordered-consent.js: the closure's variables and `write`.
pub mod Actions
pub mod Legacy
pub mod Confirmed
pub mod Applied
pub mod Retry
mod Tests
use Prim.Native.String
use beepa.Prelude.{
  ℕ, zero, suc, String, Bool, true, false, not, ◌&&◌, ◌||◌, Option, none, some, List, [], ◌∷◌,
  lookup, insert, remove, get_or, ◌==◌, nat_eq, if◌then◌else◌,
}
use beepa.Js.{
  Value, undefined, str, num, obj, field, end, whole, get, truthy, as_array, as_object, as_string,
  as_natural, has_own, is_text, is_number, strictly_equal, loose_room_id,
}
use beepa.Matrix.Client.{Method, put, Outcome, ok, failed}
use beepa.Consent.Level.{Level, token}
use beepa.OrderedConsent.Checks.{
  capability_ok, control_room_ok, power_ok, saved_revision, base_revision, valid_id,
}
use Actions.{
  Page, Session, Writer, Intent, Action, pure, fail, guard, gets, ◌>>=◌, ◌>>◌, same_session,
}

abbrev pub no_writer : Session → Writer
no_writer captured = record { identity = some captured; ordered_seen = false; pending = [] }

abbrev pub is_identity : Option Session → Session → Bool
is_identity none captured = false
is_identity (some s) captured = same_session captured s

-- The tests before anything is sent.
abbrev pub is_refused : String → Session → Bool
is_refused room captured =
    not (loose_room_id room) || captured.token == "" || captured.user_id == ""

abbrev pub is_status_404 : Option ℕ → Bool
is_status_404 none = false
is_status_404 (some s) = nat_eq s 404

abbrev pub level_name : Option Level → String
level_name none = "inherit"
level_name (some l) = token l

-- Whether the stored override was left by the writer from before the protocol.
unfoldable pub legacy_allowed : Option Value → Bool
legacy_allowed none = true
legacy_allowed (some v) = elim (as_object v) [
  | none ↦ false
  | some o ↦ not (has_own o "com.jkali.policy_journal")
]

abbrev pub payload : Intent → Value
payload i = obj (
    field "schema" (num (whole 1)) (
      field "command_id" (str i.command_id) (
        field "journal_epoch" (str i.journal_epoch) (
          field "room_id" (str i.room_id) (
            field "level" (str i.level)
              (field "expected_revision" (num (whole i.expected_revision)) end))))))

-- `!result || result.schema !== 1 || …`, negated.
unfoldable pub result_matches : Intent → String → Value → Bool
result_matches i room r =
    truthy r
    && is_number (get r "schema") 1
    && is_text (get r "command_id") i.command_id
    && is_text (get r "room_id") room

abbrev pub state_is_level : Value → Option Level → Bool
state_is_level state none = not (truthy state)
state_is_level state (some l) = is_text state (token l)

-- The override that was read after the result carries the stamp of this command and the level.
unfoldable pub confirmed : Value → Value → Option Level → Bool
confirmed r actual level =
    let stamp = get actual "com.jkali.policy_journal" in
    valid_id (get r "operation_id")
    && is_text (get stamp "operation_id") (get_or (as_string (get r "operation_id")) "")
    && (elim (as_natural (get r "revision")) [
      | none ↦ false
      | some n ↦ is_number (get stamp "revision") n
    ])
    && state_is_level (get actual "state") level

module _ (page : Page) where
  open page use {World, session, writer, set_writer, api, uuid, wait, encode}

  -- `check()`
  unfoldable pub check : Session → Action World (Unit {0})
  check captured w = guard (same_session (session w) captured) w

  -- `request(method, path, body)`
  unfoldable pub request : Session → Method → String → Option Value → Action World Value
  unfolding check
  request captured method path body = do
    check captured
    value ← api method path body
    check captured
    pure value

  -- The `catch` of `optional`.
  abbrev pub absent_or_throw : Session → World × Outcome Value → World × Outcome (Option Value)
  absent_or_throw captured (w, ok v) = (w, ok (some v))
  absent_or_throw captured (w, failed status) =
      (check captured >>= λ _.
      if is_status_404 status then pure none else (λ w'. (w', failed status)))
        w

  -- `optional(path)`; ABSENT is none.
  unfoldable pub optional : Session → String → Action World (Option Value)
  unfolding request
  optional captured path w = absent_or_throw captured (request captured Method.get path none w)

  abbrev pub account_path : Session → String → String
  account_path captured rest =
      String.◌++◌ "/_matrix/client/v3/user/" (String.◌++◌ (encode (str captured.user_id)) rest)

  abbrev pub capability_path : Session → String
  capability_path captured = account_path captured "/account_data/com.jkali.crm_control"

  abbrev pub override_path : Session → String → String
  override_path captured room = account_path captured (
      String.◌++◌ "/rooms/"
        (String.◌++◌ (encode (str room)) "/account_data/com.jkali.share_override"))

  abbrev pub control_path : Value → String → String
  control_path control rest =
      String.◌++◌ "/_matrix/client/v3/rooms/" (String.◌++◌ (encode control) rest)

  abbrev pub result_path : Intent → String
  result_path i =
      control_path i.control_room
        (String.◌++◌ "/state/com.jkali.policy.result/" (encode (str i.command_id)))

  abbrev pub request_path : Intent → String
  request_path i = control_path i.control_room (
      String.◌++◌ "/send/com.jkali.policy.request/"
        (encode (str (String.◌++◌ "policy_" i.command_id))))

  -- `if (pending.get(key) === intent) pending.delete(key);`
  unfoldable pub forget : String → Intent → Action World (Unit {0})
  forget key i w =
      let s = writer w in
      elim (lookup key s.pending) [
        | none ↦ (w, ok tt)
        | some j ↦
            if j.command_id == i.command_id
            then (set_writer (record s { pending = remove key s.pending }) w, ok tt)
            else (w, ok tt)
      ]

  -- An applied result counts only if the override that is read next agrees with it.
  unfoldable pub confirm :
      Session → String → String → Option Level → Intent → Value → Action World (Option Level)
  unfolding optional forget confirmed
  confirm captured key room level i r = do
    actual ← optional captured (override_path captured room)
    forget key i
    guard (confirmed r (get_or actual undefined) level)
    pure level

  -- What a result event leads to; `rest` goes on polling.
  unfoldable pub settle :
      Session
      → String
      → String
      → Option Level
      → Intent
      → Value
      → Action World (Option Level)
      → Action World (Option Level)
  unfolding confirm forget result_matches
  settle captured key room level i r rest =
      if not (result_matches i room r)
      then fail
      else if is_text (get r "state") "rejected" || is_text (get r "state") "canceled"
      then forget key i >> fail
      else if is_text (get r "state") "applied"
      then confirm captured key room level i r
      else rest

  abbrev pub on_answer :
      Session
      → String
      → String
      → Option Level
      → Intent
      → Action World (Option Level)
      → Option Value
      → Action World (Option Level)
  on_answer captured key room level i rest none = rest
  on_answer captured key room level i rest (some r) = settle captured key room level i r rest

  abbrev pub pause : ℕ → World → World
  pause zero w = w
  pause (suc n) w = wait 500 w

  -- The loop over the attempts, with those that are left.
  unfoldable pub poll :
      Session → String → String → Option Level → Intent → ℕ → Action World (Option Level)
  unfolding optional settle check
  poll captured key room level i zero = fail
  poll captured key room level i (suc n) = do
    result ← optional captured (result_path i)
    let rest : Action World (Option Level) =
        λ w. (check captured >> poll captured key room level i n) (pause n w)
    on_answer captured key room level i rest result

  -- A pending command must still be for this service; otherwise a new one is made and remembered.
  unfoldable pub new_intent :
      Session → String → String → Option Level → Value → List Value → Action World Intent
  unfolding optional saved_revision base_revision
  new_intent captured key room level cap state = do
    override ← optional captured (override_path captured room)
    let epoch = get_or (as_string (get cap "journal_epoch")) ""
    elim (saved_revision (get_or override undefined)) [
      | none ↦ fail
      | some saved ↦ elim (base_revision captured.user_id room epoch state saved) [
        | none ↦ fail
        | some base ↦ λ w.
            let (w', id) = uuid w in
            let s = writer w' in
            let i : Intent = record {
              command_id = id;
              journal_epoch = epoch;
              room_id = room;
              level = level_name level;
              expected_revision = base;
              control_room = get cap "policy_room_id";
              generation = get_or (as_string (get cap "generation")) "";
            } in
            (set_writer (record s { pending = insert key i s.pending }) w', ok i)
      ]
    ]

  abbrev pub is_current : Intent → Value → Bool
  is_current i cap =
      is_text (get cap "journal_epoch") i.journal_epoch
      && strictly_equal i.control_room (get cap "policy_room_id")
      && is_text (get cap "generation") i.generation

  unfoldable pub intent_for :
      Session → String → String → Option Level → Value → List Value → Action World Intent
  unfolding new_intent
  intent_for captured key room level cap state w = elim (lookup key (writer w).pending) [
    | some i ↦ if is_current i cap then (w, ok i) else (w, failed none)
    | none ↦ new_intent captured key room level cap state w
  ]

  abbrev pub see_ordered : Action World (Unit {0})
  see_ordered w = (set_writer (record (writer w) { ordered_seen = true }) w, ok tt)

  abbrev pub pending_key : String → Option Level → String
  pending_key room level = String.◌++◌ room (String.◌++◌ ":" (level_name level))

  -- From the tests of the control room's state on.
  unfoldable pub command :
      ℕ → Session → String → Option Level → Value → List Value → Action World (Option Level)
  unfolding request control_room_ok power_ok intent_for poll
  command polls captured room level cap state = do
    guard (control_room_ok captured.user_id (get_or (as_string (get cap "journal_epoch")) "") state)
    guard (power_ok captured.user_id state)
    i ← intent_for captured (pending_key room level) room level cap state
    request captured put (request_path i) (some (payload i))
    poll captured (pending_key room level) room level i polls

  -- The part of `write` after a capability was read.
  unfoldable pub ordered : ℕ → Session → String → Option Level → Value → Action World (Option Level)
  unfolding request capability_ok command
  ordered polls captured room level cap = do
    let control = get cap "policy_room_id"
    see_ordered
    guard (capability_ok cap)
    answer ← request captured Method.get (control_path control "/state") none
    elim (as_array answer) [
      | none ↦ fail
      | some state ↦ command polls captured room level cap state
    ]

  abbrev pub is_untouched : Writer → Bool
  is_untouched s = not s.ordered_seen && (elim s.pending [ [] ↦ true | _ ∷ _ ↦ false ])

  -- The part of `write` after a definite absence of the capability.
  unfoldable pub before_protocol :
      Session → String → Action World (Option Level) → Action World (Option Level)
  unfolding optional legacy_allowed check
  before_protocol captured room legacy = do
    s ← gets writer
    guard (is_untouched s)
    existing ← optional captured (override_path captured room)
    guard (legacy_allowed existing)
    check captured
    result ← legacy
    check captured
    pure result

  unfoldable pub dispatch :
      ℕ
      → Session
      → String
      → Option Level
      → Action World (Option Level)
      → Option Value
      → Action World (Option Level)
  unfolding before_protocol ordered
  dispatch polls captured room level legacy none = before_protocol captured room legacy
  dispatch polls captured room level legacy (some cap) = ordered polls captured room level cap

  abbrev pub enter : Session → World → World
  enter captured w =
      if is_identity (writer w).identity captured then w else set_writer (no_writer captured) w

  -- `write(roomId, level, legacyWrite)`, for a level that `writeShareOverride` has normalized.
  unfoldable pub write :
      ℕ → String → Option Level → Action World (Option Level) → Action World (Option Level)
  unfolding optional dispatch
  write polls room level legacy w =
      let captured = session w in
      if is_refused room captured
      then (w, failed none)
      else ((optional captured (capability_path captured)
            >>= dispatch polls captured room level legacy)
          (enter captured w))
