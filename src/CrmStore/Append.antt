-- ===== src/CrmStore/Append.antt =====
-- `append` and `close` of apps/master/crm-store.js.
pub mod Outcomes
use Prim.Native.String
use beepa.Prelude.{
  String, Bool, true, false, not, ◌&&◌, ◌||◌, Option, none, some, leb, if◌then◌else◌, ◌==◌, lookup,
}
use beepa.Js.{Value, get}
use beepa.Matrix.Client.{Method}
use beepa.Crm.Checked.{Checked, fine, refused, need}
use beepa.Crm.Canonical.{Host, canonical, utf8_length, crm_max_bytes}
use beepa.Crm.Format.{event_text, text_of, string_test}
use beepa.Crm.State.{Crm, Outcome}
use beepa.Crm.Verified.{apply_verified_crm_operation}
use beepa.CrmStore.Tasks.{
  Outside, Task, resume, ◌>>=◌, ◌>>◌, done, gets, change, active, update, close_store,
}
use beepa.CrmStore.{bind, refresh}

-- What `append` returns; only an outcome from the replay after the write has an event id.
pub record Report : Type 0 where
  pub outcome : Outcome
  pub event_id : Option String

abbrev pub unsent : Outcome → Report
unsent outcome = record { outcome = outcome; event_id = none }

-- The end of `work`: what the replay remembers of the operation.
unfoldable pub observed : Option Crm → String → String → String → Checked Report
observed none op_id serialized event_id = refused "TypeError"
observed (some state) op_id serialized event_id = elim (lookup op_id state.operations) [
  | none ↦ refused "CRM operation not yet reconciled; keep its operation ID"
  | some r ↦
      if r.serialized == serialized
      then fine (record { outcome = r.outcome; event_id = some event_id })
      else refused "CRM operation not yet reconciled; keep its operation ID"
]

-- `serialized`, or the error that is thrown before the queue is entered.
unfoldable pub frozen_text : Host → Value → Checked String
unfolding canonical utf8_length
frozen_text host operation = elim (canonical host operation) [
  | refused code ↦ refused code
  | fine serialized ↦
      if leb (utf8_length serialized) crm_max_bytes
      then fine serialized
      else refused "CRM operation too large"
]

module _ (host : Host) (hash : String → String) (manager : String) (outside : Outside) where
  open outside use {World, store, api, hashing, encode}

  abbrev pub send_path : String → String → String
  send_path room op_id = String.◌++◌ "/_matrix/client/v3/rooms/" (
      String.◌++◌ (encode room)
        (String.◌++◌ "/send/com.jkali.crm.operation/" (encode (String.◌++◌ "crm_" op_id))))

  -- The write and what follows; the room is the bound one.
  unfoldable pub send : Value → String → String → Task World Report
  unfolding active refresh observed event_text need
  send operation serialized room = do
    let op_id = text_of (get operation "op_id")
    result ← api Method.put (send_path room op_id) (some operation)
    active outside
    done (
        need (string_test event_text (get result "event_id"))
          "CRM write outcome unknown; refresh before retrying")
    refresh host hash manager outside
    active outside
    s ← gets store
    done (observed s.state op_id serialized (text_of (get result "event_id")))

  -- From the preview on.
  unfoldable pub preview_and_send : Value → String → Crm → String → Task World Report
  unfolding send active apply_verified_crm_operation
  preview_and_send operation serialized state room = do
    change hashing
    active outside
    (let preview = (apply_verified_crm_operation host hash state operation).outcome in
        if not preview.accepted || preview.duplicate
        then done (fine (unsent preview))
        else send operation serialized room)

  -- `work`, with the operation as it was when `append` was called.
  unfoldable pub work : Value → String → Task World Report
  unfolding preview_and_send active bind refresh need
  work operation serialized = do
    active outside
    bind host hash manager outside
    refresh host hash manager outside
    active outside
    s ← gets store
    done (need s.ready "CRM history is still loading")
    elim s.state [
      | none ↦ done (refused "TypeError")
      | some state ↦ elim s.room_id [
        | none ↦ done (refused "TypeError")
        | some room ↦ preview_and_send operation serialized state room
      ]
    ]

  -- `append(operation)`, from where its turn in the queue has come; the queue runs one `work` at a time,
  -- whether or not the one before threw.
  unfoldable pub append : Value → Task World Report
  unfolding work frozen_text
  append operation w = elim (frozen_text host operation) [
    | refused message ↦ (w, refused message)
    | fine serialized ↦ work operation serialized w
  ]

  -- `close()`
  unfoldable pub close : Task World (Unit {0})
  close = update outside close_store
