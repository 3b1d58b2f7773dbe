-- ===== src/Crm/Timers.antt =====
-- The operations on a list's watches, obligations and read marks of `applyCRMOperation` of shared/model/crm.js.
use Prim.Native.Char.{code}
use Prim.Native.String
use Prim.Native.String.{[] as empty, ◌∷◌ as first_char}
use beepa.Prelude.{ℕ, ◌+◌, ◌-◌, ◌*◌, String, Bool, not, ◌&&◌, ◌||◌, List, [], ◌∷◌, length, leb, ltb}
use beepa.Js.{
  Value, str, arr, obj, end, field, of_items, get, truthy, strictly_equal, is_text, value_has_own,
  every_char, is_digit, utf16_length,
}
use beepa.Crm.Checked.{Checked, fine, ◌>>=◌, ◌>>◌, need, require, each}
use beepa.Crm.Canonical.{Host, copy, quote_text, escape}
use beepa.Crm.Format.{
  keys, id, mxid, room, text_within, generation, bounded_identity, event_text, positive_safe,
  is_boolean, is_null, string_test, names, spread, with_field,
}
use beepa.Crm.Monitoring.{
  monitoring_routing, validate_monitoring_options, validate_reminder_episode,
}
use beepa.Crm.State.{
  Crm, bindings, memberships, set_entity, current, entity, entity_at, membership_key,
}
use beepa.Crm.Manifest.{same_field}
use beepa.Crm.Format.{text_of}
use beepa.Crm.Lists.{edit_list, current_list, monitoring_options}

-- `/^\d{1,32}$/`
unfoldable pub order_text : String → Bool
unfolding every_char utf16_length
order_text s = every_char is_digit s && ltb 0 (utf16_length s) && leb (utf16_length s) 32

-- `BigInt` of a text of digits
unfoldable pub big_int_from : ℕ → String → ℕ
big_int_from n empty = n
big_int_from n (first_char c s) = big_int_from (n * 10 + (code c - b'0')) s

abbrev pub big_int : Value → ℕ
big_int v = big_int_from 0 (text_of v)

-- `p[k] === null || (Number.isSafeInteger(p[k]) && p[k] > 0)`
abbrev pub time_or_null : Value → Bool
time_or_null v = is_null v || positive_safe v

-- `Object.keys(entries || {}).length < limit || own(entries || {}, k)`
abbrev pub within_limit : ℕ → Value → String → Bool
within_limit limit entries k = ltb (length (names entries)) limit || value_has_own entries k

-- `JSON.stringify([room_id, event_id])`
abbrev pub obligation_key : Value → Value → String
obligation_key room_id event_id = String.◌++◌ "[" (
    String.◌++◌ (quote_text (text_of room_id))
      (String.◌++◌ "," (String.◌++◌ (quote_text (text_of event_id)) "]")))

abbrev pub watch_keys : List String
watch_keys =
    "room_id" ∷ "owner_mxid" ∷ "enabled" ∷ "due_at" ∷ "snooze_until" ∷ "resolved_event" ∷ []

abbrev pub more_watch_keys : List String
more_watch_keys =
    "episode_at" ∷ "all_messages" ∷ "waiting_them_ms" ∷ "waiting_us_ms" ∷ "channels"
    ∷ monitoring_options

abbrev pub contact_obligation_keys : List String
contact_obligation_keys =
    "binding_id" ∷ "owner_mxid" ∷ "generation" ∷ "membership_operation" ∷ "created_at"
    ∷ "episode_at" ∷ "due_at" ∷ "snooze_until" ∷ "resolved" ∷ []

abbrev pub both_channels : Value
both_channels = obj (field "channels" (arr (of_items (str "browser" ∷ str "telegram" ∷ []))) end)

-- What a read mark must be against the one before it.
unfoldable pub seen_advances : Value → Value → Bool
unfolding big_int_from
seen_advances before p =
    not (truthy before)
    || not (same_field "owner_mxid" before p)
    || not (same_field "bridge_epoch" before p)
    || not (same_field "generation" before p)
    || leb (big_int (get before "source_order")) (big_int (get p "source_order"))

module _ (host : Host) (state : Crm) (entity_id : String) (base : ℕ) (p : Value) where
  abbrev pub room_and_owner : Value → Bool
  room_and_owner old =
      not (truthy (get old "archived"))
      && bounded_identity room (get p "room_id")
      && bounded_identity mxid (get p "owner_mxid")

  -- `case 'list.watch'`
  unfoldable pub list_watch : Checked Crm
  unfolding keys validate_monitoring_options current bounded_identity room mxid monitoring_routing
      spread event_text validate_reminder_episode copy with_field set_entity
  list_watch = do
    let room_id = text_of (get p "room_id")
    keys p watch_keys more_watch_keys
    validate_monitoring_options host p
    old ← current_list host state entity_id base p
    let watches = get old "watches"
    require (room_and_owner old && is_boolean (get p "enabled"))
    _ ← monitoring_routing (spread (spread both_channels (get old "monitoring")) p)
    each (λ k. require (time_or_null (get p k))) ("due_at" ∷ "snooze_until" ∷ [])
    require (is_null (get p "resolved_event") || string_test event_text (get p "resolved_event"))
    require (not (value_has_own p "all_messages") || is_boolean (get p "all_messages"))
    need (within_limit 1000 watches room_id) "watch-limit"
    validate_reminder_episode p (get watches room_id)
    q ← copy host p
    fine (edit_list host state entity_id base p old "watches" (with_field watches room_id q))

  -- `case 'list.contact_obligation'`
  unfoldable pub list_contact_obligation : Checked Crm
  unfolding keys current bounded_identity mxid text_within membership_key copy with_field set_entity
  list_contact_obligation = do
    let binding_id = text_of (get p "binding_id")
    let binding = entity_at state bindings (get p "binding_id")
    keys p contact_obligation_keys []
    old ← current_list host state entity_id base p
    let entries = get old "contact_obligations"
    require (
        not (truthy (get old "archived"))
        && id (get p "binding_id")
        && bounded_identity mxid (get p "owner_mxid")
        && generation (get p "generation"))
    need
        (truthy binding
          && is_text (get binding "availability") "shared"
          && same_field "owner_mxid" binding p
          && same_field "generation" binding p)
        "binding-unavailable"
    key ← membership_key (str entity_id) (get binding "person_id")
    let member = entity state memberships key
    need
        (truthy member
          && not (truthy (get member "removed"))
          && same_field "binding_id" member p
          && strictly_equal (get member "operation_id") (get p "membership_operation"))
        "membership-conflict"
    require (
        is_boolean (get p "resolved")
        && positive_safe (get p "created_at")
        && positive_safe (get p "episode_at"))
    each (λ k. require (time_or_null (get p k))) ("due_at" ∷ "snooze_until" ∷ [])
    need (within_limit 2000 entries binding_id) "obligation-limit"
    q ← copy host p
    fine (
        edit_list host state entity_id base p old "contact_obligations"
          (with_field entries binding_id q))

  -- `case 'list.obligation'`
  unfoldable pub list_obligation : Checked Crm
  unfolding keys current bounded_identity room mxid event_text escape validate_reminder_episode copy
      with_field set_entity
  list_obligation = do
    let key = obligation_key (get p "room_id") (get p "event_id")
    keys p ("room_id" ∷ "owner_mxid" ∷ "event_id" ∷ "due_at" ∷ "snooze_until" ∷ "resolved" ∷ [])
        ("episode_at" ∷ [])
    old ← current_list host state entity_id base p
    let entries = get old "obligations"
    require (room_and_owner old)
    require
        (is_text (get p "event_id") "uncontacted" || bounded_identity event_text (get p "event_id"))
    require (is_boolean (get p "resolved"))
    each (λ k. require (time_or_null (get p k))) ("due_at" ∷ "snooze_until" ∷ [])
    validate_reminder_episode p (get entries key)
    need (within_limit 2000 entries key) "obligation-limit"
    q ← copy host p
    fine (edit_list host state entity_id base p old "obligations" (with_field entries key q))

  -- `case 'list.seen'`
  unfoldable pub list_seen : Checked Crm
  unfolding keys current bounded_identity room mxid event_text order_text text_within seen_advances
      copy with_field set_entity
  list_seen = do
    let room_id = text_of (get p "room_id")
    keys p
        ("room_id" ∷ "owner_mxid" ∷ "event_id" ∷ "source_order" ∷ "bridge_epoch" ∷ "generation"
          ∷ [])
        []
    old ← current_list host state entity_id base p
    let seen = get old "seen"
    require (room_and_owner old)
    require (
        bounded_identity event_text (get p "event_id")
        && string_test order_text (get p "source_order"))
    require (text_within 512 (get p "bridge_epoch") && generation (get p "generation"))
    need (within_limit 1000 seen room_id) "seen-limit"
    need (seen_advances (get seen room_id) p) "seen-regression"
    q ← copy host p
    fine (edit_list host state entity_id base p old "seen" (with_field seen room_id q))
