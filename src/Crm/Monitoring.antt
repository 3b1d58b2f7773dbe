-- ===== src/Crm/Monitoring.antt =====
-- Reminders and monitoring options of shared/model/crm.js.
use Prim.Native.Char.{code}
use Prim.Native.String.{[] as empty, ◌∷◌ as first_char}
use beepa.Prelude.{
  ℕ, suc, ◌+◌, ◌-◌, ◌*◌, ◌/◌, String, Bool, true, false, not, ◌&&◌, ◌||◌, Option, none, some, List,
  [], ◌∷◌, any, all, keep, length, get_or, nat_eq, leb, ltb, max, ◌==◌, if◌then◌else◌,
}
use beepa.Js.{
  Value, undefined, null, num, whole, get, truthy, as_natural, as_string, is_text, is_nullish,
  value_has_own, strictly_equal, is_alphanumeric, is_lower, between,
}
use beepa.Crm.Checked.{Checked, fine, ◌>>◌, need, require, each}
use beepa.Crm.Canonical.{Host}
use beepa.Crm.Format.{
  keys, text_within, one_of, all_different, elements, is_array, is_boolean, is_null,
  integer_between, positive_safe, or_null, with_field, string_test, values,
}

abbrev pub episode_fields : List String
episode_fields = "due_at" ∷ "snooze_until" ∷ "resolved" ∷ "resolved_event" ∷ []

-- `v?.[key] ?? (key === 'resolved' ? false : null)`
abbrev pub episode_value : Value → String → Value
episode_value v key =
    if is_nullish (get v key)
    then (if key == "resolved" then Value.bool false else null)
    else get v key

-- `previous?.episode_at || 0`
abbrev pub episode_of : Value → ℕ
episode_of v = get_or (as_natural (get v "episode_at")) 0

-- `withReminderEpisode(previous, payload, now)`
unfoldable pub with_reminder_episode : Value → Value → ℕ → Value
unfolding with_field
with_reminder_episode previous payload now =
    let kept =
      if strictly_equal (get previous "episode_at") undefined
      then payload
      else with_field payload "episode_at" (get previous "episode_at") in
    let changed =
      any (λ k. not (strictly_equal (episode_value previous k) (episode_value payload k)))
        episode_fields in
    if changed
      && (truthy previous
          || not (is_nullish (get payload "snooze_until"))
          || truthy (get payload "resolved")
          || not (is_nullish (get payload "resolved_event")))
    then with_field kept "episode_at" (num (whole (max now (suc (episode_of previous)))))
    else kept

-- `Math.max(at, ...episodes.map(n => n + 1))`
abbrev pub past_all : ℕ → List ℕ → ℕ
past_all at [] = at
past_all at (n ∷ ns) = max (suc n) (past_all at ns)

abbrev pub room_episodes : Value → List Value → List ℕ
room_episodes room [] = []
room_episodes room (o ∷ os) =
    let rest = room_episodes room os in
    if strictly_equal (get o "room_id") room then episode_of o ∷ rest else rest

-- `reminderOperationPayload(type, list, payload, now)`; `key` is the JSON text of the room and event.
unfoldable pub reminder_operation_payload : String → Value → Value → String → String → ℕ → Value
unfolding with_reminder_episode
reminder_operation_payload type list payload room key now =
    let watch = get (get list "watches") room in
    let obligations = get list "obligations" in
    let at =
      past_all (max now (suc (episode_of watch)))
        (room_episodes (get payload "room_id") (values obligations)) in
    if type == "list.watch"
    then with_reminder_episode watch payload at
    else if type == "list.obligation"
    then with_reminder_episode (get obligations key) payload at
    else payload

abbrev pub natural_test : (ℕ → ℕ → Bool) → Value → Value → Bool
natural_test test a b = elim (as_natural a) [
  | none ↦ false
  | some m ↦ elim (as_natural b) [ none ↦ false | some n ↦ test m n ]
]

-- `validateReminderEpisode(payload, previous)`
unfoldable pub validate_reminder_episode : Value → Value → Checked (Unit {0})
validate_reminder_episode payload previous = do
  let at = get payload "episode_at"
  let before = get previous "episode_at"
  let changed =
      any (λ k. not (strictly_equal (or_null (get payload k)) (or_null (get previous k))))
        episode_fields
  require (not (value_has_own payload "episode_at") || positive_safe at)
  need
      (strictly_equal before undefined
        || (if changed then natural_test ltb before at else natural_test leb before at))
      "reminder-episode-regression"

abbrev pub channel_names : List String
channel_names = "browser" ∷ "telegram" ∷ []

abbrev pub are_channels : Value → Bool
are_channels v =
    is_array v
    && leb (length (elements v)) 2
    && all_different (elements v)
    && all (one_of channel_names) (elements v)

pub record Routing : Type 0 where
  pub channels : List String
  pub primary : Option String
  pub fallback : Bool

-- `monitoringRouting(rule)`
unfoldable pub monitoring_routing : Value → Checked Routing
unfolding keys
monitoring_routing rule = do
  let r = get rule "routing"
  let chosen = keep (λ c. any (λ v. is_text v c) (elements (get rule "channels"))) channel_names
  need (are_channels (get rule "channels")) "invalid-notification-channels"
  (if is_nullish r
      then fine (record { channels = chosen; primary = none; fallback = false })
      else (do
        keys r ("primary" ∷ "fallback" ∷ []) []
        need
            (one_of chosen (get r "primary")
              && is_boolean (get r "fallback")
              && (not (truthy (get r "fallback")) || nat_eq (length chosen) 2))
            "invalid-notification-routing"
        fine (record {
          channels = chosen;
          primary = as_string (get r "primary");
          fallback = truthy (get r "fallback");
        })))

abbrev zone_head_char : ℕ → Bool
zone_head_char c = is_lower c || between b'A' b'Z' c || nat_eq c b'_'

abbrev zone_char : ℕ → Bool
zone_char c = is_alphanumeric c || nat_eq c b'_' || nat_eq c b'+' || nat_eq c b'-'

-- `(?:\/[A-Za-z0-9_+-]+)+$` after the first slash; `seen` says that the part has a character.
unfoldable pub zone_parts : Bool → String → Bool
zone_parts seen empty = seen
zone_parts seen (first_char c s) =
    let next = zone_parts false s in
    let same = zone_parts true s in
    if nat_eq (code c) b'/' then seen && next else zone_char (code c) && same

unfoldable pub zone_head : Bool → String → Bool
unfolding zone_parts
zone_head seen empty = false
zone_head seen (first_char c s) =
    let same = zone_head true s in
    if nat_eq (code c) b'/' then seen && zone_parts false s else zone_head_char (code c) && same

unfoldable pub timezone_text : String → Bool
unfolding zone_head
timezone_text s = s == "UTC" || s == "GMT" || zone_head false s

module _ (host : Host) where
  unfoldable pub validate_schedule : Value → Checked (Unit {0})
  unfolding keys text_within timezone_text
  validate_schedule s = do
    let days = get s "days"
    keys s ("timezone" ∷ "mode" ∷ "days" ∷ "start_minute" ∷ "end_minute" ∷ []) []
    require (
        text_within 100 (get s "timezone")
        && string_test timezone_text (get s "timezone")
        && one_of ("quiet" ∷ "working" ∷ []) (get s "mode"))
    need (string_test host.is_timezone (get s "timezone")) "invalid-timezone"
    require (
        is_array days
        && ltb 0 (length (elements days))
        && leb (length (elements days)) 7
        && all_different (elements days)
        && all (integer_between 1 7) (elements days))
    require (
        integer_between 0 1439 (get s "start_minute")
        && integer_between 0 1440 (get s "end_minute")
        && not (strictly_equal (get s "start_minute") (get s "end_minute")))

  unfoldable pub validate_presentation : Value → Checked (Unit {0})
  unfolding keys
  validate_presentation v = do
    keys v ("mode" ∷ "interval_ms" ∷ []) []
    require (one_of ("immediate" ∷ "grouped" ∷ "digest" ∷ []) (get v "mode"))
    require (
        if is_text (get v "mode") "immediate"
        then is_null (get v "interval_ms")
        else integer_between 60000 (if is_text (get v "mode") "grouped" then 3600000 else 86400000)
            (get v "interval_ms"))

  abbrev pub interval_ok : Value → Bool
  interval_ok v = is_null v || integer_between 60000 31536000000 v

  -- `validateMonitoringOptions(p)`
  unfoldable pub validate_monitoring_options : Value → Checked (Unit {0})
  unfolding keys validate_schedule validate_presentation
  validate_monitoring_options p = do
    (if is_nullish (get p "routing")
        then fine tt
        else (keys (get p "routing") ("primary" ∷ "fallback" ∷ []) []
            >> require (
                one_of channel_names (get (get p "routing") "primary")
                && is_boolean (get (get p "routing") "fallback"))))
    (if is_nullish (get p "presentation")
        then fine tt
        else validate_presentation (get p "presentation"))
    each (λ k. require (not (value_has_own p k) || is_boolean (get p k)))
        ("activity_enabled" ∷ "reminders_enabled" ∷ [])
    each (λ k. require (not (value_has_own p k) || interval_ok (get p k)))
        ("repeat_ms" ∷ "waiting_them_ms" ∷ "waiting_us_ms" ∷ [])
    (if is_nullish (get p "schedule") then fine tt else validate_schedule (get p "schedule"))

-- `monitoringReminderSlot(due, repeat, at)`, where `at` is a time
unfoldable pub monitoring_reminder_slot : Value → Value → ℕ → Option ℕ
monitoring_reminder_slot due repeat at = elim (as_natural due) [
  | none ↦ none
  | some d ↦
      if nat_eq d 0 || ltb at d
      then none
      else if is_nullish repeat
      then some d
      else (elim (as_natural repeat) [
        | none ↦ none
        | some r ↦ if ltb r 60000 || ltb 31536000000 r then none else some (d + (at - d) / r * r)
      ])
]
