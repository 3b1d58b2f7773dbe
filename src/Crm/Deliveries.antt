-- ===== src/Crm/Deliveries.antt =====
-- `monitoringAllows` and `monitoringDeliveryPlan` of shared/model/crm.js.
use Prim.Native.String
use beepa.Prelude.{
  ℕ, suc, ◌+◌, ◌-◌, ◌*◌, ◌/◌, max, String, Bool, true, false, not, ◌&&◌, ◌||◌, Option, none, some,
  List, [], ◌∷◌, any, leb, ltb, nat_eq, get_or, ◌==◌, if◌then◌else◌,
}
use beepa.Js.{
  Value, get, truthy, is_nullish, is_text, is_number, as_natural, obj, of_entries, whole,
}
use beepa.Crm.Checked.{Checked, fine, refused}
use beepa.Crm.Canonical.{Host, text_before}
use beepa.Crm.Format.{elements, text_of}
use beepa.Crm.Monitoring.{validate_monitoring_options}
pub mod Earliest
mod Tests

-- What the engine says of a time in a time zone.
pub record Parts : Type 0 where
  pub weekday : String
  pub hour : ℕ
  pub minute : ℕ

-- `list.indexOf(x) + 1`
abbrev pub place : List String → String → ℕ
place [] x = 0
place (y ∷ ys) x = if y == x then 1 else (if nat_eq (place ys x) 0 then 0 else suc (place ys x))

abbrev pub weekdays : List String
weekdays = "Mon" ∷ "Tue" ∷ "Wed" ∷ "Thu" ∷ "Fri" ∷ "Sat" ∷ "Sun" ∷ []

-- What is delivered, when, and under which key.
pub record Choice : Type 0 where
  pub mode : String
  pub ready_at : ℕ
  pub key : Option String
  pub list_id : Value

abbrev pub is_fine : Checked (Unit {0}) → Bool
is_fine (fine u) = true
is_fine (refused code) = false

abbrev pub natural : Value → ℕ
natural v = get_or (as_natural v) 0

-- Whether the window is open, on a day of the week from 1 on, at a minute of the day.
unfoldable pub is_inside : Value → ℕ → ℕ → Bool
is_inside s day minute =
    let on : ℕ → Bool = λ d. any (λ v. is_number v d) (elements (get s "days")) in
    let start = natural (get s "start_minute") in
    let end_ = natural (get s "end_minute") in
    if ltb start end_
    then on day && leb start minute && ltb minute end_
    else (on day && leb start minute)
      || (on (if nat_eq day 1 then 7 else day - 1) && ltb minute end_)

-- `a` does not come after `b`.
abbrev pub choice_before : Choice → Choice → Bool
choice_before a b =
    ltb a.ready_at b.ready_at
    || (nat_eq a.ready_at b.ready_at && text_before (get_or a.key "") (get_or b.key ""))

-- `choices.sort(...)`, which is stable.
unfoldable pub insert_choice : Choice → List Choice → List Choice
insert_choice c [] = c ∷ []
insert_choice c (d ∷ ds) =
    let rest = insert_choice c ds in if choice_before c d then c ∷ d ∷ ds else d ∷ rest

unfoldable pub sort_choices : List Choice → List Choice
unfolding insert_choice
sort_choices [] = []
sort_choices (c ∷ cs) = insert_choice c (sort_choices cs)

abbrev pub first_choice : List Choice → Option Choice
first_choice [] = none
first_choice (c ∷ cs) = some c

abbrev pub key_of : Host → String → String → ℕ → Option String
key_of host name owner collection =
    some
      (String.◌++◌ name (String.◌++◌ owner (String.◌++◌ ":" (host.number_text (whole collection)))))

-- The end of the fixed window that a time falls into.
abbrev pub window_end : ℕ → ℕ → ℕ
window_end created interval = (created / interval + 1) * interval

-- The choice of a rule, whose presentation is valid; list ids are texts.
unfoldable pub choice_of : Host → Value → ℕ → ℕ → String → Choice
choice_of host rule created at room =
    let p = get rule "presentation" in
    let interval = natural (get p "interval_ms") in
    let ready_at = window_end created interval in
    let collection = max ready_at (at / interval * interval) in
    if not (truthy p) || is_text (get p "mode") "immediate"
    then record { mode = "immediate"; ready_at = created; key = none; list_id = get rule "list_id" }
    else record {
      mode = text_of (get p "mode");
      ready_at = ready_at;
      key =
          if is_text (get p "mode") "grouped"
          then key_of host "grouped:" room collection
          else if is_text (get p "mode") "digest"
          then key_of host "digest:" (text_of (get rule "list_id")) collection
          else none;
      list_id = get rule "list_id";
    }

module _ (host : Host) (parts_of : String → ℕ → Parts) where
  -- `monitoringAllows(schedule, at)`
  unfoldable pub monitoring_allows : Value → ℕ → Bool
  unfolding validate_monitoring_options is_inside
  monitoring_allows schedule at =
      if is_nullish schedule
      then true
      else if not (
          is_fine
            (validate_monitoring_options host (obj (of_entries (("schedule", schedule) ∷ [])))))
      then false
      else let parts = parts_of (text_of (get schedule "timezone")) at in
        let inside =
          is_inside schedule (place weekdays parts.weekday) (parts.hour * 60 + parts.minute) in
        if is_text (get schedule "mode") "working" then inside else not inside

  -- Whether a rule is not passed over.
  unfoldable pub is_open : ℕ → Value → Bool
  unfolding monitoring_allows
  is_open at rule =
      monitoring_allows (get rule "schedule") at
      && is_fine (
          validate_monitoring_options host
            (obj (of_entries (("presentation", get rule "presentation") ∷ []))))

  -- `choices`
  unfoldable pub choices : List Value → ℕ → ℕ → String → List Choice
  unfolding is_open choice_of
  choices [] created at room = []
  choices (rule ∷ rules) created at room =
      let rest = choices rules created at room in
      if is_open at rule then choice_of host rule created at room ∷ rest else rest

  -- `monitoringDeliveryPlan(rules, created, at, room)`
  unfoldable pub monitoring_delivery_plan : List Value → ℕ → ℕ → String → Option Choice
  unfolding choices sort_choices
  monitoring_delivery_plan rules created at room =
      first_choice (sort_choices (choices rules created at room))
