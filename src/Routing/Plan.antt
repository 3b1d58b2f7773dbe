-- ===== src/Routing/Plan.antt =====
-- `reconcile`, `plan` and `claim` of master/notification-routing.mjs.
use beepa.Prelude.{
  ℕ, String, Bool, true, false, not, ◌&&◌, ◌||◌, Option, none, some, List, [], ◌∷◌, ◌++◌, map, all,
  any, has, keep, find, get_or, nat_eq, ◌==◌, if◌then◌else◌, lookup, insert,
}
use beepa.Js.{
  Value, str, num, arr, obj, of_items, of_entries, whole, get, as_natural, truthy, is_text,
  is_nullish,
}
use beepa.Crm.Checked.{Checked, fine, refused, ◌>>=◌, ◌>>◌, need}
use beepa.Crm.Format.{is_array, elements}
use beepa.Crm.Monitoring.{Routing, monitoring_routing}
use beepa.Routing.Identity.{is_message, notification_matches}
use beepa.Routing.Tables.{
  Rule, Attempt, Tables, attempt_of, attempts_of, route_of, is_attempt, with_state, with_attempts,
  with_rules, order_rows,
}

abbrev pub channels : List String
channels = "browser" ∷ "telegram" ∷ []

abbrev pub terminal_failures : List String
terminal_failures = "failed" ∷ "expired" ∷ "unavailable" ∷ []

abbrev pub states : List String
states =
    "pending" ∷ "in_flight" ∷ "unknown" ∷ "accepted" ∷ "failed" ∷ "expired" ∷ "unavailable"
    ∷ "canceled" ∷ []

-- Whether evidence of a state leaves an attempt as it is.
abbrev pub keeps_state : String → String → Bool
keeps_state old new =
    new == "missing"
    || old == "accepted"
    || ((has terminal_failures old || old == "canceled") && not (new == "accepted"))

abbrev pub set_state : String → String → String → ℕ → List Attempt → List Attempt
set_state i c s now as_ = map (λ a. if is_attempt i c a then with_state a s now else a) as_

-- `reconcile`
unfoldable pub reconcile : ℕ → Tables → String → String → String → Checked Tables
reconcile now db i channel state = do
  need (has channels channel && (has states state || state == "missing"))
      "Invalid notification outcome"
  elim (attempt_of db i channel) [
    | none ↦ refused "Notification attempt missing"
    | some old ↦
        if keeps_state old.state state
        then fine db
        else fine (with_attempts db (set_state i channel state now db.attempts))
  ]

-- What the caller has validated: the rules, and the lists that may be notified now.
pub record Fresh : Type 0 where
  pub rules : Value
  pub ready : Value

pub record Job : Type 0 where
  pub id : String
  pub channel : String
  pub source : Value
  pub refs : Value

abbrev pub same_texts : List String → List String → Bool
same_texts [] [] = true
same_texts (a ∷ as_) (b ∷ bs) = a == b && same_texts as_ bs
same_texts _ _ = false

abbrev pub same_choice : Option String → Option String → Bool
same_choice none none = true
same_choice (some a) (some b) = a == b
same_choice _ _ = false

-- The policies have the same JSON text.
abbrev pub same_policy : Routing → Routing → Bool
same_policy p q =
    same_texts p.channels q.channels
    && same_choice p.primary q.primary
    && (if p.fallback then q.fallback else not q.fallback)

abbrev pub same_slot : Option ℕ → Option ℕ → Bool
same_slot none none = true
same_slot (some a) (some b) = nat_eq a b
same_slot _ _ = false

-- `attempts.get(channel)?.state` is one of the states.
abbrev pub attempt_in : List Attempt → List String → String → Bool
attempt_in as_ wanted c = elim (find (λ (a : Attempt). a.channel == c) as_) [
  | none ↦ false
  | some a ↦ has wanted a.state
]

abbrev pub is_rule : String → String → Rule → Bool
is_rule i l r = r.id == i && r.list_id == l

abbrev pub rule_state : String → Rule → Rule
rule_state s r = record {
  id = r.id;
  list_id = r.list_id;
  revision = r.revision;
  policy = r.policy;
  slot = r.slot;
  chosen = r.chosen;
  state = s;
}

abbrev pub rule_choice : Option String → Rule → Rule
rule_choice c r = record {
  id = r.id;
  list_id = r.list_id;
  revision = r.revision;
  policy = r.policy;
  slot = r.slot;
  chosen = c;
  state = r.state;
}

abbrev pub update_rule : Tables → Rule → (Rule → Rule) → Tables
update_rule db old change =
    with_rules db (map (λ r. if is_rule old.id old.list_id r then change r else r) db.rules)

-- A map from a channel to what it is to tell.
abbrev pub Demands : Type 0
Demands = List (String × List Value)

abbrev pub rule_ref : Value → Rule → Value
rule_ref source old = obj (
    of_entries (
      ("id", str old.list_id)
      ∷ ("revision", num (whole old.revision))
      ∷ (if is_message source then [] else ("slot", num (whole (get_or old.slot 0))) ∷ [])))

abbrev pub demand : Value → Rule → List String → Demands → Demands
demand ref old [] demands = demands
demand ref old (c ∷ cs) demands =
    demand ref old cs (insert c (get_or (lookup c demands) [] ++ (ref ∷ [])) demands)

abbrev pub settled_states : List String
settled_states = "accepted" ∷ "failed" ∷ "expired" ∷ "unavailable" ∷ "canceled" ∷ []

-- `policy.channels.find(c => c !== policy.primary)`
abbrev pub other_channel : Routing → String → Option String
other_channel policy primary = find (λ c. not (c == primary)) policy.channels

-- Whether a rule falls back to its other channel.
abbrev pub falls_back : List Attempt → Rule → String → Bool
falls_back attempts old primary =
    same_choice old.chosen (some primary)
    && old.policy.fallback
    && attempt_in attempts terminal_failures primary

-- `[chosen]`; a rule with a primary channel always has a chosen one.
abbrev pub listed : Option String → List String
listed none = []
listed (some c) = c ∷ []

-- A turn's tables and either the demands or the error that `plan` throws.
abbrev pub Planned : Type 0
Planned = Tables × Checked Demands

abbrev pub and_then : Planned → (Tables → Demands → Planned) → Planned
and_then (db, fine demands) k = k db demands
and_then (db, refused code) k = (db, refused code)

module _ (i : String) (source : Value) (fresh : Fresh) (attempts : List Attempt) where
  -- Once the wanted channels are known.
  abbrev pub want : Tables → Demands → Rule → List String → Planned
  want db demands old wanted =
      if all (attempt_in attempts settled_states) wanted
      then (update_rule db old (rule_state "settled"), fine demands)
      else (db, fine (demand (rule_ref source old) old wanted demands))

  abbrev pub choose : Tables → Demands → Rule → Planned
  choose db demands old = elim old.policy.primary [
    | none ↦ want db demands old old.policy.channels
    | some primary ↦
        if falls_back attempts old primary
        then want (update_rule db old (rule_choice (other_channel old.policy primary))) demands old
            (listed (other_channel old.policy primary))
        else want db demands old (listed old.chosen)
  ]

  abbrev pub is_current : Rule → Value → Bool
  is_current old r =
      is_text (get r "list_id") old.list_id
      && same_slot (as_natural (get r "revision")) (some old.revision)
      && notification_matches source r

  -- `rules.find(r => …)`, which throws at a rule that is null or undefined.
  abbrev pub current_rule : Rule → List Value → Checked (Option Value)
  current_rule old [] = fine none
  current_rule old (r ∷ rs) =
      let rest = current_rule old rs in
      if is_nullish r then refused "TypeError" else if is_current old r then fine (some r) else rest

  -- A turn of the loop, once the validated rule was found.
  abbrev pub plan_current : Tables → Demands → Rule → Value → Planned
  plan_current db demands old r = elim (monitoring_routing r) [
    | refused code ↦ (db, refused code)
    | fine policy ↦
        if not (same_policy policy old.policy)
          || (not (is_message source)
              && not (same_slot (as_natural (get r "delivery_slot")) old.slot))
        then (update_rule db old (rule_state "canceled"), fine demands)
        else if any (λ v. is_text v old.list_id) (elements fresh.ready)
        then choose db demands old
        else (db, fine demands)
  ]

  abbrev pub plan_found : Tables → Demands → Rule → Option Value → Planned
  plan_found db demands old none = (update_rule db old (rule_state "canceled"), fine demands)
  plan_found db demands old (some r) = plan_current db demands old r

  -- A turn of the loop over the active rules.
  unfoldable pub plan_rule : Tables → Demands → Rule → Planned
  unfolding notification_matches monitoring_routing
  plan_rule db demands old = elim (current_rule old (elements fresh.rules)) [
    | refused code ↦ (db, refused code)
    | fine found ↦ plan_found db demands old found
  ]

  unfoldable pub plan_rules : Tables → Demands → List Rule → Planned
  unfolding plan_rule
  plan_rules db demands [] = (db, fine demands)
  plan_rules db demands (old ∷ olds) =
      and_then (plan_rule db demands old) (λ next more. plan_rules next more olds)

abbrev pub job_refs : Value → List Value → Value
job_refs source rules = obj (
    of_entries (
      if is_message source
      then ("outgoing", get source "outgoing") ∷ ("rules", arr (of_items rules)) ∷ []
      else ("due", get source "due")
        ∷ ("slot", get source "slot")
        ∷ ((if is_text (get source "kind") "reminder" && truthy (get source "episode")
              then ("episode", get source "episode") ∷ []
              else [])
            ++ (("rules", arr (of_items rules)) ∷ []))))

-- `[...demands].filter(...).map(...)`
abbrev pub jobs_of : String → Value → List Attempt → Demands → List Job
jobs_of i source attempts demands =
    map
      (λ (d : String × List Value). record {
        id = i;
        channel = d.0;
        source = source;
        refs = job_refs source d.1;
      })
      (keep (λ (d : String × List Value). not (any (λ (a : Attempt). a.channel == d.0) attempts))
        demands)

abbrev pub active_rules : Tables → String → List Rule
active_rules db i =
    order_rows (λ (r : Rule). r.list_id)
      (keep (λ (r : Rule). r.id == i && r.state == "active") db.rules)

pub record Plan : Type 0 where
  pub db : Tables
  pub jobs : Checked (List Job)

-- `plan`
unfoldable pub plan : Tables → String → Fresh → Plan
unfolding plan_rules
plan db i fresh = elim (route_of db i) [
  | none ↦ record { db = db; jobs = refused "Notification event missing" }
  | some route ↦
      if is_array fresh.rules && is_array fresh.ready
      then (let attempts = attempts_of db i in
          let planned = plan_rules i route.source fresh attempts db [] (active_rules db i) in
          record {
            db = planned.0;
            jobs = planned.1 >>= λ demands. fine (jobs_of i route.source attempts demands);
          })
      else record { db = db; jobs = refused "Fresh notification policy validation required" }
]

pub record Claim : Type 0 where
  pub db : Tables
  pub claimed : Bool

-- `claim`: an `INSERT OR IGNORE`
unfoldable pub claim : ℕ → Tables → Job → Claim
claim now db job =
    if any (is_attempt job.id job.channel) db.attempts
    then record { db = db; claimed = false }
    else record {
      db = with_attempts db (
          db.attempts
          ++ (record {
            id = job.id;
            channel = job.channel;
            state = "enqueueing";
            refs = job.refs;
            updated = now;
          }
              ∷ []));
      claimed = true;
    }
