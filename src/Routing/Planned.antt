-- ===== src/Routing/Planned.antt =====
-- What `plan` of master/notification-routing.mjs leaves and which jobs it gives.
use beepa.Prelude.{
  String, not, ◌&&◌, ◌||◌, List, [], ◌∷◌, all, any, Option, none, some, ◌≡◌, refl, ◌∙◌, Bool-cases,
  Option-cases, inl, inr,
}
use beepa.Js.{Value, is_text, get, as_natural}
use beepa.Crm.Checked.{fine, refused}
use beepa.Crm.Format.{is_array, elements}
use beepa.Crm.Monitoring.{monitoring_routing}
use beepa.Crm.Replay.{Checked-cases}
use beepa.Routing.Identity.{is_message}
use beepa.Routing.Tables.{Tables, Attempt, Rule, route_of, attempts_of}
use beepa.Routing.Plan.{
  Planned, Demands, Fresh, plan, plan_rules, plan_rule, and_then, want, choose, falls_back,
  settled_states, attempt_in, same_policy, same_slot, current_rule, plan_current, plan_found,
  active_rules, other_channel, update_rule, rule_choice,
}

-- The same attempts and routes, and the same place.
pub record SameRows (db next : Tables) : Type 0 where
  pub attempts : next.attempts ≡ db.attempts
  pub routes : next.routes ≡ db.routes
  pub cursor : next.cursor ≡ db.cursor

SameRows-refl : (db : Tables) → SameRows db db
SameRows-refl db = record { attempts = refl; routes = refl; cursor = refl }

SameRows-trans : {a b c : Tables} → SameRows a b → SameRows b c → SameRows a c
SameRows-trans h g = record {
  attempts = g.attempts ∙ h.attempts;
  routes = g.routes ∙ h.routes;
  cursor = g.cursor ∙ h.cursor;
}

module _ (i : String) (source : Value) (fresh : Fresh) (attempts : List Attempt) where
  want-SameRows :
      (db start : Tables) (demands : Demands) (old : Rule) (wanted : List String)
      → SameRows start db
      → SameRows start (want i source fresh attempts db demands old wanted).0
  want-SameRows db start demands old wanted h =
      elim (Bool-cases (all (attempt_in attempts settled_states) wanted)) [
        | inl settled ↦
            rw (settled) (record { attempts = h.attempts; routes = h.routes; cursor = h.cursor })
        | inr open_ ↦ rw (open_) h
      ]

  choose-SameRows :
      (db : Tables) (demands : Demands) (old : Rule)
      → SameRows db (choose i source fresh attempts db demands old).0
  choose-SameRows db demands old = elim (Option-cases old.policy.primary) [
    | inl free ↦ rw (free) (want-SameRows db db demands old _ (SameRows-refl db))
    | inr (primary, is_primary) ↦
        rw (is_primary) (elim (Bool-cases (falls_back attempts old primary)) [
          | inl falls ↦ rw (falls) (
              want-SameRows (update_rule db old (rule_choice (other_channel old.policy primary))) db
                demands old _ (record { attempts = refl; routes = refl; cursor = refl }))
          | inr stays ↦ rw (stays) (want-SameRows db db demands old _ (SameRows-refl db))
        ])
  ]

  plan_current-SameRows :
      (db : Tables) (demands : Demands) (old : Rule) (r : Value)
      → SameRows db (plan_current i source fresh attempts db demands old r).0
  plan_current-SameRows db demands old r = elim (Checked-cases (monitoring_routing r)) [
    | inr (c, bad) ↦ rw (plan_current, bad) (SameRows-refl db)
    | inl (policy, valid) ↦
        rw (plan_current, valid)
          (elim (Bool-cases (
            not (same_policy policy old.policy)
            || (not (is_message source)
                && not (same_slot (as_natural (get r "delivery_slot")) old.slot)))) [
                  | inl changed ↦
                      rw (changed) (record { attempts = refl; routes = refl; cursor = refl })
                  | inr same ↦
                      rw (same)
                        (elim (Bool-cases
                          (any (λ v. is_text v old.list_id) (elements fresh.ready))) [
                            | inl now ↦ rw (now) (choose-SameRows db demands old)
                            | inr later ↦ rw (later) (SameRows-refl db)
                          ])
                ])
  ]

  plan_found-SameRows :
      (db : Tables) (demands : Demands) (old : Rule) (found : Option Value)
      → SameRows db (plan_found i source fresh attempts db demands old found).0
  plan_found-SameRows db demands old none = record { attempts = refl; routes = refl; cursor = refl }
  plan_found-SameRows db demands old (some r) = plan_current-SameRows db demands old r

  plan_rule-SameRows :
      (db : Tables) (demands : Demands) (old : Rule)
      → SameRows db (plan_rule i source fresh attempts db demands old).0
  unfolding plan_rule
  plan_rule-SameRows db demands old =
      elim (Checked-cases (current_rule i source fresh attempts old (elements fresh.rules))) [
        | inr (c, bad) ↦ rw (plan_rule, bad) (SameRows-refl db)
        | inl (found, searched) ↦
            rw (plan_rule, searched) (plan_found-SameRows db demands old found)
      ]

  and_then-SameRows :
      (start : Tables) (p : Planned) (k : Tables → Demands → Planned)
      → SameRows start p.0
      → ((db : Tables) (demands : Demands) → SameRows db (k db demands).0)
      → SameRows start (and_then p k).0
  and_then-SameRows start (db, fine demands) k h g = SameRows-trans h (g db demands)
  and_then-SameRows start (db, refused code) k h g = h

  plan_rules-SameRows :
      (db : Tables) (demands : Demands) (olds : List Rule)
      → SameRows db (plan_rules i source fresh attempts db demands olds).0
  unfolding plan_rules
  plan_rules-SameRows db demands [] = SameRows-refl db
  plan_rules-SameRows db demands (old ∷ olds) =
      and_then-SameRows db (plan_rule i source fresh attempts db demands old) _
        (plan_rule-SameRows db demands old) (λ next more. plan_rules-SameRows next more olds)

-- `plan` changes neither an attempt nor a route, whether it gives jobs or throws.
pub plan-SameRows : (db : Tables) (i : String) (fresh : Fresh) → SameRows db (plan db i fresh).db
unfolding plan
plan-SameRows db i fresh = elim (Option-cases (route_of db i)) [
  | inl absent ↦ rw (plan, absent) (SameRows-refl db)
  | inr (route, is_route) ↦
      rw (plan, is_route)
        (elim (Bool-cases (is_array fresh.rules && is_array fresh.ready)) [
          | inl valid ↦ rw (valid) (
              plan_rules-SameRows i route.source fresh (attempts_of db i) db [] (active_rules db i))
          | inr invalid ↦ rw (invalid) (SameRows-refl db)
        ])
]
