-- ===== src/Crm/Deliveries/Tests.antt =====
-- Runs of `monitoringDeliveryPlan` of shared/model/crm.js.
use beepa.Prelude.{ℕ, String, true, none, [], ◌∷◌, ◌≡◌, refl}
use beepa.Js.{Value, str, num, whole, arr, of_items}
use beepa.Crm.Checked.{◌>>=◌, ◌>>◌, need}
use beepa.Crm.Tests.{host, object}
use beepa.Crm.Format.{text_within}
use beepa.Crm.Monitoring.{timezone_text}
use beepa.Crm.Deliveries.{Parts, Choice, monitoring_allows, monitoring_delivery_plan}
use beepa.Crm.Deliveries.Earliest
use beepa.Crm.Deliveries.Earliest.{OfRule}

abbrev parts_of : String → ℕ → Parts
parts_of zone at = record { weekday = "Mon"; hour = 1; minute = 30 }

-- A window from Sunday 22:00 to Monday 06:00.
abbrev night : Value
night = object (
    ("timezone", str "UTC")
    ∷ ("mode", str "working")
    ∷ ("days", arr (of_items (num (whole 7) ∷ [])))
    ∷ ("start_minute", num (whole 1320))
    ∷ ("end_minute", num (whole 360))
    ∷ [])

night_open : monitoring_allows host parts_of night 0 ≡ true
unfolding monitoring_allows ◌>>=◌ ◌>>◌ need text_within timezone_text
night_open = refl

abbrev digest_rule : Value
digest_rule = object (
    ("list_id", str "l1")
    ∷ ("schedule", night)
    ∷ ("presentation", object (("mode", str "digest") ∷ ("interval_ms", num (whole 60000)) ∷ []))
    ∷ [])

abbrev immediate_rule : Value
immediate_rule = object (("list_id", str "l2") ∷ [])

abbrev plan : Choice
plan = record { mode = "immediate"; ready_at = 70000; key = none; list_id = str "l2" }

monitoring_delivery_plan-Earliest_example :
    OfRule host parts_of 70000 90000 "!r:h" (digest_rule ∷ immediate_rule ∷ []) plan
    × Earliest.Earliest host parts_of 70000 90000 "!r:h" (digest_rule ∷ immediate_rule ∷ []) plan
unfolding monitoring_delivery_plan ◌>>=◌ ◌>>◌ need text_within timezone_text
monitoring_delivery_plan-Earliest_example =
    Earliest.monitoring_delivery_plan-Earliest host parts_of 70000 90000 "!r:h"
      (digest_rule ∷ immediate_rule ∷ []) plan refl
