-- ===== src/Routing/Tests.antt =====
-- Runs of master/notification-routing.mjs.
use beepa.Prelude.{
  ℕ, suc, String, true, false, none, some, List, [], ◌∷◌, ◌≡◌, refl, ◌==◌, if◌then◌else◌,
}
use beepa.Js.{Value, str, num, bool, obj, arr, of_entries, of_items, whole}
use beepa.Crm.Checked.{Checked, fine, refused, ◌>>=◌, ◌>>◌, need}
use beepa.Routing.Identity.{Engine}
use beepa.Routing.Tables.{Tables, restart}
use beepa.Routing.Observe.{Observed, observe}
use beepa.Routing.Plan.{Fresh}
use beepa.Routing.Drain.{Outside, Run, drain}
use beepa.Routing.Evidence.{Advances}
use beepa.Routing.Calls.{Once}
use beepa.Routing.Life
use beepa.Routing.Life.{Life, no_tables, born, observed, restarted, drained}

abbrev engine : Engine
engine = record {
  host = record { number_text = λ n. "0"; is_timezone = λ z. true };
  digest = λ s. s;
}

abbrev object : List (String × Value) → Value
object fs = obj (of_entries fs)

abbrev message : Value
message = object (
    ("kind", str "message")
    ∷ ("room", str "!r:h")
    ∷ ("event", str "$e")
    ∷ ("outgoing", bool false)
    ∷ [])

abbrev rules : Value
rules = arr (
    of_items (
      object (
        ("list_id", str "l1")
        ∷ ("revision", num (whole 3))
        ∷ ("room", str "!r:h")
        ∷ ("channels", arr (of_items (str "browser" ∷ str "telegram" ∷ [])))
        ∷ ("routing", object (("primary", str "browser") ∷ ("fallback", bool true) ∷ []))
        ∷ [])
      ∷ []))

abbrev fresh : Fresh
fresh = record { rules = rules; ready = arr (of_items (str "l1" ∷ [])) }

-- The browser fails and the other channel accepts; the world counts the calls.
abbrev outside : Outside ℕ
outside = record {
  clock = λ w. w;
  validate = λ source i w. (suc w, some fresh);
  outcome = λ channel i w. (suc w, none);
  enqueue = λ job w. (suc w, if job.channel == "browser" then some "failed" else some "accepted");
}

abbrev observe_message : Checked Observed
observe_message = observe engine 7 no_tables message rules

abbrev observed_tables : Checked Observed → Tables
observed_tables (fine out) = out.db
observed_tables (refused code) = no_tables

abbrev start : Tables
start = observed_tables observe_message

abbrev first_run : Run ℕ
first_run = drain outside false 10 start 0 []

-- A failure at the primary channel makes the drain hand the message to the other one.
falling_back : first_run.calls ≡ ("!r:h\0$e", "browser") ∷ ("!r:h\0$e", "telegram") ∷ []
unfolding observe drain ◌>>=◌ ◌>>◌ need
falling_back = refl

-- The process stops, starts again and drains: nobody is told again.
abbrev later_run : Run ℕ
later_run = drain outside false 10 (restart first_run.db) 50 first_run.calls

observes : observe engine 7 no_tables message rules ≡ fine (record { db = start; id = "!r:h\0$e" })
unfolding observe ◌>>=◌ ◌>>◌ need
observes = refl

abbrev whole_life : Life engine ℕ no_tables [] later_run.db later_run.calls
whole_life =
    drained outside false 10 50
      (restarted (drained outside false 10 0 (observed 7 message rules observes born)))

life-Once_example : Once later_run.calls
life-Once_example = Life.life-Once engine ℕ later_run.db later_run.calls whole_life

life-Advances_example : Advances no_tables later_run.db
life-Advances_example =
    Life.life-Advances engine ℕ no_tables [] later_run.db later_run.calls whole_life
