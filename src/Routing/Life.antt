-- ===== src/Routing/Life.antt =====
-- The states of master/notification-routing.mjs over observations, restarts and drains.
use beepa.Prelude.{ℕ, Bool, List, [], ◌≡◌, refl, inl, inr, Option-cases}
use beepa.Js.{Value}
use beepa.Crm.Checked.{fine}
use beepa.Crm.Ensures.{Ensures, Ensures-after, Ensures-then, Ensures-fine}
use beepa.Routing.Identity.{Engine}
use beepa.Routing.Tables.{Tables, route_of, restart}
use beepa.Routing.Observe.{Observed, observe}
use beepa.Routing.Drain.{Outside, drain}
use beepa.Routing.Evidence.{
  Advances, advances_refl, advances_trans, same-Advances, restart-Advances,
}
use beepa.Routing.Calls.{Call, Sent, Once, sent-Advances}
use beepa.Routing.Drained.{drain-Drains}

abbrev pub no_tables : Tables
no_tables = record { routes = []; rules = []; attempts = []; cursor = 0 }

-- The states from given tables and calls: each drain has adapters and validation of its own, and the
-- process may restart between two drains.
pub data Life (engine : Engine) (W : Type 0) (start : Tables) (begun : List Call)
    : Tables → List Call → Type 0 where
  born : Life engine W start begun start begun
  observed :
      (now : ℕ) (source rules : Value) {db : Tables} {calls : List Call} {out : Observed}
      → observe engine now db source rules ≡ fine out
      → Life engine W start begun db calls
      → Life engine W start begun out.db calls
  restarted :
      {db : Tables} {calls : List Call}
      → Life engine W start begun db calls
      → Life engine W start begun (restart db) calls
  drained :
      (outside : Outside W) (running : Bool) (limit : ℕ) (w : W) {db : Tables} {calls : List Call}
      → Life engine W start begun db calls
      → Life engine W start begun
          (drain outside running limit db w calls).db
          (drain outside running limit db w calls).calls

observe-Advances :
    (engine : Engine) (now : ℕ) (db : Tables) (source rules : Value)
    → Ensures (λ out. Advances db out.db) (observe engine now db source rules)
unfolding observe
observe-Advances engine now db source rules = Ensures-after _ _ λ i. Ensures-after _ _ λ text.
    Ensures-then _ _ (
      Ensures-after _ _ λ prepared. elim (Option-cases (route_of db i)) [
        | inr (old, known) ↦ rw (known) (Ensures-then _ _ (Ensures-fine _ (advances_refl db)))
        | inl new ↦ rw (new) (Ensures-fine _ (same-Advances db _ refl))
      ])

module _ (engine : Engine) (W : Type 0) where
  -- Over any observations, restarts and drains, no attempt is lost, and an attempt whose evidence is final
  -- keeps that evidence or is accepted.
  pub life-Advances :
      (start : Tables) (begun : List Call) (db : Tables) (calls : List Call)
      → Life engine W start begun db calls
      → Advances start db
  life-Advances start begun db calls born = advances_refl start
  life-Advances start begun _ calls
        (observed now source rules {db = db} {calls = calls2} {out = out} made h) =
      advances_trans (life-Advances start begun db calls h)
        ((observe-Advances engine now db source rules).holds out made)
  life-Advances start begun _ calls (restarted {db = db} h) =
      advances_trans (life-Advances start begun db calls h) (restart-Advances db)
  life-Advances start begun _ _ (drained outside running limit w {db = db} {calls = calls} h) =
      advances_trans (life-Advances start begun db calls h)
        (drain-Drains outside running limit db w calls).advances

  life-Sent :
      (start : Tables) (begun : List Call) (db : Tables) (calls : List Call)
      → Life engine W start begun db calls
      → Sent start begun
      → Sent db calls
  life-Sent start begun db calls born s = s
  life-Sent start begun _ calls
        (observed now source rules {db = db} {calls = calls2} {out = out} made h) s =
      sent-Advances db out.db calls ((observe-Advances engine now db source rules).holds out made)
        (life-Sent start begun db calls h s)
  life-Sent start begun _ calls (restarted {db = db} h) s =
      sent-Advances db (restart db) calls (restart-Advances db) (life-Sent start begun db calls h s)
  life-Sent start begun _ _ (drained outside running limit w {db = db} {calls = calls} h) s =
      (drain-Drains outside running limit db w calls).sent (life-Sent start begun db calls h s)

  -- From empty tables, whatever is observed, however often the process restarts between two drains and
  -- whatever the adapters and the validation answer, a notification is handed to the adapter of a channel at most once.
  pub life-Once :
      (db : Tables) (calls : List Call) → Life engine W no_tables [] db calls → Once calls
  life-Once db calls h =
      (life-Sent no_tables [] db calls h (record { once = tt; on_file = tt })).once
