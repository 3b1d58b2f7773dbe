-- ===== src/Routing/Drain.antt =====
-- `drain` of master/notification-routing.mjs.
use beepa.Prelude.{
  ℕ, zero, suc, String, Bool, true, false, not, ◌&&◌, ◌||◌, Option, none, some, List, [], ◌∷◌, ◌++◌,
  any, has, keep, find, nat_eq, ltb, leb, ◌==◌, if◌then◌else◌,
}
use beepa.Js.{Value}
use beepa.Crm.Checked.{Checked, fine, refused}
use beepa.Routing.Tables.{Route, Rule, Attempt, Tables, attempts_of, with_cursor}
use beepa.Routing.Plan.{Fresh, Job, plan, claim, reconcile, states, terminal_failures}

-- What `drain` is given: the clock, `validate` and the adapters, which may throw. They may do anything to a
-- world of theirs; while they run nothing else changes the tables.
pub record Outside (W : Type 0) : Type 0 where
  pub clock : W → ℕ
  pub validate : Value → String → W → W × Option Fresh
  pub outcome : String → String → W → W × Option String
  pub enqueue : Job → W → W × Option String

-- The tables, the world, the calls of `enqueue` so far and what `drain` threw.
pub record Run (W : Type 0) : Type 0 where
  pub db : Tables
  pub world : W
  pub calls : List (String × String)
  pub thrown : Option String

-- An attempt whose evidence is final.
abbrev pub is_final : String → Bool
is_final s = s == "accepted" || has terminal_failures s || s == "canceled"

-- `reconcile` where an error is caught.
abbrev pub kept_or : Tables → Checked Tables → Tables
kept_or db (fine next) = next
kept_or db (refused code) = db

module _ {W : Type 0} (outside : Outside W) where
  abbrev pub at : Tables → W → List (String × String) → Run W
  at db w calls = record { db = db; world = w; calls = calls; thrown = none }

  abbrev pub throws : Tables → W → List (String × String) → String → Run W
  throws db w calls code = record { db = db; world = w; calls = calls; thrown = some code }

  -- The next statement, unless one has thrown.
  abbrev pub then_run : Run W → (Tables → W → List (String × String) → Run W) → Run W
  then_run r k = elim r.thrown [ none ↦ k r.db r.world r.calls | some code ↦ r ]

  -- The outcomes of the attempts that are not final.
  unfoldable pub refresh : Tables → W → List (String × String) → List Attempt → Run W
  unfolding reconcile
  refresh db w calls [] = at db w calls
  refresh db w calls (a ∷ as_) =
      if is_final a.state
      then refresh db w calls as_
      else (let answer = outside.outcome a.channel a.id w in
          let now = outside.clock (answer.0) in
          elim (answer.1) [
            | none ↦ refresh db (answer.0) calls as_
            | some s ↦ refresh (kept_or db (reconcile now db a.id a.channel s)) (answer.0) calls as_
          ])

  -- The state that an adapter's answer is filed as: no answer and a word of its own are unknown.
  abbrev pub acknowledged : Option String → String
  acknowledged none = "unknown"
  acknowledged (some s) = if has states s then s else "unknown"

  -- A job that is claimed is handed over, and the answer is filed.
  unfoldable pub hand_over : Tables → W → List (String × String) → Job → Run W
  unfolding claim reconcile
  hand_over db w calls job =
      let taken = claim (outside.clock w) db job in
      if taken.claimed
      then (let answer = outside.enqueue job w in
          let now = outside.clock (answer.0) in
          at
            (kept_or taken.db (reconcile now taken.db job.id job.channel (acknowledged (answer.1))))
            (answer.0) (calls ++ ((job.id, job.channel) ∷ [])))
      else at db w calls

  abbrev pub find_job : String → List Job → Option Job
  find_job c jobs = find (λ (j : Job). j.channel == c) jobs

  -- A candidate, validated and planned again.
  unfoldable pub try_job : Tables → W → List (String × String) → Job → Run W
  unfolding plan hand_over
  try_job db w calls candidate =
      let answer = outside.validate candidate.source candidate.id w in
      elim (answer.1) [
        | none ↦ at db (answer.0) calls
        | some fresh ↦
            let again = plan db candidate.id fresh in
            elim again.jobs [
              | refused code ↦ throws again.db (answer.0) calls code
              | fine jobs ↦ elim (find_job candidate.channel jobs) [
                | none ↦ at again.db (answer.0) calls
                | some job ↦ hand_over again.db (answer.0) calls job
              ]
            ]
      ]

  unfoldable pub try_jobs : Tables → W → List (String × String) → List Job → Run W
  unfolding try_job
  try_jobs db w calls [] = at db w calls
  try_jobs db w calls (job ∷ jobs) =
      then_run (try_job db w calls job) (λ db2 w2 calls2. try_jobs db2 w2 calls2 jobs)

  -- The passes over the jobs of an event that are left.
  unfoldable pub passes : ℕ → Route → Tables → W → List (String × String) → Run W
  unfolding plan try_jobs
  passes zero event db w calls = at db w calls
  passes (suc left) event db w calls =
      let answer = outside.validate event.source event.id w in
      elim (answer.1) [
        | none ↦ at db (answer.0) calls
        | some fresh ↦
            let first = plan db event.id fresh in
            elim first.jobs [
              | refused code ↦ throws first.db (answer.0) calls code
              | fine [] ↦ at first.db (answer.0) calls
              | fine (job ∷ jobs) ↦
                  then_run (try_jobs first.db (answer.0) calls (job ∷ jobs)) (passes left event)
            ]
      ]

  -- A turn of the loop over the events.
  unfoldable pub drain_event : Route → Tables → W → List (String × String) → Run W
  unfolding refresh passes
  drain_event event db w calls =
      then_run (then_run (refresh db w calls (attempts_of db event.id)) (passes 2 event))
        (λ db2 w2 calls2. at (with_cursor db2 event.sequence) w2 calls2)

  unfoldable pub drain_events : List Route → Tables → W → List (String × String) → Run W
  unfolding drain_event
  drain_events [] db w calls = at db w calls
  drain_events (event ∷ events) db w calls =
      then_run (drain_event event db w calls) (drain_events events)

  abbrev pub first_rows : ℕ → List Route → List Route
  first_rows zero rows = []
  first_rows (suc n) [] = []
  first_rows (suc n) (row ∷ rows) = row ∷ first_rows n rows

  -- The routes after a place that have an active rule, in the order of their `rowid`.
  abbrev pub open_routes : Tables → ℕ → ℕ → List Route
  open_routes db after limit = first_rows limit (
      keep
        (λ (e : Route).
          ltb after e.sequence && any (λ (r : Rule). r.id == e.id && r.state == "active") db.rules)
        db.routes)

  abbrev pub is_empty : List Route → Bool
  is_empty [] = true
  is_empty _ = false

  -- `drain`; `running` says that another call has not ended.
  unfoldable pub drain : Bool → ℕ → Tables → W → List (String × String) → Run W
  unfolding drain_events
  drain running limit db w calls =
      if not (ltb 0 limit && leb limit 1000)
      then throws db w calls "Invalid routing limit"
      else if running
      then at db w calls
      else (let events = open_routes db db.cursor limit in
          if is_empty events && not (nat_eq db.cursor 0)
          then drain_events (open_routes (with_cursor db 0) 0 limit) (with_cursor db 0) w calls
          else drain_events events db w calls)
