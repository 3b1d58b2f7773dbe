-- ===== src/Routing/Drained.antt =====
-- What a `drain` of master/notification-routing.mjs does to the attempts, and how often it calls an adapter.
use beepa.Prelude.{
  ℕ, zero, suc, String, Bool, not, ◌&&◌, Option, none, some, List, [], ◌∷◌, nat_eq, ltb, leb, ◌≡◌,
  refl, Bool-cases, Option-cases, inl, inr,
}
use beepa.Crm.Checked.{fine}
use beepa.Crm.Replay.{Checked-cases}
use beepa.Routing.Tables.{Tables, Attempt, Route, attempts_of, with_cursor}
use beepa.Routing.Plan.{Fresh, Job, plan, claim, reconcile}
use beepa.Routing.Drain.{
  Outside, Run, kept_or, then_run, refresh, acknowledged, hand_over, find_job, try_job, try_jobs,
  passes, drain_event, drain_events, open_routes, is_empty, drain, is_final,
}
use beepa.Routing.Evidence.{
  Advances, advances_refl, advances_trans, same-Advances, claim-Advances, reconcile-Advances,
}
use beepa.Routing.Planned.{plan-SameRows}
use beepa.Routing.Calls.{Call, Sent, sent-Advances, claim-Sent}

-- From tables and calls to those of a run: no evidence is lost, and no attempt is handed over twice.
pub record Drains {W : Type 0} (db : Tables) (calls : List Call) (r : Run W) : Type 0 where
  pub advances : Advances db r.db
  pub sent : Sent db calls → Sent r.db r.calls

kept_or-Advances :
    (now : ℕ) (db : Tables) (i c s : String) → Advances db (kept_or db (reconcile now db i c s))
kept_or-Advances now db i c s = elim (Checked-cases (reconcile now db i c s)) [
  | inl (next, h) ↦ rw (h) ((reconcile-Advances now db i c s).holds next h)
  | inr (code, h) ↦ rw (h) (advances_refl db)
]

module _ {W : Type 0} (outside : Outside W) where
  stays :
      (db start : Tables) (w : W) (calls : List Call) (thrown : Option String)
      → Advances start db
      → Drains start calls (record { db = db; world = w; calls = calls; thrown = thrown })
  stays db start w calls thrown h = record { advances = h; sent = sent-Advances start db calls h }

  then_run-Drains :
      (db : Tables) (calls : List Call) (r : Run W) (k : Tables → W → List Call → Run W)
      → Drains db calls r
      → ((next : Tables) (w : W) (more : List Call) → Drains next more (k next w more))
      → Drains db calls (then_run outside r k)
  then_run-Drains db calls r k h g = elim (Option-cases r.thrown) [
    | inr (code, t) ↦ rw (t) (record { advances = h.advances; sent = h.sent })
    | inl ok ↦
        let rest = g r.db r.world r.calls in
        rw (ok) (record {
          advances = advances_trans h.advances rest.advances;
          sent = λ s. rest.sent (h.sent s);
        })
  ]

  after_step :
      (db next : Tables) (calls : List Call) (r : Run W)
      → Advances db next
      → Drains next calls r
      → Drains db calls r
  after_step db next calls r h g = record {
    advances = advances_trans h g.advances;
    sent = λ s. g.sent (sent-Advances db next calls h s);
  }

  refresh-Drains :
      (as_ : List Attempt) (db : Tables) (w : W) (calls : List Call)
      → Drains db calls (refresh outside db w calls as_)
  unfolding refresh
  refresh-Drains [] db w calls = stays db db w calls none (advances_refl db)
  refresh-Drains (a ∷ as_) db w calls = elim (Bool-cases (is_final a.state)) [
    | inl final ↦ rw (final) (refresh-Drains as_ db w calls)
    | inr open_ ↦
        let answer = outside.outcome a.channel a.id w in
        rw (open_) (elim (Option-cases answer.1) [
          | inl failed ↦ rw (failed) (refresh-Drains as_ db answer.0 calls)
          | inr (s, told) ↦ rw (told) (
              after_step db _ calls _
                (kept_or-Advances (outside.clock answer.0) db a.id a.channel s)
                (refresh-Drains as_ _ answer.0 calls))
        ])
  ]

  hand_over-Drains :
      (db : Tables) (w : W) (calls : List Call) (job : Job)
      → Drains db calls (hand_over outside db w calls job)
  unfolding hand_over
  hand_over-Drains db w calls job = elim (Bool-cases (claim (outside.clock w) db job).claimed) [
    | inr lost ↦ rw (lost) (stays db db w calls none (advances_refl db))
    | inl won ↦
        let now = outside.clock w in
        let answer = outside.enqueue job w in
        let kept = claim-Advances now db job in
        let filed =
          kept_or-Advances (outside.clock answer.0) (claim now db job).db job.id job.channel
            (acknowledged outside answer.1) in
        rw (won) (record {
          advances = advances_trans kept filed;
          sent = λ s. sent-Advances _ _ _ filed (claim-Sent now db job calls kept won s);
        })
  ]

  try_job-Drains :
      (db : Tables) (w : W) (calls : List Call) (job : Job)
      → Drains db calls (try_job outside db w calls job)
  unfolding try_job
  try_job-Drains db w calls job =
      let answer = outside.validate job.source job.id w in
      elim (Option-cases answer.1) [
        | inl failed ↦ rw (try_job, failed) (stays db db answer.0 calls none (advances_refl db))
        | inr (fresh, valid) ↦
            let same = plan-SameRows db job.id fresh in
            let kept = same-Advances db (plan db job.id fresh).db same.attempts in
            rw (try_job, valid)
              (elim (Checked-cases (plan db job.id fresh).jobs) [
                | inr (code, bad) ↦ rw (bad) (stays _ db answer.0 calls (some code) kept)
                | inl (jobs, ok) ↦
                    rw (ok) (elim (Option-cases (find_job outside job.channel jobs)) [
                      | inl gone ↦ rw (gone) (stays _ db answer.0 calls none kept)
                      | inr (again, found) ↦
                          rw (found)
                            (after_step db _ calls _ kept (hand_over-Drains _ answer.0 calls again))
                    ])
              ])
      ]

  try_jobs-Drains :
      (jobs : List Job) (db : Tables) (w : W) (calls : List Call)
      → Drains db calls (try_jobs outside db w calls jobs)
  unfolding try_jobs
  try_jobs-Drains [] db w calls = stays db db w calls none (advances_refl db)
  try_jobs-Drains (job ∷ jobs) db w calls =
      then_run-Drains db calls _ _ (try_job-Drains db w calls job) (try_jobs-Drains jobs)

  abbrev pub PassesDrain : ℕ → Route → Type 0
  PassesDrain left event =
      (db : Tables) (w : W) (calls : List Call)
      → Drains db calls (passes outside left event db w calls)

  pass_jobs :
      (left : ℕ) (event : Route) (db : Tables) (w : W) (calls : List Call) (fresh : Fresh)
      (jobs : List Job)
      → (outside.validate event.source event.id w).1 ≡ some fresh
      → (plan db event.id fresh).jobs ≡ fine jobs
      → PassesDrain left event
      → Drains db calls (passes outside (suc left) event db w calls)
  unfolding passes
  pass_jobs left event db w calls fresh [] valid ok more =
      rw (passes, valid, ok)
        (stays _ db _ calls none (same-Advances db _ (plan-SameRows db event.id fresh).attempts))
  pass_jobs left event db w calls fresh (job ∷ jobs) valid ok more =
      rw (passes, valid, ok)
        (after_step db _ calls _ (same-Advances db _ (plan-SameRows db event.id fresh).attempts)
          (then_run-Drains _ calls _ _ (try_jobs-Drains (job ∷ jobs) _ _ calls) more))

  passes-Drains : (left : ℕ) (event : Route) → PassesDrain left event
  unfolding passes
  passes-Drains zero event db w calls = stays db db w calls none (advances_refl db)
  passes-Drains (suc left) event db w calls =
      let answer = outside.validate event.source event.id w in
      elim (Option-cases answer.1) [
        | inl failed ↦ rw (passes, failed) (stays db db answer.0 calls none (advances_refl db))
        | inr (fresh, valid) ↦ elim (Checked-cases (plan db event.id fresh).jobs) [
          | inr (code, bad) ↦
              rw (passes, valid, bad)
                (stays _ db answer.0 calls (some code)
                  (same-Advances db _ (plan-SameRows db event.id fresh).attempts))
          | inl (jobs, ok) ↦
              pass_jobs left event db w calls fresh jobs valid ok (passes-Drains left event)
        ]
      ]

  drain_events-Drains :
      (events : List Route) (db : Tables) (w : W) (calls : List Call)
      → Drains db calls (drain_events outside events db w calls)
  unfolding drain_events drain_event
  drain_events-Drains [] db w calls = stays db db w calls none (advances_refl db)
  drain_events-Drains (event ∷ events) db w calls =
      then_run-Drains db calls _ _
        (then_run-Drains db calls _ _
          (then_run-Drains db calls _ _ (refresh-Drains (attempts_of db event.id) db w calls)
            (passes-Drains 2 event))
          (λ next v more.
            stays (with_cursor next event.sequence) next v more none
              (same-Advances next (with_cursor next event.sequence) refl)))
        (drain_events-Drains events)

  -- A drain loses no attempt and no final evidence, whatever the adapters and the validation answer, also when
  -- it throws. If each earlier call of an adapter stands once and is on file, that holds of all calls after it too.
  pub drain-Drains :
      (running : Bool) (limit : ℕ) (db : Tables) (w : W) (calls : List Call)
      → Drains db calls (drain outside running limit db w calls)
  unfolding drain
  drain-Drains running limit db w calls = elim (Bool-cases (not (ltb 0 limit && leb limit 1000))) [
    | inl wrong ↦
        rw (drain, wrong) (stays db db w calls (some "Invalid routing limit") (advances_refl db))
    | inr valid ↦
        rw (drain, valid)
          (elim (Bool-cases running) [
            | inl busy ↦ rw (busy) (stays db db w calls none (advances_refl db))
            | inr free ↦
                let events = open_routes outside db db.cursor limit in
                rw (free) (elim (Bool-cases (is_empty outside events && not (nat_eq db.cursor 0))) [
                  | inl again ↦ rw (again) (
                      after_step db (with_cursor db 0) calls _
                        (same-Advances db (with_cursor db 0) refl)
                        (drain_events-Drains _ (with_cursor db 0) w calls))
                  | inr onwards ↦ rw (onwards) (drain_events-Drains events db w calls)
                ])
          ])
  ]
