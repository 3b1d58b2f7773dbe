-- ===== src/Routing/Calls.antt =====
-- The calls of an adapter's `enqueue` by master/notification-routing.mjs.
use beepa.Prelude.{
  ℕ, String, Bool, true, false, ◌&&◌, Option, none, some, List, [], ◌∷◌, ◌++◌, any, is_some, All,
  ◌≡◌, refl, sym, ◌∙◌, arith, ◌==◌, eq_iff, eq_refl, Bool-cases, inl, inr,
}
use beepa.Routing.Tables.{Tables, Attempt, attempt_of, is_attempt}
use beepa.Routing.Plan.{Job, claim}
use beepa.Routing.Evidence.{Advances, find-new, any-find}

abbrev pub Call : Type 0
Call = String × String

abbrev pub is_call : Call → Call → Bool
is_call a b = b.0 == a.0 && b.1 == a.1

-- No notification goes to the same channel twice.
abbrev pub Once : List Call → Type 0
Once [] = Unit
Once (c ∷ cs) = (any (is_call c) cs ≡ false) × Once cs

abbrev pub filed : Tables → Call → Bool
filed db c = is_some (attempt_of db c.0 c.1)

-- Each call stands once, and its attempt is in the table.
pub record Sent (db : Tables) (calls : List Call) : Type 0 where
  pub once : Once calls
  pub on_file : All (λ c. filed db c ≡ true) calls

filed-Advances :
    (db next : Tables) (c : Call) → Advances db next → filed db c ≡ true → filed next c ≡ true
filed-Advances db next c h f = go (attempt_of db c.0 c.1) refl f
  where
    go : (o : Option Attempt) → attempt_of db c.0 c.1 ≡ o → is_some o ≡ true → filed next c ≡ true
    go none e f = ground (arith, f)
    go (some a) e f = let (b, is_b, _) = h.kept c.0 c.1 a e in rw (is_b) refl

on_file-Advances :
    (db next : Tables) (calls : List Call)
    → Advances db next
    → All (λ c. filed db c ≡ true) calls
    → All (λ c. filed next c ≡ true) calls
on_file-Advances db next [] h f = tt
on_file-Advances db next (c ∷ cs) h (f, fs) =
    (filed-Advances db next c h f, on_file-Advances db next cs h fs)

pub sent-Advances :
    (db next : Tables) (calls : List Call) → Advances db next → Sent db calls → Sent next calls
sent-Advances db next calls h s = record {
  once = s.once;
  on_file = on_file-Advances db next calls h s.on_file;
}

-- A call whose attempt is not in the table is none of the calls.
not_called :
    (db : Tables) (x : Call) (calls : List Call)
    → filed db x ≡ false
    → All (λ c. filed db c ≡ true) calls
    → any (is_call x) calls ≡ false
not_called db x [] absent f = refl
not_called db x (c ∷ cs) absent (f, fs) = elim (Bool-cases (is_call x c)) [
  | inl same ↦
      let one : c.0 ≡ x.0 = (eq_iff c.0 x.0).0 (ground (same, arith)) in
      let two : c.1 ≡ x.1 = (eq_iff c.1 x.1).0 (ground (same, arith)) in
      ground (arith, rw (one, two) at f, absent)
  | inr other ↦ rw (other) (not_called db x cs absent fs)
]

any-snoc :
    (p : Call → Bool) (xs : List Call) (y : Call)
    → any p xs ≡ false
    → p y ≡ false
    → any p (xs ++ (y ∷ [])) ≡ false
any-snoc p [] y h g = rw (g) refl
any-snoc p (x ∷ xs) y h g = elim (Bool-cases (p x)) [
  | inl hit ↦ ground (arith, h, hit)
  | inr miss ↦ rw (miss) (any-snoc p xs y (rw (miss) at h) g)
]

is_call_sym : (a b : Call) → is_call a b ≡ false → is_call b a ≡ false
is_call_sym a b h =
    ground (h, eq_iff a.0 b.0, eq_iff b.0 a.0, eq_iff a.1 b.1, eq_iff b.1 a.1, arith)

Once-append :
    (calls : List Call) (x : Call)
    → Once calls
    → any (is_call x) calls ≡ false
    → Once (calls ++ (x ∷ []))
Once-append [] x o h = (refl, tt)
Once-append (c ∷ cs) x (first, rest) h = (
  any-snoc (is_call c) cs x first (is_call_sym x c (ground (h, arith))),
  Once-append cs x rest (ground (h, arith)),
)

All-append :
    (db : Tables) (calls : List Call) (x : Call)
    → All (λ c. filed db c ≡ true) calls
    → filed db x ≡ true
    → All (λ c. filed db c ≡ true) (calls ++ (x ∷ []))
All-append db [] x h g = (g, tt)
All-append db (c ∷ cs) x (h, hs) g = (h, All-append db cs x hs g)

own_key : (a : Attempt) → is_attempt a.id a.channel a ≡ true
own_key a = rw (eq_refl a.id, eq_refl a.channel) refl

abbrev claimed_row : ℕ → Job → Attempt
claimed_row now job = record {
  id = job.id;
  channel = job.channel;
  state = "enqueueing";
  refs = job.refs;
  updated = now;
}

-- A claim that succeeds makes room for one more call.
pub claim-Sent :
    (now : ℕ) (db : Tables) (job : Job) (calls : List Call)
    → Advances db (claim now db job).db
    → (claim now db job).claimed ≡ true
    → Sent db calls
    → Sent (claim now db job).db (calls ++ ((job.id, job.channel) ∷ []))
unfolding claim
claim-Sent now db job calls kept claimed s =
    elim (Bool-cases (any (is_attempt job.id job.channel) db.attempts)) [
      | inl held ↦ ground (arith, rw (claim, held) at claimed)
      | inr new ↦
          let absent = sym (any-find (is_attempt job.id job.channel) db.attempts) ∙ new in
          record {
            once =
                Once-append calls (job.id, job.channel) s.once
                  (not_called db (job.id, job.channel) calls absent s.on_file);
            on_file =
                All-append (claim now db job).db calls (job.id, job.channel)
                  (on_file-Advances db (claim now db job).db calls kept s.on_file)
                  (rw
                    (
                      claim,
                      new,
                      find-new (is_attempt job.id job.channel) db.attempts (claimed_row now job) new
                          (own_key (claimed_row now job)),
                    )
                    refl);
          }
    ]
