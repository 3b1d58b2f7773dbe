-- ===== src/Routing/Evidence.antt =====
-- The evidence on attempts that the operations of master/notification-routing.mjs keep.
use beepa.Prelude.{
  ℕ, String, Bool, true, false, ◌||◌, some, List, [], ◌∷◌, ◌++◌, map, any, find, is_some, ◌≡◌, refl,
  sym, ap, ◌∙◌, arith, ◌==◌, if◌then◌else◌, eq_iff, eq_refl, Bool-cases, Option-cases, inl, inr,
}
use beepa.Crm.Ensures.{Ensures, Ensures-then, Ensures-fine}
use beepa.Routing.Tables.{
  Tables, Attempt, attempt_of, is_attempt, with_state, with_attempts, restart,
}
use beepa.Routing.Plan.{reconcile, keeps_state, set_state, claim, Job}
use beepa.Routing.Drain.{is_final}

module _ {ℓ} {A : Type ℓ} where
  some-inside : (x a : A) → some x ≡ some a → x ≡ a
  some-inside x a h = ground (arith, h)

  pub find_sound : (p : A → Bool) (xs : List A) (a : A) → find p xs ≡ some a → p a ≡ true
  find_sound p [] a h = ground (arith, h)
  find_sound p (x ∷ xs) a h = elim (Bool-cases (p x)) [
    | inl yes_x ↦ rw (sym (some-inside x a (rw (yes_x) at h))) yes_x
    | inr no_x ↦ find_sound p xs a (rw (no_x) at h)
  ]

  pub find-append :
      (p : A → Bool) (xs ys : List A) (a : A) → find p xs ≡ some a → find p (xs ++ ys) ≡ some a
  find-append p [] ys a h = ground (arith, h)
  find-append p (x ∷ xs) ys a h = elim (Bool-cases (p x)) [
    | inl yes_x ↦ rw (yes_x) (rw (yes_x) at h)
    | inr no_x ↦ rw (no_x) (find-append p xs ys a (rw (no_x) at h))
  ]

  pub find-new :
      (p : A → Bool) (xs : List A) (y : A)
      → any p xs ≡ false
      → p y ≡ true
      → find p (xs ++ (y ∷ [])) ≡ some y
  find-new p [] y h g = rw (g) refl
  find-new p (x ∷ xs) y h g = elim (Bool-cases (p x)) [
    | inl yes_x ↦ ground (arith, h, yes_x)
    | inr no_x ↦ rw (no_x) (find-new p xs y (rw (no_x) at h) g)
  ]

  pub any-find : (p : A → Bool) (xs : List A) → any p xs ≡ is_some (find p xs)
  any-find p [] = refl
  any-find p (x ∷ xs) = elim (Bool-cases (p x)) [
    | inl yes_x ↦ rw (yes_x) refl
    | inr no_x ↦ rw (no_x) (any-find p xs)
  ]

  pub find-map :
      (p : A → Bool) (f : A → A) (xs : List A) (a : A)
      → ((x : A) → p (f x) ≡ p x)
      → find p xs ≡ some a
      → find p (map f xs) ≡ some (f a)
  find-map p f [] a same h = ground (arith, h)
  find-map p f (x ∷ xs) a same h = elim (Bool-cases (p x)) [
    | inl yes_x ↦ rw (same x, yes_x) (ap (λ o. some (f o)) (some-inside x a (rw (yes_x) at h)))
    | inr no_x ↦ rw (same x, no_x) (find-map p f xs a same (rw (no_x) at h))
  ]

-- What final evidence can become: itself or an acceptance.
abbrev pub Progress : String → String → Type 0
Progress s t = is_final s ≡ true → (t == s || t == "accepted") ≡ true

Progress-refl : (s : String) → Progress s s
Progress-refl s h = rw (eq_refl s) refl

Progress-trans : (s t u : String) → Progress s t → Progress t u → Progress s u
Progress-trans s t u h g final = elim (Bool-cases (t == s)) [
  | inl same ↦ let e = (eq_iff t s).0 same in rw (e) at (g (rw (e) final))
  | inr other ↦
      let accepted : t ≡ "accepted" = (eq_iff t "accepted").0 (ground (h final, other, arith)) in
      let later = rw (accepted) at (g (rw (accepted) refl)) in ground (later, arith)
]

-- No attempt is lost, and final evidence stays or becomes an acceptance.
pub record Advances (db next : Tables) : Type 0 where
  pub kept :
      (i c : String) (a : Attempt)
      → attempt_of db i c ≡ some a
      → (b : Attempt) × (attempt_of next i c ≡ some b) × Progress a.state b.state

pub advances_refl : (db : Tables) → Advances db db
advances_refl db = record { kept = λ i c a h. (a, h, Progress-refl a.state) }

pub advances_trans : {db mid next : Tables} → Advances db mid → Advances mid next → Advances db next
advances_trans h g = record {
  kept = λ i c a f.
      let (b, is_b, one) = h.kept i c a f in
      let (d, is_d, two) = g.kept i c b is_b in
      (d, is_d, Progress-trans a.state b.state d.state one two);
}

-- Tables with the same attempts.
pub same-Advances : (db next : Tables) → next.attempts ≡ db.attempts → Advances db next
same-Advances db next same = record { kept = λ i c a h. (a, rw (same) h, Progress-refl a.state) }

-- A change of each attempt that keeps its key.
pub map-Advances :
    (db : Tables) (f : Attempt → Attempt)
    → ((i c : String) (a : Attempt) → is_attempt i c (f a) ≡ is_attempt i c a)
    → ((i c : String) (a : Attempt) → attempt_of db i c ≡ some a → Progress a.state (f a).state)
    → Advances db (with_attempts db (map f db.attempts))
map-Advances db f same progress = record {
  kept = λ i c a h. (f a, find-map (is_attempt i c) f db.attempts a (same i c) h, progress i c a h);
}

pub claim-Advances : (now : ℕ) (db : Tables) (job : Job) → Advances db (claim now db job).db
unfolding claim
claim-Advances now db job = elim (Bool-cases (any (is_attempt job.id job.channel) db.attempts)) [
  | inl held ↦ rw (held) (advances_refl db)
  | inr new ↦ rw (new) (record {
    kept = λ i c a h. (a, find-append (is_attempt i c) db.attempts _ a h, Progress-refl a.state);
  })
]

same_key :
    (test : Bool) (i c s : String) (at : ℕ) (a : Attempt)
    → is_attempt i c (if test then with_state a s at else a) ≡ is_attempt i c a
same_key true i c s at a = refl
same_key false i c s at a = refl

pub restart-Advances : (db : Tables) → Advances db (restart db)
unfolding restart
restart-Advances db =
    map-Advances db (λ a. if a.state == "enqueueing" then with_state a "unknown" a.updated else a)
      (λ i c a. same_key (a.state == "enqueueing") i c "unknown" a.updated a)
      (λ i c a h. elim (Bool-cases (a.state == "enqueueing")) [
        | inl held ↦ λ final. ground (arith, rw ((eq_iff a.state "enqueueing").0 held) at final)
        | inr other ↦ rw (other) (Progress-refl a.state)
      ])

-- Evidence that does not keep the state is no regress.
kept_or_accepted : (old new : String) → keeps_state old new ≡ false → Progress old new
kept_or_accepted old new h final = ground (h, final, arith)

set_state-Advances :
    (now : ℕ) (db : Tables) (i c s : String) (old : Attempt)
    → attempt_of db i c ≡ some old
    → keeps_state old.state s ≡ false
    → Advances db (with_attempts db (set_state i c s now db.attempts))
set_state-Advances now db i c s old is_old changes =
    map-Advances db (λ a. if is_attempt i c a then with_state a s now else a)
      (λ j d a. same_key (is_attempt i c a) j d s now a)
      (λ j d a h. elim (Bool-cases (is_attempt i c a)) [
        | inl hit ↦
            let sound = find_sound (is_attempt j d) db.attempts a h in
            let at_i : a.id ≡ i = (eq_iff a.id i).0 (ground (hit, arith)) in
            let at_c : a.channel ≡ c = (eq_iff a.channel c).0 (ground (hit, arith)) in
            let at_j : a.id ≡ j = (eq_iff a.id j).0 (ground (sound, arith)) in
            let at_d : a.channel ≡ d = (eq_iff a.channel d).0 (ground (sound, arith)) in
            let found = rw (sym at_j ∙ at_i, sym at_d ∙ at_c) at h in
            let same = some-inside old a (sym is_old ∙ found) in
            rw (hit) (kept_or_accepted a.state s (rw (same) at changes))
        | inr other ↦ rw (other) (Progress-refl a.state)
      ])

pub reconcile-Advances :
    (now : ℕ) (db : Tables) (i c s : String) → Ensures (Advances db) (reconcile now db i c s)
unfolding reconcile
reconcile-Advances now db i c s = Ensures-then _ _ (elim (Option-cases (attempt_of db i c)) [
  | inl absent ↦ rw (absent) (record { holds = λ next h. ground (arith, h) })
  | inr (old, is_old) ↦ rw (is_old) (elim (Bool-cases (keeps_state old.state s)) [
    | inl keeps ↦ rw (keeps) (Ensures-fine db (advances_refl db))
    | inr changes ↦
        rw (changes) (Ensures-fine _ (set_state-Advances now db i c s old is_old changes))
  ])
])
