-- ===== src/Crm/Deliveries/Earliest.antt =====
-- Which delivery `monitoringDeliveryPlan` of shared/model/crm.js chooses.
use beepa.Prelude.{
  ℕ, ◌≤◌, String, Bool, true, false, ◌&&◌, ◌||◌, Option, some, List, [], ◌∷◌, ◌++◌, All, ltb,
  nat_eq, ◌≡◌, refl, ap, arith, inl, inr, Bool-cases,
}
use mathlib.Core.Path.{subst}
use beepa.Js.{Value}
use beepa.Crm.Canonical.{Host}
use beepa.Crm.Deliveries.{
  Parts, Choice, choice_before, insert_choice, sort_choices, first_choice, choice_of, is_open,
  choices, monitoring_delivery_plan,
}

module _ (P : Choice → Type 0) where
  All-insert : (c : Choice) (cs : List Choice) → P c → All P cs → All P (insert_choice c cs)
  unfolding insert_choice
  All-insert c [] h all = (h, tt)
  All-insert c (d ∷ ds) h (one, all) = elim (Bool-cases (choice_before c d)) [
    | inl first ↦ rw (insert_choice, first) (h, (one, all))
    | inr later ↦ rw (insert_choice, later) (one, All-insert c ds h all)
  ]

  insert-All : (c : Choice) (cs : List Choice) → All P (insert_choice c cs) → P c × All P cs
  unfolding insert_choice
  insert-All c [] h = h
  insert-All c (d ∷ ds) h = elim (Bool-cases (choice_before c d)) [
    | inl first ↦ rw (insert_choice, first) at h
    | inr later ↦
        let (one, rest) = rw (insert_choice, later) at h in
        let (new, all) = insert-All c ds rest in (new, (one, all))
  ]

  All-sort : (cs : List Choice) → All P cs → All P (sort_choices cs)
  unfolding sort_choices
  All-sort [] all = tt
  All-sort (c ∷ cs) (h, all) = All-insert c (sort_choices cs) h (All-sort cs all)

  sort-All : (cs : List Choice) → All P (sort_choices cs) → All P cs
  unfolding sort_choices
  sort-All [] all = tt
  sort-All (c ∷ cs) all =
      let (h, rest) = insert-All c (sort_choices cs) all in (h, sort-All cs rest)

abbrev NoEarlier : Choice → Choice → Type 0
NoEarlier c d = c.ready_at ≤ d.ready_at

All-trans :
    (c d : Choice) (cs : List Choice) → NoEarlier c d → All (NoEarlier d) cs → All (NoEarlier c) cs
All-trans c d [] h all = tt
All-trans c d (e ∷ cs) h (one, all) = (omega (arith, h, one), All-trans c d cs h all)

-- Each choice is no later than those that follow it.
abbrev Ordered : List Choice → Type 0
Ordered [] = Unit
Ordered (c ∷ cs) = All (NoEarlier c) cs × Ordered cs

ordered : (m n : ℕ) (b : Bool) → (ltb m n || (nat_eq m n && b)) ≡ true → m ≤ n
ordered m n b h = ground (h, arith)

reversed : (m n : ℕ) (b : Bool) → (ltb m n || (nat_eq m n && b)) ≡ false → n ≤ m
reversed m n b h = ground (h, arith)

before-NoEarlier : (c d : Choice) → choice_before c d ≡ true → NoEarlier c d
before-NoEarlier c d h = ordered c.ready_at d.ready_at _ h

after-NoEarlier : (c d : Choice) → choice_before c d ≡ false → NoEarlier d c
after-NoEarlier c d h = reversed c.ready_at d.ready_at _ h

insert-Ordered : (c : Choice) (cs : List Choice) → Ordered cs → Ordered (insert_choice c cs)
unfolding insert_choice
insert-Ordered c [] o = (tt, tt)
insert-Ordered c (d ∷ ds) (after, o) = elim (Bool-cases (choice_before c d)) [
  | inl first ↦
      let h = before-NoEarlier c d first in
      rw (insert_choice, first) ((h, All-trans c d ds h after), (after, o))
  | inr later ↦
      rw (insert_choice, later)
        (All-insert (NoEarlier d) c ds (after-NoEarlier c d later) after, insert-Ordered c ds o)
]

sort-Ordered : (cs : List Choice) → Ordered (sort_choices cs)
unfolding sort_choices
sort-Ordered [] = tt
sort-Ordered (c ∷ cs) = insert-Ordered c (sort_choices cs) (sort-Ordered cs)

module _ (host : Host) (parts_of : String → ℕ → Parts) (created at : ℕ) (room : String) where
  -- The choice is that of an open rule of the list.
  abbrev pub OfRule : List Value → Choice → Type 0
  OfRule rules c =
      (rule : Value) × (front : List Value) × (back : List Value) × (rules ≡ front ++ (rule ∷ back))
      × (is_open host parts_of at rule ≡ true)
      × (choice_of host rule created at room ≡ c)

  -- No open rule of the list delivers before the choice.
  abbrev pub Earliest : List Value → Choice → Type 0
  Earliest rules c =
      All
        (λ rule.
          is_open host parts_of at rule ≡ true
          → c.ready_at ≤ (choice_of host rule created at room).ready_at)
        rules

  All-OfRule :
      (r : Value) (rules : List Value) (cs : List Choice)
      → All (OfRule rules) cs
      → All (OfRule (r ∷ rules)) cs
  All-OfRule r rules [] all = tt
  All-OfRule r rules (c ∷ cs) ((rule, front, back, same, open_, is), all) =
      ((rule, r ∷ front, back, ap (λ rs. r ∷ rs) same, open_, is), All-OfRule r rules cs all)

  choices-OfRule :
      (rules : List Value) → All (OfRule rules) (choices host parts_of rules created at room)
  unfolding choices
  choices-OfRule [] = tt
  choices-OfRule (r ∷ rules) =
      let rest = All-OfRule r rules _ (choices-OfRule rules) in
      elim (Bool-cases (is_open host parts_of at r)) [
        | inl open_ ↦ rw (choices, open_) ((r, [], rules, refl, open_, refl), rest)
        | inr shut ↦ rw (choices, shut) rest
      ]

  choices-Earliest :
      (rules : List Value) (c : Choice)
      → All (NoEarlier c) (choices host parts_of rules created at room)
      → Earliest rules c
  unfolding choices
  choices-Earliest [] c all = tt
  choices-Earliest (r ∷ rules) c all = elim (Bool-cases (is_open host parts_of at r)) [
    | inl open_ ↦
        let (one, rest) = rw (choices, open_) at all in ((λ _. one), choices-Earliest rules c rest)
    | inr shut ↦ (
      (λ open_. ground (open_, shut, arith)),
      choices-Earliest rules c (rw (choices, shut) at all),
    )
  ]

  first-Earliest :
      (cs : List Choice) (rules : List Value) (c : Choice)
      → first_choice cs ≡ some c
      → Ordered cs
      → All (OfRule rules) cs
      → OfRule rules c × All (NoEarlier c) cs
  first-Earliest [] rules c h o all = ground (h, arith)
  first-Earliest (d ∷ ds) rules c h (after, o) (one, all) =
      subst (λ x. OfRule rules x × All (NoEarlier x) (d ∷ ds)) (some-some h)
        (one, (omega arith, after))
    where
      some-some : {a b : Choice} → ◌≡◌ {A = Option Choice} (some a) (some b) → a ≡ b
      some-some h = ground (arith, h)

  -- The plan is the choice of one of the open rules, and no open rule delivers earlier.
  pub monitoring_delivery_plan-Earliest :
      (rules : List Value) (c : Choice)
      → monitoring_delivery_plan host parts_of rules created at room ≡ some c
      → OfRule rules c × Earliest rules c
  unfolding monitoring_delivery_plan
  monitoring_delivery_plan-Earliest rules c h =
      let all = choices host parts_of rules created at room in
      let (of_rule, first) =
        first-Earliest (sort_choices all) rules c h (sort-Ordered all)
          (All-sort (OfRule rules) all (choices-OfRule rules)) in
      (of_rule, choices-Earliest rules c (sort-All (NoEarlier c) all first))
