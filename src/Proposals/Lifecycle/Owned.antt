-- ===== src/Proposals/Lifecycle/Owned.antt =====
-- The events that `proposalDecision` of shared/model/proposal-lifecycle.js decides by.
use mathlib.Core.Path.{subst}
use beepa.Prelude.{
  String, Bool, true, false, none, some, List, [], ◌∷◌, ◌≡◌, refl, sym, ◌∙◌, arith, keep, get_or,
  ◌⊎◌, inl, inr, Bool-cases, ◌&&◌, ◌||◌, not, All, if◌then◌else◌,
}
use beepa.Js.{Value, get, is_text, as_array, truthy, strictly_equal}
use beepa.Proposals.Lifecycle.{
  is_event, is_claim, is_about, is_decided, is_valid, chosen, decide_by, proposal_decision,
  proposal_decision_type, proposal_claim_type, is_sent_state,
}

abbrev pub IsIn : Value → List Value → Type 0
IsIn x [] = ⊥
IsIn x (y ∷ ys) = (y ≡ x) ⊎ IsIn x ys

widen :
    (p : Value → Bool) (x : Value) (xs kept : List Value)
    → All (λ y. (p y ≡ true) × IsIn y xs) kept
    → All (λ y. (p y ≡ true) × IsIn y (x ∷ xs)) kept
widen p x xs [] h = tt
widen p x xs (y ∷ kept) ((passes, held), h) = ((passes, inr held), widen p x xs kept h)

-- An event of the owner, on the suggestion, that says what was decided.
pub record IsDecision (id owner : String) (c e : Value) : Type 0 where
  pub sent_by : is_text (get e "sender") owner ≡ true
  pub on : is_text (get e "state_key") id ≡ true
  pub kind :
      (is_text (get e "type") proposal_claim_type || is_text (get e "type") proposal_decision_type)
      ≡ true
  pub content : get e "content" ≡ c
  pub about : is_about id c ≡ true
  pub decided : is_decided c ≡ true

-- What the filter keeps passes the test and stood in the list.
kept_from : (p : Value → Bool) (xs : List Value) → All (λ x. (p x ≡ true) × IsIn x xs) (keep p xs)
kept_from p [] = tt
kept_from p (x ∷ xs) = elim (Bool-cases (p x)) [
  | inl passes ↦ rw passes ((passes, inl refl), widen p x xs (keep p xs) (kept_from p xs))
  | inr fails ↦ rw fails (widen p x xs (keep p xs) (kept_from p xs))
]

claim_decides :
    (id owner : String) (e : Value)
    → is_claim id owner e ≡ true
    → IsDecision id owner (get e "content") e
unfolding is_claim
claim_decides id owner e h = record {
  sent_by = ground (arith, h);
  on = ground (arith, h);
  kind = ground (arith, h);
  content = refl;
  about = ground (arith, h);
  decided = ground (arith, h);
}

both : (a b : Bool) → (a && b) ≡ true → (a ≡ true) × (b ≡ true)
both a b h = ground (arith, h)

first_two : (a b c : Bool) → (a && b && c) ≡ true → (a ≡ true) × (b ≡ true)
first_two a b c h = ground (arith, h)

right_of_or : (a b : Bool) → b ≡ true → (a || b) ≡ true
right_of_or a b h = ground (arith, h)

event_decides :
    (id owner : String) (e c : Value)
    → is_event proposal_decision_type id e ≡ true
    → (is_text (get e "sender") owner && is_valid id c) ≡ true
    → get e "content" ≡ c
    → IsDecision id owner c e
unfolding is_valid
event_decides id owner e c kind h same =
    let (sender, valid) = both (is_text (get e "sender") owner) (is_valid id c) h in
    let (about, decided) = first_two (is_about id c) (is_decided c) (is_sent_state c) valid in
    let (type, key) =
      both (is_text (get e "type") proposal_decision_type) (is_text (get e "state_key") id) kind in
    record {
      sent_by = sender;
      on = key;
      kind = right_of_or (is_text (get e "type") proposal_claim_type) _ type;
      content = same;
      about = about;
      decided = decided;
    }

-- Either the decision itself is chosen or the one claim.
chosen_cases :
    (claims : List Value) (raw : Value)
    → (chosen claims raw ≡ raw)
      ⊎ ((claim : Value) × (claims ≡ claim ∷ []) × (chosen claims raw ≡ get claim "content"))
unfolding chosen
chosen_cases [] raw = inl refl
chosen_cases (claim ∷ other ∷ more) raw = inl refl
chosen_cases (claim ∷ []) raw =
    elim (Bool-cases (
      truthy (get claim "content")
      && (not (strictly_equal (get raw "claim_id") (get (get claim "content") "decision_event_id"))
          || not (strictly_equal (get raw "decision") (get (get claim "content") "decision"))))) [
            | inl differs ↦ inr (claim, refl, rw differs refl)
            | inr agrees ↦ inl (rw agrees refl)
          ]

if_some :
    (test : Bool) (x c : Value) → (if test then some x else none) ≡ some c → (test ≡ true) × (x ≡ c)
if_some true x c h = (refl, ground (arith, h))
if_some false x c h = ground (arith, h)

decide_by-IsDecision :
    (id owner : String) (list claims matches : List Value) (c : Value)
    → All (λ e. (is_claim id owner e ≡ true) × IsIn e list) claims
    → All (λ e. (is_event proposal_decision_type id e ≡ true) × IsIn e list) matches
    → decide_by id owner claims matches ≡ some c
    → (e : Value) × IsIn e list × IsDecision id owner c e
unfolding decide_by
decide_by-IsDecision id owner list [] [] c cs ms h = ground (arith, h)
decide_by-IsDecision id owner list (claim ∷ []) [] c ((ok, held), cs) ms h = (
  claim,
  held,
  subst (λ v. IsDecision id owner v claim) (ground (arith, h)) (claim_decides id owner claim ok),
)
decide_by-IsDecision id owner list (claim ∷ other ∷ more) [] c cs ms h = ground (arith, h)
decide_by-IsDecision id owner list claims (e ∷ other ∷ more) c cs ms h = ground (arith, h)
decide_by-IsDecision id owner list claims (e ∷ []) c cs ((kind, held), ms) h =
    let c' = chosen claims (get e "content") in
    let (fine, same) = if_some (is_text (get e "sender") owner && is_valid id c') c' c h in
    elim (chosen_cases claims (get e "content")) [
      | inl own ↦ (e, held, event_decides id owner e c kind (rw (← same) fine) (sym own ∙ same))
      | inr (claim, only, taken) ↦ by_claim claim claims only cs (sym taken ∙ same)
    ]
  where
    by_claim :
        (claim : Value) (claims : List Value)
        → claims ≡ claim ∷ []
        → All (λ e. (is_claim id owner e ≡ true) × IsIn e list) claims
        → get claim "content" ≡ c
        → (e : Value) × IsIn e list × IsDecision id owner c e
    by_claim claim claims only cs same =
        let ((ok, held), rest) =
          subst (λ es. All (λ e. (is_claim id owner e ≡ true) × IsIn e list) es) only cs in
        (
          claim,
          held,
          subst (λ v. IsDecision id owner v claim) same (claim_decides id owner claim ok),
        )

-- Only the owner decides a suggestion: what stands as its decision is the content of an event in the
-- list that the owner sent, that is a decision or a claim on this very suggestion, and that says
-- `accepted` or `declined`.
pub proposal_decision-IsDecision :
    (events : Value) (id owner : String) (c : Value)
    → proposal_decision events id owner ≡ some c
    → (e : Value) × IsIn e (get_or (as_array events) []) × IsDecision id owner c e
unfolding proposal_decision
proposal_decision-IsDecision events id owner c h =
    let list = get_or (as_array events) [] in
    decide_by-IsDecision id owner list (keep (is_claim id owner) list)
      (keep (is_event proposal_decision_type id) list) c (kept_from (is_claim id owner) list)
      (kept_from (is_event proposal_decision_type id) list) h
