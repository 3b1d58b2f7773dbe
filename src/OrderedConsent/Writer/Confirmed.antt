-- ===== src/OrderedConsent/Writer/Confirmed.antt =====
-- What it takes for a command of apps/user/ordered-consent.js to be confirmed.
use beepa.Prelude.{
  Bool-cases, ◌⊎◌, inl, inr, ◌||◌, ℕ, zero, suc, String, true, Option, none, some, ◌≡◌, refl, sym,
  ap, ◌∙◌, get_or, arith,
}
use beepa.Js.{Value, undefined, get, is_text}
use beepa.Matrix.Client.{Method, Outcome, ok, failed}
use beepa.Consent.Level.{Level}
use beepa.OrderedConsent.Writer.{
  optional, absent_or_throw, is_status_404, forget, confirm, settle, poll, confirmed,
  result_matches, result_path, override_path, on_answer, pause, check, request,
}
use beepa.Matrix.Actions.Inversion.{resume-ok, guard-ok, pure-ok, fail_never}
use beepa.OrderedConsent.Writer.Actions.{Intent, Page, Session, Action, same_session, pure, ◌>>=◌}

-- The worlds from which the result of a command is read: after each round of the wait, one more.
pub data Polled (page : Page) (captured : Session) (i : Intent)
    : page.World → page.World → Type 0 where
  here : (w : page.World) → Polled page captured i w w
  again :
      (n : ℕ) (w w₁ w₂ w₃ : page.World) (answer : Option Value) (u : Unit {0})
      → optional page captured (result_path page i) w ≡ (w₁, ok answer)
      → check page captured (pause page n w₁) ≡ (w₂, ok u)
      → Polled page captured i w₂ w₃
      → Polled page captured i w w₃

module _ (page : Page) (captured : Session) where
  open page use {World, session}

  pub check-stays : (w w' : World) (u : Unit {0}) → check page captured w ≡ (w', ok u) → w ≡ w'
  unfolding check
  check-stays w w' u h = elim (Bool-cases (same_session (session w) captured)) [
    | inl same ↦ sym (pure-ok w tt w' u (rw (same) at h)).0
    | inr changed ↦ fail_never w none w' u (rw (changed) at h)
  ]

  check-ok :
      (a : Value) (w w' : World) (v : Value)
      → (check page captured >>= λ _. pure a) w ≡ (w', ok v)
      → (a ≡ v) × (w ≡ w')
  unfolding check
  check-ok a w w' v h =
      let (_, last) = guard-ok (same_session (session w) captured) w (pure a) w' v h in
      let (at, same) = pure-ok w a w' v last in (sym same, sym at)

  -- What a request returned is what the server answered.
  pub request-ok :
      (method : Method) (path : String) (body : Option Value) (w w' : World) (v : Value)
      → request page captured method path body w ≡ (w', ok v)
      → page.api method path body w ≡ (w', ok v)
  unfolding request check
  request-ok method path body w w' v h =
      let after : Value → Action World Value = λ a. check page captured >>= λ _. pure a in
      let (_, h₁) =
        guard-ok (same_session (session w) captured) w (page.api method path body >>= after) w' v
          h in
      let (w₂, a, e, h₂) = resume-ok (page.api method path body w) after w' v h₁ in
      let (same, at) = check-ok a w₂ w' v h₂ in
      e ∙ ap (λ x. (x, ok a)) at ∙ ap (λ x. (w', ok x)) same

  answered-ok :
      (x : World × Outcome Value) (w' : World) (r : Value)
      → absent_or_throw page captured x ≡ (w', ok (some r))
      → x ≡ (w', ok r)
  answered-ok (w, ok v) w' r h =
      let (at, same) = pure-ok w (some v) w' (some r) h in
      ap (λ x. (x, ok v)) (sym at) ∙ ap (λ x. (w', ok x)) (ground (arith, same))
  answered-ok (w, failed status) w' r h =
      let (w₁, u, e, h₁) = resume-ok (check page captured w) _ w' (some r) h in
      elim (Bool-cases (is_status_404 status)) [
        | inl missing ↦ ground (arith, (pure-ok w₁ none w' (some r) (rw (missing) at h₁)).1)
        | inr other ↦ fail_never w₁ status w' (some r) (rw (other) at h₁)
      ]

  -- What an optional read found is what the server answered.
  optional-ok :
      (path : String) (w w' : World) (r : Value)
      → optional page captured path w ≡ (w', ok (some r))
      → page.api Method.get path none w ≡ (w', ok r)
  unfolding optional
  optional-ok path w w' r h =
      request-ok Method.get path none w w' r
        (answered-ok (request page captured Method.get path none w) w' r h)

confirmed-some :
    (r : Value) (actual : Option Value) (l : Option Level)
    → confirmed r (get_or actual undefined) l ≡ true
    → (v : Value) × (actual ≡ some v)
unfolding confirmed
confirmed-some r none l h = ground (arith, h)
confirmed-some r (some v) l h = (v, refl)

module _ (page : Page) (captured : Session) (room : String) (level : Option Level) where
  open page use {World, session}

  -- In a round of polling that begins in the world `w`: the result event of the command was read, and
  -- then the override with the stamp of that result.
  pub Confirmation : Intent → World → Type 0
  Confirmation i w =
      (w₁ w₂ w₃ : World) × (r actual : Value) × Polled page captured i w w₁
      × (page.api Method.get (result_path page i) none w₁ ≡ (w₂, ok r))
      × (result_matches i room r ≡ true)
      × (is_text (get r "state") "applied" ≡ true)
      × (page.api Method.get (override_path page captured room) none w₂ ≡ (w₃, ok actual))
      × (confirmed r actual level ≡ true)

  confirm-ok :
      (key : String) (i : Intent) (r : Value) (w w' : World) (l : Option Level)
      → confirm page captured key room level i r w ≡ (w', ok l)
      → (w₃ : World) × (actual : Value) × (page.api Method.get
            (override_path page captured room)
            none
            w
          ≡ (w₃, ok actual))
        × (confirmed r actual level ≡ true)
        × (l ≡ level)
  unfolding confirm
  confirm-ok key i r w w' l h =
      let path = override_path page captured room in
      let (w₁, actual, e₁, h₁) = resume-ok (optional page captured path w) _ w' l h in
      let (w₂, u, e₂, h₂) = resume-ok (forget page key i w₁) _ w' l h₁ in
      let (sure, e₃) = guard-ok _ w₂ _ w' l h₂ in
      let (at, same) = pure-ok w₂ level w' l e₃ in
      let (found, is_found) = confirmed-some r actual level sure in
      let read = e₁ ∙ ap (λ o. (w₁, ok o)) is_found in
      let stamped = sym (ap (λ o. confirmed r (get_or o undefined) level) is_found) ∙ sure in
      (w₁, found, optional-ok page captured path w w₁ found read, stamped, same)

  settle-ok :
      (key : String) (i : Intent) (r : Value) (rest : Action World (Option Level)) (w w' : World)
      (l : Option Level)
      → settle page captured key room level i r rest w ≡ (w', ok l)
      → ((result_matches i room r ≡ true)
          × (is_text (get r "state") "applied" ≡ true)
          × (confirm page captured key room level i r w ≡ (w', ok l)))
        ⊎ (rest w ≡ (w', ok l))
  unfolding settle
  settle-ok key i r rest w w' l h = elim (Bool-cases (result_matches i room r)) [
    | inr unfit ↦ fail_never w none w' l (rw (unfit) at h)
    | inl fits ↦
        elim (Bool-cases
          (is_text (get r "state") "rejected" || is_text (get r "state") "canceled")) [
            | inl refused ↦
                let (w₁, u, e₁, h₁) =
                  resume-ok (forget page key i w) _ w' l (rw (fits, refused) at h) in
                fail_never w₁ none w' l h₁
            | inr not_refused ↦ elim (Bool-cases (is_text (get r "state") "applied")) [
              | inl applied ↦ inl (fits, applied, rw (fits, not_refused, applied) at h)
              | inr not_applied ↦ inr (rw (fits, not_refused, not_applied) at h)
            ]
          ]
  ]

  -- One answer to the poll: it confirms, or the rest of the loop does.
  answer-ok :
      (key : String) (i : Intent) (rest : Action World (Option Level)) (answer : Option Value)
      (w w₂ w' : World) (l : Option Level)
      → optional page captured (result_path page i) w ≡ (w₂, ok answer)
      → on_answer page captured key room level i rest answer w₂ ≡ (w', ok l)
      → (Confirmation i w × (l ≡ level)) ⊎ (rest w₂ ≡ (w', ok l))
  unfolding Confirmation
  answer-ok key i rest none w w₂ w' l e h = inr h
  answer-ok key i rest (some r) w w₂ w' l e h = elim (settle-ok key i r rest w₂ w' l h) [
    | inr more ↦ inr more
    | inl (fits, applied, last) ↦
        let (w₃, actual, e₃, sure, same) = confirm-ok key i r w₂ w' l last in
        let read = optional-ok page captured (result_path page i) w w₂ r e in
        inl ((w, w₂, w₃, r, actual, here w, read, fits, applied, e₃, sure), same)
  ]

  pub poll-ok :
      (key : String) (i : Intent) (n : ℕ) (w w' : World) (l : Option Level)
      → poll page captured key room level i n w ≡ (w', ok l)
      → Confirmation i w × (l ≡ level)
  unfolding poll Confirmation
  poll-ok key i zero w w' l h = fail_never w none w' l h
  poll-ok key i (suc n) w w' l h =
      let (w₁, answer, e₁, h₁) =
        resume-ok (optional page captured (result_path page i) w) _ w' l h in
      elim (answer-ok key i _ answer w w₁ w' l e₁ h₁) [
        | inl done ↦ done
        | inr more ↦
            let (w₂, u, e₂, h₂) = resume-ok (check page captured (pause page n w₁)) _ w' l more in
            let ((v₁, v₂, v₃, r, actual, polled, read, fits, applied, next, sure), same) =
              poll-ok key i n w₂ w' l h₂ in
            let round = again n w w₁ w₂ v₁ answer u e₁ e₂ polled in
            ((v₁, v₂, v₃, r, actual, round, read, fits, applied, next, sure), same)
      ]
