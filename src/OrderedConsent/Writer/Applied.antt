-- ===== src/OrderedConsent/Writer/Applied.antt =====
-- What it takes for `write` of apps/user/ordered-consent.js to return.
use beepa.Prelude.{
  Option-cases, List, ◌⊎◌, inl, inr, ℕ, String, true, false, Option, none, some, ◌≡◌, refl, sym, ap,
  ◌∙◌, get_or,
}
use beepa.Js.{Value, as_array, as_string, get}
use beepa.OrderedConsent.Checks.{capability_ok, control_room_ok, power_ok}
use beepa.Matrix.Client.{Method, put, ok}
use beepa.Consent.Level.{Level}
use beepa.OrderedConsent.Writer.{
  optional, ordered, command, write, dispatch, before_protocol, is_refused, is_untouched,
  legacy_allowed, capability_path, enter, pending_key, override_path, check, intent_for, request,
  request_path, payload, control_path, see_ordered,
}
use beepa.OrderedConsent.Writer.Confirmed.{Confirmation, poll-ok, request-ok, check-stays}
use beepa.Matrix.Actions.Inversion.{resume-ok, guard-ok, pure-ok, fail_never, if-ok}
use beepa.OrderedConsent.Writer.Actions.{Intent, Page, Session, Action}

module _ (page : Page) (captured : Session) (room : String) (level : Option Level) where
  open page use {World, session, writer}

  -- From the world `w`: the control room's state was read and passed the tests, the command that was
  -- chosen on it was sent, and it was confirmed.
  pub Commanded : Value → World → Type 0
  Commanded cap w =
      (w₁ w₂ w₃ : World) × (answer : Value) × (state : List Value) × (i : Intent) × (sent : Value)
      × (page.api Method.get (control_path page (get cap "policy_room_id") "/state") none w
          ≡ (w₁, ok answer))
      × (as_array answer ≡ some state)
      × (control_room_ok captured.user_id (get_or (as_string (get cap "journal_epoch")) "") state
          ≡ true)
      × (power_ok captured.user_id state ≡ true)
      × (intent_for page captured (pending_key page room level) room level cap state w₁
          ≡ (w₂, ok i))
      × (page.api put (request_path page i) (some (payload i)) w₂ ≡ (w₃, ok sent))
      × Confirmation page captured room level i w₃

  ordered-ok :
      (polls : ℕ) (cap : Value) (w w' : World) (l : Option Level)
      → ordered page polls captured room level cap w ≡ (w', ok l)
      → (capability_ok cap ≡ true) × Commanded cap (see_ordered page w).0 × (l ≡ level)
  unfolding ordered command Commanded
  ordered-ok polls cap w w' l h =
      let (fine, h₁) = guard-ok (capability_ok cap) _ _ w' l h in
      let (w₁, answer, e₁, h₂) =
        resume-ok
          (request page captured Method.get (control_path page (get cap "policy_room_id") "/state")
            none _)
          _ w' l h₁ in
      elim (Option-cases (as_array answer)) [
        | inl missing ↦ fail_never w₁ none w' l (rw (missing) at h₂)
        | inr (state, e) ↦
            let (own, h₃) = guard-ok _ w₁ _ w' l (rw (e) at h₂) in
            let (power, h₄) = guard-ok _ w₁ _ w' l h₃ in
            let key = pending_key page room level in
            let (w₂, i, e₃, h₅) =
              resume-ok (intent_for page captured key room level cap state w₁) _ w' l h₄ in
            let (w₃, sent, e₄, h₆) =
              resume-ok (request page captured put (request_path page i) (some (payload i)) w₂) _ w'
                l h₅ in
            let (confirmation, same) = poll-ok page captured room level key i polls w₃ w' l h₆ in
            (
              fine,
              (
                w₁,
                w₂,
                w₃,
                answer,
                state,
                i,
                sent,
                request-ok page captured _ _ _ _ w₁ answer e₁,
                e,
                own,
                power,
                e₃,
                request-ok page captured _ _ _ w₂ w₃ sent e₄,
                confirmation,
              ),
              same,
            )
      ]

module _ (page : Page) (room : String) (level : Option Level) where
  open page use {World, session, writer}

  -- The write from before the protocol was called, with leave, and returned the level.
  pub Licensed : Session → Action World (Option Level) → World → Option Level → Type 0
  Licensed captured legacy w l =
      (w₁ w₂ : World) × (existing : Option Value) × (is_untouched page (writer w) ≡ true)
      × (optional page captured (override_path page captured room) w ≡ (w₁, ok existing))
      × (legacy_allowed existing ≡ true)
      × (legacy w₁ ≡ (w₂, ok l))

  before_protocol-ok :
      (captured : Session) (legacy : Action World (Option Level)) (w w' : World) (l : Option Level)
      → before_protocol page captured room legacy w ≡ (w', ok l)
      → Licensed captured legacy w l
  unfolding before_protocol Licensed
  before_protocol-ok captured legacy w w' l h =
      let (untouched, h₁) = guard-ok (is_untouched page (writer w)) w _ w' l h in
      let (w₁, existing, e₁, h₂) =
        resume-ok (optional page captured (override_path page captured room) w) _ w' l h₁ in
      let (allowed, h₃) = guard-ok (legacy_allowed existing) w₁ _ w' l h₂ in
      let (w₂, u, e₂, h₄) = resume-ok (check page captured w₁) _ w' l h₃ in
      let (w₃, result, e₃, h₅) = resume-ok (legacy w₂) _ w' l h₄ in
      let (w₄, u', e₄, h₆) = resume-ok (check page captured w₃) _ w' l h₅ in
      let (at, same) = pure-ok w₄ result w' l h₆ in
      let called = ap legacy (check-stays page captured w₁ w₂ u e₂) ∙ e₃ in
      (w₁, w₃, existing, untouched, e₁, allowed, called ∙ ap (λ x. (w₃, ok x)) (sym same))

  -- Whenever `write` returns, the room id has the form of one and a session is signed in; and
  -- either the capability was read and is valid, the next GET of the state of the control room that it
  -- names answered a list that passes the tests, the command chosen on that list was sent with an
  -- accepted PUT, in a round of polling after that PUT its result was read as applied, and the override
  -- that was read next bears its stamp and the level that was asked for, which is the one returned, or the capability
  -- is absent, no ordered command was tried before, the override bears no stamp, and the write from
  -- before the protocol was called next and returned the level.
  pub write-ok :
      (polls : ℕ) (legacy : Action World (Option Level)) (w w' : World) (l : Option Level)
      → write page polls room level legacy w ≡ (w', ok l)
      → (is_refused room (session w) ≡ false)
        × (w₁ : World) × (answer : Option Value) × (optional page
              (session w)
              (capability_path page (session w))
              (enter page (session w) w)
            ≡ (w₁, ok answer))
        × (((cap : Value) × (answer ≡ some cap)
              × (capability_ok cap ≡ true)
              × Commanded page (session w) room level cap (see_ordered page w₁).0
              × (l ≡ level))
            ⊎ ((answer ≡ none) × Licensed (session w) legacy w₁ l))
  unfolding write dispatch
  write-ok polls legacy w w' l h =
      let captured = session w in
      let (fine, h₁) = if-ok (is_refused room captured) w none _ w' l h in
      let (w₁, answer, e, h₂) =
        resume-ok (optional page captured (capability_path page captured) (enter page captured w))
          (dispatch page polls captured room level legacy) w' l h₁ in
      (fine, w₁, answer, e, by_answer answer w₁ h₂)
    where
      by_answer :
          (answer : Option Value) (w₁ : World)
          → dispatch page polls (session w) room level legacy answer w₁ ≡ (w', ok l)
          → ((cap : Value) × (answer ≡ some cap)
              × (capability_ok cap ≡ true)
              × Commanded page (session w) room level cap (see_ordered page w₁).0
              × (l ≡ level))
            ⊎ ((answer ≡ none) × Licensed (session w) legacy w₁ l)
      by_answer none w₁ h₂ = inr (refl, before_protocol-ok (session w) legacy w₁ w' l h₂)
      by_answer (some cap) w₁ h₂ =
          let (valid, commanded, same) =
            ordered-ok page (session w) room level polls cap w₁ w' l h₂ in
          inl (cap, refl, valid, commanded, same)
