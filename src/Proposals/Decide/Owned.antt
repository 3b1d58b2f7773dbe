-- ===== src/Proposals/Decide/Owned.antt =====
-- What it takes for a decision of apps/user/proposal-decisions.js to be returned.
use beepa.Prelude.{
  ℕ, zero, suc, String, true, false, Option, none, some, [], ◌∷◌, ◌≡◌, refl, ap, Bool-cases, inl,
  inr, ◌⊎◌, ◌||◌, not, has, get_or,
}
use beepa.Js.{Value, as_array}
use beepa.Matrix.Client.{Method, Outcome, ok, failed}
use beepa.Matrix.Actions.{Action}
use beepa.Matrix.Actions.Inversion.{resume-ok, fail_never, if-ok}
use beepa.OrderedConsent.Writer.Actions.{Session}
use beepa.Proposals.Decide.Recorded.{Recorded, record_decision-Recorded, ask-ok}
use beepa.Proposals.Decide.{
  Desk, Proposal, Sent, is_actionable, key, current, ask, room_path, claim_in, is_on, names,
  on_claim, pause, record_decision, await_claim, decide_body, release, decide_as,
}

-- The worlds from which the room's state is read: after each round of the wait, one more.
pub data Polled (desk : Desk) (p : Proposal) (identity : Session) (decision : String)
    : desk.World → desk.World → Type 0 where
  here : (w : desk.World) → Polled desk p identity decision w w
  again :
      (n : ℕ) (w w₁ w₂ w₃ : desk.World) (state : Value) (u : Unit {0})
      → ask desk p identity decision Method.get (room_path desk p identity decision "/state") none w
        ≡ (w₁, ok state)
      → current desk p identity decision (pause desk p identity decision n w₁) ≡ (w₂, ok u)
      → Polled desk p identity decision w₂ w₃
      → Polled desk p identity decision w w₃

module _ (desk : Desk) (p : Proposal) (identity : Session) (decision : String) where
  open desk use {World, session, busy, set_busy}

  -- In a round of the wait that begins in the world `w`, the state of the room was read, and the owner's
  -- claim in it names the decision `written`.
  pub Claimed : Value → World → Type 0
  Claimed written w =
      (w₁ w₂ : World) × (state claim : Value) × Polled desk p identity decision w w₁
      × (desk.api Method.get (room_path desk p identity decision "/state") none w₁ ≡ (w₂, ok state))
      × (claim_in p.event_id identity.user_id (get_or (as_array state) []) ≡ some claim)
      × (is_on p.event_id claim ≡ true)
      × (names written decision claim ≡ true)

  on_claim-ok :
      (written : Value) (found : Option Value) (rest : Action World (Unit {0})) (w w' : World)
      (u : Unit {0})
      → on_claim desk p identity decision written found rest w ≡ (w', ok u)
      → ((claim : Value) × (found ≡ some claim)
          × (is_on p.event_id claim ≡ true)
          × (names written decision claim ≡ true))
        ⊎ (rest w ≡ (w', ok u))
  on_claim-ok written none rest w w' u h = fail_never w none w' u h
  on_claim-ok written (some claim) rest w w' u h = elim (Bool-cases (is_on p.event_id claim)) [
    | inr off ↦ inr (rw off at h)
    | inl on ↦ elim (Bool-cases (names written decision claim)) [
      | inl named ↦ inl (claim, refl, on, named)
      | inr lost ↦ fail_never (desk.note claim w) none w' u (rw (on, lost) at h)
    ]
  ]

  await_claim-ok :
      (n : ℕ) (written : Value) (w w' : World) (u : Unit {0})
      → await_claim desk p identity decision n written w ≡ (w', ok u)
      → Claimed written w
  unfolding await_claim Claimed
  await_claim-ok zero written w w' u h = fail_never w none w' u h
  await_claim-ok (suc n) written w w' u h =
      let (w₁, state, e₁, h₁) =
        resume-ok
          (ask desk p identity decision Method.get (room_path desk p identity decision "/state")
            none w)
          _ w' u h in
      elim (on_claim-ok written (claim_in p.event_id identity.user_id (get_or (as_array state) []))
        _ w₁ w' u h₁) [
          | inl (claim, found, on, named) ↦ (
            w,
            w₁,
            state,
            claim,
            here w,
            ask-ok desk p identity decision Method.get (room_path desk p identity decision "/state")
                none w w₁ state e₁,
            found,
            on,
            named,
          )
          | inr more ↦
              let (w₂, v, e₂, h₂) =
                resume-ok (current desk p identity decision (pause desk p identity decision n w₁)) _
                  w' u more in
              let (v₁, v₂, later, claim, polled, read, found, on, named) =
                await_claim-ok n written w₂ w' u h₂ in
              (
                v₁,
                v₂,
                later,
                claim,
                again n w w₁ w₂ v₁ state v e₁ e₂ polled,
                read,
                found,
                on,
                named,
              )
        ]

  release-ok :
      (x : World × Outcome Value) (w' : World) (r : Value)
      → release desk p identity decision x ≡ (w', ok r)
      → (w : World) × (x ≡ (w, ok r))
  release-ok (w, ok a) w' r h = (w, ap (λ o. (w, o)) (ap (λ q. q.1) h))
  release-ok (w, failed status) w' r h = fail_never _ status w' r h

  -- A decision that is returned was made for an actionable suggestion that was not being handled. It
  -- was recorded: the room's state had no decision of the suggestion, the event of the suggestion was
  -- read and is the one that is shown, and a PUT of the decision was accepted with an event id. In a
  -- round of polling that began after that PUT, the state was read with a claim of the owner in it
  -- that names this very event and this decision.
  pub decide_as-Claimed :
      (polls : ℕ) (send : Action World Sent) (w w' : World) (r : Value)
      → decide_as desk p identity decision polls send w ≡ (w', ok r)
      → ((has (busy w) (key desk p identity decision) || not (is_actionable p identity decision))
          ≡ false)
        × ((id : String) × (written : Value) × (w₁ : World) × Recorded desk p identity decision id
              written
              (set_busy (key desk p identity decision ∷ busy w) w)
              w₁
            × Claimed written w₁)
  unfolding decide_as decide_body
  decide_as-Claimed polls send w w' r h =
      let (fine, h₁) =
        if-ok
          (has (busy w) (key desk p identity decision) || not (is_actionable p identity decision)) w
          none _ w' r h in
      let w₀ = set_busy (key desk p identity decision ∷ busy w) w in
      let (w₁, h₂) = release-ok (decide_body desk p identity decision polls send w₀) w' r h₁ in
      let (w₂, made, e₂, h₃) = resume-ok (record_decision desk p identity decision w₀) _ w₁ r h₂ in
      let (w₃, u, e₃, h₄) =
        resume-ok (await_claim desk p identity decision polls made.1 w₂) _ w₁ r h₃ in
      (
        fine,
        (
          made.0,
          made.1,
          w₂,
          record_decision-Recorded desk p identity decision w₀ w₂ made.0 made.1 e₂,
          await_claim-ok polls made.1 w₂ w₃ u e₃,
        ),
      )
