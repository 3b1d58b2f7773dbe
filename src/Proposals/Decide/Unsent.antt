-- ===== src/Proposals/Decide/Unsent.antt =====
-- When apps/user/proposal-decisions.js calls `send`.
use beepa.Prelude.{ℕ, String, false, none, ◌∷◌, ◌≡◌, refl, ap, ◌==◌, ◌||◌, not, has}
use beepa.Js.{Value}
use beepa.Matrix.Client.{ok, failed}
use beepa.Matrix.Actions.{Action}
use beepa.Matrix.Actions.Agreement.{resume_agree, else_agree}
use beepa.OrderedConsent.Writer.Actions.{Session}
use beepa.Proposals.Decide.{
  Desk, Proposal, Sent, is_actionable, key, record_decision, await_claim, act, decide_body, release,
  decide_as,
}

module _ (desk : Desk) (p : Proposal) (identity : Session) (decision : String) where
  open desk use {World, session, busy, set_busy}

  act_agree :
      (s s' : Action World Sent) (id : String) (written : Value) (w : World)
      → (decision == "accepted") ≡ false
      → act desk p identity decision s id written w ≡ act desk p identity decision s' id written w
  unfolding act
  act_agree s s' id written w declined = rw declined refl

  body_agree :
      (polls : ℕ) (s s' : Action World Sent) (w : World)
      → ((id : String) (written : Value) (w₁ w₂ : World) (u : Unit {0})
          → record_decision desk p identity decision w ≡ (w₁, ok (id, written))
          → await_claim desk p identity decision polls written w₁ ≡ (w₂, ok u)
          → (decision == "accepted") ≡ false)
      → decide_body desk p identity decision polls s w
        ≡ decide_body desk p identity decision polls s' w
  unfolding decide_body
  body_agree polls s s' w h =
      resume_agree (record_decision desk p identity decision w) _ _ (λ w₁ made e.
        resume_agree (await_claim desk p identity decision polls made.1 w₁) _ _
          (λ w₂ u e'. act_agree s s' made.0 made.1 w₂ (h made.0 made.1 w₁ w₂ u e e')))

  -- `send` has no part in deciding a suggestion unless the decision is to accept it, was recorded,
  -- and was confirmed as the one that counts.
  pub decide_as-unsent :
      (polls : ℕ) (s s' : Action World Sent) (w : World)
      → ((id : String) (written : Value) (w₁ w₂ : World) (u : Unit {0})
          → record_decision desk p identity decision
              (set_busy (key desk p identity decision ∷ busy w) w)
            ≡ (w₁, ok (id, written))
          → await_claim desk p identity decision polls written w₁ ≡ (w₂, ok u)
          → (decision == "accepted") ≡ false)
      → decide_as desk p identity decision polls s w ≡ decide_as desk p identity decision polls s' w
  unfolding decide_as
  decide_as-unsent polls s s' w h =
      else_agree
        (has (busy w) (key desk p identity decision) || not (is_actionable p identity decision))
        (w, failed none)
        (ap (release desk p identity decision)
          (body_agree polls s s' (set_busy (key desk p identity decision ∷ busy w) w) h))
