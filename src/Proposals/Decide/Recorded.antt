-- ===== src/Proposals/Decide/Recorded.antt =====
-- What recording a decision of apps/user/proposal-decisions.js asks of the server.
use beepa.Prelude.{String, true, Option, none, some, ◌≡◌, refl, sym, ap, ◌∙◌, ◌==◌, if◌then◌else◌}
use Prim.Native.String
use beepa.Js.{Value, end, get, truthy}
use beepa.Matrix.Client.{Method, put, ok}
use beepa.Matrix.Actions.{Action, pure, ◌>>=◌}
use beepa.Matrix.Actions.Inversion.{resume-ok, guard-ok, pure-ok, fail_never}
use beepa.OrderedConsent.Writer.Actions.{Session, same_session}
use beepa.Proposals.Lifecycle.{proposal_decision}
use beepa.Proposals.Decide.{
  Desk, Proposal, result_value, is_unchanged, current, ask, room_path, decision_path,
  refuse_existing, record_decision,
}

module _ (desk : Desk) (p : Proposal) (identity : Session) (decision : String) where
  open desk use {World, session, note, api, uuid, encode}

  abbrev first_state : String
  first_state = if decision == "accepted" then "sending" else "none"

  -- From the world `w`: the room's state was read and has no decision of the suggestion, the event of
  -- the suggestion was read and is unchanged, and the PUT of the decision with a new id was answered
  -- by `written`, which names an event, in the world `w'`.
  pub Recorded : String → Value → World → World → Type 0
  Recorded id written w w' =
      (events original : Value) × (w₁ w₂ : World) × (api Method.get
          (room_path desk p identity decision "/state") none w
        ≡ (w₁, ok events))
      × (proposal_decision events p.event_id identity.user_id ≡ none)
      × (api Method.get
            (room_path desk p identity decision (String.◌++◌ "/event/" (encode p.event_id))) none w₁
          ≡ (w₂, ok original))
      × (is_unchanged p identity.user_id original ≡ true)
      × (id ≡ (uuid w₂).1)
      × (api put (decision_path desk p identity decision)
            (some (result_value p id decision first_state end))
            (note (result_value p id decision first_state end) (uuid w₂).0)
          ≡ (w', ok written))
      × (truthy (get written "event_id") ≡ true)

  current-ok :
      (a : Value) (w w' : World) (v : Value)
      → (current desk p identity decision >>= λ _. pure a) w ≡ (w', ok v)
      → (a ≡ v) × (w ≡ w')
  unfolding current
  current-ok a w w' v h =
      let (_, last) = guard-ok (same_session (session w) identity) w (pure a) w' v h in
      let (at, same) = pure-ok w a w' v last in (sym same, sym at)

  -- What was asked for is what the server answered.
  pub ask-ok :
      (method : Method) (path : String) (body : Option Value) (w w' : World) (v : Value)
      → ask desk p identity decision method path body w ≡ (w', ok v)
      → api method path body w ≡ (w', ok v)
  unfolding ask
  ask-ok method path body w w' v h =
      let after : Value → Action World Value =
        λ a. current desk p identity decision >>= λ _. pure a in
      let (w₁, a, e, h₁) = resume-ok (api method path body w) after w' v h in
      let (same, at) = current-ok a w₁ w' v h₁ in
      e ∙ ap (λ x. (x, ok a)) at ∙ ap (λ x. (w', ok x)) same

  none-ok :
      (o : Option Value) (w w' : World) (u : Unit {0})
      → refuse_existing desk p identity decision o w ≡ (w', ok u)
      → (o ≡ none) × (w' ≡ w)
  none-ok none w w' u h = (refl, (pure-ok w tt w' u h).0)
  none-ok (some v) w w' u h = fail_never (note v w) none w' u h

  -- What the steps have shown, at the world and the answer that are returned.
  gathered :
      (w w₁ v₁ w₂ w₄ w' : World) (events original answer written : Value) (id : String)
      → api Method.get (room_path desk p identity decision "/state") none w ≡ (w₁, ok events)
      → proposal_decision events p.event_id identity.user_id ≡ none
      → v₁ ≡ w₁
      → api Method.get
          (room_path desk p identity decision (String.◌++◌ "/event/" (encode p.event_id)))
          none
          v₁
        ≡ (w₂, ok original)
      → is_unchanged p identity.user_id original ≡ true
      → id ≡ (uuid w₂).1
      → api put
          (decision_path desk p identity decision)
          (some (result_value p (uuid w₂).1 decision first_state end))
          (note (result_value p (uuid w₂).1 decision first_state end) (uuid w₂).0)
        ≡ (w₄, ok answer)
      → truthy (get answer "event_id") ≡ true
      → w' ≡ w₄
      → written ≡ answer
      → Recorded id written w w'
  unfolding Recorded
  gathered w w₁ v₁ w₂ w₄ w' events original answer written id e₁ absent stay e₃ unchanged is_id e₅
        named at same =
      (
        events,
        original,
        w₁,
        w₂,
        e₁,
        absent,
        rw (sym stay) e₃,
        unchanged,
        is_id,
        rw (is_id, at, same) e₅,
        rw (same) named,
      )

  pub record_decision-Recorded :
      (w w' : World) (id : String) (written : Value)
      → record_decision desk p identity decision w ≡ (w', ok (id, written))
      → Recorded id written w w'
  unfolding record_decision Recorded
  record_decision-Recorded w w' id written h =
      let state_path = room_path desk p identity decision "/state" in
      let event_path =
        room_path desk p identity decision (String.◌++◌ "/event/" (encode p.event_id)) in
      let (w₁, events, e₁, h₁) =
        resume-ok (ask desk p identity decision Method.get state_path none w) _ w' (id, written)
          h in
      let (v₁, u, e₂, h₂) =
        resume-ok
          (refuse_existing desk p identity decision
            (proposal_decision events p.event_id identity.user_id) w₁)
          _ w' (id, written) h₁ in
      let (absent, stay) =
        none-ok (proposal_decision events p.event_id identity.user_id) w₁ v₁ u e₂ in
      let (w₂, original, e₃, h₃) =
        resume-ok (ask desk p identity decision Method.get event_path none v₁) _ w' (id, written)
          h₂ in
      let (unchanged, h₄) =
        guard-ok (is_unchanged p identity.user_id original) w₂ _ w' (id, written) h₃ in
      let w₃ = note (result_value p (uuid w₂).1 decision first_state end) (uuid w₂).0 in
      let body = some (result_value p (uuid w₂).1 decision first_state end) in
      let (w₄, answer, e₅, h₅) =
        resume-ok
          (ask desk p identity decision put (decision_path desk p identity decision) body w₃) _ w'
          (id, written) h₄ in
      let (named, h₆) = guard-ok (truthy (get answer "event_id")) w₄ _ w' (id, written) h₅ in
      let (at, same) = pure-ok w₄ ((uuid w₂).1, answer) w' (id, written) h₆ in
      gathered w w₁ v₁ w₂ w₄ w' events original answer written id
        (ask-ok Method.get state_path none w w₁ events e₁) absent stay
        (ask-ok Method.get event_path none v₁ w₂ original e₃) unchanged (ap (λ x. x.0) same)
        (ask-ok put (decision_path desk p identity decision) body w₃ w₄ answer e₅) named at
        (ap (λ x. x.1) same)
