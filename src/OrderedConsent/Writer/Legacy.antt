-- ===== src/OrderedConsent/Writer/Legacy.antt =====
-- When the writer from before the protocol is called by `write` of apps/user/ordered-consent.js.
use beepa.Prelude.{ℕ, String, true, false, Option, none, some, ◌≡◌, refl, arith}
use beepa.Js.{Value}
use beepa.Matrix.Client.{ok, failed}
use beepa.Consent.Level.{Level}
use beepa.OrderedConsent.Writer.{
  optional, capability_path, override_path, enter, is_untouched, legacy_allowed, write, dispatch,
  before_protocol, is_refused,
}
use beepa.Matrix.Actions.Agreement.{resume_agree, guard_agree, else_agree}
use beepa.OrderedConsent.Writer.Actions.{Page, Session, Action}

module _ (page : Page) where
  open page use {World, session, writer}

  before_protocol_agree :
      (captured : Session) (room : String) (l l' : Action World (Option Level)) (w : World)
      → (is_untouched page (writer w) ≡ true
          → (w' : World) (existing : Option Value)
          → optional page captured (override_path page captured room) w ≡ (w', ok existing)
          → legacy_allowed existing ≡ false)
      → before_protocol page captured room l w ≡ before_protocol page captured room l' w
  unfolding before_protocol
  before_protocol_agree captured room l l' w h =
      guard_agree (is_untouched page (writer w)) w _ _ (λ untouched.
        resume_agree (optional page captured (override_path page captured room) w) _ _
          (λ w' existing e.
            guard_agree (legacy_allowed existing) w' _ _
              (λ allowed. ground (arith, allowed, h untouched w' existing e))))

  dispatch_agree :
      (polls : ℕ) (captured : Session) (room : String) (level : Option Level)
      (l l' : Action World (Option Level)) (w : World) (answer : Option Value)
      → (answer ≡ none
          → is_untouched page (writer w) ≡ true
          → (w' : World) (existing : Option Value)
          → optional page captured (override_path page captured room) w ≡ (w', ok existing)
          → legacy_allowed existing ≡ false)
      → dispatch page polls captured room level l answer w
        ≡ dispatch page polls captured room level l' answer w
  unfolding dispatch
  dispatch_agree polls captured room level l l' w none h =
      before_protocol_agree captured room l l' w (h refl)
  dispatch_agree polls captured room level l l' w (some cap) h = refl

  -- The write from before the protocol has no part in what `write` does unless the capability was
  -- found to be absent, no command of the protocol was tried or is pending, and the override that
  -- is stored for the room was read and bears no stamp of the protocol.
  pub write-legacy_unused :
      (polls : ℕ) (room : String) (level : Option Level) (l l' : Action World (Option Level))
      (w : World)
      → ((w₁ : World)
          → optional page (session w) (capability_path page (session w)) (enter page (session w) w)
            ≡ (w₁, ok none)
          → is_untouched page (writer w₁) ≡ true
          → (w₂ : World) (existing : Option Value)
          → optional page (session w) (override_path page (session w) room) w₁ ≡ (w₂, ok existing)
          → legacy_allowed existing ≡ false)
      → write page polls room level l w ≡ write page polls room level l' w
  unfolding write
  write-legacy_unused polls room level l l' w h =
      let captured = session w in
      else_agree (is_refused room captured) (w, failed none)
        (resume_agree
          (optional page captured (capability_path page captured) (enter page captured w))
          (dispatch page polls captured room level l) (dispatch page polls captured room level l')
          (λ w₁ answer e.
            dispatch_agree polls captured room level l l' w₁ answer
              (λ absent. h w₁ (rw (e, absent) refl))))
