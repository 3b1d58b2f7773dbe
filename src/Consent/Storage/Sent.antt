-- ===== src/Consent/Storage/Sent.antt =====
-- `await api('PUT', …); return body;` of shared/model/consent.js, read backwards.
use beepa.Prelude.{◌≡◌, arith}
use beepa.Js.{Value}
use beepa.Matrix.Client.{Platform, Outcome, ok, failed}
use beepa.Consent.Storage.{sent}

module _ (p : Platform) where
  pub sent-ok :
      {A : Type 0} (body a : A) (x : p.World × Outcome Value) (w' : p.World)
      → ◌≡◌ {A = p.World × Outcome A} (x.0, sent body x.1) (w', ok a)
      → (r : Value) × (x ≡ (w', ok r)) × (body ≡ a)
  sent-ok body a (w₁, ok r) w' h = (r, ground arith, ground arith)
  sent-ok body a (w₁, failed s) w' h = ground arith
