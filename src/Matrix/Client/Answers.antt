-- ===== src/Matrix/Client/Answers.antt =====
-- When `api` succeeds, and when it signs the session out.
use beepa.Prelude.{true, false, Option, none, some, ◌≡◌, refl, ap₂, sym, get_or, arith, String}
use beepa.Js.{Value, obj, end}
use beepa.Matrix.Client.{
  Method, Request, Response, ok, Platform, same_token, is_ok_status, settle, api,
}

module _ (p : Platform) where
  open p use {World, token, fetch, on_unauthorized}

  abbrev pub sent_request : Method → String → Option Value → World → Request
  sent_request method path body w = record {
    method = method;
    path = path;
    token = token w;
    body = body;
  }

  settle-ok :
      (sent : Option String) (w w' : World) (answer : Option Response) (v : Value)
      → settle p sent w answer ≡ (w', ok v)
      → (res : Response) × (answer ≡ some res)
        × (is_ok_status res.status ≡ true)
        × (v ≡ get_or res.body (obj end))
        × (w' ≡ w)
  unfolding settle
  settle-ok sent w w' none v h = ground arith
  settle-ok sent w w' (some res) v h = (res, refl, ground arith, ground arith, ground arith)

  -- `api` returns a value only for an answer with a status from 200 to 299: the decoded body, or
  -- an empty object if there was none. It then leaves the session alone.
  pub api-ok :
      (method : Method) (path : String) (body : Option Value) (w w' : World) (v : Value)
      → api p method path body w ≡ (w', ok v)
      → (res : Response) × (fetch (sent_request method path body w) w ≡ (w', some res))
        × (is_ok_status res.status ≡ true)
        × (v ≡ get_or res.body (obj end))
  unfolding api
  api-ok method path body w w' v h =
      let (w₁, answer) = fetch (sent_request method path body w) w in
      let (res, e, good, same, kept) = settle-ok (token w) w₁ w' answer v h in
      (res, ap₂ (λ a b. (a, b)) (sym kept) e, good, same)

  -- An answer to a session that has been replaced meanwhile never signs the new one out.
  pub api_retired :
      (method : Method) (path : String) (body : Option Value) (w : World)
      → same_token (token (fetch (sent_request method path body w) w).0) (token w) ≡ false
      → (api p method path body w).0 ≡ (fetch (sent_request method path body w) w).0
  unfolding api settle
  api_retired method path body w h = ground arith
