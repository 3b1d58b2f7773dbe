-- ===== src/Matrix/Client/AccountData.antt =====
-- What shared/matrix/client.js relies on of the account data of a homeserver.
use beepa.Prelude.{String, true, Option, none, some, ◌≡◌, sym, ap, ◌∙◌}
use beepa.Js.{Value}
use beepa.Matrix.Client.{Method, put, Request, Response, Platform, ok, api, settle, is_ok_status}
use beepa.Matrix.Client.Answers.{api-ok, sent_request}

-- The Matrix account data endpoints: an accepted PUT is what the next GET of that path returns, and
-- the signed-in user stays the same while a request is under way.
pub record KeepsAccountData (p : Platform) : Type 0 where
  pub stored :
      (path : String) (t : Option String) (v : Value) (w w' : p.World) (res : Response)
      → p.fetch (record { method = put; path = path; token = t; body = some v }) w ≡ (w', some res)
      → is_ok_status res.status ≡ true
      → p.fetch (record { method = Method.get; path = path; token = p.token w'; body = none }) w'
        ≡ (w', some (record { status = 200; body = some v }))
  pub steady : (r : Request) (w : p.World) → p.user_id (p.fetch r w).0 ≡ p.user_id w

module _ (p : Platform) (server : KeepsAccountData p) where
  -- After an accepted PUT, `api` reads the value back.
  pub api-get-put :
      (path : String) (v r : Value) (w w' : p.World)
      → api p put path (some v) w ≡ (w', ok r)
      → (api p Method.get path none w' ≡ (w', ok v)) × (p.user_id w' ≡ p.user_id w)
  unfolding api settle
  api-get-put path v r w w' h =
      let (res, answered, good, same) = api-ok p put path (some v) w w' r h in
      let again = server.stored path (p.token w) v w w' res answered good in
      (
        rw again,
        ap p.user_id (sym (ap (λ q. q.0) answered))
            ∙ server.steady (sent_request p put path (some v) w) w,
      )
