-- ===== src/Matrix/Client/Local.antt =====
-- A homeserver in memory, at which the assumptions about the real one can be met.
pub mod Keeps
use beepa.Prelude.{ℕ, String, Option, none, some, List, [], lookup, insert, get_or}
use beepa.Js.{Value, undefined}
use beepa.Matrix.Client.{Method, get, put, post, Request, Response, Platform}

pub record Local : Type 0 where
  pub session : Option String
  pub account : List (String × Value)

abbrev pub answer_of : Option Value → Response
answer_of none = record { status = 404; body = none }
answer_of (some v) = record { status = 200; body = some v }

-- A PUT stores its body, a GET finds it, and anything else is refused.
abbrev pub serve : Method → String → Option Value → Local → Local × Option Response
serve get path body w = (w, some (answer_of (lookup path w.account)))
serve put path none w = (w, some (record { status = 400; body = none }))
serve put path (some v) w =
    (record w { account = insert path v w.account }, some (record { status = 200; body = some v }))
serve post path body w = (w, some (record { status = 405; body = none }))

abbrev pub local : Platform
local = record {
  World = Local;
  token = λ w. w.session;
  user_id = λ w. "@me:localhost";
  fetch = λ r w. serve r.method r.path r.body w;
  on_unauthorized = λ w. record w { session = none };
  encode_uri_component = λ s. s;
}

abbrev pub signed_in : Local
signed_in = record { session = some "t"; account = [] }
