-- ===== src/Matrix/Client.antt =====
-- shared/matrix/client.js: the room id pattern and `api`.
pub mod Answers
pub mod AccountData
pub mod Local
use Prim.Native.Char.{code}
use Prim.Native.String.{String, [], ◌∷◌}
use beepa.Prelude.{
  ℕ, Bool, true, false, Option, none, some, ◌==◌, ◌&&◌, ◌||◌, nat_eq, leb, get_or, if◌then◌else◌,
}
use beepa.Js.{Value, Fields, obj, end, is_alphanumeric, sigil_colon}

abbrev pub room_char : ℕ → Bool
room_char c =
    is_alphanumeric c
    || nat_eq c b'.'
    || nat_eq c b'_'
    || nat_eq c b'='
    || nat_eq c b'/'
    || nat_eq c b'+'
    || nat_eq c b'-'

-- `ROOMID_RE.test(id)`, for the configured server name.
unfoldable pub room_id : String → String → Bool
unfolding sigil_colon
room_id server_name id = sigil_colon b'!' room_char (λ host. host == server_name) id

pub data Method : Type 0 where
  get put post : Method

pub record Request : Type 0 where
  pub method : Method
  pub path : String
  pub token : Option String
  pub body : Option Value

-- `body` is none where `res.json()` fails.
pub record Response : Type 0 where
  pub status : ℕ
  pub body : Option Value

-- What `api` returns or throws; a thrown error has the property `status` only if the server
-- answered with an error other than 401.
pub data Outcome {ℓ} (A : Type ℓ) : Type ℓ where
  ok : A → Outcome A
  failed : Option ℕ → Outcome A

-- The browser, the session object `S` and the homeserver. `fetch` may let the session change,
-- as other code runs while it waits; `none` is a network error.
pub record Platform : Type 1 where
  pub World : Type 0
  pub token : World → Option String
  pub user_id : World → String
  pub fetch : Request → World → World × Option Response
  pub on_unauthorized : World → World
  pub encode_uri_component : String → String

abbrev pub same_token : Option String → Option String → Bool
same_token none none = true
same_token (some a) (some b) = a == b
same_token _ _ = false

-- `res.ok`
abbrev pub is_ok_status : ℕ → Bool
is_ok_status status = leb 200 status && leb status 299

module _ (p : Platform) where
  open p use {World, token, fetch, on_unauthorized}

  abbrev pub Action : Type 0 → Type 0
  Action A = World → World × Outcome A

  -- What `api` makes of the answer to a request that was sent with `sent`.
  unfoldable pub settle : Option String → World → Option Response → World × Outcome Value
  settle sent w none = (w, failed none)
  settle sent w (some res) =
      if nat_eq res.status 401
      then (if same_token (token w) sent then on_unauthorized w else w, failed none)
      else if is_ok_status res.status
      then (w, ok (get_or res.body (obj end)))
      else (w, failed (some res.status))

  unfoldable pub api : Method → String → Option Value → Action Value
  unfolding settle
  api method path body w =
      let (w', answer) =
        fetch (record { method = method; path = path; token = token w; body = body }) w in
      settle (token w) w' answer
