-- ===== src/OrderedConsent/Writer/Actions.antt =====
-- The state `createOrderedConsentWriter` of apps/user/ordered-consent.js closes over, what it is
-- given by its caller, and the await and throw of its code as an action on the page.
pub use beepa.Matrix.Actions.{Action, resume, ◌>>=◌, ◌>>◌, pure, fail, guard, gets}
use beepa.Prelude.{ℕ, String, Bool, ◌&&◌, Option, List, ◌==◌}
use beepa.Js.{Value}
use beepa.Matrix.Client.{Method, Outcome}

-- What `session()` returns; a missing token or user id is the empty text, which is as falsy.
pub record Session : Type 0 where
  pub token : String
  pub user_id : String

abbrev pub same_session : Session → Session → Bool
same_session a b = (a.token == b.token) && (a.user_id == b.user_id)

-- An entry of `pending`.
pub record Intent : Type 0 where
  pub command_id : String
  pub journal_epoch : String
  pub room_id : String
  pub level : String
  pub expected_revision : ℕ
  pub control_room : Value
  pub generation : String

-- `identity`, `orderedSeen` and `pending`.
pub record Writer : Type 0 where
  pub identity : Option Session
  pub ordered_seen : Bool
  pub pending : List (String × Intent)

-- Everything else the code uses. `api` and `wait` may change the session and the writer, since
-- other code runs while they are awaited. `encode` is `encodeURIComponent`, which takes any value.
pub record Page : Type 1 where
  pub World : Type 0
  pub session : World → Session
  pub writer : World → Writer
  pub set_writer : Writer → World → World
  pub api : Method → String → Option Value → World → World × Outcome Value
  pub uuid : World → World × String
  pub wait : ℕ → World → World
  pub encode : Value → String
