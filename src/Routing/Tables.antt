-- ===== src/Routing/Tables.antt =====
-- The tables of master/notification-routing.mjs.
use Prim.Native.Nat.{Ordering}
use Prim.Native.String.{compare}
use beepa.Prelude.{
  ℕ, String, Bool, true, false, ◌&&◌, Option, none, some, List, [], ◌∷◌, map, keep, find, ◌==◌,
  if◌then◌else◌,
}
use beepa.Js.{Value}
use beepa.Crm.Monitoring.{Routing}

-- A row of `notification_routes`; `source` stands for its text, the JSON of that value.
pub record Route : Type 0 where
  pub id : String
  pub sequence : ℕ
  pub source : Value
  pub text : String
  pub created : ℕ

-- A row of `notification_route_rules`; `policy` stands for its JSON text.
pub record Rule : Type 0 where
  pub id : String
  pub list_id : String
  pub revision : ℕ
  pub policy : Routing
  pub slot : Option ℕ
  pub chosen : Option String
  pub state : String

-- A row of `notification_route_attempts`.
pub record Attempt : Type 0 where
  pub id : String
  pub channel : String
  pub state : String
  pub refs : Value
  pub updated : ℕ

pub record Tables : Type 0 where
  pub routes : List Route
  pub rules : List Rule
  pub attempts : List Attempt
  pub cursor : ℕ

abbrev pub is_attempt : String → String → Attempt → Bool
is_attempt i c a = a.id == i && a.channel == c

-- `SELECT state FROM notification_route_attempts WHERE id=? AND channel=?`
abbrev pub attempt_of : Tables → String → String → Option Attempt
attempt_of db i c = find (is_attempt i c) db.attempts

abbrev pub route_of : Tables → String → Option Route
route_of db i = find (λ (r : Route). r.id == i) db.routes

abbrev pub with_state : Attempt → String → ℕ → Attempt
with_state a s at = record {
  id = a.id;
  channel = a.channel;
  state = s;
  refs = a.refs;
  updated = at;
}

abbrev pub with_attempts : Tables → List Attempt → Tables
with_attempts db as_ = record {
  routes = db.routes;
  rules = db.rules;
  attempts = as_;
  cursor = db.cursor;
}

abbrev pub with_rules : Tables → List Rule → Tables
with_rules db rs = record {
  routes = db.routes;
  rules = rs;
  attempts = db.attempts;
  cursor = db.cursor;
}

abbrev pub with_cursor : Tables → ℕ → Tables
with_cursor db n = record {
  routes = db.routes;
  rules = db.rules;
  attempts = db.attempts;
  cursor = n;
}

-- An order by a text of a row, as `ORDER BY` makes it.
module _ {ℓ} {A : Type ℓ} (key : A → String) where
  abbrev pub goes_before : A → A → Bool
  goes_before a b = elim (compare (key a) (key b)) [ Ordering.gt ↦ false | _ ↦ true ]

  abbrev pub insert_row : A → List A → List A
  insert_row a [] = a ∷ []
  insert_row a (b ∷ bs) = if goes_before a b then a ∷ b ∷ bs else b ∷ insert_row a bs

  abbrev pub order_rows : List A → List A
  order_rows [] = []
  order_rows (a ∷ as_) = insert_row a (order_rows as_)

-- The constructor: `UPDATE ... SET state='unknown' WHERE state='enqueueing'`.
unfoldable pub restart : Tables → Tables
restart db = with_attempts db (
    map (λ (a : Attempt). if a.state == "enqueueing" then with_state a "unknown" a.updated else a)
      db.attempts)

-- The attempts of a route that `status` lists.
abbrev pub attempts_of : Tables → String → List Attempt
attempts_of db i =
    order_rows (λ (a : Attempt). a.channel) (keep (λ (a : Attempt). a.id == i) db.attempts)

pub record Status : Type 0 where
  pub route : Route
  pub rules : List Rule
  pub attempts : List Attempt

-- `status`
unfoldable pub status : Tables → String → Option Status
status db i = elim (route_of db i) [
  | none ↦ none
  | some r ↦ some (record {
    route = r;
    rules =
        order_rows (λ (rule : Rule). rule.list_id) (keep (λ (rule : Rule). rule.id == i) db.rules);
    attempts = attempts_of db i;
  })
]
