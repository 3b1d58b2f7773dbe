-- ===== src/SourceRooms.antt =====
-- The rooms of a source, shared/model/source_rooms.js.
use Prim.Native.String
use beepa.Prelude.{
  ℕ, zero, suc, ◌+◌, String, Bool, true, false, not, ◌&&◌, ◌||◌, Option, none, some, List, [], ◌∷◌,
  ◌++◌, any, has, keep, map, length, get_or, ltb, ◌==◌, if◌then◌else◌, lookup,
}
use beepa.Matrix.Client.{room_id}
use beepa.Receipts.Room.{starts_with}
pub mod Finishes
pub mod Tests

pub record Room : Type 0 where
  pub id : String
  pub is_space : Bool
  pub name : Option String
  pub children : List String

-- A source of the catalog.
pub record Source : Type 0 where
  pub id : String
  pub is_source : Bool
  pub space_name : String
  pub child_space_names : Option (List String)

-- The variables of the loop; the last of `pending` stands first in `stack`.
pub record Walk : Type 0 where
  pub stack : List String
  pub seen : List String
  pub result : List String

-- `typeof room.name === 'string' && room.name.startsWith(start)`
abbrev pub named_from : String → Room → Bool
named_from start room = elim room.name [ none ↦ false | some n ↦ starts_with start n ]

abbrev pub named_in : List String → Room → Bool
named_in texts room = elim room.name [ none ↦ false | some n ↦ has texts n ]

abbrev pub push_all : List String → List String → List String
push_all [] stack = stack
push_all (c ∷ cs) stack = push_all cs (c ∷ stack)

-- A set of texts.
abbrev pub add_all : List String → List String → List String
add_all [] set = set
add_all (x ∷ xs) set = add_all xs (if has set x then set else x ∷ set)

module _ (server : String) (sources : List Source) (source : Source) (rooms : List (String × Room))
    (excluded : List String) where
  abbrev pub roots : List Room
  roots =
      keep (λ r. r.is_space && named_from source.space_name r)
        (map (λ (e : String × Room). e.1) rooms)

  -- Whether a child of a root is taken up.
  abbrev pub is_wanted_child : String → Bool
  is_wanted_child child = elim source.child_space_names [
    | none ↦ true
    | some texts ↦ elim (lookup child rooms) [
      | none ↦ false
      | some room ↦ room.is_space && named_in texts room
    ]
  ]

  abbrev pub first_children : List Room → List String
  first_children [] = []
  first_children (r ∷ rs) = keep is_wanted_child r.children ++ first_children rs

  abbrev pub start : Walk
  start = record {
    stack = push_all (first_children roots) [];
    seen = add_all (map (λ (r : Room). r.id) roots) [];
    result = [];
  }

  -- Whether a space belongs to another source, or has not the name of one of this source's spaces.
  abbrev pub is_foreign_space : Room → Bool
  is_foreign_space room =
      any
        (λ (other : Source).
          other.is_source && not (other.id == source.id) && named_from other.space_name room)
        sources
      || elim source.child_space_names [ none ↦ false | some texts ↦ not (named_in texts room) ]

  -- The body of the loop for a room that is new.
  abbrev pub visit : String → Room → List String → Walk → Walk
  visit id room rest w =
      if room.is_space
      then (if is_foreign_space room
          then record { stack = rest; seen = id ∷ w.seen; result = w.result }
          else record {
            stack = push_all room.children rest;
            seen = id ∷ w.seen;
            result = w.result;
          })
      else record { stack = rest; seen = id ∷ w.seen; result = w.result ++ (id ∷ []) }

  -- The body of the loop for the id that was popped.
  unfoldable pub turn : String → List String → Walk → Walk
  unfolding room_id
  turn id rest w =
      if has w.seen id || not (room_id server id) || has excluded id
      then record { stack = rest; seen = w.seen; result = w.result }
      else (elim (lookup id rooms) [
        | none ↦ record { stack = rest; seen = id ∷ w.seen; result = w.result }
        | some room ↦ visit id room rest w
      ])

  -- The loop, for at most the given number of turns.
  unfoldable pub walk : ℕ → Walk → Option (List String)
  unfolding turn
  walk zero w = none
  walk (suc n) w = elim w.stack [
    | [] ↦ some w.result
    | id ∷ rest ↦ if ltb (length w.seen) 10000 then walk n (turn id rest w) else some w.result
  ]

  -- The children of the rooms that the walk has not seen.
  abbrev pub unseen_children : List String → List (String × Room) → ℕ
  unseen_children seen [] = 0
  unseen_children seen ((id, room) ∷ more) =
      (if has seen id then 0 else length room.children) + unseen_children seen more

  -- The turns that are left at most.
  abbrev pub turns : Walk → ℕ
  turns w = length w.stack + unseen_children w.seen rooms

  -- `sourceRoomIds`
  unfoldable pub source_room_ids : List String
  unfolding walk
  source_room_ids = get_or (walk (suc (turns start)) start) []
