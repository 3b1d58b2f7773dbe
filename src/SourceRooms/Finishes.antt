-- ===== src/SourceRooms/Finishes.antt =====
-- The turns that the loop of shared/model/source_rooms.js takes.
use beepa.Prelude.{
  ℕ, zero, suc, ◌+◌, ◌≤◌, ◌<◌, String, true, false, not, ◌||◌, Option, none, some, List, [], ◌∷◌,
  has, length, get_or, ltb, ◌==◌, lookup, ◌≡◌, refl, arith, eq_iff, eq_refl, Bool-cases,
  Option-cases, inl, inr, is_some,
}
use beepa.Matrix.Client.{room_id}
use beepa.SourceRooms.{
  Room, Source, Walk, push_all, start, is_foreign_space, visit, turn, walk, unseen_children, turns,
  source_room_ids,
}

get_some : (o : Option (List String)) → is_some o ≡ true → o ≡ some (get_or o [])
get_some none h = ground (arith, h)
get_some (some r) h = refl

length-push_all : (cs stack : List String) → length (push_all cs stack) ≡ length cs + length stack
length-push_all [] stack = omega arith
length-push_all (c ∷ cs) stack = omega (arith, length-push_all cs (c ∷ stack))

module _ (server : String) (sources : List Source) (source : Source) (rooms : List (String × Room))
    (excluded : List String) where
  -- To see one more room never makes the count larger.
  unseen_children-more :
      (seen : List String) (id : String) (m : List (String × Room))
      → unseen_children server sources source rooms excluded (id ∷ seen) m
        ≤ unseen_children server sources source rooms excluded seen m
  unseen_children-more seen id [] = omega arith
  unseen_children-more seen id ((k, room) ∷ m) =
      let rest = unseen_children-more seen id m in
      elim (Bool-cases (id == k)) [
        | inl hit ↦ rw (hit) (omega (arith, rest))
        | inr miss ↦ rw (miss) (omega (arith, rest))
      ]

  -- A room that is seen for the first time gives its children up.
  unseen_children-new :
      (seen : List String) (id : String) (room : Room) (m : List (String × Room))
      → has seen id ≡ false
      → lookup id m ≡ some room
      → length room.children + unseen_children server sources source rooms excluded (id ∷ seen) m
        ≤ unseen_children server sources source rooms excluded seen m
  unseen_children-new seen id room [] new h = ground (arith, h)
  unseen_children-new seen id room ((k, other) ∷ m) new h = elim (Bool-cases (k == id)) [
    | inl hit ↦
        let is_room : other ≡ room = ground (arith, rw (hit) at h) in
        rw ((eq_iff k id).0 hit, eq_refl id, new, is_room)
          (omega (arith, unseen_children-more seen id m))
    | inr miss ↦
        let rest = unseen_children-new seen id room m new (rw (miss) at h) in
        elim (Bool-cases (id == k)) [
          | inl same ↦ ground (arith, same, miss, eq_iff id k, eq_iff k id)
          | inr differs ↦ rw (differs) (omega (arith, rest))
        ]
  ]

  visit-turns :
      (id : String) (room : Room) (rest : List String) (w : Walk)
      → has w.seen id ≡ false
      → lookup id rooms ≡ some room
      → turns server sources source rooms excluded
          (visit server sources source rooms excluded id room rest w)
        ≤ length rest + unseen_children server sources source rooms excluded w.seen rooms
  visit-turns id room rest w new found =
      let more = unseen_children-more w.seen id rooms in
      elim (Bool-cases room.is_space) [
        | inr leaf ↦ rw (leaf) (omega (arith, more))
        | inl space ↦
            rw (space)
              (elim (Bool-cases (is_foreign_space server sources source rooms excluded room)) [
                | inl foreign ↦ rw (foreign) (omega (arith, more))
                | inr own ↦ rw (own) (
                    omega (
                      arith,
                      length-push_all room.children rest,
                      unseen_children-new w.seen id room rooms new found,
                    ))
              ])
      ]

  turn-turns :
      (id : String) (rest : List String) (w : Walk)
      → turns server sources source rooms excluded
          (turn server sources source rooms excluded id rest w)
        ≤ length rest + unseen_children server sources source rooms excluded w.seen rooms
  unfolding turn
  turn-turns id rest w =
      let more = unseen_children-more w.seen id rooms in
      elim (Bool-cases (has w.seen id || not (room_id server id) || has excluded id)) [
        | inl skip ↦ rw (turn, skip) (omega arith)
        | inr new ↦ elim (Option-cases (lookup id rooms)) [
          | inl absent ↦ rw (turn, new, absent) (omega (arith, more))
          | inr (room, found) ↦
              rw (turn, new, found) (visit-turns id room rest w (ground (new, arith)) found)
        ]
      ]

  -- One turn, once the turns after it are known to be enough.
  advance :
      (n : ℕ) (w : Walk) (stack : List String)
      → ((v : Walk)
          → turns server sources source rooms excluded v < n
          → is_some (walk server sources source rooms excluded n v) ≡ true)
      → w.stack ≡ stack
      → turns server sources source rooms excluded w < suc n
      → is_some (walk server sources source rooms excluded (suc n) w) ≡ true
  unfolding walk
  advance n w [] later e h = rw (walk, e) refl
  advance n w (id ∷ rest) later e h = elim (Bool-cases (ltb (length w.seen) 10000)) [
    | inr full ↦ rw (walk, e, full) refl
    | inl room_left ↦
        rw (walk, e, room_left)
          (later (turn server sources source rooms excluded id rest w)
            (omega (arith, turn-turns id rest w, rw (e) at h)))
  ]

  enough :
      (n : ℕ) (w : Walk)
      → turns server sources source rooms excluded w < n
      → is_some (walk server sources source rooms excluded n w) ≡ true
  enough zero w h = ground (arith, h)
  enough (suc n) w h = advance n w w.stack (enough n) refl h

  -- The loop over the rooms of a source ends: its turns are at most the rooms on its first stack and the
  -- children of the listed rooms that were not seen at the start, whether or not they are reached, and
  -- the rooms that it gives are those of the loop that has ended.
  pub source_room_ids_finishes :
      walk server sources source rooms excluded
        (suc
          (turns server sources source rooms excluded (start server sources source rooms excluded)))
        (start server sources source rooms excluded)
      ≡ some (source_room_ids server sources source rooms excluded)
  unfolding source_room_ids
  source_room_ids_finishes =
      let first = start server sources source rooms excluded in
      let bound = suc (turns server sources source rooms excluded first) in
      get_some (walk server sources source rooms excluded bound first)
        (enough bound first (omega arith))
