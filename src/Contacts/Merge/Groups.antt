-- ===== src/Contacts/Merge/Groups.antt =====
-- The room ids of the groups of `autoMergeByNumber`.
use beepa.Prelude.{
  String, true, List, [], ◌∷◌, ◌≡◌, arith, has, All, lookup, insert, not, ◌&&◌, ◌==◌, Bool-cases,
  inl, inr, get_or,
}
use beepa.Js.{Value}
use beepa.Matrix.Client.{room_id}
use beepa.Contacts.Profile.{text_or_empty}
use beepa.Contacts.Profile.WellFormed.{All-append}
use beepa.Contacts.Merge.{Groups, add_once, add_to_group, group_rooms}

abbrev AllValid : String → List String → Type 0
AllValid server rooms = All (λ r. room_id server r ≡ true) rooms

abbrev ValidGroups : String → Groups → Type 0
ValidGroups server groups = All (λ (g : String × List String). AllValid server g.1) groups

add_once-AllValid :
    (server r : String) (rooms : List String)
    → AllValid server rooms
    → room_id server r ≡ true
    → AllValid server (add_once rooms r)
add_once-AllValid server r rooms h valid = elim (Bool-cases (has rooms r)) [
  | inl old ↦ rw old h
  | inr new ↦ rw new (All-append (λ x. room_id server x ≡ true) rooms (r ∷ []) h (valid, tt))
]

ValidGroups-lookup :
    (server num : String) (groups : Groups)
    → ValidGroups server groups
    → AllValid server (get_or (lookup num groups) [])
ValidGroups-lookup server num [] h = tt
ValidGroups-lookup server num ((k, rooms) ∷ groups) (v, h) = elim (Bool-cases (k == num)) [
  | inl here ↦ rw here v
  | inr later ↦ rw later (ValidGroups-lookup server num groups h)
]

ValidGroups-insert :
    (server num : String) (rooms : List String) (groups : Groups)
    → ValidGroups server groups
    → AllValid server rooms
    → ValidGroups server (insert num rooms groups)
ValidGroups-insert server num rooms [] h v = (v, tt)
ValidGroups-insert server num rooms ((k, old) ∷ groups) (w, h) v = elim (Bool-cases (k == num)) [
  | inl here ↦ rw here (v, h)
  | inr later ↦ rw later (w, ValidGroups-insert server num rooms groups h v)
]

pub group_rooms-ValidGroups :
    (server : String) (groups : Groups) (rest : List (String × Value))
    → ValidGroups server groups
    → ValidGroups server (group_rooms server groups rest)
unfolding group_rooms
group_rooms-ValidGroups server groups [] h = h
group_rooms-ValidGroups server groups ((rid, number) ∷ rest) h =
    let num = text_or_empty number in
    elim (Bool-cases (room_id server rid && not (num == ""))) [
      | inl ok ↦ rw ok (
          group_rooms-ValidGroups server (add_to_group groups num rid) rest (
            ValidGroups-insert server num (add_once (get_or (lookup num groups) []) rid) groups h (
              add_once-AllValid server rid (get_or (lookup num groups) [])
                (ValidGroups-lookup server num groups h) (ground arith))))
      | inr dropped ↦ rw dropped (group_rooms-ValidGroups server groups rest h)
    ]
