-- ===== src/Contacts/Merge.antt =====
-- `autoMergeByNumber` of shared/model/contacts.js.
pub mod Owners
pub mod Groups
pub mod Safety
use Prim.Native.String
use beepa.Prelude.{
  ℕ, suc, String, Bool, true, false, Option, none, some, List, [], ◌∷◌, ◌++◌, ◌==◌, ◌&&◌, not, has,
  lookup, insert, ltb, length, get_or, if◌then◌else◌,
}
use beepa.Js.{Value, str, as_object, entries}
use beepa.Matrix.Client.{room_id}
use beepa.Contacts.Profile.{Profile, normalize_profiles, store_value, text_or_empty}
use beepa.Contacts.Rooms.{link_room, upsert_profile}

-- `groups`, a Map from numbers to rooms.
abbrev pub Groups : Type 0
Groups = List (String × List String)

abbrev pub add_once : List String → String → List String
add_once rooms rid = if has rooms rid then rooms else rooms ++ rid ∷ []

unfoldable pub add_to_group : Groups → String → String → Groups
add_to_group groups num rid = insert num (add_once (get_or (lookup num groups) []) rid) groups

-- The loop over `Object.keys(rn)`: a malformed room id or number is dropped.
unfoldable pub group_rooms : String → Groups → List (String × Value) → Groups
unfolding add_to_group
group_rooms server groups [] = groups
group_rooms server groups ((rid, number) ∷ rest) =
    let num = text_or_empty number in
    group_rooms server
      (if room_id server rid && not (num == "") then add_to_group groups num rid else groups) rest

-- `roomToProfile[rid] = p.id` for every room of every profile.
abbrev pub note_rooms : String → List String → List (String × String) → List (String × String)
note_rooms id [] owners = owners
note_rooms id (rid ∷ rids) owners = note_rooms id rids (insert rid id owners)

unfoldable pub note_profiles : List Profile → List (String × String) → List (String × String)
note_profiles [] owners = owners
note_profiles (p ∷ ps) owners = note_profiles ps (note_rooms p.id p.room_ids owners)

-- The variables of the main loop, with the number of ids minted so far.
pub record Merge : Type 0 where
  pub work : List Profile
  pub owners : List (String × String)
  pub changed : Bool
  pub minted : ℕ

-- The set `profs` of the profiles that hold rooms of the group; only its size and its one member
-- are used.
abbrev pub holders : List (String × String) → List String → List String
holders owners [] = []
holders owners (rid ∷ rids) =
    let rest = holders owners rids in
    elim (lookup rid owners) [ none ↦ rest | some pid ↦ if has rest pid then rest else pid ∷ rest ]

-- `work = linkRoom(work, id, rid); roomToProfile[rid] = id;`
unfoldable pub link_into : String → String → String → Merge → Merge
link_into server id rid m = record m {
  work = link_room server (store_value m.work) id (str rid);
  owners = insert rid id m.owners;
}

-- The group's rooms that no profile holds go into the one profile that holds the others.
unfoldable pub pull_rooms : String → String → List String → Merge → Merge
unfolding link_into
pull_rooms server id [] m = m
pull_rooms server id (rid ∷ rids) m = elim (lookup rid m.owners) [
  | some owned ↦ pull_rooms server id rids m
  | none ↦ pull_rooms server id rids (record (link_into server id rid m) { changed = true })
]

unfoldable pub link_rooms : String → String → List String → Merge → Merge
unfolding link_into
link_rooms server id [] m = m
link_rooms server id (rid ∷ rids) m = link_rooms server id rids (link_into server id rid m)

-- What `Math.random` and the clock give to each call of `newProfileId`, in the order of the calls,
-- and `String(nameOf(room) || '')`.
pub record Fresh : Type 0 where
  pub suffix : ℕ → String
  pub name_of : String → String

-- The n-th `newProfileId()`.
unfoldable pub new_profile_id : Fresh → ℕ → String
new_profile_id fresh n = String.◌++◌ "cp_" (fresh.suffix n)

unfoldable pub create_group : String → Fresh → String → List String → Merge → Merge
unfolding link_rooms
create_group server fresh first rooms m =
    let id = new_profile_id fresh m.minted in
    link_rooms server id rooms (record m {
      work =
          upsert_profile server (store_value m.work) (str id) (str (fresh.name_of first))
            (str "inherit");
      changed = true;
      minted = suc m.minted;
    })

-- One round of the main loop.
unfoldable pub merge_group : String → Fresh → List String → Merge → Merge
unfolding pull_rooms create_group
merge_group server fresh (first ∷ second ∷ rest) m =
    let rooms = first ∷ second ∷ rest in
    elim (holders m.owners rooms) [
      | [] ↦ create_group server fresh first rooms m
      | id ∷ [] ↦ pull_rooms server id rooms m
      | id ∷ other ∷ more ↦ m
    ]
merge_group server fresh _ m = m

unfoldable pub merge_groups : String → Fresh → Groups → Merge → Merge
unfolding merge_group
merge_groups server fresh [] m = m
merge_groups server fresh ((num, rooms) ∷ groups) m =
    merge_groups server fresh groups (merge_group server fresh rooms m)

abbrev pub number_entries : Value → List (String × Value)
number_entries (Value.obj fs) = entries fs
number_entries _ = []

-- `autoMergeByNumber(store, roomNumbers, opts)`
unfoldable pub auto_merge_by_number : String → Fresh → Value → Value → List Profile × Bool
unfolding group_rooms note_profiles merge_groups
auto_merge_by_number server fresh store numbers =
    let norm = normalize_profiles server store in
    let m =
      merge_groups server fresh (group_rooms server [] (number_entries numbers))
        (record { work = norm; owners = note_profiles norm []; changed = false; minted = 0 }) in
    (m.work, m.changed)
