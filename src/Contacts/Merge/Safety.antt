-- ===== src/Contacts/Merge/Safety.antt =====
-- The owners of rooms through the main loop of `autoMergeByNumber`.
use beepa.Prelude.{
  suc, String, true, false, none, some, List, [], ◌∷◌, ◌≡◌, refl, sym, ap, ◌∙◌, arith, eq_iff,
  eq_refl, any, All, lookup, lookup-insert, Option-cases, inl, inr,
}
use beepa.Js.{Value, str}
use beepa.Matrix.Client.{room_id}
use beepa.Contacts.Profile.{Profile, normalize_profiles, store_value}
use beepa.Contacts.Profile.WellFormed.{IsWellFormed, normalize_profiles-IsWellFormed}
use beepa.Contacts.Profile.Idempotent.{normalize_profiles-store_value}
use beepa.Contacts.Rooms.{has_id, upsert_profile}
use beepa.Contacts.Rooms.Owner.{owner, owner-link_room, any_id-link_room}
use beepa.Contacts.Rooms.Linking.{link_room-IsWellFormed}
use beepa.Contacts.Rooms.Upsert.{
  upsert_profile-IsWellFormed, upsert_profile-owner, upsert_profile-present,
}
use beepa.Contacts.Merge.{
  Groups, group_rooms, note_profiles, Merge, holders, link_into, pull_rooms, link_rooms, Fresh,
  new_profile_id, create_group, merge_group, merge_groups, number_entries, auto_merge_by_number,
}
use beepa.Contacts.Merge.Owners.{
  lookup-note_profiles, any_id-owner, holders-owned, holders-none, new_profile_id-full,
}
use beepa.Contacts.Merge.Groups.{group_rooms-ValidGroups}

module _ (server : String) (norm : List Profile) where
  -- What holds through the main loop: the map of owners is right, and no room of the original
  -- store has changed its profile.
  pub record IsMerging (m : Merge) : Type 0 where
    pub well : IsWellFormed server m.work
    pub agree : (r : String) → lookup r m.owners ≡ owner m.work r
    pub kept : (r o : String) → owner norm r ≡ some o → owner m.work r ≡ some o

  link_into-IsMerging :
      (id rid : String) (m : Merge)
      → IsMerging m
      → any (has_id id) m.work ≡ true
      → room_id server rid ≡ true
      → owner norm rid ≡ none
      → IsMerging (link_into server id rid m)
        × (any (has_id id) (link_into server id rid m).work ≡ true)
  unfolding link_into
  link_into-IsMerging id rid m inv found valid free =
      let same = normalize_profiles-store_value server m.work inv.well in
      let moved = λ (r : String).
        owner-link_room server id rid r (store_value m.work) (rw same found) valid in
      (
        record {
          well = link_room-IsWellFormed server id (store_value m.work) (str rid);
          agree = λ r. lookup-insert rid r id m.owners ∙ ground (arith, moved r, same, inv.agree r);
          kept = λ r o h. ground (arith, moved r, same, inv.kept r o, eq_iff rid r);
        },
        any_id-link_room server id id (store_value m.work) (str rid) ∙ (rw same found),
      )

  -- The rooms that may still be linked: valid, and in no profile of the original store.
  abbrev pub IsFree : String → Type 0
  IsFree r = (room_id server r ≡ true) × (owner norm r ≡ none)

  link_rooms-IsMerging :
      (id : String) (rids : List String) (m : Merge)
      → IsMerging m
      → any (has_id id) m.work ≡ true
      → All IsFree rids
      → IsMerging (link_rooms server id rids m)
  unfolding link_rooms
  link_rooms-IsMerging id [] m inv found free = inv
  link_rooms-IsMerging id (rid ∷ rids) m inv found ((valid, unowned), free) =
      let (next, still) = link_into-IsMerging id rid m inv found valid unowned in
      link_rooms-IsMerging id rids (link_into server id rid m) next still free

  not_owned :
      (m : Merge) (r : String) → IsMerging m → lookup r m.owners ≡ none → owner norm r ≡ none
  not_owned m r inv h = elim (Option-cases (owner norm r)) [
    | inl free ↦ free
    | inr (o, held) ↦ ground (arith, inv.agree r, inv.kept r o held)
  ]

  IsMerging-changed : (m : Merge) → IsMerging m → IsMerging (record m { changed = true })
  IsMerging-changed m inv = record { well = inv.well; agree = inv.agree; kept = inv.kept }

  pull_rooms-IsMerging :
      (id : String) (rids : List String) (m : Merge)
      → IsMerging m
      → any (has_id id) m.work ≡ true
      → All (λ r. room_id server r ≡ true) rids
      → IsMerging (pull_rooms server id rids m)
  unfolding pull_rooms
  pull_rooms-IsMerging id [] m inv found valid = inv
  pull_rooms-IsMerging id (rid ∷ rids) m inv found (ok, valid) =
      elim (Option-cases (lookup rid m.owners)) [
        | inl free ↦
            let (next, still) =
              link_into-IsMerging id rid m inv found ok (not_owned m rid inv free) in
            rw (free, pull_rooms)
              (pull_rooms-IsMerging id rids (record (link_into server id rid m) { changed = true })
                (IsMerging-changed (link_into server id rid m) next) still valid)
        | inr (o, held) ↦ rw (held, pull_rooms) (pull_rooms-IsMerging id rids m inv found valid)
      ]

  create_group-IsMerging :
      (fresh : Fresh) (first : String) (rids : List String) (m : Merge)
      → IsMerging m
      → All IsFree rids
      → IsMerging (create_group server fresh first rids m)
  unfolding create_group
  create_group-IsMerging fresh first rids m inv free =
      let id = new_profile_id fresh m.minted in
      let store = store_value m.work in
      let name = str (fresh.name_of first) in
      let same = normalize_profiles-store_value server m.work inv.well in
      let kept_owner = λ (r : String).
        upsert_profile-owner server store name (str "inherit") id r ∙ ap (λ ps. owner ps r) same in
      link_rooms-IsMerging id rids
        (record m {
          work = upsert_profile server store (str id) name (str "inherit");
          changed = true;
          minted = suc m.minted;
        })
        (record {
          well = upsert_profile-IsWellFormed server store (str id) name (str "inherit");
          agree = λ r. inv.agree r ∙ sym (kept_owner r);
          kept = λ r o h. kept_owner r ∙ inv.kept r o h;
        })
        (upsert_profile-present server store name (str "inherit") id
          (new_profile_id-full fresh m.minted))
        free

  All-IsFree :
      (m : Merge) (rids : List String)
      → IsMerging m
      → All (λ r. room_id server r ≡ true) rids
      → All (λ r. lookup r m.owners ≡ none) rids
      → All IsFree rids
  All-IsFree m [] inv v h = tt
  All-IsFree m (r ∷ rs) inv (ok, v) (free, h) =
      ((ok, not_owned m r inv free), All-IsFree m rs inv v h)

  merge_group-IsMerging :
      (fresh : Fresh) (rids : List String) (m : Merge)
      → IsMerging m
      → All (λ r. room_id server r ≡ true) rids
      → IsMerging (merge_group server fresh rids m)
  unfolding merge_group
  merge_group-IsMerging fresh (first ∷ second ∷ rest) m inv valid =
      go (holders m.owners (first ∷ second ∷ rest)) refl
    where
      go :
          (hs : List String)
          → holders m.owners (first ∷ second ∷ rest) ≡ hs
          → IsMerging (merge_group server fresh (first ∷ second ∷ rest) m)
      go [] e =
          rw (e, merge_group)
            (create_group-IsMerging fresh first (first ∷ second ∷ rest) m inv (
              All-IsFree m (first ∷ second ∷ rest) inv valid
                (holders-none m.owners (first ∷ second ∷ rest) e)))
      go (id ∷ []) e =
          let (r, held) =
            holders-owned m.owners (first ∷ second ∷ rest) id (rw e (ground (arith, eq_refl id))) in
          rw (e, merge_group)
            (pull_rooms-IsMerging id (first ∷ second ∷ rest) m inv
              (any_id-owner id r m.work (sym (inv.agree r) ∙ held)) valid)
      go (id ∷ other ∷ more) e = rw (e, merge_group) inv
  merge_group-IsMerging fresh _ m inv valid = inv

  merge_groups-IsMerging :
      (fresh : Fresh) (groups : Groups) (m : Merge)
      → IsMerging m
      → All (λ (g : String × List String). All (λ r. room_id server r ≡ true) g.1) groups
      → IsMerging (merge_groups server fresh groups m)
  unfolding merge_groups
  merge_groups-IsMerging fresh [] m inv valid = inv
  merge_groups-IsMerging fresh ((num, rooms) ∷ groups) m inv (ok, valid) =
      merge_groups-IsMerging fresh groups (merge_group server fresh rooms m)
        (merge_group-IsMerging fresh rooms m inv ok) valid

merge-IsMerging :
    (server : String) (fresh : Fresh) (store numbers : Value)
    → (final : Merge) × (auto_merge_by_number server fresh store numbers
        ≡ (final.work, final.changed))
      × IsMerging server (normalize_profiles server store) final
unfolding auto_merge_by_number
merge-IsMerging server fresh store numbers =
    let norm = normalize_profiles server store in
    let ready = normalize_profiles-IsWellFormed server store in
    (
      _,
      refl,
      merge_groups-IsMerging server norm fresh (group_rooms server [] (number_entries numbers))
          (record { work = norm; owners = note_profiles norm []; changed = false; minted = 0 })
          (record {
            well = ready;
            agree = λ r. lookup-note_profiles r norm [] ready.rooms_unique ∙ ground arith;
            kept = λ r o h. h;
          })
          (group_rooms-ValidGroups server [] (number_entries numbers) tt),
    )

-- Whatever store and numbers are given, the merged store is well formed.
pub auto_merge_by_number-IsWellFormed :
    (server : String) (fresh : Fresh) (store numbers : Value)
    → IsWellFormed server (auto_merge_by_number server fresh store numbers).0
auto_merge_by_number-IsWellFormed server fresh store numbers =
    let (final, same, merging) = merge-IsMerging server fresh store numbers in rw same merging.well

-- A room that a profile held before the merge is held by the same profile afterwards, whatever the
-- numbers say: no two profiles are ever merged, and a room that was kept apart stays apart.
pub auto_merge_by_number-keeps :
    (server : String) (fresh : Fresh) (store numbers : Value) (r id : String)
    → owner (normalize_profiles server store) r ≡ some id
    → owner (auto_merge_by_number server fresh store numbers).0 r ≡ some id
auto_merge_by_number-keeps server fresh store numbers r id h =
    let (final, same, merging) = merge-IsMerging server fresh store numbers in
    rw same (merging.kept r id h)
