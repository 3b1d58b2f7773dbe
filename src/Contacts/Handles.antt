-- ===== src/Contacts/Handles.antt =====
-- The changes of handles in shared/model/contacts.js.
pub mod Holder
use beepa.Prelude.{
  String, Bool, true, false, Option, none, some, List, [], ◌∷◌, ◌++◌, ◌==◌, not, ◌&&◌, any, map,
  keep, if◌then◌else◌,
}
use beepa.Js.{Value, field, end, obj}
use beepa.Contacts.Profile.{Handle, Profile, normalize_profiles, text_or_empty, is_named}
use beepa.Contacts.Rooms.{has_id}

-- `h.source === source && h.network_id === network_id`
abbrev pub same_handle : Handle → Handle → Bool
same_handle k h = (h.source == k.source) && (h.network_id == k.network_id)

abbrev pub holds_handle : Handle → Profile → Bool
holds_handle k p = any (same_handle k) p.handle_ids

-- The two loops of `handleOwner`, on normalized profiles.
unfoldable pub holder : Handle → List Profile → Option String
holder k [] = none
holder k (p ∷ ps) = if holds_handle k p then some p.id else holder k ps

unfoldable pub drop_handle : Handle → List Profile → List Profile
drop_handle k ps =
    map (λ (p : Profile). record p { handle_ids = keep (λ h. not (same_handle k h)) p.handle_ids })
      ps

-- `target.handleIds.push({ source, network_id })`
unfoldable pub push_handle : String → Handle → List Profile → List Profile
push_handle id k ps =
    map
      (λ (p : Profile). if has_id id p then record p { handle_ids = p.handle_ids ++ k ∷ [] } else p)
      ps

-- `normalizeProfiles({ profiles }).profiles`
abbrev pub normalize_list : String → Value → List Profile
normalize_list server profiles = normalize_profiles server (obj (field "profiles" profiles end))

-- `handleOwner`
unfoldable pub handle_owner : String → Value → Handle → Option String
unfolding holder
handle_owner server profiles k = holder k (normalize_list server profiles)

-- `linkHandle`; a part that is no text counts as empty.
unfoldable pub link_handle : String → Value → String → Value → Value → List Profile
unfolding drop_handle push_handle
link_handle server profiles id source network_id =
    let norm = normalize_list server profiles in
    let k : Handle = record {
      source = text_or_empty source;
      network_id = text_or_empty network_id;
    } in
    if any (has_id id) norm && is_named k then push_handle id k (drop_handle k norm) else norm

-- `unlinkHandle`
unfoldable pub unlink_handle : String → Value → Handle → List Profile
unfolding drop_handle
unlink_handle server profiles k = drop_handle k (normalize_list server profiles)
