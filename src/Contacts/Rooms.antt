-- ===== src/Contacts/Rooms.antt =====
-- The lookups and the changes of profiles and rooms in shared/model/contacts.js. Each takes the
-- stored value and normalizes it first.
mod Texts
pub mod Owner
pub mod Linking
pub mod Upsert
pub mod AsMap
use mathlib.Core.Option
use beepa.Prelude.{
  String, Bool, true, false, Option, none, some, List, [], ◌∷◌, ◌++◌, ◌==◌, not, ◌&&◌, map, has,
  find, keep, any, insert, is_some, get_or, if◌then◌else◌,
}
use beepa.Js.{Value, undefined, str, as_string}
use beepa.Matrix.Client.{room_id}
use beepa.Contacts.Profile.{
  Profile, ShareState, inherit, norm_share, normalize_profiles, text_or_empty,
}

abbrev pub has_id : String → Profile → Bool
has_id id p = p.id == id

module _ (server : String) (store : Value) where
  -- `findProfile`
  unfoldable pub find_profile : String → Option Profile
  find_profile id = find (has_id id) (normalize_profiles server store)

  -- `profileForRoom`
  unfoldable pub profile_for_room : String → Option Profile
  profile_for_room room =
      find (λ (p : Profile). has p.room_ids room) (normalize_profiles server store)

  -- `profileShareForRoom`
  unfoldable pub profile_share_for_room : String → Option (String × ShareState)
  unfolding profile_for_room
  profile_share_for_room room =
      Option.map (λ (p : Profile). (p.display_name, p.share)) (profile_for_room room)

-- `out[rid] = { id, displayName, share }` for the rooms of one profile; the profile stands for
-- the object.
abbrev pub map_rooms : Profile → List String → List (String × Profile) → List (String × Profile)
map_rooms p [] out = out
map_rooms p (rid ∷ rids) out = map_rooms p rids (insert rid p out)

abbrev pub map_profiles : List Profile → List (String × Profile) → List (String × Profile)
map_profiles [] out = out
map_profiles (p ∷ ps) out = map_profiles ps (map_rooms p p.room_ids out)

-- `roomProfileMap`
unfoldable pub room_profile_map : String → Value → List (String × Profile)
room_profile_map server store = map_profiles (normalize_profiles server store) []

-- The changes of an existing profile: a name if it is a text, a share state unless undefined.
abbrev pub renamed : Value → Profile → Profile
renamed (str name) p = record p { display_name = name }
renamed _ p = p

abbrev pub reshared : Value → Profile → Profile
reshared undefined p = p
reshared share p = record p { share = norm_share share }

abbrev pub update_profile : String → Value → Value → List Profile → List Profile
update_profile id name share ps =
    map (λ (p : Profile). if has_id id p then reshared share (renamed name p) else p) ps

-- The pushed object has no `handleIds`, which every reader takes for an empty list.
abbrev pub new_profile : String → Value → Value → Profile
new_profile id name share = record {
  id = id;
  display_name = text_or_empty name;
  room_ids = [];
  handle_ids = [];
  share = norm_share share;
}

-- `upsertProfile(store, { id, displayName, share })`; ids of a normalized store are unique, so
-- that the first profile with the id is every profile with it.
unfoldable pub upsert_profile : String → Value → Value → Value → Value → List Profile
upsert_profile server store id name share =
    let norm = normalize_profiles server store in
    let key = text_or_empty id in
    if key == ""
    then norm
    else if any (has_id key) norm
    then update_profile key name share norm
    else norm ++ new_profile key name share ∷ []

-- `removeProfile`
unfoldable pub remove_profile : String → Value → String → List Profile
remove_profile server store id = keep (λ p. not (has_id id p)) (normalize_profiles server store)

-- `p.roomIds = p.roomIds.filter(r => r !== roomId)` for every profile.
unfoldable pub detach_room : String → List Profile → List Profile
detach_room room ps =
    map (λ (p : Profile). record p { room_ids = keep (λ r. not (r == room)) p.room_ids }) ps

-- `target.roomIds.push(roomId)`
unfoldable pub attach_room : String → String → List Profile → List Profile
attach_room id room ps =
    map
      (λ (p : Profile). if has_id id p then record p { room_ids = p.room_ids ++ room ∷ [] } else p)
      ps

-- `linkRoom`; the pattern refuses the empty text that stands for no text.
unfoldable pub link_room : String → Value → String → Value → List Profile
link_room server store id room =
    let norm = normalize_profiles server store in
    let rid = text_or_empty room in
    if any (has_id id) norm && room_id server rid
    then attach_room id rid (detach_room rid norm)
    else norm

-- `unlinkRoom`
unfoldable pub unlink_room : String → Value → String → List Profile
unlink_room server store room = detach_room room (normalize_profiles server store)

-- `setProfileShare`
unfoldable pub set_profile_share : String → Value → Value → Value → List Profile
unfolding upsert_profile
set_profile_share server store id share = upsert_profile server store id undefined share
