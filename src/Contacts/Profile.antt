-- ===== src/Contacts/Profile.antt =====
-- Contact profiles of shared/model/contacts.js and `normalizeProfiles`.
pub mod WellFormed
pub mod Idempotent
use Prim.Native.String
use beepa.Prelude.{
  String, Bool, true, false, Option, none, some, List, [], ◌∷◌, ◌++◌, ◌==◌, ◌||◌, not, ◌&&◌, map,
  has, get_or, if◌then◌else◌,
}
use beepa.Js.{Value, Fields, end, field, str, arr, obj, get, as_array, as_string, of_items}
use beepa.Matrix.Client.{room_id}

-- PROFILE_SHARE_STATES
pub data ShareState : Type 0 where
  share private inherit : ShareState

abbrev pub share_token : ShareState → String
share_token share = "share"
share_token private = "private"
share_token inherit = "inherit"

-- `normShare(s)`
unfoldable pub norm_share : Value → ShareState
norm_share (str s) = if s == "share" then share else if s == "private" then private else inherit
norm_share _ = inherit

pub record Handle : Type 0 where
  pub source : String
  pub network_id : String

pub record Profile : Type 0 where
  pub id : String
  pub display_name : String
  pub room_ids : List String
  pub handle_ids : List Handle
  pub share : ShareState

-- `source + '|' + network_id`
abbrev pub handle_key : Handle → String
handle_key h = String.◌++◌ h.source (String.◌++◌ "|" h.network_id)

-- `typeof v === 'string' ? v : ''`
abbrev pub text_or_empty : Value → String
text_or_empty v = get_or (as_string v) ""

-- `Array.isArray(v) ? v : []`
abbrev pub array_or_empty : Value → List Value
array_or_empty v = get_or (as_array v) []

-- The loop over `rawRooms`. What a set holds after the loop is what was kept and what it held.
unfoldable pub keep_rooms : String → List String → List Value → List String
keep_rooms server claimed [] = []
keep_rooms server claimed (v ∷ vs) =
    let rid = text_or_empty v in
    elim (room_id server rid && not (has claimed rid)) [
      | true ↦ rid ∷ keep_rooms server (rid ∷ claimed) vs
      | false ↦ keep_rooms server claimed vs
    ]

abbrev pub handle_of : Value → Handle
handle_of v = record {
  source = text_or_empty (get v "source");
  network_id = text_or_empty (get v "network_id");
}

abbrev pub is_named : Handle → Bool
is_named h = not (h.source == "") && not (h.network_id == "")

-- The loop over `rawHandles`.
unfoldable pub keep_handles : List String → List Value → List Handle
keep_handles claimed [] = []
keep_handles claimed (v ∷ vs) =
    let h = handle_of v in
    elim (is_named h && not (has claimed (handle_key h))) [
      | true ↦ h ∷ keep_handles (handle_key h ∷ claimed) vs
      | false ↦ keep_handles claimed vs
    ]

-- One profile of the result, given what earlier profiles claimed.
unfoldable pub profile_of : String → List String → List String → Value → Profile
unfolding keep_rooms keep_handles norm_share
profile_of server rooms handles p = record {
  id = text_or_empty (get p "id");
  display_name = text_or_empty (get p "displayName");
  room_ids = keep_rooms server rooms (array_or_empty (get p "roomIds"));
  handle_ids = keep_handles handles (array_or_empty (get p "handleIds"));
  share = norm_share (get p "share");
}

-- The loop over the stored profiles, with `seenIds`, `claimedRooms` and `claimedHandles`.
unfoldable pub normalize_from :
    String → List String → List String → List String → List Value → List Profile
unfolding profile_of
normalize_from server ids rooms handles [] = []
normalize_from server ids rooms handles (p ∷ ps) =
    let q = profile_of server rooms handles p in
    elim (not (q.id == "") && not (has ids q.id)) [
      | true ↦
          q
          ∷ normalize_from server (q.id ∷ ids) (q.room_ids ++ rooms)
              (map handle_key q.handle_ids ++ handles) ps
      | false ↦ normalize_from server ids rooms handles ps
    ]

-- `normalizeProfiles(data).profiles`, for the configured server name.
unfoldable pub normalize_profiles : String → Value → List Profile
unfolding normalize_from
normalize_profiles server stored =
    normalize_from server [] [] [] (array_or_empty (get stored "profiles"))

-- A normalized store as the value that it is.
abbrev pub handle_value : Handle → Value
handle_value h = obj (field "source" (str h.source) (field "network_id" (str h.network_id) end))

abbrev pub profile_value : Profile → Value
profile_value p = obj (
    field "id" (str p.id) (
      field "displayName" (str p.display_name) (
        field "roomIds" (arr (of_items (map str p.room_ids))) (
          field "handleIds" (arr (of_items (map handle_value p.handle_ids)))
            (field "share" (str (share_token p.share)) end)))))

abbrev pub store_value : List Profile → Value
store_value ps = obj (field "profiles" (arr (of_items (map profile_value ps))) end)
