-- ===== src/Consent/Level.antt =====
-- The levels of a conversation and the resolver of shared/model/consent.js.
pub mod Authority
use beepa.Prelude.{
  String, Bool, true, false, Option, none, some, List, [], map, lookup, ◌==◌, or_else, get_or,
  if◌then◌else◌,
}
use beepa.Js.{Value, undefined, str, get, truthy, as_object, as_array, entries, has_own}

pub data Level : Type 0 where
  share direct private : Level

-- The members of OVERRIDE_STATES, which are also those of DEFAULT_LEVEL_STATES.
abbrev pub token : Level → String
token share = "share"
token direct = "direct"
token private = "private"

-- `OVERRIDE_STATES.has(v)`, with the level that the text names.
unfoldable pub level_of : Value → Option Level
level_of (str s) =
    if s == "share"
    then some share
    else if s == "direct"
    then some direct
    else if s == "private"
    then some private
    else none
level_of _ = none

abbrev pub state_of : Value → Value
state_of (str s) = str s
state_of v = get v "state"

-- `normalizeOverride`; null is `none`.
unfoldable pub normalize_override : Value → Option Level
normalize_override stored = if truthy stored then level_of (state_of stored) else none

unfoldable pub effective_level : Value → Level
effective_level override = get_or (normalize_override override) private

unfoldable pub policy_default_level : Value → Level
policy_default_level policy = elim (as_object policy) [
  | none ↦ private
  | some p ↦
      if has_own p "default_level"
      then get_or (level_of (get policy "default_level")) private
      else private
]

unfoldable pub resolved_level : Value → Value → Level
resolved_level override policy = get_or (normalize_override override) (policy_default_level policy)

pub data Reason : Type 0 where
  explicit direct excluded default_share default_direct private : Reason

pub record Resolution : Type 0 where
  pub shared : Bool
  pub reason : Reason

-- The returns of `resolve` for an explicit level, and for an account default.
unfoldable pub explicit_resolution : Level → Resolution
explicit_resolution share = record { shared = true; reason = explicit }
explicit_resolution direct = record { shared = true; reason = Reason.direct }
explicit_resolution private = record { shared = false; reason = excluded }

unfoldable pub default_resolution : Level → Resolution
default_resolution share = record { shared = true; reason = default_share }
default_resolution direct = record { shared = true; reason = default_direct }
default_resolution private = record { shared = false; reason = Reason.private }

-- `resolve(convo, policy, override, profile)`.
unfoldable pub resolve : Value → Value → Value → Value → Resolution
unfolding explicit_resolution default_resolution
resolve convo policy override profile = elim (normalize_override override) [
  | some level ↦ explicit_resolution level
  | none ↦ default_resolution (policy_default_level policy)
]

unfoldable pub effective_shared : Value → Value → Value → Value → Bool
effective_shared convo policy override profile = (resolve convo policy override profile).shared

-- The `overrides` argument of `resolveAll`: a Map from room ids, or any other value.
pub data Overrides : Type 0 where
  as_map : List (String × Value) → Overrides
  as_value : Value → Overrides

-- `get(id)` inside `resolveAll`.
unfoldable pub override_for : Overrides → Value → Value
override_for (as_map m) (str id) = get_or (lookup id m) undefined
override_for (as_value v) (str id) = elim (as_object v) [
  | none ↦ undefined
  | some o ↦ get_or (lookup id (entries o)) undefined
]
override_for _ _ = undefined

pub record Row : Type 0 where
  pub convo : Value
  pub shared : Bool
  pub reason : Reason

unfoldable pub resolve_row : Value → Overrides → Value → Row
resolve_row policy overrides convo =
    let r = resolve convo policy (override_for overrides (get convo "id")) undefined in
    record { convo = convo; shared = r.shared; reason = r.reason }

unfoldable pub resolve_all : Value → Value → Overrides → List Row
unfolding resolve_row
resolve_all convos policy overrides =
    map (resolve_row policy overrides) (get_or (as_array convos) [])
