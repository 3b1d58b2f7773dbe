-- ===== src/Consent/ContactKey.antt =====
-- The keys of per-contact overrides in shared/model/consent.js: a source id, a bar, a network id.
pub mod Injective
use Prim.Native.Char.{code}
use Prim.Native.String
use Prim.Native.String.{String, [], ◌∷◌}
use mathlib.Core.Option
use beepa.Prelude.{Bool, not, Option, none, some, ◌==◌, ◌&&◌, ◌||◌, nat_eq, if◌then◌else◌}
use beepa.Js.{Value, str}
use beepa.Consent.Keys.{source_key}

-- `contactOverrideKey(source, network_id)`.
unfoldable pub contact_override_key : Value → Value → Option String
contact_override_key (str source) (str network_id) =
    if source_key source && not (network_id == "")
    then some (String.◌++◌ source (String.◌++◌ "|" network_id))
    else none
contact_override_key _ _ = none

-- The text before the first bar and the text after it; `indexOf('|')` and the two slices.
unfoldable pub cut : String → Option (String × String)
cut [] = none
cut (c ∷ s) =
    if nat_eq (code c) b'|' then some ("", s) else Option.map (λ p. (c ∷ p.0, p.1)) (cut s)

-- `splitContactOverrideKey(key)`.
unfoldable pub split_contact_override_key : Value → Option (String × String)
unfolding cut
split_contact_override_key (str key) = elim (cut key) [
  | none ↦ none
  | some (source, network_id) ↦
      if source == "" || not (source_key source) || network_id == ""
      then none
      else some (source, network_id)
]
split_contact_override_key _ = none
