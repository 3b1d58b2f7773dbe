-- ===== src/Consent/ContactShare.antt =====
-- The contact dimension of shared/model/consent.js: stored overrides and the contact resolver.
pub mod Layers
use beepa.Prelude.{
  ℕ, String, Bool, true, false, Option, none, some, List, [], ◌∷◌, ltb, length, is_some, lookup,
  if◌then◌else◌, insert,
}
use beepa.Js.{
  Value, undefined, Fields, str, obj, get, as_object, entries, has_own, is_text, of_entries, field,
  end,
}
use beepa.Consent.Policy.{SourceRule, share_all, private_all, source_rule}
use beepa.Consent.ContactKey.{split_contact_override_key}

-- CONTACT_OVERRIDES_CAP
abbrev pub contact_overrides_cap : ℕ
contact_overrides_cap = 1024

pub data ContactLevel : Type 0 where
  share private : ContactLevel

abbrev pub contact_token : ContactLevel → String
contact_token share = "share"
contact_token private = "private"

-- `v === 'share' || v === 'private'`, which is `CONTACT_OVERRIDE_STATES.has(v)`.
unfoldable pub contact_level_of : Value → Option ContactLevel
contact_level_of v =
    if is_text v "share" then some share else if is_text v "private" then some private else none

-- What a stored entry leaves in the map.
unfoldable pub contact_level_at : String → Option Value → Option ContactLevel
unfolding contact_level_of
contact_level_at k none = none
contact_level_at k (some v) =
    if is_some (split_contact_override_key (str k)) then contact_level_of v else none

unfoldable pub kept_overrides : List (String × Value) → List (String × ContactLevel)
unfolding contact_level_at
kept_overrides [] = []
kept_overrides ((k, v) ∷ m) =
    let rest = kept_overrides m in
    elim (contact_level_at k (some v)) [ none ↦ rest | some l ↦ (k, l) ∷ rest ]

-- `{ count, map }`.
pub record Stored : Type 0 where
  pub count : ℕ
  pub overrides : List (String × ContactLevel)

-- `contactOverrideEntries(raw)`; null, a read failure, is `none`.
unfoldable pub contact_override_entries : Value → Option Stored
unfolding kept_overrides
contact_override_entries (obj content) =
    if has_own content "overrides"
    then (elim (as_object (get (obj content) "overrides")) [
      | none ↦ none
      | some src ↦
          some (record { count = length (entries src); overrides = kept_overrides (entries src) })
    ])
    else some (record { count = 0; overrides = [] })
contact_override_entries _ = some (record { count = 0; overrides = [] })

-- `normalizeContactOverrides(raw)`.
unfoldable pub normalize_contact_overrides : Value → Option (List (String × ContactLevel))
normalize_contact_overrides raw = elim (contact_override_entries raw) [
  | none ↦ none
  | some e ↦ if ltb contact_overrides_cap e.count then none else some e.overrides
]

-- The entries `{ overrides: { key: level } }` as a value.
abbrev pub override_values : List (String × ContactLevel) → List (String × Value)
override_values [] = []
override_values ((k, l) ∷ m) = (k, str (contact_token l)) ∷ override_values m

abbrev pub overrides_value : List (String × ContactLevel) → Value
overrides_value m = obj (field "overrides" (obj (of_entries (override_values m))) end)

pub data ContactReason : Type 0 where
  this_contact this_contact_private all_contacts private : ContactReason
  all_source_contacts : Value → ContactReason

pub record ContactResolution : Type 0 where
  pub shared : Bool
  pub reason : ContactReason

-- `resolveContactShare(source, policy, override)`.
unfoldable pub resolve_contact_share : Value → Value → Value → ContactResolution
resolve_contact_share source policy override =
    if is_text override "share"
    then record { shared = true; reason = this_contact }
    else if is_text override "private"
    then record { shared = false; reason = this_contact_private }
    else (elim (source_rule (get policy "sources") source) [
      | some share_all ↦ record { shared = true; reason = all_source_contacts source }
      | some private_all ↦ record { shared = false; reason = ContactReason.private }
      | none ↦
          if is_text (get policy "global") "share-all"
          then record { shared = true; reason = all_contacts }
          else record { shared = false; reason = ContactReason.private }
    ])
