-- ===== src/Consent/ContactShare/Layers.antt =====
-- The contact resolver and the stored contact overrides of shared/model/consent.js.
use beepa.Prelude.{
  String, Bool, true, false, Option, none, some, List, [], ◌∷◌, length, lookup, ◌≡◌, ◌↔◌, refl,
  if◌then◌else◌, Distinct, or_else, get_or, arith, eq_iff, ◌<◌, inl, inr, Option-cases, ◌==◌,
}
use beepa.Js.{Value, Fields, str, obj, get, entries, is_text, IsObject}
use beepa.Consent.Policy.{
  SourceRule, share_all, private_all, source_rule, standing_value, normalize_contact_policy,
}
use beepa.Consent.Policy.Normal.{source_rule-normalize, global-normalize}
use beepa.Consent.ContactShare.{
  contact_overrides_cap, ContactLevel, share, private, contact_token, contact_level_of,
  contact_level_at, kept_overrides, contact_override_entries, normalize_contact_overrides,
  override_values, resolve_contact_share,
}

-- What each layer of the policy says, if it says anything.
abbrev pub override_says : Value → Option Bool
override_says (str s) =
    if s == "share" then some true else if s == "private" then some false else none
override_says _ = none

abbrev pub source_says : Option SourceRule → Option Bool
source_says none = none
source_says (some share_all) = some true
source_says (some private_all) = some false

abbrev pub global_says : Value → Option Bool
global_says policy = if is_text (get policy "global") "share-all" then some true else none

-- A contact is shared as the most specific of the three layers says that says anything: its own
-- override, the rule of its source, the global rule; and it is private when none does.
pub resolve_contact_share-layers :
    (source policy override : Value)
    → (resolve_contact_share source policy override).shared
      ≡ get_or
          (or_else (override_says override) (
            or_else (source_says (source_rule (get policy "sources") source)) (global_says policy)))
          false
unfolding resolve_contact_share
resolve_contact_share-layers source policy (str s) = ground arith
resolve_contact_share-layers source policy _ = ground arith

lookup-kept_overrides :
    (k : String) (m : List (String × Value))
    → Distinct m
    → lookup k (kept_overrides m) ≡ contact_level_at k (lookup k m)
unfolding kept_overrides
lookup-kept_overrides k [] h = refl
lookup-kept_overrides k ((j, v) ∷ m) (fresh, h) =
    ground (arith, eq_iff j k, lookup-kept_overrides k m h)

-- The content has an own property `overrides` that is no object, or one over the cap.
abbrev pub IsUnreadable : Value → Type 0
IsUnreadable (obj content) =
    (v : Value) × (lookup "overrides" (entries content) ≡ some v)
    × ((src : Fields) → v ≡ obj src → contact_overrides_cap < length (entries src))
IsUnreadable _ = ⊥

IsUnreadable-of_none : (raw : Value) → normalize_contact_overrides raw ≡ none → IsUnreadable raw
unfolding normalize_contact_overrides contact_override_entries
IsUnreadable-of_none (obj content) h = elim (Option-cases (lookup "overrides" (entries content))) [
  | inl absent ↦ ground arith
  | inr (obj src, found) ↦ (obj src, found, λ fs e. ground arith)
  | inr (v, found) ↦ (v, found, λ fs e. cc)
]
IsUnreadable-of_none _ h = ground arith

none_of_unreadable : (raw : Value) → IsUnreadable raw → normalize_contact_overrides raw ≡ none
unfolding normalize_contact_overrides contact_override_entries
none_of_unreadable (obj content) (obj src, found, over) = ground (arith, over src refl)
none_of_unreadable (obj content) (v, found, over) = ground arith
none_of_unreadable _ h = absurd h

-- Reading the stored overrides fails exactly when the content has an own property `overrides` that
-- is no object, or that has more entries than the cap.
pub normalize_contact_overrides-none :
    (raw : Value) → (normalize_contact_overrides raw ≡ none) ↔ IsUnreadable raw
normalize_contact_overrides-none raw = (IsUnreadable-of_none raw, none_of_unreadable raw)

-- When the read succeeds, the map holds for every key exactly what was stored under it, if the key
-- and the level are valid: no stored `private` is lost and no `share` appears.
pub lookup-normalize_contact_overrides :
    (raw : Value) (fs : Fields) (m : List (String × ContactLevel)) (k : String)
    → get raw "overrides" ≡ obj fs
    → IsObject (obj fs)
    → normalize_contact_overrides raw ≡ some m
    → lookup k m ≡ contact_level_at k (lookup k (entries fs))
unfolding normalize_contact_overrides contact_override_entries
lookup-normalize_contact_overrides (obj content) fs m k e d h =
    ground (arith, lookup-kept_overrides k (entries fs) d)
lookup-normalize_contact_overrides _ fs m k e d h = cc

contact_level_of-contact_token :
    (l : ContactLevel) → contact_level_of (str (contact_token l)) ≡ some l
unfolding contact_level_of
contact_level_of-contact_token share = refl
contact_level_of-contact_token private = refl

-- Filtering the entries that were kept keeps them all.
pub kept_overrides_idem :
    (m : List (String × Value))
    → kept_overrides (override_values (kept_overrides m)) ≡ kept_overrides m
unfolding kept_overrides
kept_overrides_idem [] = refl
kept_overrides_idem ((k, v) ∷ m) = elim (Option-cases (contact_level_at k (some v))) [
  | inl dropped ↦ ground (arith, kept_overrides_idem m)
  | inr (l, kept) ↦ ground (arith, kept_overrides_idem m, contact_level_of-contact_token l)
]

-- The contact resolver decides the same on a stored policy and on its normalized form.
pub resolve_contact_share-normalize :
    (source raw override : Value)
    → IsObject (get raw "sources")
    → resolve_contact_share source (standing_value (normalize_contact_policy raw)) override
      ≡ resolve_contact_share source raw override
unfolding resolve_contact_share
resolve_contact_share-normalize source raw override h =
    ground (arith, source_rule-normalize raw source h, global-normalize raw)
