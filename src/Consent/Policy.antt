-- ===== src/Consent/Policy.antt =====
-- The standing policies of shared/model/consent.js: the account policy and the contact policy.
pub mod Normal
use beepa.Prelude.{
  String, Bool, true, false, Option, none, some, List, [], ◌∷◌, ◌==◌, lookup, or_else,
  if◌then◌else◌,
}
use beepa.Js.{Value, Fields, end, field, str, obj, get, as_object, entries, of_entries, is_text}
use beepa.Consent.Level.{Level, token, level_of}
use beepa.Consent.Keys.{source_key}

-- The per-source values that are kept; `inherit` and anything else is no rule.
pub data SourceRule : Type 0 where
  share_all private_all : SourceRule

abbrev pub rule_token : SourceRule → String
rule_token share_all = "share-all"
rule_token private_all = "private-all"

unfoldable pub rule_of : Value → Option SourceRule
rule_of (str s) =
    if s == "share-all"
    then some share_all
    else if s == "private-all"
    then some private_all
    else none
rule_of _ = none

-- `src[k]` under the key test.
unfoldable pub rule_at : String → Option Value → Option SourceRule
unfolding rule_of
rule_at id none = none
rule_at id (some v) = if source_key id then rule_of v else none

-- `sourceRule(sources, sourceId)`.
unfoldable pub source_rule : Value → Value → Option SourceRule
unfolding rule_at
source_rule (obj sources) (str id) = rule_at id (lookup id (entries sources))
source_rule _ _ = none

-- The loop over `Object.keys(src)` of both normalizers.
unfoldable pub kept_sources : List (String × Value) → List (String × SourceRule)
unfolding rule_at
kept_sources [] = []
kept_sources ((k, v) ∷ m) =
    let rest = kept_sources m in elim (rule_at k (some v)) [ none ↦ rest | some r ↦ (k, r) ∷ rest ]

-- `src`, an empty object unless it is one, through the loop.
unfoldable pub sources_of : Option Fields → List (String × SourceRule)
unfolding kept_sources
sources_of none = []
sources_of (some src) = kept_sources (entries src)

-- `{ global, sources }` of a normalized policy; `global` says whether it is `share-all`.
pub record Standing : Type 0 where
  pub global : Bool
  pub sources : List (String × SourceRule)

-- `normalizeContactPolicy`, and the first two fields of `normalizePolicy`.
unfoldable pub normalize_contact_policy : Value → Standing
unfolding sources_of
normalize_contact_policy raw = record {
  global = is_text (get raw "global") "share-all";
  sources = sources_of (as_object (get raw "sources"));
}

pub record Policy : Type 0 where
  pub standing : Standing
  pub default_level : Option Level

-- `normalizePolicy`.
unfoldable pub normalize_policy : Value → Policy
unfolding normalize_contact_policy
normalize_policy p = record {
  standing = normalize_contact_policy p;
  default_level = level_of (get p "default_level");
}

-- The objects that the normalizers return, as values.
abbrev pub rule_entries : List (String × SourceRule) → List (String × Value)
rule_entries [] = []
rule_entries ((k, r) ∷ m) = (k, str (rule_token r)) ∷ rule_entries m

abbrev pub global_token : Bool → String
global_token true = "share-all"
global_token false = "private"

abbrev pub level_fields : Option Level → Fields
level_fields none = end
level_fields (some l) = field "default_level" (str (token l)) end

abbrev pub standing_fields : Standing → Fields → Fields
standing_fields p rest =
    field "global" (str (global_token p.global))
      (field "sources" (obj (of_entries (rule_entries p.sources))) rest)

abbrev pub standing_value : Standing → Value
standing_value p = obj (standing_fields p end)

abbrev pub policy_value : Policy → Value
policy_value p = obj (standing_fields p.standing (level_fields p.default_level))
