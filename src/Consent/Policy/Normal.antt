-- ===== src/Consent/Policy/Normal.antt =====
-- Normalized policies of shared/model/consent.js against the stored ones.
use beepa.Prelude.{
  String, Bool, true, false, Option, none, some, List, [], ◌∷◌, ◌≡◌, refl, sym, ap, ap₂, arith,
  eq_iff, lookup, Distinct, get_or, ◌∙◌,
}
use beepa.Js.{
  Value, str, obj, get, entries, entries-of_entries, Fields, as_object, is_text, IsObject,
  of_entries,
}
use beepa.Consent.Level.{Level, level_of, private, policy_default_level}
use beepa.Consent.Level.Authority.{level_of-token, policy_default_level-eq}
use beepa.Consent.Keys.{source_key}
use beepa.Consent.Policy.{
  SourceRule, share_all, private_all, rule_token, rule_of, rule_at, source_rule, kept_sources,
  Standing, normalize_contact_policy, Policy, normalize_policy, rule_entries, standing_value,
  policy_value, standing_fields, sources_of, level_fields, global_token,
}

rule_of-rule_token : (r : SourceRule) → rule_of (str (rule_token r)) ≡ some r
unfolding rule_of
rule_of-rule_token share_all = refl
rule_of-rule_token private_all = refl

-- Every kept rule stands under a valid source id.
abbrev pub ValidKeys : List (String × SourceRule) → Type 0
ValidKeys [] = Unit
ValidKeys ((k, r) ∷ m) = (source_key k ≡ true) × ValidKeys m

kept_sources-ValidKeys : (m : List (String × Value)) → ValidKeys (kept_sources m)
unfolding kept_sources
kept_sources-ValidKeys [] = tt
kept_sources-ValidKeys ((k, v) ∷ m) = ground (arith, kept_sources-ValidKeys m)

kept_sources-rule_entries :
    (m : List (String × SourceRule)) → ValidKeys m → kept_sources (rule_entries m) ≡ m
unfolding kept_sources
kept_sources-rule_entries [] h = refl
kept_sources-rule_entries ((k, r) ∷ m) (valid, h) =
    ground (arith, rule_of-rule_token r, kept_sources-rule_entries m h)

lookup-kept_sources :
    (k : String) (m : List (String × Value))
    → Distinct m
    → lookup k (kept_sources m) ≡ rule_at k (lookup k m)
unfolding kept_sources
lookup-kept_sources k [] h = refl
lookup-kept_sources k ((j, v) ∷ m) (fresh, h) =
    ground (arith, eq_iff j k, lookup-kept_sources k m h)

sources_of-ValidKeys : (o : Option Fields) → ValidKeys (sources_of o)
unfolding sources_of
sources_of-ValidKeys none = tt
sources_of-ValidKeys (some src) = kept_sources-ValidKeys (entries src)

normalize_contact_policy-ValidKeys : (p : Value) → ValidKeys (normalize_contact_policy p).sources
unfolding normalize_contact_policy
normalize_contact_policy-ValidKeys p = sources_of-ValidKeys (as_object (get p "sources"))

global_reads_back : (b : Bool) → is_text (str (global_token b)) "share-all" ≡ b
global_reads_back true = refl
global_reads_back false = refl

level_reads_back : (o : Option Level) → level_of (get (obj (level_fields o)) "default_level") ≡ o
level_reads_back none = unfold level_of in refl
level_reads_back (some l) = level_of-token l

standing_reads_back :
    (p : Standing) (rest : Fields)
    → ValidKeys p.sources
    → normalize_contact_policy (obj (standing_fields p rest)) ≡ p
unfolding normalize_contact_policy
standing_reads_back p rest h =
    rw (entries-of_entries (rule_entries p.sources), kept_sources-rule_entries p.sources h)
      (ap (λ g. record { global = g; sources = p.sources }) (global_reads_back p.global))

policy_reads_back :
    (p : Policy) → ValidKeys p.standing.sources → normalize_policy (policy_value p) ≡ p
unfolding normalize_policy
policy_reads_back p h =
    ap₂ (λ g l. record { standing = g; default_level = l })
      (standing_reads_back p.standing (level_fields p.default_level) h)
      (level_reads_back p.default_level)

-- A policy that was normalized, written and read again normalizes to itself, whatever was stored.
pub normalize_policy-policy_value :
    (p : Value) → normalize_policy (policy_value (normalize_policy p)) ≡ normalize_policy p
normalize_policy-policy_value p =
    policy_reads_back (normalize_policy p)
      (unfold normalize_policy in normalize_contact_policy-ValidKeys p)

level_kept :
    (p : Value)
    → level_of (get (policy_value (normalize_policy p)) "default_level")
      ≡ level_of (get p "default_level")
unfolding normalize_policy
level_kept p = level_reads_back (level_of (get p "default_level"))

-- Writing a policy back in its normalized form leaves the account default as it was: junk in the
-- stored event neither gains a level nor loses one.
pub policy_default_level-normalize_policy :
    (p : Value) → policy_default_level (policy_value (normalize_policy p)) ≡ policy_default_level p
policy_default_level-normalize_policy p =
    policy_default_level-eq (policy_value (normalize_policy p))
    ∙ ap (λ o. get_or o private) (level_kept p)
    ∙ sym (policy_default_level-eq p)

rule_at-rule_entries :
    (k : String) (m : List (String × SourceRule))
    → ValidKeys m
    → rule_at k (lookup k (rule_entries m)) ≡ lookup k m
unfolding rule_at
rule_at-rule_entries k [] h = refl
rule_at-rule_entries k ((j, r) ∷ m) (valid, h) =
    ground (arith, eq_iff j k, rule_of-rule_token r, rule_at-rule_entries k m h)

source_rule-sources_of :
    (v id : Value)
    → IsObject v
    → source_rule (obj (of_entries (rule_entries (sources_of (as_object v))))) id ≡ source_rule v id
unfolding source_rule sources_of
source_rule-sources_of (obj fs) (str id) h =
    rw (entries-of_entries (rule_entries (kept_sources (entries fs)))) (
      rule_at-rule_entries id (kept_sources (entries fs)) (kept_sources-ValidKeys (entries fs))
      ∙ lookup-kept_sources id (entries fs) h)
source_rule-sources_of v id h = ground arith

-- Normalizing a policy keeps the rule of every source.
pub source_rule-normalize :
    (raw id : Value)
    → IsObject (get raw "sources")
    → source_rule (get (standing_value (normalize_contact_policy raw)) "sources") id
      ≡ source_rule (get raw "sources") id
unfolding normalize_contact_policy
source_rule-normalize raw id h = source_rule-sources_of (get raw "sources") id h

pub global-normalize :
    (raw : Value)
    → is_text (get (standing_value (normalize_contact_policy raw)) "global") "share-all"
      ≡ is_text (get raw "global") "share-all"
unfolding normalize_contact_policy
global-normalize raw = global_reads_back (is_text (get raw "global") "share-all")
