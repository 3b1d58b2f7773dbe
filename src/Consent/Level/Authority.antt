-- ===== src/Consent/Level/Authority.antt =====
-- The resolver of shared/model/consent.js against what authorizes sharing.
use beepa.Prelude.{
  Bool, true, false, String, none, some, List, [], ◌∷◌, map, ◌≡◌, ◌≢◌, ◌⊎◌, ◌↔◌, inl, inr, refl,
  sym, ap, arith, eq_iff, get_or, lookup, Option-cases, All,
}
use mathlib.Core.Path.{fun_ext}
use beepa.Js.{Value, undefined, str, obj, get, entries, of_entries, as_array, entries-of_entries}
use beepa.Consent.Level.{
  Level, share, direct, private, token, level_of, normalize_override, policy_default_level,
  resolved_level, resolve, effective_shared, Reason, explicit, excluded, default_share,
  default_direct, explicit_resolution, default_resolution, Overrides, as_map, as_value,
  override_for, Row, resolve_row, resolve_all,
}

-- Independent reading of a level: all but private are mirrored.
abbrev pub is_mirrored : Level → Bool
is_mirrored private = false
is_mirrored _ = true

-- The level that a reason stands for.
abbrev pub reason_level : Reason → Level
reason_level explicit = share
reason_level Reason.direct = direct
reason_level excluded = private
reason_level default_share = share
reason_level default_direct = direct
reason_level Reason.private = private

explicit_agrees :
    (l : Level)
    → ((explicit_resolution l).shared ≡ is_mirrored l)
      × (reason_level (explicit_resolution l).reason ≡ l)
unfolding explicit_resolution
explicit_agrees share = (refl, refl)
explicit_agrees _ = (refl, refl)

default_agrees :
    (l : Level)
    → ((default_resolution l).shared ≡ is_mirrored l)
      × (reason_level (default_resolution l).reason ≡ l)
unfolding default_resolution
default_agrees share = (refl, refl)
default_agrees _ = (refl, refl)

-- For every conversation, policy, override and profile, the shared flag of the resolver and its
-- reason both say exactly what the resolved level says.
pub resolve-resolved_level :
    (convo policy override profile : Value)
    → ((resolve convo policy override profile).shared
        ≡ is_mirrored (resolved_level override policy))
      × (reason_level (resolve convo policy override profile).reason
          ≡ resolved_level override policy)
unfolding resolve resolved_level
resolve-resolved_level convo policy override profile =
    elim (Option-cases (normalize_override override)) [
      | inl absent ↦ rw (absent, resolve) (default_agrees (policy_default_level policy))
      | inr (l, found) ↦ rw (found, resolve) (explicit_agrees l)
    ]

-- The stored value names the level, as a bare text or in its own property `state`.
abbrev pub Carries : Value → Level → Type 0
Carries (str s) l = s ≡ token l
Carries (obj fs) l = lookup "state" (entries fs) ≡ some (str (token l))
Carries _ l = ⊥

-- The account policy is an object whose own property `default_level` names the level.
abbrev pub Defaults : Value → Level → Type 0
Defaults (obj fs) l = lookup "default_level" (entries fs) ≡ some (str (token l))
Defaults _ l = ⊥

pub level_of-token : (l : Level) → level_of (str (token l)) ≡ some l
unfolding level_of
level_of-token share = refl
level_of-token _ = refl

pub level_of-eq-some : (v : Value) (l : Level) → level_of v ≡ some l → v ≡ str (token l)
unfolding level_of
level_of-eq-some (str s) share h =
    ground (arith, eq_iff s "share", eq_iff s "direct", eq_iff s "private")
level_of-eq-some (str s) direct h =
    ground (arith, eq_iff s "share", eq_iff s "direct", eq_iff s "private")
level_of-eq-some (str s) private h =
    ground (arith, eq_iff s "share", eq_iff s "direct", eq_iff s "private")
level_of-eq-some _ l h = cc

-- A stored level is recognised exactly when the value carries its token.
pub normalize_override-Carries :
    (o : Value) (l : Level) → normalize_override o ≡ some l → Carries o l
unfolding normalize_override level_of
normalize_override-Carries (str s) l h = ground (arith, level_of-eq-some (str s) l, eq_iff s "")
normalize_override-Carries (obj fs) l h = elim (Option-cases (lookup "state" (entries fs))) [
  | inl missing ↦ ground arith
  | inr (v, found) ↦ ground (arith, level_of-eq-some v l)
]
normalize_override-Carries _ l h = ground arith

pub Carries-normalize_override :
    (o : Value) (l : Level) → Carries o l → normalize_override o ≡ some l
unfolding normalize_override
Carries-normalize_override (str s) share h = rw h (level_of-token share)
Carries-normalize_override (str s) direct h = rw h (level_of-token direct)
Carries-normalize_override (str s) private h = rw h (level_of-token private)
Carries-normalize_override (obj fs) l h = rw h (level_of-token l)
Carries-normalize_override _ l h = absurd h

pub policy_default_level-eq :
    (p : Value) → policy_default_level p ≡ get_or (level_of (get p "default_level")) private
unfolding policy_default_level level_of
policy_default_level-eq (obj fs) = ground arith
policy_default_level-eq _ = refl

policy_default_level-Defaults :
    (p : Value) (l : Level) → l ≢ private → policy_default_level p ≡ l → Defaults p l
unfolding policy_default_level
policy_default_level-Defaults (obj fs) l n h =
    elim (Option-cases (lookup "default_level" (entries fs))) [
      | inl missing ↦ ground arith
      | inr (v, found) ↦ elim (Option-cases (level_of v)) [
        | inl junk ↦ ground arith
        | inr (k, named) ↦ ground (arith, level_of-eq-some v k)
      ]
    ]
policy_default_level-Defaults _ l n h = absurd (n (sym h))

Defaults-policy_default_level : (p : Value) (l : Level) → Defaults p l → policy_default_level p ≡ l
unfolding policy_default_level
Defaults-policy_default_level (obj fs) l h = rw h (rw (level_of-token l))
Defaults-policy_default_level _ l h = absurd h

-- The conversation's own record, or failing that the account default, names a mirrored level.
abbrev pub IsAuthorized : Value → Value → Type 0
IsAuthorized override policy =
    Carries override share
    ⊎ Carries override direct
    ⊎ (((l : Level) → ¬ Carries override l) × (Defaults policy share ⊎ Defaults policy direct))

pub normalize_override-none :
    (o : Value) → ((l : Level) → ¬ Carries o l) → normalize_override o ≡ none
normalize_override-none o h = elim (Option-cases (normalize_override o)) [
  | inl absent ↦ absent
  | inr (l, found) ↦ absurd (h l (normalize_override-Carries o l found))
]

effective_shared-eq :
    (c p o f : Value) → effective_shared c p o f ≡ is_mirrored (resolved_level o p)
unfolding effective_shared
effective_shared-eq c p o f = (resolve-resolved_level c p o f).0

default_IsAuthorized :
    (o p : Value)
    → normalize_override o ≡ none
    → is_mirrored (policy_default_level p) ≡ true
    → IsAuthorized o p
default_IsAuthorized o p absent h =
    let nothing : (l : Level) → ¬ Carries o l =
      λ l c. ground (arith, Carries-normalize_override o l c) in
    go (policy_default_level p) refl nothing
  where
    go : (l : Level) → policy_default_level p ≡ l → ((k : Level) → ¬ Carries o k) → IsAuthorized o p
    go share e n = inr (inr (n, inl (policy_default_level-Defaults p share (λ q. cc) e)))
    go direct e n = inr (inr (n, inr (policy_default_level-Defaults p direct (λ q. cc) e)))
    go private e n = ground arith

IsAuthorized-of_shared : (o p : Value) → is_mirrored (resolved_level o p) ≡ true → IsAuthorized o p
unfolding resolved_level
IsAuthorized-of_shared o p h = elim (Option-cases (normalize_override o)) [
  | inl absent ↦ default_IsAuthorized o p absent (rw absent at h)
  | inr (share, found) ↦ inl (normalize_override-Carries o share found)
  | inr (direct, found) ↦ inr (inl (normalize_override-Carries o direct found))
  | inr (private, found) ↦ ground arith
]

shared_of_authorized : (o p : Value) → IsAuthorized o p → is_mirrored (resolved_level o p) ≡ true
unfolding resolved_level
shared_of_authorized o p (inl c) = rw (Carries-normalize_override o share c)
shared_of_authorized o p (inr (inl c)) = rw (Carries-normalize_override o direct c)
shared_of_authorized o p (inr (inr (n, inl d))) =
    rw (normalize_override-none o n, Defaults-policy_default_level p share d)
shared_of_authorized o p (inr (inr (n, inr d))) =
    rw (normalize_override-none o n, Defaults-policy_default_level p direct d)

-- A conversation is shared exactly when its own stored record names `share` or `direct`, or when
-- that record names no level at all and the account policy's own `default_level` names one of the
-- two. Nothing else in the four arguments can share it, and an explicit `private` always wins.
pub effective_shared_iff :
    (convo policy override profile : Value)
    → (effective_shared convo policy override profile ≡ true) ↔ IsAuthorized override policy
effective_shared_iff convo policy override profile =
    rw (effective_shared-eq convo policy override profile)
      (IsAuthorized-of_shared override policy, shared_of_authorized override policy)

-- An override that names no level decides exactly as an absent one.
pub resolve_unrecognized :
    (convo policy override profile : Value)
    → ((l : Level) → ¬ Carries override l)
    → resolve convo policy override profile ≡ resolve convo policy undefined profile
unfolding resolve
resolve_unrecognized convo policy override profile h =
    rw (normalize_override-none override h, resolve)
      (rw (normalize_override-none undefined (λ l c. c), resolve))

-- Only the override and the policy's `default_level` are read: the conversation, the profile and
-- every other field of the policy (the per-source and global policies) decide nothing.
pub resolve_ignores :
    (convo convo' policy policy' override profile profile' : Value)
    → get policy "default_level" ≡ get policy' "default_level"
    → resolve convo policy override profile ≡ resolve convo' policy' override profile'
unfolding resolve
resolve_ignores convo convo' policy policy' override profile profile' h =
    ground (arith, policy_default_level-eq policy, policy_default_level-eq policy')

rows_agree :
    (policy : Value) (overrides : Overrides) (convos : List Value)
    → (map (λ (r : Row). r.convo) (map (resolve_row policy overrides) convos) ≡ convos)
      × All
          (λ (r : Row).
            r.shared
            ≡ is_mirrored (resolved_level (override_for overrides (get r.convo "id")) policy))
          (map (resolve_row policy overrides) convos)
unfolding resolve_row
rows_agree policy overrides [] = (refl, tt)
rows_agree policy overrides (c ∷ cs) = (
  ap (λ r. c ∷ r) (rows_agree policy overrides cs).0,
  (
    (resolve-resolved_level c policy (override_for overrides (get c "id")) undefined).0,
    (rows_agree policy overrides cs).1,
  ),
)

-- `resolveAll` keeps the conversations and their order, and each row says what the level resolved
-- from that conversation's own override says.
pub resolve_all-rows :
    (convos policy : Value) (overrides : Overrides)
    → (map (λ (r : Row). r.convo) (resolve_all convos policy overrides)
        ≡ get_or (as_array convos) [])
      × All
          (λ (r : Row).
            r.shared
            ≡ is_mirrored (resolved_level (override_for overrides (get r.convo "id")) policy))
          (resolve_all convos policy overrides)
unfolding resolve_all
resolve_all-rows convos policy overrides = rows_agree policy overrides (get_or (as_array convos) [])

override_for-as_map :
    (m : List (String × Value)) (id : Value)
    → override_for (as_map m) id ≡ override_for (as_value (obj (of_entries m))) id
unfolding override_for
override_for-as_map m (str id) = rw (entries-of_entries m)
override_for-as_map m _ = refl

-- A Map of overrides and the plain object with the same entries resolve alike.
pub resolve_all-as_map :
    (convos policy : Value) (m : List (String × Value))
    → resolve_all convos policy (as_map m)
      ≡ resolve_all convos policy (as_value (obj (of_entries m)))
unfolding resolve_all resolve_row
resolve_all-as_map convos policy m =
    ap (λ f. map f (get_or (as_array convos) []))
      (fun_ext (λ c. rw (override_for-as_map m (get c "id"))))
