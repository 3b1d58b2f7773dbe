-- ===== src/Consent/Storage/RoundTrip.antt =====
-- The readers against the writers of account data in shared/model/consent.js.
use beepa.Prelude.{
  ℕ, nat_eq, ◌⊎◌, String, true, false, Option, none, some, List, ◌≡◌, ◌≤◌, refl, sym, ap, ◌∙◌,
  arith, inl, inr, Bool-cases,
}
use beepa.Js.{Value, undefined, end, obj, get, num, Number, at_least, entries, entries-of_entries}
use beepa.Matrix.Client.{Method, put, Outcome, ok, failed, Platform, api, room_id}
use beepa.Matrix.Client.AccountData.{KeepsAccountData, api-get-put}
use beepa.Consent.Storage.Sent.{sent-ok}
use beepa.Consent.Level.{
  Level, private, normalize_override, resolved_level, level_of, policy_default_level,
}
use beepa.Consent.Level.Authority.{normalize_override-none, Carries-normalize_override}
use beepa.Consent.Policy.{Policy, normalize_policy, policy_value}
use beepa.Consent.Policy.Normal.{normalize_policy-policy_value}
use beepa.Consent.ContactShare.{
  ContactLevel, kept_overrides, override_values, overrides_value, contact_override_entries,
  normalize_contact_overrides,
}
use beepa.Consent.ContactShare.Layers.{kept_overrides_idem}
use beepa.Consent.Storage.{
  OverridesRead, loaded, over_cap, policy_of_outcome, model_of_outcome, model_of_value,
  overrides_of_outcome, is_missing, empty_policy, overrides_to_send, override_content,
  account_data_path, override_path, share_policy_type, contact_overrides_type, consent_model_type,
  read_share_policy, write_share_policy, read_consent_model, legacy_write, read_contact_overrides,
  write_contact_overrides,
}

-- The read that a returned map foretells.
abbrev pub read_of_map :
    Option (List (String × ContactLevel)) → List (String × ContactLevel) → OverridesRead
read_of_map (some m) sent_map = loaded m
read_of_map none sent_map = over_cap sent_map

kept_again :
    (overrides : Value)
    → kept_overrides (override_values (overrides_to_send overrides)) ≡ overrides_to_send overrides
unfolding overrides_to_send kept_overrides
kept_again (obj src) = kept_overrides_idem (entries src)
kept_again _ = refl

overrides_read_back :
    (overrides : Value) (m : Option (List (String × ContactLevel)))
    → normalize_contact_overrides (overrides_value (overrides_to_send overrides)) ≡ m
    → overrides_of_outcome (ok (overrides_value (overrides_to_send overrides)))
      ≡ read_of_map m (overrides_to_send overrides)
unfolding normalize_contact_overrides contact_override_entries overrides_of_outcome
overrides_read_back overrides m h = rw (← h) (
    ground (
      arith,
      kept_again overrides,
      entries-of_entries (override_values (overrides_to_send overrides)),
    ))

module _ (p : Platform) (server : KeepsAccountData p) where
  -- A policy that was written is read back exactly as the write returned it.
  pub read-write_share_policy :
      (policy : Value) (q : Policy) (w w' : p.World)
      → write_share_policy p policy w ≡ (w', ok q)
      → read_share_policy p w' ≡ (w', record { readable = true; policy = q })
  unfolding write_share_policy read_share_policy
  read-write_share_policy policy q w w' h =
      let (r, written, same) =
        sent-ok p (normalize_policy policy) q
          (api p put (account_data_path p share_policy_type w)
            (some (policy_value (normalize_policy policy))) w)
          w' h in
      let (again, user) =
        api-get-put p server (account_data_path p share_policy_type w)
          (policy_value (normalize_policy policy)) r w w' written in
      rw (user, again, normalize_policy-policy_value policy, same)

  -- The contact overrides that a write sends are the ones that the next read reports, with the
  -- warning if they are over the cap; the write itself returns null in that case.
  pub read-write_contact_overrides :
      (overrides : Value) (m : Option (List (String × ContactLevel))) (w w' : p.World)
      → write_contact_overrides p overrides w ≡ (w', ok m)
      → read_contact_overrides p w' ≡ (w', read_of_map m (overrides_to_send overrides))
  unfolding write_contact_overrides read_contact_overrides
  read-write_contact_overrides overrides m w w' h =
      let body = overrides_value (overrides_to_send overrides) in
      let (r, written, same) =
        sent-ok p (normalize_contact_overrides body) m
          (api p put (account_data_path p contact_overrides_type w) (some body) w) w' h in
      let (again, user) =
        api-get-put p server (account_data_path p contact_overrides_type w) body r w w' written in
      rw (user, again) (ap (λ o. (w', o)) (overrides_read_back overrides m same))

missing_or_not :
    (status : Option ℕ)
    → ((status ≡ some 404) × (is_missing status ≡ true))
      ⊎ (¬ (status ≡ some 404) × (is_missing status ≡ false))
missing_or_not none = inr (λ h. ground (arith, h), refl)
missing_or_not (some n) = elim (Bool-cases (nat_eq n 404)) [
  | inl same ↦ inl (ap some (ground (arith, same)), same)
  | inr other ↦ inr (λ h. ground (arith, h, other), other)
]

empty_is_private : resolved_level undefined (policy_value empty_policy) ≡ private
unfolding resolved_level normalize_override policy_default_level level_of
empty_is_private = refl

model_of_value_sound :
    (v : Value)
    → (1 ≤ model_of_value v)
      × (model_of_value v ≤ 3)
      × (model_of_value v ≡ 3 → (n : Number) × (get v "version" ≡ num n) × (at_least n 3 ≡ true))
unfolding model_of_value
model_of_value_sound v = go (get v "version") refl
  where
    go :
        (x : Value)
        → get v "version" ≡ x
        → (1 ≤ model_of_value v)
          × (model_of_value v ≤ 3)
          × (model_of_value v ≡ 3
              → (n : Number) × (get v "version" ≡ num n) × (at_least n 3 ≡ true))
    go (num n) e = (ground arith, ground arith, λ h. (n, e, ground arith))
    go _ e = (ground arith, ground arith, λ h. ground arith)

model_of_outcome_sound :
    (o : Outcome Value)
    → (1 ≤ model_of_outcome o)
      × (model_of_outcome o ≤ 3)
      × (model_of_outcome o ≡ 3
          → (v : Value) × (n : Number) × (o ≡ ok v)
            × (get v "version" ≡ num n)
            × (at_least n 3 ≡ true))
unfolding model_of_outcome
model_of_outcome_sound (ok v) =
    let (low, high, three) = model_of_value_sound v in
    (low, high, λ h. let (n, e, large) = three h in (v, n, refl, e, large))
model_of_outcome_sound (failed status) = (omega arith, omega arith, λ h. absurd (omega arith))

override_content_reads_back :
    (level : Option Level) → normalize_override (override_content level) ≡ level
override_content_reads_back none = normalize_override-none (obj end) (λ l. ground arith)
override_content_reads_back (some l) = Carries-normalize_override (override_content (some l)) l refl

fails_never :
    {W C : Type 0} (l : Option Level) (w w' : W)
    → ◌≡◌ {A = W × Outcome (Option Level)} (w, failed none) (w', ok l)
    → C
fails_never l w w' h = ground (arith, h)

module _ (p : Platform) where
  -- A policy read that fails counts as read with the status 404, a definite absence, and says that it
  -- could not be read with any other status, or none. In both cases the policy that is returned shares
  -- no conversation that has no level of its own.
  pub read_share_policy_closed :
      (w w' : p.World) (status : Option ℕ)
      → api p Method.get (account_data_path p share_policy_type w) none w ≡ (w', failed status)
      → (((status ≡ some 404) × ((read_share_policy p w).1.readable ≡ true))
          ⊎ (¬ (status ≡ some 404) × ((read_share_policy p w).1.readable ≡ false)))
        × (resolved_level undefined (policy_value (read_share_policy p w).1.policy) ≡ private)
  unfolding read_share_policy policy_of_outcome
  read_share_policy_closed w w' status h = rw (h) (missing_or_not status, empty_is_private)

  -- The consent model is read as explicit only if the marker was read, and holds a number that is at
  -- least 3: no failure of the read and no malformed marker turns the explicit model on.
  pub read_consent_model_sound :
      (w : p.World)
      → (read_consent_model p w).1 ≡ 3
      → (w' : p.World) × (v : Value) × (n : Number) × (api p Method.get
            (account_data_path p consent_model_type w)
            none
            w
          ≡ (w', ok v))
        × (get v "version" ≡ num n)
        × (at_least n 3 ≡ true)
  unfolding read_consent_model
  read_consent_model_sound w h =
      let (w', outcome) = api p Method.get (account_data_path p consent_model_type w) none w in
      let (low, high, three) = model_of_outcome_sound outcome in
      let (v, n, e, version, large) = three h in (w', v, n, ap (λ o. (w', o)) e, version, large)

  -- A write that returns was made for a room id of the right shape, returns the level that was asked
  -- for, and has put a value that reads back as that level.
  pub legacy_write_sound :
      (server_name room : String) (level l : Option Level) (w w' : p.World)
      → legacy_write p server_name room level w ≡ (w', ok l)
      → (room_id server_name room ≡ true)
        × (l ≡ level)
        × ((v r : Value) × (api p put (override_path p room w) (some v) w ≡ (w', ok r))
            × (normalize_override v ≡ l))
  unfolding legacy_write
  legacy_write_sound server_name room level l w w' h =
      elim (Bool-cases (room_id server_name room)) [
        | inl valid ↦
            let (r, written, same) =
              sent-ok p level l
                (api p put (override_path p room w) (some (override_content level)) w) w'
                (rw valid at h) in
            (
              valid,
              sym same,
              (override_content level, r, written, override_content_reads_back level ∙ same),
            )
        | inr refused ↦ fails_never l w w' (rw refused at h)
      ]
