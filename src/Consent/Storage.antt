-- ===== src/Consent/Storage.antt =====
-- The account-data reads and writes of shared/model/consent.js.
pub mod RoundTrip
pub mod Sent
mod Tests
use Prim.Native.String
use beepa.Prelude.{
  ℕ, String, Bool, true, false, Option, none, some, List, [], ◌∷◌, ltb, nat_eq, not, if◌then◌else◌,
  get_or,
}
use beepa.Js.{
  Value, end, field, str, obj, get, as_object, as_number, entries, Number, is_finite, at_least,
}
use beepa.Matrix.Client.{Method, Platform, Action, Outcome, ok, failed, put, api, room_id}
use beepa.Consent.Level.{Level, token, level_of}
use beepa.Consent.Policy.{Policy, normalize_policy, policy_value}
use beepa.Consent.Sync.{share_override_type}
use beepa.Consent.ContactShare.{
  ContactLevel, Stored, contact_override_entries, normalize_contact_overrides, kept_overrides,
  overrides_value, contact_overrides_cap,
}

-- SHARE_POLICY_TYPE, CONSENT_MODEL_TYPE, CONTACT_OVERRIDES_TYPE
abbrev pub share_policy_type : String
share_policy_type = "com.jkali.share_policy"

abbrev pub consent_model_type : String
consent_model_type = "com.jkali.consent_model"

abbrev pub contact_overrides_type : String
contact_overrides_type = "com.jkali.contact_overrides"

abbrev pub consent_model_per_room : ℕ
consent_model_per_room = 2

abbrev pub consent_model_explicit : ℕ
consent_model_explicit = 3

-- `{ status, global, sources, default_level }` and `{ status, overrides }`.
pub record PolicyRead : Type 0 where
  pub readable : Bool
  pub policy : Policy

pub data OverridesRead : Type 0 where
  loaded over_cap : List (String × ContactLevel) → OverridesRead
  unreadable : OverridesRead

-- `{ global: 'private', sources: {} }`
abbrev pub empty_policy : Policy
empty_policy = record { standing = record { global = false; sources = [] }; default_level = none }

-- `await api('PUT', …); return body;`
abbrev pub sent {ℓ} : {A : Type ℓ} → A → Outcome Value → Outcome A
sent body (ok v) = ok body
sent body (failed status) = failed status

-- `e.status === 404`
abbrev pub is_missing : Option ℕ → Bool
is_missing none = false
is_missing (some status) = nat_eq status 404

-- What the readers make of the outcome of their GET.
unfoldable pub policy_of_outcome : Outcome Value → PolicyRead
policy_of_outcome (ok v) = record { readable = true; policy = normalize_policy v }
policy_of_outcome (failed status) = record { readable = is_missing status; policy = empty_policy }

unfoldable pub model_of_value : Value → ℕ
model_of_value v = elim (as_number (get v "version")) [
  | none ↦ 1
  | some n ↦
      if not (is_finite n)
      then 1
      else if at_least n consent_model_explicit
      then consent_model_explicit
      else if at_least n consent_model_per_room
      then consent_model_per_room
      else 1
]

unfoldable pub model_of_outcome : Outcome Value → ℕ
unfolding model_of_value
model_of_outcome (ok v) = model_of_value v
model_of_outcome (failed status) = 1

unfoldable pub overrides_of_stored : Option Stored → OverridesRead
overrides_of_stored none = unreadable
overrides_of_stored (some e) =
    if ltb contact_overrides_cap e.count then over_cap e.overrides else loaded e.overrides

unfoldable pub overrides_of_outcome : Outcome Value → OverridesRead
unfolding overrides_of_stored
overrides_of_outcome (ok v) = overrides_of_stored (contact_override_entries v)
overrides_of_outcome (failed status) = if is_missing status then loaded [] else unreadable

-- The entries that `writeContactOverrides` sends.
unfoldable pub overrides_to_send : Value → List (String × ContactLevel)
overrides_to_send (obj src) = kept_overrides (entries src)
overrides_to_send _ = []

-- `{ state: s }`, or `{}` to clear.
abbrev pub override_content : Option Level → Value
override_content none = obj end
override_content (some level) = obj (field "state" (str (token level)) end)

module _ (p : Platform) where
  open p use {World, user_id, encode_uri_component}

  abbrev pub user_path : String → World → String
  user_path rest w =
      String.◌++◌ "/_matrix/client/v3/user/" (String.◌++◌ (encode_uri_component (user_id w)) rest)

  -- `policyPath`, and the paths of the consent model marker and of the contact overrides.
  abbrev pub account_data_path : String → World → String
  account_data_path type w = user_path (String.◌++◌ "/account_data/" type) w

  -- `overridePath` after its test of the room id.
  abbrev pub override_path : String → World → String
  override_path room w =
      user_path
        (String.◌++◌ "/rooms/" (
          String.◌++◌ (encode_uri_component room)
            (String.◌++◌ "/account_data/" share_override_type)))
        w

  pub read_share_policy : World → World × PolicyRead
  unfolding policy_of_outcome
  read_share_policy w =
      let (w', outcome) = api p Method.get (account_data_path share_policy_type w) none w in
      (w', policy_of_outcome outcome)

  pub write_share_policy : Value → Action p Policy
  write_share_policy policy w =
      let body = normalize_policy policy in
      let (w', outcome) =
        api p put (account_data_path share_policy_type w) (some (policy_value body)) w in
      (w', sent body outcome)

  pub read_consent_model : World → World × ℕ
  unfolding model_of_outcome
  read_consent_model w =
      let (w', outcome) = api p Method.get (account_data_path consent_model_type w) none w in
      (w', model_of_outcome outcome)

  -- `legacyWrite`, where no other writer is installed; the test of the room id throws.
  pub legacy_write : String → String → Option Level → Action p (Option Level)
  legacy_write server_name room level w =
      if room_id server_name room
      then (let (w', outcome) =
            api p put (override_path room w) (some (override_content level)) w in
          (w', sent level outcome))
      else (w, failed none)

  -- `writeShareOverride`: an installed writer gets the normalized level and the legacy write.
  pub write_share_override :
      Option (String → Option Level → Action p (Option Level) → Action p (Option Level))
      → String
      → String
      → Value
      → Action p (Option Level)
  unfolding legacy_write
  write_share_override none server_name room state = legacy_write server_name room (level_of state)
  write_share_override (some writer) server_name room state =
      writer room (level_of state) (legacy_write server_name room (level_of state))

  pub read_contact_overrides : World → World × OverridesRead
  unfolding overrides_of_outcome
  read_contact_overrides w =
      let (w', outcome) = api p Method.get (account_data_path contact_overrides_type w) none w in
      (w', overrides_of_outcome outcome)

  -- The result null of `normalizeContactOverrides(body)` is none.
  pub write_contact_overrides : Value → Action p (Option (List (String × ContactLevel)))
  unfolding overrides_to_send
  write_contact_overrides overrides w =
      let body = overrides_value (overrides_to_send overrides) in
      let (w', outcome) = api p put (account_data_path contact_overrides_type w) (some body) w in
      (w', sent (normalize_contact_overrides body) outcome)
