-- ===== src/Consent/Storage/Tests.antt =====
-- The storage theorems at a homeserver in memory.
use beepa.Prelude.{ℕ, true, false, Option, none, some, [], ◌∷◌, ◌≡◌, ◌⊎◌, refl}
use beepa.Js.{Value, undefined, num, whole, str, obj, field, end}
use beepa.Matrix.Client.{api, Platform}
use beepa.Matrix.Client.Local.Keeps.{local-KeepsAccountData}
use beepa.Matrix.Client.Local.{Local, local, signed_in}
use beepa.Consent.Level.{share, private, resolved_level}
use beepa.Consent.Policy.{normalize_policy, policy_value}
use beepa.Consent.ContactShare.{ContactLevel, normalize_contact_overrides, contact_override_entries}
use beepa.Consent.ContactKey.{split_contact_override_key}
use beepa.Consent.Keys.{source_key}
use beepa.Consent.Storage.{
  read_share_policy, write_share_policy, read_contact_overrides, write_contact_overrides,
  overrides_to_send, legacy_write, account_data_path, consent_model_type, share_policy_type,
}
use beepa.Consent.Storage.RoundTrip
use beepa.Consent.Storage.RoundTrip.{read_of_map}

abbrev policy_junk : Value
policy_junk = obj (field "default_level" (str "share") (field "global" (str "everyone") end))

abbrev after_policy : Local
after_policy = record signed_in {
  account =
      (
        account_data_path local share_policy_type signed_in,
        policy_value (normalize_policy policy_junk),
      )
      ∷ [];
}

read-write_share_policy_example :
    read_share_policy local after_policy
    ≡ (after_policy, record { readable = true; policy = normalize_policy policy_junk })
unfolding write_share_policy api
read-write_share_policy_example =
    RoundTrip.read-write_share_policy local local-KeepsAccountData policy_junk
      (normalize_policy policy_junk) signed_in after_policy refl

abbrev wished : Value
wished = obj (field "imessage|1" (str "private") (field "bad" (str "share") end))

abbrev after_overrides : Local
after_overrides = (write_contact_overrides local wished signed_in).0

read-write_contact_overrides_example : read_contact_overrides local after_overrides ≡ (
  after_overrides,
  read_of_map (some (("imessage|1", ContactLevel.private) ∷ [])) (overrides_to_send wished),
)
unfolding write_contact_overrides api normalize_contact_overrides contact_override_entries
    split_contact_override_key source_key
read-write_contact_overrides_example =
    RoundTrip.read-write_contact_overrides local local-KeepsAccountData wished
      (some (("imessage|1", ContactLevel.private) ∷ [])) signed_in after_overrides refl

-- A homeserver that fails at everything.
abbrev failing : Platform
failing = record local { fetch = λ r w. (w, some (record { status = 500; body = none })) }

read_share_policy_closed_example :
    ((◌≡◌ {A = Option ℕ} (some 500) (some 404)
        × ((read_share_policy failing signed_in).1.readable ≡ true))
      ⊎ (¬ (◌≡◌ {A = Option ℕ} (some 500) (some 404))
          × ((read_share_policy failing signed_in).1.readable ≡ false)))
    × (resolved_level undefined (policy_value (read_share_policy failing signed_in).1.policy)
        ≡ private)
unfolding api
read_share_policy_closed_example =
    RoundTrip.read_share_policy_closed failing signed_in signed_in (some 500) refl

abbrev marked : Local
marked = record signed_in {
  account =
      (
        account_data_path local consent_model_type signed_in,
        obj (field "version" (num (whole 3)) end),
      )
      ∷ [];
}

abbrev after_legacy : Local
after_legacy = (legacy_write local "localhost" "!a:localhost" (some share) signed_in).0
