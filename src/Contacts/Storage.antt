-- ===== src/Contacts/Storage.antt =====
-- The account-data reads and writes of shared/model/contacts.js.
pub mod RoundTrip
use Prim.Native.String
use beepa.Prelude.{String, Bool, true, false, Option, none, some, List, [], if◌then◌else◌}
use beepa.Js.{Value}
use beepa.Matrix.Client.{Method, Platform, Action, Outcome, ok, failed, put, api}
use beepa.Consent.Storage.{account_data_path, is_missing, sent}
use beepa.Contacts.Profile.{Profile, normalize_profiles, store_value}

-- CONTACT_PROFILES_TYPE
abbrev pub contact_profiles_type : String
contact_profiles_type = "com.jkali.contact_profiles"

-- What `readProfiles` makes of the outcome of its GET: only a missing event is an empty store.
unfoldable pub profiles_of_outcome : String → Outcome Value → Outcome (List Profile)
profiles_of_outcome server (ok v) = ok (normalize_profiles server v)
profiles_of_outcome server (failed status) = if is_missing status then ok [] else failed status

module _ (p : Platform) (server : String) where
  -- `readProfiles`
  unfoldable pub read_profiles : Action p (List Profile)
  unfolding profiles_of_outcome
  read_profiles w =
      let (w', answer) = api p Method.get (account_data_path p contact_profiles_type w) none w in
      (w', profiles_of_outcome server answer)

  -- `writeProfiles`
  unfoldable pub write_profiles : Value → Action p (List Profile)
  write_profiles store w =
      let body = normalize_profiles server store in
      let (w', answer) =
        api p put (account_data_path p contact_profiles_type w) (some (store_value body)) w in
      (w', sent body answer)
