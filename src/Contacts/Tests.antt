-- ===== src/Contacts/Tests.antt =====
-- The theorems on contact profiles at a small store that needs normalizing.
use beepa.Prelude.{◌⊎◌, none, some, List, [], ◌≡◌, refl}
use beepa.Js.{Value, str, arr, obj, field, end, cons, nil}
use beepa.Matrix.Client.{room_id}
use beepa.Contacts.Profile.{Handle, Profile, normalize_profiles, store_value}
use beepa.Contacts.Profile.WellFormed
use beepa.Contacts.Profile.WellFormed.{IsWellFormed}
use beepa.Contacts.Profile.Idempotent
use beepa.Contacts.Rooms.Owner.{owner}
use beepa.Contacts.Storage.{contact_profiles_type, read_profiles, write_profiles}
use beepa.Contacts.Storage.RoundTrip
use beepa.Consent.Storage.{account_data_path}
use beepa.Matrix.Client.{Method, ok, failed, api}
use beepa.Matrix.Client.Local.{Local, local, signed_in}
use beepa.Matrix.Client.Local.Keeps.{local-KeepsAccountData}
use beepa.Contacts.Merge.{Fresh, auto_merge_by_number}
use beepa.Contacts.Merge.Safety

-- Two profiles that both claim the room !a:h.
abbrev ann : Value
ann =
    obj (
      field "id" (str "ann")
        (field "roomIds" (arr (cons (str "!a:h") (cons (str "!b:h") nil))) end))

abbrev bob : Value
bob =
    obj (
      field "id" (str "bob")
        (field "roomIds" (arr (cons (str "!a:h") (cons (str "!c:h") nil))) end))

abbrev stored : Value
stored = obj (field "profiles" (arr (cons ann (cons bob nil))) end)

normalize_profiles-IsWellFormed_example : IsWellFormed "h" (normalize_profiles "h" stored)
normalize_profiles-IsWellFormed_example = WellFormed.normalize_profiles-IsWellFormed "h" stored

normalize_profiles_idempotent_example :
    normalize_profiles "h" (store_value (normalize_profiles "h" stored))
    ≡ normalize_profiles "h" stored
normalize_profiles_idempotent_example = Idempotent.normalize_profiles_idempotent "h" stored

abbrev numbered : Value
numbered = obj (field "!b:h" (str "+1") (field "!d:h" (str "+1") end))

abbrev name_it : Fresh
name_it = record { suffix = λ n. "x"; name_of = λ r. "" }

auto_merge_by_number-keeps_example :
    owner (auto_merge_by_number "h" name_it stored numbered).0 "!c:h" ≡ some "bob"
unfolding normalize_profiles room_id
auto_merge_by_number-keeps_example =
    Safety.auto_merge_by_number-keeps "h" name_it stored numbered "!c:h" "bob" refl

abbrev phone : Handle
phone = record { source = "sms"; network_id = "+1" }

abbrev listed : Value
listed = arr (cons ann (cons bob nil))

abbrev after_write : Local
after_write = (write_profiles local "h" stored signed_in).0

read-write_profiles_example :
    read_profiles local "h" after_write ≡ (after_write, ok (normalize_profiles "h" stored))
unfolding write_profiles api
read-write_profiles_example =
    RoundTrip.read-write_profiles local "h" local-KeepsAccountData stored
      (normalize_profiles "h" stored) signed_in after_write refl

read_profiles_faithful_example :
    ((v : Value) × (api local Method.get
          (account_data_path local contact_profiles_type signed_in)
          none
          signed_in
        ≡ (signed_in, ok v))
      × ([] ≡ normalize_profiles "h" v))
    ⊎ ((api local Method.get
            (account_data_path local contact_profiles_type signed_in)
            none
            signed_in
          ≡ (signed_in, failed (some 404)))
        × (◌≡◌ {A = List Profile} [] []))
unfolding read_profiles api
read_profiles_faithful_example =
    RoundTrip.read_profiles_faithful local "h" signed_in signed_in [] refl
