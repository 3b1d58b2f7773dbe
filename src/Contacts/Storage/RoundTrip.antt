-- ===== src/Contacts/Storage/RoundTrip.antt =====
-- `readProfiles` against `writeProfiles` of shared/model/contacts.js.
use beepa.Prelude.{String, none, some, List, [], ◌≡◌, ◌⊎◌, inl, inr, refl, ap, ap₂, arith}
use beepa.Js.{Value}
use beepa.Matrix.Client.{Method, Platform, Outcome, ok, failed, put, api}
use beepa.Matrix.Client.AccountData.{KeepsAccountData, api-get-put}
use beepa.Consent.Storage.{account_data_path}
use beepa.Consent.Storage.Sent.{sent-ok}
use beepa.Contacts.Profile.{Profile, normalize_profiles, store_value}
use beepa.Contacts.Profile.Idempotent.{normalize_profiles_idempotent}
use beepa.Contacts.Storage.{
  contact_profiles_type, profiles_of_outcome, read_profiles, write_profiles,
}

profiles_of_outcome-ok :
    (server : String) (o : Outcome Value) (ps : List Profile)
    → profiles_of_outcome server o ≡ ok ps
    → ((v : Value) × (o ≡ ok v) × (ps ≡ normalize_profiles server v))
      ⊎ ((o ≡ failed (some 404)) × (ps ≡ []))
unfolding profiles_of_outcome
profiles_of_outcome-ok server (ok v) ps h = inl (v, refl, ground arith)
profiles_of_outcome-ok server (failed none) ps h = ground arith
profiles_of_outcome-ok server (failed (some n)) ps h = inr (ground arith, ground arith)

module _ (p : Platform) (server : String) where
  -- A store is read only from what the homeserver answered, normalized, and is read as empty
  -- for want of an answer only on the status 404: no other failure passes for an empty store.
  pub read_profiles_faithful :
      (w w' : p.World) (ps : List Profile)
      → read_profiles p server w ≡ (w', ok ps)
      → ((v : Value) × (api p Method.get (account_data_path p contact_profiles_type w) none w
            ≡ (w', ok v))
          × (ps ≡ normalize_profiles server v))
        ⊎ ((api p Method.get (account_data_path p contact_profiles_type w) none w
              ≡ (w', failed (some 404)))
            × (ps ≡ []))
  unfolding read_profiles
  read_profiles_faithful w w' ps h =
      go (api p Method.get (account_data_path p contact_profiles_type w) none w) h
    where
      go :
          (x : p.World × Outcome Value)
          → ◌≡◌ {A = p.World × Outcome (List Profile)}
              (x.0, profiles_of_outcome server x.1)
              (w', ok ps)
          → ((v : Value) × (x ≡ (w', ok v)) × (ps ≡ normalize_profiles server v))
            ⊎ ((x ≡ (w', failed (some 404))) × (ps ≡ []))
      go (w₁, o) e = elim (profiles_of_outcome-ok server o ps (ap (λ q. q.1) e)) [
        | inl (v, answer, same) ↦ inl (v, ap₂ (λ a b. (a, b)) (ap (λ q. q.0) e) answer, same)
        | inr (answer, same) ↦ inr (ap₂ (λ a b. (a, b)) (ap (λ q. q.0) e) answer, same)
      ]

  -- At a homeserver that keeps account data, the store that a write returns is the one that the
  -- next read returns.
  pub read-write_profiles :
      KeepsAccountData p
      → (store : Value) (ps : List Profile) (w w' : p.World)
      → write_profiles p server store w ≡ (w', ok ps)
      → read_profiles p server w' ≡ (w', ok ps)
  unfolding read_profiles write_profiles profiles_of_outcome
  read-write_profiles keeps store ps w w' h =
      let body = normalize_profiles server store in
      let (r, written, same) =
        sent-ok p body ps
          (api p put (account_data_path p contact_profiles_type w) (some (store_value body)) w) w'
          h in
      let (again, user) =
        api-get-put p keeps (account_data_path p contact_profiles_type w) (store_value body) r w w'
          written in
      rw (user, again, normalize_profiles_idempotent server store, same) refl
