-- ===== src/Crm/Links/Fields.antt =====
-- The fields of the values that shared/model/crm.js spreads and validates.
use beepa.Prelude.{
  String, true, false, List, [], map, has, ◌≡◌, refl, sym, ◌∙◌, arith, ◌==◌, eq_refl,
}
use beepa.Js.{
  Value, undefined, null, bool, num, str, arr, obj, get, strictly_equal, entries-of_entries,
}
use beepa.Crm.Format.{
  with_field, spread, own_entries, insert_all, names, mxid, text_within, bounded_identity,
  generation, has_keys,
}
use beepa.Crm.Edits.{get-with_field, get-own_entries}
use beepa.Crm.Links.{lookup-insert_all, other_names}

pub get-with_field_other :
    (v : Value) (k j : String) (w : Value) → k == j ≡ false → get (with_field v k w) j ≡ get v j
get-with_field_other v k j w h = get-with_field v k j w ∙ rw (h) refl

names-own_entries : (v : Value) → names v ≡ map (λ (e : String × Value). e.0) (own_entries v)
names-own_entries undefined = refl
names-own_entries null = refl
names-own_entries (bool b) = refl
names-own_entries (num n) = refl
names-own_entries (str s) = refl
names-own_entries (arr vs) = refl
names-own_entries (obj fs) = refl

pub get-spread_other :
    (a b : Value) (k : String) → has (names b) k ≡ false → get (spread a b) k ≡ get a k
unfolding spread
get-spread_other a b k h =
    rw
      (
        entries-of_entries (insert_all (own_entries a) (own_entries b)),
        lookup-insert_all (own_entries a) (own_entries b) k (rw (sym (names-own_entries b)) h),
        get-own_entries a k,
      )
      refl

pub other_fields :
    (v : Value) (required : List String) (k : String)
    → has_keys v required [] ≡ true
    → has required k ≡ false
    → has (names v) k ≡ false
other_fields v required k h other = other_names required (names v) k (ground (h, arith)) other

pub identity_self : (v : Value) → bounded_identity mxid v ≡ true → strictly_equal v v ≡ true
unfolding bounded_identity
identity_self undefined h = ground (arith, h)
identity_self null h = ground (arith, h)
identity_self (bool b) h = ground (arith, h)
identity_self (num n) h = ground (arith, h)
identity_self (str s) h = eq_refl s
identity_self (arr vs) h = ground (arith, h)
identity_self (obj fs) h = ground (arith, h)

pub generation_self : (v : Value) → generation v ≡ true → strictly_equal v v ≡ true
unfolding text_within
generation_self undefined h = ground (arith, h)
generation_self null h = ground (arith, h)
generation_self (bool b) h = ground (arith, h)
generation_self (num n) h = ground (arith, h)
generation_self (str s) h = eq_refl s
generation_self (arr vs) h = ground (arith, h)
generation_self (obj fs) h = ground (arith, h)
