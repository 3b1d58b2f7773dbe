-- ===== src/Crm/Links.antt =====
-- The bindings of shared/model/crm.js: which account and contact each one links.
pub mod Fields
pub mod Once
pub mod Reached
use mathlib.Core.Path.{subst}
use beepa.Prelude.{
  ℕ, suc, String, Bool, true, false, not, ◌&&◌, ◌||◌, Option, none, some, List, [], ◌∷◌, map, any,
  all, has, All, get_or, ◌≡◌, ◌≢◌, refl, sym, ap, ◌∙◌, arith, ◌==◌, if◌then◌else◌, lookup, insert,
  lookup-insert, eq_iff, eq_refl, nat_eq, Bool-cases, Option-cases, inl, inr, is_some,
}
use beepa.Js.{
  Value, undefined, null, bool, num, str, arr, obj, end, get, truthy, strictly_equal, is_text,
  entries-of_entries,
}
use beepa.Crm.Checked.{Checked, fine, refused, ◌>>=◌, ◌>>◌, need-fine, fine-fine, bind-fine}
use beepa.Crm.Canonical.{Host, canonical}
use beepa.Crm.Format.{
  with_field, spread, own_entries, insert_all, names, mxid, text_within, bounded_identity,
  generation, has_keys,
}
use beepa.Crm.State.{
  Crm, Collection, bindings, entity, entry, is_inherited, current, set_entity, some_checked,
  all_values,
}
use beepa.Crm.People.{revision_value, links_contact, binding_create, binding_update}
use beepa.Crm.Ensures.{
  Ensures, Ensures-bind, Ensures-after, Ensures-then, Ensures-need, Ensures-fine,
}
use beepa.Crm.Edits.{current-fine, get-with_field, get-own_entries, lookup-set_entity}
use beepa.Crm.Seen.{copy-fine}

-- The same account and generation, and contacts with one canonical text, whatever the order of keys.
pub record SameLink (host : Host) (a b : Value) : Type 0 where
  pub owner : get a "owner_mxid" ≡ get b "owner_mxid"
  pub generation : get a "generation" ≡ get b "generation"
  pub contact : canonical host (get a "contact") ≡ canonical host (get b "contact")

-- No two bindings link the same contact of the same account and generation.
abbrev pub LinkedOnce : Host → List (String × Value) → Type 0
LinkedOnce host m =
    (i j : String) (a b : Value)
    → lookup i m ≡ some a
    → lookup j m ≡ some b
    → SameLink host a b
    → i ≡ j

some_rest :
    (holds : Bool) (rest : Checked Bool)
    → (if holds then fine true else rest) ≡ fine false
    → (holds ≡ false) × (rest ≡ fine false)
some_rest true rest h = ground (arith, h)
some_rest false rest h = (refl, h)

pub some_checked-none {ℓ} :
    {A : Type ℓ} (test : A → Checked Bool) (xs : List A)
    → some_checked test xs ≡ fine false
    → All (λ x. test x ≡ fine false) xs
unfolding ◌>>=◌
some_checked-none test [] h = tt
some_checked-none test (x ∷ xs) h =
    let (holds, first, rest) = bind-fine (test x) _ _ h in
    let (fails, more) = some_rest holds _ rest in
    (first ∙ ap fine fails, some_checked-none test xs more)

pub lookup-All {κ} :
    (P : Value → Type κ) (m : List (String × Value)) (k : String) (v : Value)
    → All P (map (λ (e : String × Value). e.1) m)
    → lookup k m ≡ some v
    → P v
lookup-All P [] k v h f = ground (arith, f)
lookup-All P ((j, w) ∷ m) k v (h, hs) f = elim (Bool-cases (j == k)) [
  | inl same ↦ subst P (ground (arith, rw (same) at f)) h
  | inr other ↦ lookup-All P m k v hs (rw (other) at f)
]

-- An entity with a revision is no inherited function.
pub current-own :
    (state : Crm) (c : Collection) (k : String) (b : ℕ) (v : Value)
    → current state c k (revision_value b) ≡ fine v
    → lookup k (state.entities c) ≡ some v
unfolding entry
current-own state c k b v h =
    let (found, _, same) = current-fine state c k (revision_value b) v h in
    elim (Option-cases (lookup k (state.entities c))) [
      | inr (w, q) ↦ q ∙ ap some (rw (entry, q) at found)
      | inl q ↦ elim (Bool-cases (is_inherited k (state.entities c))) [
        | inl i ↦ ground (arith, rw (sym (rw (entry, q, i) at found)) at same)
        | inr i ↦ ground (arith, rw (sym (rw (entry, q, i) at found)) at same)
      ]
    ]

pub lookup-insert_all :
    (m more : List (String × Value)) (j : String)
    → has (map (λ (e : String × Value). e.0) more) j ≡ false
    → lookup j (insert_all m more) ≡ lookup j m
lookup-insert_all m [] j h = refl
lookup-insert_all m ((k, v) ∷ more) j h =
    lookup-insert_all (insert k v m) more j (ground (h, arith))
    ∙ rw (lookup-insert k j v m) (ground (h, arith))

pub other_names :
    (required ns : List String) (j : String)
    → all (λ k. has required k || has [] k) ns ≡ true
    → has required j ≡ false
    → has ns j ≡ false
other_names required [] j h other = refl
other_names required (k ∷ ns) j h other =
    let rest = other_names required ns j (ground (h, arith)) other in
    elim (Bool-cases (k == j)) [
      | inl same ↦ ground (arith, rw ((eq_iff k j).0 same) at h, other)
      | inr differs ↦ rw (differs) rest
    ]
