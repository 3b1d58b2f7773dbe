-- ===== src/Crm/Links/Once.antt =====
-- That the operations of shared/model/crm.js link a contact of an account at most once.
use beepa.Prelude.{
  ℕ, suc, String, true, false, some, List, [], ◌∷◌, has, ◌≡◌, ◌≢◌, ◌⊎◌, refl, sym, ap, ◌∙◌, arith,
  ◌==◌, lookup, insert, lookup-insert, eq_iff, eq_refl, Bool-cases, inl, inr,
}
use beepa.Js.{Value, str, get}
use beepa.Crm.Checked.{fine, ◌>>=◌}
use beepa.Crm.Canonical.{Host, canonical}
use beepa.Crm.Format.{with_field, spread, mxid, bounded_identity, generation, has_keys}
use beepa.Crm.State.{Crm, bindings, some_checked, all_values}
use beepa.Crm.People.{revision_value, links_contact, binding_create, binding_update}
use beepa.Crm.Ensures.{Ensures, Ensures-bind, Ensures-then, Ensures-need, Ensures-fine}
use beepa.Crm.Links.Fields.{
  get-with_field_other, get-spread_other, other_fields, identity_self, generation_self,
}
use beepa.Crm.Seen.{copy-fine}
use beepa.Crm.Replay.{Checked-cases}
use beepa.Crm.Links.{SameLink, LinkedOnce, some_checked-none, lookup-All, current-own}

SameLink-sym : {host : Host} {a b : Value} → SameLink host a b → SameLink host b a
SameLink-sym h = record {
  owner = sym h.owner;
  generation = sym h.generation;
  contact = sym h.contact;
}

SameLink-trans :
    {host : Host} {a b c : Value} → SameLink host a b → SameLink host b c → SameLink host a c
SameLink-trans h g = record {
  owner = h.owner ∙ g.owner;
  generation = h.generation ∙ g.generation;
  contact = h.contact ∙ g.contact;
}

insert-cases :
    (m : List (String × Value)) (e i : String) (new a : Value)
    → lookup i (insert e new m) ≡ some a
    → ((e ≡ i) × (new ≡ a)) ⊎ (lookup i m ≡ some a)
insert-cases m e i new a h =
    let split = rw (lookup-insert e i new m) at h in
    elim (Bool-cases (e == i)) [
      | inl same ↦ inl ((eq_iff e i).0 same, ground (arith, rw (same) at split))
      | inr other ↦ inr (rw (other) at split)
    ]

-- A binding of a new link.
add-LinkedOnce :
    (host : Host) (m : List (String × Value)) (e : String) (new : Value)
    → LinkedOnce host m
    → ((k : String) (c : Value) → lookup k m ≡ some c → SameLink host c new → true ≡ false)
    → LinkedOnce host (insert e new m)
add-LinkedOnce host m e new once unlinked i j a b f g same = elim (insert-cases m e i new a f) [
  | inl (at_i, is_a) ↦ elim (insert-cases m e j new b g) [
    | inl (at_j, is_b) ↦ sym at_i ∙ at_j
    | inr old ↦ ground (arith, unlinked j b old (rw (is_a) (SameLink-sym same)))
  ]
  | inr old ↦ elim (insert-cases m e j new b g) [
    | inl (at_j, is_b) ↦ ground (arith, unlinked i a old (rw (is_b) same))
    | inr older ↦ once i j a b old older same
  ]
]

-- A binding that keeps its link.
replace-LinkedOnce :
    (host : Host) (m : List (String × Value)) (e : String) (old new : Value)
    → LinkedOnce host m
    → lookup e m ≡ some old
    → SameLink host new old
    → LinkedOnce host (insert e new m)
replace-LinkedOnce host m e old new once is_old kept i j a b f g same =
    elim (insert-cases m e i new a f) [
      | inl (at_i, is_a) ↦ elim (insert-cases m e j new b g) [
        | inl (at_j, is_b) ↦ sym at_i ∙ at_j
        | inr found ↦
            sym at_i
            ∙ once e j old b is_old found (SameLink-trans (SameLink-sym kept) (rw (is_a) same))
      ]
      | inr found ↦ elim (insert-cases m e j new b g) [
        | inl (at_j, is_b) ↦
            once i e a old found is_old (SameLink-trans (rw (is_b) same) kept) ∙ at_j
        | inr older ↦ once i j a b found older same
      ]
    ]

module _ (host : Host) where
  same_text :
      (v : Value) → (canonical host v >>= λ x. canonical host v >>= λ y. fine (x == y)) ≢ fine false
  unfolding ◌>>=◌
  same_text v h = elim (Checked-cases (canonical host v)) [
    | inl (t, e) ↦ ground (arith, rw (e, eq_refl t) at h)
    | inr (c, e) ↦ ground (arith, rw (e) at h)
  ]

module _ (host : Host) (state : Crm) (e : String) (b : ℕ) (p : Value) where
  abbrev pub OnceMore : Crm → Type 0
  OnceMore next =
      LinkedOnce host (state.entities bindings) → LinkedOnce host (next.entities bindings)

  -- What the loop over the bindings excludes.
  unlinked :
      bounded_identity mxid (get p "owner_mxid") ≡ true
      → generation (get p "generation") ≡ true
      → some_checked (links_contact host state e b p) (all_values state bindings) ≡ fine false
      → (k : String) (c : Value) → lookup k (state.entities bindings) ≡ some c
      → SameLink host c p
      → true ≡ false
  unlinked owner gen none_links k c is_c same =
      let tests =
        some_checked-none (links_contact host state e b p) (all_values state bindings) none_links in
      let test =
        lookup-All (λ v. links_contact host state e b p v ≡ fine false) (state.entities bindings) k
          c tests is_c in
      let own =
        rw
          (
            same.owner,
            same.generation,
            same.contact,
            identity_self (get p "owner_mxid") owner,
            generation_self (get p "generation") gen,
          )
          at test in
      ground (arith, same_text host (get p "contact") own)

  abbrev created : Value → Value
  created q =
      with_field (with_field (with_field q "binding_id" (str e)) "availability" (str "shared"))
        "revision" (revision_value 1)

  created-SameLink : (q : Value) → p ≡ q → SameLink host (created q) p
  created-SameLink q same = record {
    owner = field "owner_mxid" refl refl refl;
    generation = field "generation" refl refl refl;
    contact = ap (canonical host) (field "contact" refl refl refl);
  }
    where
      field :
          (k : String)
          → "binding_id" == k ≡ false
          → "availability" == k ≡ false
          → "revision" == k ≡ false
          → get (created q) k ≡ get p k
      field k one two three =
          get-with_field_other
            (with_field (with_field q "binding_id" (str e)) "availability" (str "shared"))
            "revision" k (revision_value 1) three
          ∙ get-with_field_other (with_field q "binding_id" (str e)) "availability" k (str "shared")
              two
          ∙ get-with_field_other q "binding_id" k (str e) one
          ∙ ap (λ v. get v k) (sym same)

  updated-SameLink :
      (old q : Value)
      → has_keys p ("contact_version" ∷ "availability" ∷ []) [] ≡ true
      → p ≡ q
      → SameLink host (with_field (spread old q) "revision" (revision_value (suc b))) old
  updated-SameLink old q keys_ok same = record {
    owner = field "owner_mxid" refl refl;
    generation = field "generation" refl refl;
    contact = ap (canonical host) (field "contact" refl refl);
  }
    where
      field :
          (k : String)
          → "revision" == k ≡ false
          → has ("contact_version" ∷ "availability" ∷ []) k ≡ false
          → get (with_field (spread old q) "revision" (revision_value (suc b))) k ≡ get old k
      field k one other =
          get-with_field_other (spread old q) "revision" k (revision_value (suc b)) one
          ∙ get-spread_other old q k (
              rw (sym same)
                (other_fields p ("contact_version" ∷ "availability" ∷ []) k keys_ok other))

  pub binding_create-OnceMore : Ensures OnceMore (binding_create host state e b p)
  unfolding binding_create
  binding_create-OnceMore = Ensures-then _ _ (
      Ensures-need _ _ _ λ valid. Ensures-then _ _ (
        Ensures-then _ _ (
          Ensures-bind _ _ λ linked none_links. Ensures-need _ _ _ λ is_new. Ensures-bind _ _ λ q c.
            Ensures-fine _ λ once.
              add-LinkedOnce host (state.entities bindings) e (created q) once λ k old is_old same.
                unlinked (ground (valid, arith)) (ground (valid, arith))
                  (none_links ∙ ap fine (ground (is_new, arith))) k old is_old
                  (SameLink-trans same (created-SameLink q (copy-fine host p q c))))))

  pub binding_update-OnceMore : Ensures OnceMore (binding_update host state e b p)
  unfolding binding_update
  binding_update-OnceMore = Ensures-need _ _ _ λ fields. Ensures-then _ _ (
      Ensures-bind _ _ λ old current_old. Ensures-then _ _ (
        Ensures-bind _ _ λ q c. Ensures-fine _ λ once.
          replace-LinkedOnce host (state.entities bindings) e old _ once
            (current-own state bindings e b old current_old)
            (updated-SameLink old q fields (copy-fine host p q c))))
