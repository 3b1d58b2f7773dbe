-- ===== src/Crm/Batches/Made.antt =====
-- The batches that `createReviewedBatch` of shared/model/crm.js returns.
use beepa.Prelude.{
  ℕ, String, true, List, [], ◌∷◌, ◌++◌, All, ◌≡◌, refl, sym, arith, inl, inr, ◌==◌, eq_refl, eq_iff,
  lookup, insert, get_or, leb, ◌-◌, Bool-cases,
}
use mathlib.Core.Path.{subst}
use beepa.Js.{Value, str, obj, items, of_items, of_entries, get, items-of_items}
use beepa.Crm.Checked.{Checked, fine, refused, ◌>>=◌, ◌>>◌, need, bind-fine, need-fine, fine-fine}
use beepa.Crm.Canonical.{Host, canonical, bounded, utf8_length, crm_max_bytes}
use beepa.Crm.State.{Crm, lists, memberships, entity, entity_at}
use beepa.Crm.Manifest.{fold_checked, validate_manifest}
use beepa.Crm.Members.{without_field}
use beepa.Crm.Ensures.{Ensures, Ensures-bind, Ensures-then, Ensures-fine}
use beepa.Crm.Verified.{digest, account_child_id, verify, verify_children, verify_reviewed_batch}
use beepa.Crm.Batches.{
  Wanted, Group, Draft, group_values, group_with, add_input, payload_entries, sealed,
  create_reviewed_batch, binding_of, epoch_of,
}

module _ (host : Host) (hash : String → String) (batch : Value) where
  -- The child id of each group is that of its account.
  abbrev Derived : String × Group → Type 0
  Derived (k, g) =
      (account_child_id host hash batch g.owner_mxid g.generation ≡ fine k) × (g.child_id ≡ k)

  insert-Derived :
      (k : String) (g : Group) (groups : List (String × Group))
      → Derived (k, g)
      → All Derived groups
      → All Derived (insert k g groups)
  insert-Derived k g [] new old = (new, tt)
  insert-Derived k g ((j, h) ∷ groups) new (one, old) = elim (Bool-cases (j == k)) [
    | inl same ↦ rw (same) (new, old)
    | inr other ↦ rw (other) (one, insert-Derived k g groups new old)
  ]

  lookup-Derived :
      (k : String) (new : Group) (groups : List (String × Group))
      → Derived (k, new)
      → All Derived groups
      → Derived (k, get_or (lookup k groups) new)
  lookup-Derived k new [] made old = made
  lookup-Derived k new ((j, h) ∷ groups) made (one, old) = elim (Bool-cases (j == k)) [
    | inl same ↦ rw (same) (rw ((eq_iff j k).0 same) at one)
    | inr other ↦ rw (other) (lookup-Derived k new groups made old)
  ]

  group_with-Derived :
      (groups : List (String × Group)) (k : String) (binding epoch input : Value)
      → account_child_id host hash batch (get binding "owner_mxid") (get binding "generation")
        ≡ fine k
      → All Derived groups
      → Ensures (All Derived) (group_with groups k binding epoch input)
  unfolding group_with
  group_with-Derived groups k binding epoch input made old =
      Ensures-then _ _ (
        Ensures-fine _ (insert-Derived k _ groups (lookup-Derived k _ groups (made, refl) old) old))

  verify-Derived :
      (groups : List (String × Group))
      → All Derived groups
      → verify_children host hash batch (group_values groups) ≡ fine true
  unfolding verify_children ◌>>=◌
  verify-Derived [] all = refl
  verify-Derived ((k, g) ∷ groups) ((made, named), all) =
      rw (verify_children, made, named, eq_refl k, verify-Derived groups all) refl

  add_input-Derived :
      (state : Crm) (wanted : Wanted) (draft : Draft) (input : Value)
      → wanted.batch_id ≡ batch
      → All Derived draft.groups
      → Ensures
          (λ (next : Draft). All Derived next.groups)
          (add_input host hash state wanted draft input)
  unfolding add_input
  add_input-Derived state wanted draft input named old = Ensures-then _ _ (
      Ensures-bind _ _ λ key _. Ensures-then _ _ (
        Ensures-bind _ _ λ child_id made. Ensures-then _ _ (
          Ensures-then _ _ (
            Ensures-bind _ _ λ groups grouped. Ensures-bind _ _ λ reviewed _. Ensures-fine _ (
              (group_with-Derived draft.groups child_id
                  (binding_of state (entity state memberships key))
                  (epoch_of (entity state memberships key) input) input (rw (named) at made)
                  old).holds
                groups grouped)))))

  fold-Derived :
      (state : Crm) (wanted : Wanted) (inputs : List Value) (draft last : Draft)
      → wanted.batch_id ≡ batch
      → All Derived draft.groups
      → fold_checked (add_input host hash state wanted) draft inputs ≡ fine last
      → All Derived last.groups
  fold-Derived state wanted [] draft last named old h =
      subst (λ (d : Draft). All Derived d.groups) (fine-fine _ _ h) old
  fold-Derived state wanted (i ∷ inputs) draft last named old h =
      let (next, step, rest) = bind-fine _ _ _ h in
      fold-Derived state wanted inputs next last named
        ((add_input-Derived state wanted draft i named old).holds next step) rest

pub then-fine :
    {B : Type 0} (m : Checked (Unit {0})) (k : Checked B) (b : B)
    → (m >> k) ≡ fine b
    → (m ≡ fine tt) × (k ≡ fine b)
unfolding ◌>>◌ ◌>>=◌
then-fine (fine tt) k b h = (refl, h)
then-fine (refused code) k b h = ground (h, arith)

leb_more : (n : ℕ) → leb n (crm_max_bytes - 1000) ≡ true → leb n crm_max_bytes ≡ true
leb_more n h = ground (h, arith)

bounded-short :
    (host : Host) (v : Value) (text : String)
    → canonical host v ≡ fine text
    → leb (utf8_length text) (crm_max_bytes - 1000) ≡ true
    → bounded host v ≡ fine text
unfolding bounded ◌>>=◌ ◌>>◌ need
bounded-short host v text written short =
    rw (bounded, written, leb_more (utf8_length text) short) refl

module _ (host : Host) (hash : String → String) where
  verified :
      (state : Crm) (wanted : Wanted) (list : Value) (draft : Draft) (payload_hash text : String)
      → let payload = payload_entries state wanted list draft in
        let manifest = obj (of_entries (payload ++ (("payload_hash", str payload_hash) ∷ []))) in
        digest host hash (obj (of_entries payload)) ≡ fine payload_hash
        → canonical host manifest ≡ fine text
        → leb (utf8_length text) (crm_max_bytes - 1000) ≡ true
        → verify_children host hash wanted.batch_id (items (of_items (group_values draft.groups)))
          ≡ fine true
        → verify_reviewed_batch host hash manifest ≡ true
  unfolding verify_reviewed_batch without_field ◌>>=◌ ◌>>◌ need
  verified state wanted list draft payload_hash text hashed written short children =
      rw
        (
          verify_reviewed_batch,
          verify,
          bounded-short host _ text written short,
          hashed,
          eq_refl payload_hash,
          children,
        )
        refl

  sealed-Verified :
      (state : Crm) (wanted : Wanted) (list : Value) (draft : Draft) (manifest : Value)
      → All (Derived host hash wanted.batch_id) draft.groups
      → sealed host hash state (payload_entries state wanted list draft) ≡ fine manifest
      → (verify_reviewed_batch host hash manifest ≡ true)
        × (validate_manifest host state manifest ≡ fine tt)
  unfolding sealed
  sealed-Verified state wanted list draft manifest derived h =
      let (payload_hash, hashed, h1) = bind-fine _ _ _ h in
      let (valid, h2) = then-fine _ _ _ h1 in
      let (text, written, h3) = bind-fine _ _ _ h2 in
      let (short, h4) = need-fine _ _ _ _ h3 in
      let payload = payload_entries state wanted list draft in
      rw (sym (fine-fine _ _ h4)) (
        verified state wanted list draft payload_hash text hashed written short (
            rw (items-of_items (group_values draft.groups))
              (verify-Derived host hash wanted.batch_id draft.groups derived)),
        valid,
      )

  -- A batch that `createReviewedBatch` returns passes both tests that an operation with a batch has to
  -- pass: `verifyReviewedBatch`, and `validateManifest` in the state that the batch was made for.
  pub create_reviewed_batch-Verified :
      (state : Crm) (wanted : Wanted) (manifest : Value)
      → create_reviewed_batch host hash state wanted ≡ fine manifest
      → (verify_reviewed_batch host hash manifest ≡ true)
        × (validate_manifest host state manifest ≡ fine tt)
  unfolding create_reviewed_batch
  create_reviewed_batch-Verified state wanted manifest h =
      let (_, h1) = need-fine _ _ _ _ h in
      let (_, h2) = need-fine _ _ _ _ h1 in
      let (draft, folded, h3) = bind-fine _ _ _ h2 in
      sealed-Verified state wanted (entity_at state lists wanted.list_id) draft manifest
        (fold-Derived host hash wanted.batch_id state wanted _ _ draft refl tt folded) h3
