-- ===== src/Crm/Recipients.antt =====
-- The recipients of a batch that `validateManifest` of shared/model/crm.js lets through.
use beepa.Prelude.{
  String, true, false, not, ◌&&◌, List, [], ◌∷◌, map, has, All, length, ◌≡◌, refl, arith, leb, ltb,
  eq_iff,
}
use beepa.Js.{Value, get, truthy}
use beepa.Crm.Checked.{fine, bind-fine}
use beepa.Crm.Canonical.{Host}
use beepa.Crm.Format.{elements, is_array}
use beepa.Crm.State.{Crm, lists, bindings, memberships, current, entity, membership_key}
use beepa.Crm.Manifest.{
  validate_manifest, crm_max_batch_items, Seen, add_item, fold_checked, manifest_items,
  matches_binding, matches_versions,
}
use beepa.Crm.Format.{text_of}
use beepa.Crm.Ensures.{
  Ensures, Ensures-bind, Ensures-after, Ensures-then, Ensures-need, Ensures-fine,
}
use beepa.Crm.Edits.{current-fine}

abbrev pub person_of : Value → String
person_of item = text_of (get item "person_id")

-- No text stands twice.
abbrev pub AllDifferent : List String → Type 0
AllDifferent [] = Unit
AllDifferent (x ∷ xs) = (has xs x ≡ false) × AllDifferent xs

-- The state lets the item reach its person: through a shared binding of that person and account, with the
-- reviewed contact, and through a membership of the manifest's list that stands and names that binding.
pub record Reaches (state : Crm) (manifest item : Value) : Type 0 where
  pub key : String
  pub is_key : membership_key (get manifest "list_id") (get item "person_id") ≡ fine key
  pub matches :
      matches_binding item
        (entity state bindings (text_of (get item "binding_id")))
        (entity state memberships key)
      ≡ true
  pub versions :
      matches_versions item
        (entity state bindings (text_of (get item "binding_id")))
        (entity state memberships key)
      ≡ true

unseen_split :
    (p : String) (people : List String) (items : List Value)
    → All (λ i. has (p ∷ people) (person_of i) ≡ false) items
    → (has (map person_of items) p ≡ false) × All (λ i. has people (person_of i) ≡ false) items
unseen_split p people [] h = (refl, tt)
unseen_split p people (item ∷ items) (h, hs) =
    let (apart, rest) = unseen_split p people items hs in
    (
      ground (h, apart, eq_iff p (person_of item), eq_iff (person_of item) p, arith),
      (ground (h, arith), rest),
    )

-- What a turn of the loop over the items tells.
pub record Turn (state : Crm) (manifest item : Value) (seen next : Seen) : Type 0 where
  pub reaches : Reaches state manifest item
  pub is_new : has seen.people (person_of item) ≡ false
  pub people : next.people ≡ person_of item ∷ seen.people

module _ (host : Host) (state : Crm) (manifest : Value) (children : List (String × Value)) where
  turned :
      (seen : Seen) (item binding : Value) (key : String) (member : Value)
      → not (has seen.people (person_of item))
          && not (has seen.item_ids (text_of (get item "item_id")))
        ≡ true
      → current state bindings (text_of (get item "binding_id")) (get item "binding_revision")
        ≡ fine binding
      → membership_key (get manifest "list_id") (get item "person_id") ≡ fine key
      → current state memberships key (get item "membership_revision") ≡ fine member
      → matches_binding item binding member ≡ true
      → matches_versions item binding member ≡ true
      → Turn state manifest item seen (record {
        people = person_of item ∷ seen.people;
        item_ids = text_of (get item "item_id") ∷ seen.item_ids;
      })
  turned seen item binding key member new b k m matches versions =
      let (bound, _, _) = current-fine state bindings _ _ binding b in
      let (joined, _, _) = current-fine state memberships key _ member m in
      record {
        reaches = record {
          key = key;
          is_key = k;
          matches = rw (bound, joined) matches;
          versions = rw (bound, joined) versions;
        };
        is_new = ground (new, arith);
        people = refl;
      }

  add_item-Turn :
      (seen : Seen) (item : Value)
      → Ensures (Turn state manifest item seen) (add_item host state manifest children seen item)
  unfolding add_item
  add_item-Turn seen item = Ensures-then _ _ (
      Ensures-then _ _ (
        Ensures-then _ _ (
          Ensures-need _ _ _ λ fresh. Ensures-bind _ _ λ binding b. Ensures-bind _ _ λ key k.
            Ensures-bind _ _ λ member m. Ensures-need _ _ _ λ matches.
              Ensures-need _ _ _ λ versions. Ensures-then _ _ (
                Ensures-then _ _ (
                  Ensures-then _ _ (
                    Ensures-then _ _ (
                      Ensures-then _ _ (
                        Ensures-fine _
                          (turned seen item binding key member fresh b k m matches versions)))))))))

  -- The loop from what it has seen.
  fold-AllDifferent :
      (items : List Value) (seen last : Seen)
      → fold_checked (add_item host state manifest children) seen items ≡ fine last
      → AllDifferent (map person_of items)
        × All (λ i. has seen.people (person_of i) ≡ false) items
        × All (Reaches state manifest) items
  fold-AllDifferent [] seen last h = (tt, tt, tt)
  fold-AllDifferent (item ∷ items) seen last h =
      let (next, one, rest) = bind-fine _ _ _ h in
      let turn = (add_item-Turn seen item).holds next one in
      let (different, unseen, reach) = fold-AllDifferent items next last rest in
      let (apart, old) =
        unseen_split (person_of item) seen.people items (rw (turn.people) at unseen) in
      ((apart, different), (turn.is_new, old), (turn.reaches, reach))

-- What the manifest of a batch says of its recipients.
pub record Addressed (state : Crm) (manifest : Value) : Type 0 where
  pub recipients_differ : AllDifferent (map person_of (elements (get manifest "items")))
  pub reached : All (Reaches state manifest) (elements (get manifest "items"))
  pub some_items : ltb 0 (length (elements (get manifest "items"))) ≡ true
  pub few_items : leb (length (elements (get manifest "items"))) 50 ≡ true
  pub list_open :
      truthy (get (entity state lists (text_of (get manifest "list_id"))) "archived") ≡ false

module _ (host : Host) (state : Crm) (manifest : Value) where
  addressed :
      (list : Value) (by_id : List (String × Value)) (seen : Seen)
      → current state lists (text_of (get manifest "list_id")) (get manifest "list_revision")
        ≡ fine list
      → not (truthy (get list "archived")) ≡ true
      → is_array (get manifest "items")
          && ltb 0 (length (elements (get manifest "items")))
          && leb (length (elements (get manifest "items"))) crm_max_batch_items
        ≡ true
      → fold_checked
          (add_item host state manifest by_id)
          (record { people = []; item_ids = [] })
          (elements (get manifest "items"))
        ≡ fine seen
      → Addressed state manifest
  addressed list by_id seen l opened size s =
      let (different, _, reach) =
        fold-AllDifferent host state manifest by_id (elements (get manifest "items"))
          (record { people = []; item_ids = [] }) seen s in
      let (found, _, _) = current-fine state lists _ _ list l in
      record {
        recipients_differ = different;
        reached = reach;
        some_items = ground (size, arith);
        few_items = ground (size, arith);
        list_open = rw (found) (ground (opened, arith));
      }

  manifest_items-Addressed :
      Ensures (λ _. Addressed state manifest) (manifest_items host state manifest)
  unfolding manifest_items
  manifest_items-Addressed = Ensures-then _ _ (
      Ensures-then _ _ (
        Ensures-then _ _ (
          Ensures-then _ _ (
            Ensures-bind _ _ λ list l. Ensures-need _ _ _ λ opened. Ensures-need _ _ _ λ size.
              Ensures-then _ _ (
                Ensures-after _ _ λ by_id. Ensures-after _ _ λ accounts. Ensures-bind _ _ λ seen s.
                  Ensures-then _ _ (Ensures-fine _ (addressed list by_id seen l opened size s)))))))

  -- What `validateManifest` lets through addresses each person once, each through a shared binding and a
  -- membership of the manifest's list that stands, and has 1 to 50 items for a list that is not archived.
  pub validate_manifest-Addressed :
      validate_manifest host state manifest ≡ fine tt → Addressed state manifest
  unfolding validate_manifest
  validate_manifest-Addressed h =
      let (seen, items, _) = bind-fine _ _ _ h in manifest_items-Addressed.holds seen items
