-- ===== src/Crm/Seen.antt =====
-- The read marks that `list.seen` of shared/model/crm.js writes.
use beepa.Prelude.{
  ℕ, suc, String, Bool, true, false, ◌&&◌, ◌≤◌, ◌≡◌, ◌⊎◌, sym, arith, Bool-cases, inl, inr,
}
use beepa.Js.{Value, get, truthy}
use beepa.Crm.Checked.{fine, bind-fine, fine-fine}
use beepa.Crm.Canonical.{Host, canonical, copy}
use beepa.Crm.Format.{with_field}
use beepa.Crm.State.{Crm, lists, entity}
use beepa.Crm.Manifest.{same_field}
use beepa.Crm.Format.{text_of}
use beepa.Crm.People.{revision_value}
use beepa.Crm.Lists.{current_list, edit_list}
use beepa.Crm.Timers.{list_seen, seen_advances, big_int}
use beepa.Crm.Ensures.{Ensures, Ensures-bind, Ensures-then, Ensures-need, Ensures-fine}
use beepa.Crm.Edits.{current-fine, entity-set_entity, get-with_field, get-with_field_same}

pub copy-fine : (host : Host) (v w : Value) → copy host v ≡ fine w → v ≡ w
unfolding copy
copy-fine host v w h = let (text, _, last) = bind-fine _ _ _ h in fine-fine _ _ last

copy-canonical :
    (host : Host) (v w : Value) → copy host v ≡ fine w → (t : String) × (canonical host v ≡ fine t)
unfolding copy
copy-canonical host v w h = let (text, e, _) = bind-fine _ _ _ h in (text, e)

abbrev pub mark : Crm → String → Value → Value
mark state e p = get (get (entity state lists e) "seen") (text_of (get p "room_id"))

-- Both marks are of one owner, bridge epoch and generation.
abbrev pub is_same_line : Value → Value → Bool
is_same_line before p =
    truthy before
    && same_field "owner_mxid" before p
    && same_field "bridge_epoch" before p
    && same_field "generation" before p

order :
    (before p : Value)
    → seen_advances before p ≡ true
    → (is_same_line before p ≡ false)
      ⊎ (big_int (get before "source_order") ≤ big_int (get p "source_order"))
unfolding seen_advances
order before p h = elim (Bool-cases (is_same_line before p)) [
  | inr other ↦ inl other
  | inl line ↦ inr (ground (arith, h, line))
]

module _ (host : Host) (state : Crm) (e : String) (b : ℕ) (p : Value) where
  abbrev pub Advances : Crm → Type 0
  Advances next =
      (mark next e p ≡ p)
      × (seen_advances (mark state e p) p ≡ true)
      × (t : String) × (canonical host p ≡ fine t)

  marked :
      (old q : Value)
      → current_list host state e b p ≡ fine old
      → copy host p ≡ fine q
      → seen_advances (get (get old "seen") (text_of (get p "room_id"))) p ≡ true
      → Advances (
          edit_list host state e b p old "seen"
            (with_field (get old "seen") (text_of (get p "room_id")) q))
  marked old q h c ok =
      let room_id = text_of (get p "room_id") in
      let list = with_field old "seen" (with_field (get old "seen") room_id q) in
      let (found, _, _) = current-fine state lists e (revision_value b) old h in
      let (t, text) = copy-canonical host p q c in
      (
        rw
            (
              entity-set_entity state lists e (with_field list "revision" (revision_value (suc b))),
              get-with_field list "revision" "seen" (revision_value (suc b)),
              get-with_field_same old "seen" (with_field (get old "seen") room_id q),
              get-with_field_same (get old "seen") room_id q,
            )
            (sym (copy-fine host p q c)),
        rw (found) ok,
        t,
        text,
      )

  list_seen-Advances : Ensures Advances (list_seen host state e b p)
  unfolding list_seen
  list_seen-Advances = Ensures-then _ _ (
      Ensures-bind _ _ λ old h. Ensures-then _ _ (
        Ensures-then _ _ (
          Ensures-then _ _ (
            Ensures-then _ _ (
              Ensures-need _ _ _
                λ ok. Ensures-bind _ _ λ q c. Ensures-fine _ (marked old q h c ok))))))

  -- After an accepted `list.seen` the mark of the room has the same canonical text as the payload of the
  -- operation, whether or not there was a mark before; and if there was one of the same owner, bridge
  -- epoch and generation, its place in the source's order is not after that of the new one.
  pub list_seen-order :
      (next : Crm)
      → list_seen host state e b p ≡ fine next
      → ((t : String) × (canonical host p ≡ fine t) × (canonical host (mark next e p) ≡ fine t))
        × ((is_same_line (mark state e p) p ≡ false)
            ⊎ (big_int (get (mark state e p) "source_order")
                ≤ big_int (get (mark next e p) "source_order")))
  list_seen-order next h =
      let (marked, advances, t, text) = list_seen-Advances.holds next h in
      ((t, text, rw (marked) text), rw (marked) (order (mark state e p) p advances))
