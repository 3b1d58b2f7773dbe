-- ===== src/Contacts/Handles/Holder.antt =====
-- Which profile holds a handle after the changes of handles.
use beepa.Prelude.{
  String, true, false, none, some, List, [], ◌∷◌, ◌++◌, ◌≡◌, refl, ◌∙◌, arith, any, keep, not,
  eq_iff, eq_refl, Bool-cases, inl, inr, ◌||◌, if◌then◌else◌,
}
use beepa.Js.{Value, str}
use beepa.Contacts.Profile.{Handle, Profile, is_named}
use beepa.Contacts.Rooms.{has_id}
use beepa.Contacts.Handles.{
  same_handle, holder, drop_handle, push_handle, normalize_list, link_handle, unlink_handle,
  handle_owner,
}

any-drop :
    (k j : Handle) (hs : List Handle)
    → any (same_handle j) (keep (λ h. not (same_handle k h)) hs)
      ≡ (if same_handle k j then false else any (same_handle j) hs)
any-drop k j [] = ground arith
any-drop k j (h ∷ hs) = ground (
  arith,
  any-drop k j hs,
  eq_iff h.source k.source,
  eq_iff h.network_id k.network_id,
  eq_iff h.source j.source,
  eq_iff h.network_id j.network_id,
  eq_iff j.source k.source,
  eq_iff j.network_id k.network_id,
)

any-snoc :
    (j k : Handle) (hs : List Handle)
    → any (same_handle j) (hs ++ k ∷ []) ≡ (any (same_handle j) hs || same_handle j k)
any-snoc j k [] = ground arith
any-snoc j k (h ∷ hs) = ground (arith, any-snoc j k hs)

same_handle-sym : (j k : Handle) → same_handle j k ≡ same_handle k j
same_handle-sym j k = ground (
  arith,
  eq_iff j.source k.source,
  eq_iff k.source j.source,
  eq_iff j.network_id k.network_id,
  eq_iff k.network_id j.network_id,
)

same_handle_refl : (k : Handle) → same_handle k k ≡ true
same_handle_refl k = rw (eq_refl k.source, eq_refl k.network_id) refl

holder-drop_handle :
    (k j : Handle) (ps : List Profile)
    → holder j (drop_handle k ps) ≡ (if same_handle k j then none else holder j ps)
unfolding drop_handle holder
holder-drop_handle k j [] = ground arith
holder-drop_handle k j (p ∷ ps) =
    ground (arith, any-drop k j p.handle_ids, holder-drop_handle k j ps)

holder-push_handle_ne :
    (id : String) (k j : Handle) (ps : List Profile)
    → same_handle k j ≡ false
    → holder j (push_handle id k ps) ≡ holder j ps
unfolding push_handle holder
holder-push_handle_ne id k j [] h = refl
holder-push_handle_ne id k j (p ∷ ps) h =
    ground (arith, any-snoc j k p.handle_ids, same_handle-sym j k, holder-push_handle_ne id k j ps)

holder-push_handle_self :
    (id : String) (k j : Handle) (ps : List Profile)
    → any (has_id id) ps ≡ true
    → same_handle k j ≡ true
    → holder j ps ≡ none
    → holder j (push_handle id k ps) ≡ some id
unfolding push_handle holder
holder-push_handle_self id k j [] h s o = cc
holder-push_handle_self id k j (p ∷ ps) h s o = ground (
  arith,
  any-snoc j k p.handle_ids,
  same_handle-sym j k,
  eq_iff p.id id,
  holder-push_handle_self id k j ps,
)

any_id-drop_handle :
    (id : String) (k : Handle) (ps : List Profile)
    → any (has_id id) (drop_handle k ps) ≡ any (has_id id) ps
unfolding drop_handle
any_id-drop_handle id k [] = refl
any_id-drop_handle id k (p ∷ ps) = ground (arith, any_id-drop_handle id k ps)

holder-relink :
    (id : String) (k j : Handle) (ps : List Profile)
    → any (has_id id) ps ≡ true
    → holder j (push_handle id k (drop_handle k ps))
      ≡ (if same_handle k j then some id else holder j ps)
holder-relink id k j ps found = elim (Bool-cases (same_handle k j)) [
  | inl same ↦ rw (same) (
      holder-push_handle_self id k j (drop_handle k ps) (any_id-drop_handle id k ps ∙ found) same
        (holder-drop_handle k j ps ∙ rw (same) refl))
  | inr differ ↦ rw (differ) (
      holder-push_handle_ne id k j (drop_handle k ps) differ
      ∙ holder-drop_handle k j ps
      ∙ rw (differ) refl)
]

-- Linking a handle with both parts to a profile that exists gives the handle to that profile, and
-- leaves every other handle where it was; unlinking leaves the handle with no profile.
pub holder-link_handle :
    (server id : String) (profiles : Value) (k j : Handle)
    → any (has_id id) (normalize_list server profiles) ≡ true
    → is_named k ≡ true
    → (holder j (link_handle server profiles id (str k.source) (str k.network_id))
        ≡ (if same_handle k j then some id else handle_owner server profiles j))
      × (holder j (unlink_handle server profiles k)
          ≡ (if same_handle k j then none else handle_owner server profiles j))
unfolding link_handle unlink_handle handle_owner
holder-link_handle server id profiles k j found named = (
  rw (found, named) (holder-relink id k j (normalize_list server profiles) found),
  holder-drop_handle k j (normalize_list server profiles),
)
