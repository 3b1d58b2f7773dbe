-- ===== src/Crm/Responses/Incomplete.antt =====
-- What `attributeResponses` of shared/model/crm.js makes of an incomplete ledger.
use beepa.Prelude.{
  append-again, String, Bool, not, ◌||◌, has, true, false, List, [], ◌∷◌, ◌++◌, All, is_some,
  lookup, ◌≡◌, refl, sym, ap, ◌∙◌, inl, inr, Bool-cases,
}
use mathlib.Core.Path.{subst}
use beepa.Js.{Value, bool}
use beepa.Crm.Checked.{fine, bind-fine, need-fine, fine-fine}
use beepa.Crm.Canonical.{Host, insert_sorted, sort_by_text, text_before}
use beepa.Crm.Format.{with_field}
use beepa.Crm.Manifest.{fold_checked}
use beepa.Crm.Seen.{copy-fine}
use beepa.Crm.Responses.{
  Message, Links, Attribution, answer_group, keep_previous, with_previous, all_links,
  attribute_responses, values_of,
}

-- A property of the links, kept by sorting and by forgetting the keys.
module _ (P : Value → Type 0) where
  abbrev pub OnLink : String × Value → Type 0
  OnLink e = P e.1

  All-insert :
      (k : String) (v : Value) (m : List (String × Value))
      → P v
      → All OnLink m
      → All OnLink (insert_sorted k v m)
  unfolding insert_sorted
  All-insert k v [] h all = (h, tt)
  All-insert k v ((j, u) ∷ m) h (one, all) = elim (Bool-cases (text_before k j)) [
    | inl first ↦ rw (insert_sorted, first) (h, (one, all))
    | inr later ↦ rw (insert_sorted, later) (one, All-insert k v m h all)
  ]

  pub All-sort : (m : List (String × Value)) → All OnLink m → All OnLink (sort_by_text m)
  unfolding sort_by_text
  All-sort [] all = tt
  All-sort ((k, v) ∷ m) (h, all) = All-insert k v (sort_by_text m) h (All-sort m all)

  pub All-last :
      (m : List (String × Value)) (k : String) (v : Value)
      → All OnLink m
      → P v
      → All OnLink (m ++ ((k, v) ∷ []))
  All-last [] k v all h = (h, tt)
  All-last (e ∷ m) k v (one, all) h = (one, All-last m k v all h)

  pub All-values :
      (host : Host) (m : List (String × Value)) → All OnLink m → All P (values_of host m)
  All-values host [] all = tt
  All-values host (e ∷ m) (h, all) = (h, All-values host m all)

-- The link is one of the previous ones, marked as reconciling.
abbrev pub IsKept : List Value → Value → Type 0
IsKept previous l =
    (old : Value) × (front : List Value) × (back : List Value) × (previous ≡ front ++ (old ∷ back))
    × (with_field old "reconciling" (bool true) ≡ l)

module _ (host : Host) where
  answer_group-links :
      (acc next : Links) (group : String × List Message)
      → answer_group host false acc group ≡ fine next
      → next.links ≡ acc.links
  unfolding answer_group
  answer_group-links acc next (scope, messages) h =
      let (keys, made, h1) = bind-fine _ _ _ h in
      sym (ap (λ (l : Links). l.links) (fine-fine _ _ h1))

  fold-links :
      (groups : List (String × List Message)) (acc last : Links)
      → fold_checked (answer_group host false) acc groups ≡ fine last
      → last.links ≡ acc.links
  fold-links [] acc last h = sym (ap (λ (l : Links). l.links) (fine-fine _ _ h))
  fold-links (g ∷ groups) acc last h =
      let (next, step, rest) = bind-fine _ _ _ h in
      fold-links groups next last rest ∙ answer_group-links acc next g step

  with_previous-Kept :
      (P : Value → Type 0) (links more : List (String × Value)) (key : String) (old : Value)
      → P (with_field old "reconciling" (bool true))
      → All (OnLink P) links
      → with_previous host links key old ≡ fine more
      → All (OnLink P) more
  unfolding with_previous
  with_previous-Kept P links more key old good all h =
      elim (Bool-cases (is_some (lookup key links))) [
        | inl held ↦ subst (All (OnLink P)) (fine-fine _ _ (rw (with_previous, held) at h)) all
        | inr new ↦
            let (copied, made, h1) = bind-fine _ _ _ (rw (with_previous, new) at h) in
            subst (All (OnLink P)) (fine-fine _ _ h1) (
              All-last P links key (with_field copied "reconciling" (bool true)) all
                (rw (sym (copy-fine host old copied made)) good))
      ]

  pub keep_previous-Kept :
      (P : Value → Type 0) (complete : Bool) (pending_keys : List String) (acc next : Links)
      (old : Value)
      → P (with_field old "reconciling" (bool true))
      → All (OnLink P) acc.links
      → keep_previous host complete pending_keys acc old ≡ fine next
      → All (OnLink P) next.links
  unfolding keep_previous
  keep_previous-Kept P complete pending_keys acc next old good all h =
      let (scope, _, h1) = bind-fine _ _ _ h in
      let (key, _, h2) = bind-fine _ _ _ h1 in
      elim (Bool-cases (not complete || has acc.blocked_scopes scope || has pending_keys key)) [
        | inr left ↦
            subst (λ (l : Links). All (OnLink P) l.links) (fine-fine _ _ (rw (left) at h2)) all
        | inl retained ↦
            let (links, made, h3) = bind-fine _ _ _ (rw (retained) at h2) in
            subst (λ (l : Links). All (OnLink P) l.links) (fine-fine _ _ h3)
              (with_previous-Kept P acc.links links key old good all made)
      ]

  pub fold-Kept :
      (P : Value → Type 0) (complete : Bool) (pending_keys : List String) (previous : List Value)
      (acc last : Links)
      → All (λ old. P (with_field old "reconciling" (bool true))) previous
      → All (OnLink P) acc.links
      → fold_checked (keep_previous host complete pending_keys) acc previous ≡ fine last
      → All (OnLink P) last.links
  fold-Kept P complete pending_keys [] acc last good all h =
      subst (λ (l : Links). All (OnLink P) l.links) (fine-fine _ _ h) all
  fold-Kept P complete pending_keys (old ∷ previous) acc last (one, good) all h =
      let (next, step, rest) = bind-fine _ _ _ h in
      fold-Kept P complete pending_keys previous next last good
        (keep_previous-Kept P complete pending_keys acc next old one all step) rest

  pub members :
      (all front back : List Value)
      → all ≡ front ++ back
      → All (λ old. IsKept all (with_field old "reconciling" (bool true))) back
  members all front [] same = tt
  members all front (old ∷ back) same = (
    (old, front, back, same, refl),
    members all (front ++ (old ∷ [])) back (same ∙ sym (append-again front old back)),
  )

  all_links-Kept :
      (records previous : List Value) (found : Links)
      → all_links host records previous false ≡ fine found
      → All (OnLink (IsKept previous)) found.links
  unfolding all_links
  all_links-Kept records previous found h =
      let (ledger, _, h1) = bind-fine _ _ _ h in
      let (grouped, _, h2) = bind-fine _ _ _ h1 in
      let (answered, step, h3) = bind-fine _ _ _ h2 in
      let none_yet = fold-links grouped.0 _ answered step in
      fold-Kept (IsKept previous) false answered.pending previous answered found
        (members previous [] previous refl) (rw (none_yet) tt) h3

  -- While the ledger is incomplete no response is attributed: each link of the result is one of the
  -- previous links, marked as reconciling.
  pub attribute_responses-IsKept :
      (records previous : List Value) (a : Attribution)
      → attribute_responses host records previous false ≡ fine a
      → All (IsKept previous) a.links
  unfolding attribute_responses
  attribute_responses-IsKept records previous a h =
      let (_, h1) = need-fine _ _ _ _ h in
      let (found, made, h2) = bind-fine _ _ _ h1 in
      let (before, _, h3) = bind-fine _ _ _ h2 in
      subst (λ (r : Attribution). All (IsKept previous) r.links) (fine-fine _ _ h3)
        (All-values (IsKept previous) host (sort_by_text found.links)
          (All-sort (IsKept previous) found.links (all_links-Kept records previous found made)))
