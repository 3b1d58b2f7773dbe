-- ===== src/Receipts/Evidence.antt =====
-- What `mergeReceipts` of shared/model/message_receipts.js gathers for one message.
use beepa.Prelude.{
  String, not, ◌&&◌, ◌||◌, Option, some, List, [], ◌∷◌, ◌≡◌, refl, ap, ◌∙◌, ◌≤◌, ◌-◌, arith, any,
  lookup, insert, lookup-insert, get_or, ◌==◌, eq_iff, length, Bool-cases, inl, inr, if◌then◌else◌,
}
use beepa.Js.{Value}
use beepa.Receipts.{
  Receipt, no_receipt, is_message_id, combine, Receipts, id_of, merge_all, merge_receipts,
}

-- The updates on the message, in their order.
abbrev pub about : String → List (Value × Receipt) → List Receipt
about id [] = []
about id ((v, value) ∷ updates) =
    let rest = about id updates in
    if is_message_id (id_of v) && (id_of v == id) then value ∷ rest else rest

-- What was known and what any update says; a message that was ever sent has not failed.
abbrev pub evidence : Receipt → List Receipt → Receipt
evidence old vs = record {
  read = old.read || any (λ (v : Receipt). v.read) vs;
  delivered = old.delivered || any (λ (v : Receipt). v.delivered || v.read) vs;
  teammate_read = old.teammate_read || any (λ (v : Receipt). v.teammate_read) vs;
  sent = old.sent || any (λ (v : Receipt). v.sent) vs;
  failed =
      (old.failed || any (λ (v : Receipt). v.failed) vs)
      && not old.sent
      && not (any (λ (v : Receipt). v.sent) vs);
}

abbrev pub gathered : Option Receipt → List Receipt → Option Receipt
gathered o [] = o
gathered o (v ∷ vs) = some (evidence (get_or o no_receipt) (v ∷ vs))

evidence-combine :
    (old v : Receipt) (vs : List Receipt)
    → gathered (some (combine old v)) vs ≡ some (evidence old (v ∷ vs))
unfolding combine
evidence-combine old v [] = ground arith
evidence-combine old v (u ∷ vs) = ground arith

lookup-merge_all :
    (merged : Receipts) (updates : List (Value × Receipt)) (id : String)
    → lookup id (merge_all merged updates) ≡ gathered (lookup id merged) (about id updates)
unfolding merge_all
lookup-merge_all merged [] id = refl
lookup-merge_all merged ((v, value) ∷ updates) id =
    let name = id_of v in
    let known = λ (k : String). combine (get_or (lookup k merged) no_receipt) value in
    elim (Bool-cases (is_message_id name)) [
      | inr bad ↦ rw bad (lookup-merge_all merged updates id)
      | inl valid ↦ elim (Bool-cases (name == id)) [
        | inr other ↦
            rw (valid, other)
              (lookup-merge_all (insert name (known name) merged) updates id
                ∙ rw (lookup-insert name id (known name) merged, other) refl)
        | inl same ↦
            rw (valid, same)
              (lookup-merge_all (insert name (known name) merged) updates id
                ∙ rw (lookup-insert name id (known name) merged, same)
                    (ap (λ k. gathered (some (known k)) (about id updates))
                        ((eq_iff name id).0 same)
                      ∙ evidence-combine (get_or (lookup id merged) no_receipt) value
                          (about id updates)))
      ]
    ]

-- While no entry is over the cap, the merged map holds for every message what was known before and
-- what any of the updates on it says, in whatever order they came: read and delivered stay once they
-- are seen, a read message counts as delivered, and a message that was sent has not failed.
pub lookup-merge_receipts :
    (previous : Receipts) (updates : List (Value × Receipt)) (id : String)
    → length (merge_all previous updates) ≤ 2000
    → lookup id (merge_receipts previous updates) ≡ gathered (lookup id previous) (about id updates)
unfolding merge_receipts
lookup-merge_receipts previous updates id small =
    let none_over : (length (merge_all previous updates) - 2000 ≡ 0) = omega arith in
    rw none_over (lookup-merge_all previous updates id)
