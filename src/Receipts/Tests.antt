-- ===== src/Receipts/Tests.antt =====
-- A message that is reported as failed and then as read.
use beepa.Prelude.{true, false, some, List, [], ◌∷◌, ◌≡◌, ◌≤◌, arith, lookup, length}
use beepa.Js.{Value, str, utf16_length}
use beepa.Receipts.{Receipt, no_receipt, is_message_id, merge_all, merge_receipts}
use beepa.Receipts.Evidence

abbrev refused : Receipt
refused = record no_receipt { failed = true }

abbrev seen : Receipt
seen = record no_receipt { read = true; sent = true }

abbrev updates : List (Value × Receipt)
updates = (str "$a", refused) ∷ (str "b", seen) ∷ (str "$a", seen) ∷ []

small : length (merge_all [] updates) ≤ 2000
unfolding merge_all utf16_length
small = omega arith

lookup-merge_receipts_example :
    lookup "$a" (merge_receipts [] updates)
    ≡ some (record {
      read = true;
      delivered = true;
      teammate_read = false;
      sent = true;
      failed = false;
    })
unfolding is_message_id utf16_length
lookup-merge_receipts_example = Evidence.lookup-merge_receipts [] updates "$a" small
