-- ===== src/Receipts.antt =====
-- shared/model/message_receipts.js: the evidence of receipts that is gathered for each message.
pub mod Evidence
pub mod Room
mod Tests
use Prim.Native.Char.{code}
use Prim.Native.String.{String, [] as empty, ◌∷◌ as first_char}
use beepa.Prelude.{
  ℕ, zero, suc, Bool, true, false, not, ◌&&◌, ◌||◌, Option, none, some, List, [], ◌∷◌, ◌-◌, lookup,
  insert, get_or, nat_eq, leb, length, if◌then◌else◌,
}
use beepa.Js.{Value, as_string, utf16_length}

-- The five properties of an entry, and of an update, in which an absent one counts as false.
pub record Receipt : Type 0 where
  pub read : Bool
  pub delivered : Bool
  pub teammate_read : Bool
  pub sent : Bool
  pub failed : Bool

-- `{}`
abbrev pub no_receipt : Receipt
no_receipt = record {
  read = false;
  delivered = false;
  teammate_read = false;
  sent = false;
  failed = false;
}

-- A text that starts with `$` and has at most 256 UTF-16 units.
unfoldable pub is_message_id : String → Bool
is_message_id empty = false
is_message_id (first_char c s) = nat_eq (code c) b'$' && leb (utf16_length (first_char c s)) 256

unfoldable pub combine : Receipt → Receipt → Receipt
combine old value = record {
  read = old.read || value.read;
  delivered = old.delivered || value.delivered || value.read;
  teammate_read = old.teammate_read || value.teammate_read;
  sent = old.sent || value.sent;
  failed = (old.failed || value.failed) && not old.sent && not value.sent;
}

abbrev pub Receipts : Type 0
Receipts = List (String × Receipt)

-- The text, or the empty text, which is no message id.
abbrev pub id_of : Value → String
id_of v = get_or (as_string v) ""

-- The loop over the updates.
unfoldable pub merge_all : Receipts → List (Value × Receipt) → Receipts
unfolding is_message_id combine
merge_all merged [] = merged
merge_all merged ((v, value) ∷ updates) =
    let id = id_of v in
    merge_all
      (if is_message_id id
        then insert id (combine (get_or (lookup id merged) no_receipt) value) merged
        else merged)
      updates

abbrev pub drop_first : ℕ → Receipts → Receipts
drop_first zero m = m
drop_first (suc n) [] = []
drop_first (suc n) (e ∷ m) = drop_first n m

-- `mergeReceipts(previous, updates)`; the loop at the end deletes the oldest entries over 2000.
unfoldable pub merge_receipts : Receipts → List (Value × Receipt) → Receipts
unfolding merge_all
merge_receipts previous updates =
    let merged = merge_all previous updates in drop_first (length merged - 2000) merged
