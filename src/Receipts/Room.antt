-- ===== src/Receipts/Room.antt =====
-- The receipts of a room, and how one is shown: shared/model/message_receipts.js.
use Prim.Native.Char.{code}
use Prim.Native.String.{[] as empty, ◌∷◌ as first_char}
use beepa.Prelude.{
  String, Bool, true, false, not, ◌&&◌, ◌||◌, List, [], ◌∷◌, ◌++◌, any, has, get_or, nat_eq, ◌==◌,
  if◌then◌else◌,
}
use beepa.Js.{
  Value, strictly_equal, str, get, as_array, is_text, is_true, is_nullish, truthy, obj, entries,
  finite, num,
}
use beepa.Receipts.{Receipt, Receipts, no_receipt, merge_receipts}

pub record Shown : Type 0 where
  pub state : String
  pub glyph : String
  pub label : String

-- `receiptPresentation`
unfoldable pub receipt_presentation : Receipt → Shown
receipt_presentation r =
    if r.read
    then record {
      state = "read";
      glyph = "✓✓";
      label = "Read by recipient (at least one in a group)";
    }
    else if r.delivered
    then record {
      state = "delivered";
      glyph = "✓✓";
      label = "Delivered to recipient (at least one in a group)";
    }
    else if r.failed
    then record { state = "failed"; glyph = "!"; label = "Send failed" }
    else record {
      state = "sending";
      glyph = "✓";
      label =
          if r.sent
          then "Sent — awaiting delivery confirmation"
          else "Sending — delivery not confirmed";
    }

abbrev pub members : Value → List (String × Value)
members (obj fs) = entries fs
members _ = []

abbrev pub list_of : Value → List Value
list_of v = get_or (as_array v) []

-- `Number.isFinite(x) && !(x < 0)`
abbrev pub is_time : Value → Bool
is_time (num (finite negative m f)) = not negative || (nat_eq m 0 && nat_eq f 0)
is_time _ = false

abbrev pub native_receipt_type : String
native_receipt_type = "com.jkali.imessage_receipt"

-- `text.startsWith(start)`
abbrev pub starts_with : String → String → Bool
starts_with empty text = true
starts_with (first_char c s) empty = false
starts_with (first_char c s) (first_char d t) = nat_eq (code c) (code d) && starts_with s t

module _ (self_ids : List String) (bot_ids : List String) (source_bot : String) where
  -- Whether a user's receipt counts.
  abbrev pub counts : String → Value → Bool
  counts user info =
      truthy info
      && is_time (get info "ts")
      && not (has bot_ids user)
      && (is_nullish (get info "thread_id") || is_text (get info "thread_id") "main")

  abbrev pub reader : String → Receipt
  reader user =
      if has self_ids user
      then record no_receipt { teammate_read = true }
      else record no_receipt { read = true }

  -- The users of an event.
  unfoldable pub read_users : Receipts → String → List (String × Value) → Receipts
  unfolding merge_receipts
  read_users out id [] = out
  read_users out id ((user, info) ∷ users) =
      read_users (if counts user info then merge_receipts out ((str id, reader user) ∷ []) else out)
        id users

  -- The targets of an event of type `m.receipt`.
  unfoldable pub read_targets : Receipts → List (String × Value) → Receipts
  unfolding read_users
  read_targets out [] = out
  read_targets out ((id, per_event) ∷ targets) =
      read_targets (read_users out id (members (get per_event "m.read"))) targets

  unfoldable pub read_ephemeral : Receipts → List Value → Receipts
  unfolding read_targets
  read_ephemeral out [] = out
  read_ephemeral out (ev ∷ events) =
      read_ephemeral
        (if is_text (get ev "type") "m.receipt"
          then read_targets out (members (get ev "content"))
          else out)
        events

  abbrev pub is_imessage : Bool
  is_imessage = starts_with "@imessagebot:" source_bot

  abbrev pub is_recipient : Value → Bool
  is_recipient (str user) =
      starts_with "@" user && not (has self_ids user) && not (has bot_ids user)
  is_recipient _ = false

  abbrev pub is_native : Value → Bool
  is_native ev = is_text (get ev "type") native_receipt_type

  -- Whether a status event of the room counts.
  abbrev pub is_status : Value → Bool
  is_status ev =
      let rel = get (get ev "content") "m.relates_to" in
      (is_native ev || is_text (get ev "type") "com.beeper.message_send_status")
      && not (source_bot == "")
      && is_text (get ev "sender") source_bot
      && is_text (get rel "rel_type") "m.reference"
      && (not (is_native ev)
          || (is_imessage && strictly_equal (get ev "state_key") (get rel "event_id")))

  -- What a status event tells.
  abbrev pub told : Value → Receipt
  told ev =
      let c = get ev "content" in
      let success = is_text (get c "status") "SUCCESS" in
      record {
        read = is_native ev && success && is_true (get c "com.jkali.read");
        delivered =
            (success && any is_recipient (list_of (get c "delivered_to_users")))
            || (is_imessage && success && is_true (get c "com.jkali.delivered"));
        teammate_read = false;
        sent = success;
        failed = is_text (get c "status") "FAIL_PERMANENT";
      }

  unfoldable pub read_statuses : Receipts → List Value → Receipts
  unfolding merge_receipts
  read_statuses out [] = out
  read_statuses out (ev ∷ events) =
      read_statuses
        (if is_status ev
          then merge_receipts out
              ((get (get (get ev "content") "m.relates_to") "event_id", told ev) ∷ [])
          else out)
        events

  -- `parseMessageReceipts`
  unfoldable pub parse_message_receipts : Value → Receipts
  unfolding read_ephemeral read_statuses
  parse_message_receipts room =
      read_statuses (read_ephemeral [] (list_of (get (get room "ephemeral") "events")))
        (list_of (get (get room "state") "events") ++ list_of (get (get room "timeline") "events"))
