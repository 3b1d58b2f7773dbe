-- ===== src/Messages/NativeRead.antt =====
-- The native read state of shared/model/native_read.js.
use beepa.Prelude.{
  ℕ, String, Bool, true, false, not, ◌&&◌, ◌||◌, Option, none, some, List, [], ◌∷◌, ◌++◌, get_or,
  is_some, has, ltb, leb, nat_eq, ◌==◌, if◌then◌else◌,
}
use beepa.Js.{
  Value, str, get, truthy, as_natural, is_text, is_number, is_true, is_alphanumeric, every_char,
  utf16_length,
}
use beepa.Crm.Format.{hash_text, string_test, is_boolean, elements, positive_safe}
pub mod Latest

abbrev pub native_read_type : String
native_read_type = "com.jkali.imessage_read_state"

-- `last_command`
pub record Command : Type 0 where
  pub id : Value
  pub status : Value

pub record NativeState : Type 0 where
  pub unread_count : ℕ
  pub marked_unread : Bool
  pub revision : Value
  pub latest_ts : ℕ
  pub observed_ts : ℕ
  pub last_command : Option Command

abbrev command_char : ℕ → Bool
command_char c =
    is_alphanumeric c || nat_eq c b'_' || nat_eq c b'.' || nat_eq c b':' || nat_eq c b'-'

-- `/^[A-Za-z0-9_.:-]{1,128}$/`
unfoldable pub command_text : String → Bool
unfolding every_char utf16_length
command_text s = not (s == "") && leb (utf16_length s) 128 && every_char command_char s

abbrev pub statuses : List String
statuses = "applied" ∷ "changed" ∷ "expired" ∷ "unconfirmed" ∷ "attempted" ∷ []

-- `x || ''` as a pattern reads it; the text of anything but a text comes from the engine.
abbrev pub pattern_text : (Value → String) → Value → String
pattern_text text_form (str s) = s
pattern_text text_form v = if truthy v then text_form v else ""

module _ (text_form : Value → String) where
  abbrev pub command_of : Value → Option Command
  command_of c =
      let id = get (get c "last_command") "id" in
      let status = get (get c "last_command") "status" in
      if command_text (pattern_text text_form id) && string_test (has statuses) status
      then some (record { id = id; status = status })
      else none

  abbrev pub is_native_state : Value → Bool
  is_native_state c =
      truthy c
      && is_number (get c "schema") 1
      && is_true (get c "supported")
      && is_some (as_natural (get c "unread_count"))
      && is_boolean (get c "marked_unread")
      && hash_text (pattern_text text_form (get c "revision"))
      && is_some (as_natural (get c "latest_ts"))
      && positive_safe (get c "observed_ts")

  -- `nativeReadState`
  unfoldable pub native_read_state : Value → Option NativeState
  unfolding hash_text command_text
  native_read_state c =
      if is_native_state c
      then some (record {
        unread_count = get_or (as_natural (get c "unread_count")) 0;
        marked_unread = is_true (get c "marked_unread");
        revision = get c "revision";
        latest_ts = get_or (as_natural (get c "latest_ts")) 0;
        observed_ts = get_or (as_natural (get c "observed_ts")) 0;
        last_command = command_of c;
      })
      else none

  abbrev pub is_native_event : String → Value → Bool
  is_native_event bot ev =
      is_text (get ev "sender") bot
      && is_text (get ev "type") native_read_type
      && is_text (get ev "state_key") ""

  -- The state that an event of the bot tells.
  abbrev pub told : String → Value → Option NativeState
  told bot ev = if is_native_event bot ev then native_read_state (get ev "content") else none

  abbrev pub newer : Option NativeState → Option NativeState → Option NativeState
  newer state none = state
  newer none (some candidate) = some candidate
  newer (some old) (some candidate) =
      if leb old.observed_ts candidate.observed_ts then some candidate else some old

  -- The loop of `nativeReadFromRoom`.
  unfoldable pub native_read_from : String → Option NativeState → List Value → Option NativeState
  unfolding native_read_state
  native_read_from bot state [] = state
  native_read_from bot state (ev ∷ events) = native_read_from bot (newer state (told bot ev)) events

  abbrev pub room_events : Value → List Value
  room_events room =
      elements (get (get room "state") "events") ++ elements (get (get room "timeline") "events")

  -- `nativeReadFromRoom`
  unfoldable pub native_read_from_room : Value → String → Option NativeState → Option NativeState
  unfolding native_read_from
  native_read_from_room room bot previous = native_read_from bot previous (room_events room)

-- `canAutoRead`, for a time that is a number
unfoldable pub can_auto_read : Option NativeState → ℕ → Bool → Bool → Bool
can_auto_read none latest_visible visible suppressed = false
can_auto_read (some native) latest_visible visible suppressed =
    ltb 0 native.unread_count
    && visible
    && not suppressed
    && ltb 0 native.latest_ts
    && leb native.latest_ts latest_visible
