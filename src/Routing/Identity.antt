-- ===== src/Routing/Identity.antt =====
-- The identity of a notification's source in master/notification-routing.mjs.
use Prim.Native.Char.{code}
use Prim.Native.String
use Prim.Native.String.{[] as empty, ◌∷◌ as first_char}
use beepa.Prelude.{
  ℕ, String, Bool, false, ◌&&◌, ◌||◌, List, [], ◌∷◌, ◌++◌, all, length, nat_eq, leb, if◌then◌else◌,
  get_or,
}
use beepa.Js.{
  Value, arr, of_items, get, as_natural, is_text, strictly_equal, value_has_own, some_chars,
  utf16_length,
}
use beepa.Crm.Checked.{Checked, fine, ◌>>=◌, ◌>>◌, need}
use beepa.Crm.Canonical.{Host, canonical}
use beepa.Crm.Format.{
  id, mxid, room, generation, bounded_identity, positive_safe, is_plain, is_boolean, names, one_of,
  not_space, text_of, string_test, text_within,
}

-- What the engine does, and `createHash('sha256')` as a text.
pub record Engine : Type 0 where
  pub host : Host
  pub digest : String → String

abbrev pub is_contact_reminder : Value → Bool
is_contact_reminder source = is_text (get source "kind") "contact_reminder"

abbrev pub is_message : Value → Bool
is_message source = is_text (get source "kind") "message"

-- `notificationMatches`
unfoldable pub notification_matches : Value → Value → Bool
notification_matches source rule =
    if is_contact_reminder source
    then strictly_equal (get rule "binding_id") (get source "binding")
      && strictly_equal (get rule "owner") (get source "owner")
      && strictly_equal (get rule "generation") (get source "generation")
      && strictly_equal (get rule "created_at") (get source "created")
      && strictly_equal (get rule "episode_at") (get source "episode")
    else strictly_equal (get rule "room") (get source "room")

-- `/^\$[^\s]{1,254}$/`
unfoldable pub short_event : String → Bool
unfolding some_chars utf16_length
short_event empty = false
short_event (first_char c s) =
    nat_eq (code c) b'$' && some_chars not_space s && leb (utf16_length s) 254

-- The tests that the source has exactly these fields.
abbrev pub has_fields : Value → List String → Bool
has_fields source fields =
    nat_eq (length (names source)) (length fields) && all (value_has_own source) fields

abbrev pub natural_of : Value → ℕ
natural_of v = get_or (as_natural v) 0

-- `x >= y` for two safe integers
abbrev pub not_before : Value → Value → Bool
not_before x y = leb (natural_of y) (natural_of x)

module _ (engine : Engine) where
  -- `digest(tag + JSON.stringify(parts))`
  abbrev pub tagged : String → List Value → Checked String
  tagged tag parts = canonical engine.host (arr (of_items parts)) >>= λ text.
      fine (engine.digest (String.◌++◌ tag text))

  unfoldable pub contact_identity_of : Value → Checked String
  unfolding bounded_identity mxid text_within canonical
  contact_identity_of source = do
    need
        (has_fields source (
          "kind" ∷ "binding" ∷ "owner" ∷ "generation" ∷ "created" ∷ "episode" ∷ "due" ∷ "slot"
          ∷ []))
        "Unexpected contact reminder fields"
    need (id (get source "binding")) "Invalid contact binding"
    need (bounded_identity mxid (get source "owner") && generation (get source "generation"))
        "Invalid contact owner"
    need
        (positive_safe (get source "created")
          && positive_safe (get source "episode")
          && positive_safe (get source "due")
          && positive_safe (get source "slot")
          && not_before (get source "slot") (get source "due"))
        "Invalid contact deadline"
    tagged "contact-deadline:" (
        get source "owner"
        ∷ get source "binding"
        ∷ get source "generation"
        ∷ get source "created"
        ∷ get source "episode"
        ∷ get source "due"
        ∷ get source "slot"
        ∷ [])

  abbrev pub source_fields : Value → List String
  source_fields source =
      if is_message source
      then "kind" ∷ "room" ∷ "event" ∷ "outgoing" ∷ []
      else ("kind" ∷ "room" ∷ "event" ∷ "due" ∷ "slot" ∷ [])
        ++ (if value_has_own source "episode" then "episode" ∷ [] else [])

  unfoldable pub reminder_identity : Value → Checked String
  unfolding canonical
  reminder_identity source = do
    need
        (positive_safe (get source "due")
          && positive_safe (get source "slot")
          && not_before (get source "slot") (get source "due"))
        "Invalid reminder identity"
    (if value_has_own source "episode"
        then (need (positive_safe (get source "episode")) "Invalid reminder episode"
            >> tagged "deadline-episode:" (
                get source "room"
                ∷ get source "event"
                ∷ get source "due"
                ∷ get source "episode"
                ∷ get source "slot"
                ∷ []))
        else tagged "deadline:" (
            (get source "room" ∷ get source "event" ∷ get source "due" ∷ [])
            ++ (if strictly_equal (get source "slot") (get source "due")
                then []
                else get source "slot" ∷ [])))

  -- `notificationIdentity`
  unfoldable pub notification_identity : Value → Checked String
  unfolding contact_identity_of reminder_identity bounded_identity room short_event
  notification_identity source =
      if is_plain source && is_contact_reminder source then contact_identity_of source else (do
        need
            (is_plain source
              && one_of ("message" ∷ "reminder" ∷ []) (get source "kind")
              && bounded_identity room (get source "room"))
            "Invalid notification source"
        need
            (string_test short_event (get source "event")
              || (is_text (get source "kind") "reminder"
                  && is_text (get source "event") "uncontacted"))
            "Invalid notification event"
        need (has_fields source (source_fields source)) "Unexpected notification source fields"
        (if is_message source
            then (need (is_boolean (get source "outgoing")) "Invalid notification direction"
                >> fine (
                    engine.digest (
                      String.◌++◌ (text_of (get source "room"))
                        (String.◌++◌ "\0" (text_of (get source "event"))))))
            else reminder_identity source))
