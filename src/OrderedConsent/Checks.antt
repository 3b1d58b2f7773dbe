-- ===== src/OrderedConsent/Checks.antt =====
-- The tests of apps/user/ordered-consent.js on what the homeserver answers.
use beepa.Prelude.{
  ℕ, String, Bool, false, not, ◌&&◌, ◌||◌, Option, none, some, List, [], ◌∷◌, map, any, all, keep,
  has, length, nat_eq, leb, max, get_or, ◌==◌, if◌then◌else◌,
}
use beepa.Js.{
  Value, null, num, str, arr, obj, finite, get, truthy, as_string, entries, items, is_text,
  is_number, is_true, is_nullish, as_natural, value_has_own, printed, loose_room_id,
  is_alphanumeric, at_most_chars, utf16_length,
}

abbrev pub id_char : ℕ → Bool
id_char c = is_alphanumeric c || nat_eq c b'_' || nat_eq c b'.' || nat_eq c b':' || nat_eq c b'-'

-- `validId(value)`
unfoldable pub valid_id : Value → Bool
unfolding at_most_chars
valid_id (str s) = not (s == "") && at_most_chars 128 id_char s
valid_id _ = false

abbrev pub generation_ok : Value → Bool
generation_ok (str g) = not (g == "") && leb (utf16_length g) 128
generation_ok _ = false

-- The capability test before a command; the pattern test prints its argument.
unfoldable pub capability_ok : Value → Bool
unfolding valid_id
capability_ok cap =
    truthy cap
    && is_number (get cap "schema") 1
    && is_true (get cap "manual")
    && loose_room_id (printed (get cap "policy_room_id"))
    && valid_id (get cap "journal_epoch")
    && generation_ok (get cap "generation")

abbrev pub is_state_event : String → String → Value → Bool
is_state_event type key e = is_text (get e "type") type && is_text (get e "state_key") key

-- `one(type, key)`
unfoldable pub one : List Value → String → String → Value
one state type key = elim (keep (is_state_event type key) state) [
  | [] ↦ null
  | e ∷ [] ↦ e
  | e ∷ other ∷ more ↦ null
]

abbrev pub foreign_types : List String
foreign_types =
    "uk.half-shot.bridge" ∷ "m.bridge" ∷ "com.jkali.imessage.management" ∷ "com.jkali.mirror_of"
    ∷ "m.room.tombstone" ∷ "m.room.encryption" ∷ []

abbrev pub is_foreign : Value → Bool
is_foreign e = has foreign_types (get_or (as_string (get e "type")) "")

abbrev pub is_own_join : String → Value → Bool
is_own_join user e =
    is_text (get e "type") "m.room.member"
    && is_text (get e "state_key") user
    && is_text (get (get e "content") "membership") "join"

abbrev pub is_other_member : String → Value → Bool
is_other_member user e =
    is_text (get e "type") "m.room.member" && not (is_text (get e "state_key") user)

-- The room was made by the user for this purpose, holds the journal epoch of the capability, and
-- has the user as its only member. A null entry, on which the code throws, is refused.
unfoldable pub control_room_ok : String → String → List Value → Bool
unfolding one
control_room_ok user epoch state =
    let create = one state "m.room.create" "" in
    let marker = one state "com.jkali.policy_control" "" in
    all (λ e. not (is_nullish e)) state
    && is_text (get create "sender") user
    && not (is_text (get (get create "content") "type") "m.space")
    && not (value_has_own (get create "content") "com.jkali.mirror_of")
    && is_text (get marker "sender") user
    && is_number (get (get marker "content") "schema") 1
    && is_text (get (get marker "content") "journal_epoch") epoch
    && not (any is_foreign state)
    && any (is_own_join user) state
    && not (any (is_other_member user) state)

-- `Number.isInteger(value) && value >= 100`
abbrev pub is_integer_from_100 : Value → Bool
is_integer_from_100 (num (finite negative m f)) = not negative && nat_eq f 0 && leb 100 m
is_integer_from_100 _ = false

-- `Object.values(x || {})`; the characters of a text, none of which is a number, count as the text.
abbrev pub values_of : Value → List Value
values_of (obj fs) = map (λ (e : String × Value). e.1) (entries fs)
values_of (arr vs) = items vs
values_of (str s) = if s == "" then [] else str s ∷ []
values_of _ = []

-- The user alone has power 100, and everything wants 100.
unfoldable pub power_ok : String → List Value → Bool
unfolding one
power_ok user state =
    let power = one state "m.room.power_levels" "" in
    let content = get power "content" in
    is_text (get power "sender") user
    && is_number (get (get content "users") user) 100
    && nat_eq (length (values_of (get content "users"))) 1
    && is_number (get content "events_default") 100
    && is_number (get content "state_default") 100
    && all (λ k. is_number (get content k) 100) ("invite" ∷ "kick" ∷ "ban" ∷ "redact" ∷ [])
    && all is_integer_from_100 (values_of (get content "events"))
    && is_text (get (get (one state "m.room.join_rules" "") "content") "join_rule") "invite"
    && is_text (get (get (one state "m.room.history_visibility" "") "content") "history_visibility")
        "joined"
    && is_text (get (get (one state "m.room.guest_access" "") "content") "guest_access") "forbidden"

-- The revision that is stored with the override; `none` is a refusal.
unfoldable pub saved_revision : Value → Option ℕ
saved_revision override =
    let saved = get override "com.jkali.policy_journal" in
    if truthy saved then as_natural (get saved "revision") else some 0

-- The larger of it and the published one.
unfoldable pub base_revision : String → String → String → List Value → ℕ → Option ℕ
unfolding one
base_revision user room epoch state saved =
    let published = one state "com.jkali.policy.revision" room in
    let c = get published "content" in
    if truthy published
    then (if is_text (get published "sender") user
          && is_number (get c "schema") 1
          && is_text (get c "room_id") room
          && is_text (get c "journal_epoch") epoch
        then elim (as_natural (get c "revision")) [ none ↦ none | some r ↦ some (max saved r) ]
        else none)
    else some saved
