-- ===== src/Crm/Format.antt =====
-- The tests of shared/model/crm.js on single values.
use Prim.Native.Char.{code}
use Prim.Native.String.{[] as empty, ◌∷◌ as first_char}
use beepa.Prelude.{
  ℕ, String, Bool, true, false, not, ◌&&◌, ◌||◌, List, [], ◌∷◌, map, any, all, has, get_or, is_some,
  nat_eq, leb, ◌==◌, if◌then◌else◌, insert,
}
use beepa.Js.{
  Value, undefined, null, bool, num, str, obj, finite, max_safe, get, as_object, as_array,
  as_string, as_natural, is_text, value_has_own, entries, of_entries, strictly_equal, sigil_colon,
  some_chars, at_most_chars, every_char, is_space, is_alphanumeric, is_lower, is_digit,
  utf16_length, between,
}
use beepa.Crm.Checked.{Checked, ◌>>◌, require}

abbrev pub not_space : ℕ → Bool
not_space c = not (is_space c)

-- `/^.[^\s:]+:[^\s]+$/` with the sigil of a user or a room
abbrev pub sigil_id : ℕ → String → Bool
sigil_id sigil s = sigil_colon sigil not_space (some_chars not_space) s

-- MXID and ROOM
unfoldable pub mxid : String → Bool
unfolding sigil_colon some_chars is_space
mxid s = sigil_id b'@' s

unfoldable pub room : String → Bool
unfolding sigil_colon some_chars is_space
room s = sigil_id b'!' s

abbrev pub id_char : ℕ → Bool
id_char c = is_alphanumeric c || nat_eq c b'_' || nat_eq c b'.' || nat_eq c b':' || nat_eq c b'-'

-- ID, and the names that it excludes
unfoldable pub id_text : String → Bool
unfolding at_most_chars
id_text empty = false
id_text (first_char c s) =
    is_alphanumeric (code c)
    && at_most_chars 127 id_char s
    && not (has ("__proto__" ∷ "constructor" ∷ "prototype" ∷ []) (first_char c s))

abbrev pub string_test : (String → Bool) → Value → Bool
string_test p (str s) = p s
string_test p _ = false

-- The text that a checked value is.
abbrev pub text_of : Value → String
text_of v = get_or (as_string v) ""

-- `id(x)`
abbrev pub id : Value → Bool
id v = string_test id_text v

-- SOURCE
unfoldable pub source_text : String → Bool
unfolding at_most_chars
source_text empty = false
source_text (first_char c s) =
    is_lower (code c)
    && at_most_chars 63 (λ n. is_lower n || is_digit n || nat_eq n b'_' || nat_eq n b'-') s

-- `text(x, max)`
unfoldable pub text_within : ℕ → Value → Bool
unfolding every_char utf16_length
text_within most (str s) =
    not (s == "") && leb (utf16_length s) most && every_char (λ c. leb 32 c) s
text_within most _ = false

abbrev pub generation : Value → Bool
generation v = text_within 128 v

-- `revision(x)`
abbrev pub revision : Value → Bool
revision v = is_some (as_natural v)

-- `boundedIdentity(x, re)`
unfoldable pub bounded_identity : (String → Bool) → Value → Bool
unfolding utf16_length
bounded_identity re (str s) = leb (utf16_length s) 256 && re s
bounded_identity re _ = false

-- `/^\$[^\s]{1,255}$/`
unfoldable pub event_text : String → Bool
unfolding utf16_length some_chars is_space
event_text empty = false
event_text (first_char c s) =
    nat_eq (code c) b'$' && some_chars not_space s && leb (utf16_length s) 255

-- `/^[a-f0-9]{64}$/`
unfoldable pub hash_text : String → Bool
unfolding every_char utf16_length
hash_text s = nat_eq (utf16_length s) 64 && every_char (λ c. is_digit c || between b'a' b'f' c) s

-- An integer from `lo` to `hi`.
abbrev pub integer_between : ℕ → ℕ → Value → Bool
integer_between lo hi (num (finite negative m f)) =
    nat_eq f 0 && (not negative || nat_eq m 0) && leb lo m && leb m hi
integer_between lo hi _ = false

-- `Number.isSafeInteger(x) && x > 0`
abbrev pub positive_safe : Value → Bool
positive_safe v = integer_between 1 max_safe v

abbrev pub is_boolean : Value → Bool
is_boolean (bool b) = true
is_boolean _ = false

abbrev pub is_null : Value → Bool
is_null null = true
is_null _ = false

-- `list.includes(x)` for a list of texts
abbrev pub one_of : List String → Value → Bool
one_of texts v = string_test (has texts) v

-- `new Set(xs).size === xs.length`
abbrev pub all_different : List Value → Bool
all_different [] = true
all_different (x ∷ xs) = not (any (strictly_equal x) xs) && all_different xs

-- `Array.isArray(x)` with the elements; none are read otherwise.
abbrev pub elements : Value → List Value
elements v = get_or (as_array v) []

abbrev pub is_array : Value → Bool
is_array v = is_some (as_array v)

abbrev pub names : Value → List String
names (obj fs) = map (λ (e : String × Value). e.0) (entries fs)
names _ = []

-- `Object.values(x || {})` for an object
abbrev pub values : Value → List Value
values (obj fs) = map (λ (e : String × Value). e.1) (entries fs)
values _ = []

abbrev pub is_plain : Value → Bool
is_plain v = is_some (as_object v)

abbrev pub has_keys : Value → List String → List String → Bool
has_keys v required optional =
    is_plain v
    && all (value_has_own v) required
    && all (λ k. has required k || has optional k) (names v)

-- `keys(value, required, optional)`
unfoldable pub keys : Value → List String → List String → Checked (Unit {0})
keys v required optional = require (has_keys v required optional)

-- `{ ...a, ...b }`; only objects have properties to spread.
abbrev pub own_entries : Value → List (String × Value)
own_entries (obj fs) = entries fs
own_entries _ = []

abbrev pub insert_all : List (String × Value) → List (String × Value) → List (String × Value)
insert_all m [] = m
insert_all m ((k, v) ∷ more) = insert_all (insert k v m) more

unfoldable pub spread : Value → Value → Value
spread a b = obj (of_entries (insert_all (own_entries a) (own_entries b)))

-- `{ ...a, [k]: v }`
unfoldable pub with_field : Value → String → Value → Value
with_field a k v = obj (of_entries (insert k v (own_entries a)))

-- `x ?? null`
abbrev pub or_null : Value → Value
or_null undefined = null
or_null v = v

-- `contactIdentity(c)`
unfoldable pub contact_identity : Value → Checked (Unit {0})
unfolding keys source_text text_within
contact_identity c = do
  require (is_plain c)
  (if value_has_own c "profile_id"
      then (keys c ("profile_id" ∷ []) [] >> require (text_within 256 (get c "profile_id")))
      else (keys c ("source" ∷ "network_id" ∷ []) []
          >> require
              (string_test source_text (get c "source") && text_within 512 (get c "network_id"))))

-- `validateRoute(route)`
unfoldable pub validate_route : Value → Checked (Unit {0})
unfolding keys source_text text_within bounded_identity room
validate_route route = do
  keys route ("mode" ∷ "source" ∷ "network_id" ∷ "consent_revision" ∷ []) ("room_id" ∷ [])
  require (
      string_test source_text (get route "source")
      && text_within 512 (get route "network_id")
      && revision (get route "consent_revision"))
  (if is_text (get route "mode") "direct_existing"
      then require (bounded_identity room (get route "room_id"))
      else require (
          is_text (get route "mode") "request_new_conversation_approval"
          && not (value_has_own route "room_id")))
