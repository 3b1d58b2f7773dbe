-- ===== src/Consent/Keys.antt =====
-- The key patterns of shared/model/consent.js.
use Prim.Native.Char.{code}
use Prim.Native.String.{String, [], ◌∷◌}
use beepa.Prelude.{ℕ, Bool, true, false, ◌&&◌, ◌||◌, nat_eq}
use beepa.Js.{is_lower, is_digit, is_alphanumeric, at_most_chars, some_chars, sigil_colon}

abbrev pub key_char : ℕ → Bool
key_char c = is_lower c || is_digit c

-- `SOURCE_KEY_RE.test(key)`: a lower-case letter, then at most 31 letters and digits.
unfoldable pub source_key : String → Bool
unfolding at_most_chars
source_key [] = false
source_key (c ∷ s) = is_lower (code c) && at_most_chars 31 key_char s

abbrev pub host_char : ℕ → Bool
host_char c = is_alphanumeric c || nat_eq c b'.' || nat_eq c b'-' || nat_eq c b':'

-- `CONSENT_ROOMID_RE.test(rid)`.
unfoldable pub consent_room_id : String → Bool
unfolding sigil_colon some_chars
consent_room_id rid = sigil_colon b'!' (λ c. true) (some_chars host_char) rid
