-- ===== src/Js/Pattern.antt =====
-- The program's regular expressions, as walks over the text.
use Prim.Native.Char.{code}
use Prim.Native.String.{String, [], ◌∷◌}
use beepa.Prelude.{
  ℕ, zero, suc, ◌+◌, not, Bool, true, false, ◌&&◌, ◌||◌, leb, nat_eq, if◌then◌else◌,
}

abbrev pub between : ℕ → ℕ → ℕ → Bool
between lo hi c = leb lo c && leb c hi

abbrev pub is_lower : ℕ → Bool
is_lower c = between b'a' b'z' c

abbrev pub is_digit : ℕ → Bool
is_digit c = between b'0' b'9' c

abbrev pub is_alphanumeric : ℕ → Bool
is_alphanumeric c = is_lower c || between b'A' b'Z' c || is_digit c

-- `^[…]*$`
unfoldable pub every_char : (ℕ → Bool) → String → Bool
every_char p [] = true
every_char p (c ∷ s) = p (code c) && every_char p s

-- `^[…]{0,n}$`
unfoldable pub at_most_chars : ℕ → (ℕ → Bool) → String → Bool
at_most_chars n p [] = true
at_most_chars zero p (c ∷ s) = false
at_most_chars (suc n) p (c ∷ s) = p (code c) && at_most_chars n p s

-- `[^:]+` and then `:`, and then a text for which `rest` holds; `some` says that a character has
-- been read already.
after_colon : Bool → (ℕ → Bool) → (String → Bool) → String → Bool
after_colon some p rest [] = false
after_colon some p rest (c ∷ s) =
    let more = after_colon true p rest s in
    if nat_eq (code c) b':' then some && rest s else p (code c) && more

-- `^![…]+:` where the class excludes the colon, and then `rest`.
unfoldable pub sigil_colon : ℕ → (ℕ → Bool) → (String → Bool) → String → Bool
unfolding after_colon
sigil_colon sigil p rest [] = false
sigil_colon sigil p rest (c ∷ s) = nat_eq (code c) sigil && after_colon false p rest s

-- `^[…]+$`
unfoldable pub some_chars : (ℕ → Bool) → String → Bool
unfolding every_char
some_chars p [] = false
some_chars p (c ∷ s) = p (code c) && every_char p s

-- `\s`
unfoldable pub is_space : ℕ → Bool
is_space c =
    between 9 13 c
    || nat_eq c 32
    || nat_eq c 160
    || nat_eq c 0x1680
    || between 0x2000 0x200a c
    || nat_eq c 0x2028
    || nat_eq c 0x2029
    || nat_eq c 0x202f
    || nat_eq c 0x205f
    || nat_eq c 0x3000
    || nat_eq c 0xfeff

-- `/^![^\s:]+:[^\s]+$/`
unfoldable pub loose_room_id : String → Bool
unfolding sigil_colon some_chars is_space
loose_room_id s = sigil_colon b'!' (λ c. not (is_space c)) (some_chars (λ c. not (is_space c))) s

-- The length of a text in UTF-16 units, as JavaScript counts it.
unfoldable pub utf16_length : String → ℕ
utf16_length [] = 0
utf16_length (c ∷ s) = (if leb 0x10000 (code c) then 2 else 1) + utf16_length s
