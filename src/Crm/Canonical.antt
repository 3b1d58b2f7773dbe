-- ===== src/Crm/Canonical.antt =====
-- `canonicalCRMJSON` of shared/model/crm.js: JSON with sorted keys and a bound on the depth.
use Prim.Native.Char.{code}
use Prim.Native.String
use Prim.Native.String.{[] as empty, ◌∷◌ as first_char}
use beepa.Prelude.{
  ℕ, suc, ◌+◌, ◌-◌, ◌/◌, String, Bool, true, false, ◌&&◌, ◌||◌, List, [], ◌∷◌, ◌++◌, nat_eq, leb,
  ltb, if◌then◌else◌,
}
use Prim.Native.Nat.{◌%◌}
use beepa.Js.{
  Value, undefined, null, bool, num, str, arr, obj, Items, nil, cons, Fields, field, end, Number,
  is_finite,
}
use beepa.Crm.Checked.{Checked, fine, refused, ◌>>=◌, ◌>>◌, need, require}

-- What the engine does with a number and a time zone.
pub record Host : Type 0 where
  pub number_text : Number → String
  pub is_timezone : String → Bool

-- The UTF-16 units of a text, by which texts are ordered.
unfoldable pub units : String → List ℕ
units empty = []
units (first_char c s) =
    let n = code c in
    (if ltb n 0x10000
      then n ∷ []
      else (0xd800 + (n - 0x10000) / 0x400) ∷ (0xdc00 + (n - 0x10000) % 0x400) ∷ [])
    ++ units s

unfoldable pub units_before : List ℕ → List ℕ → Bool
units_before [] _ = true
units_before (a ∷ as_) [] = false
units_before (a ∷ as_) (b ∷ bs) = ltb a b || (nat_eq a b && units_before as_ bs)

-- `a <= b` for texts.
abbrev pub text_before : String → String → Bool
text_before a b = units_before (units a) (units b)

-- A stable sort by text, as `sort()` makes it.
module _ {ℓ} {A : Type ℓ} where
  unfoldable pub insert_sorted : String → A → List (String × A) → List (String × A)
  unfolding units units_before
  insert_sorted k a [] = (k, a) ∷ []
  insert_sorted k a ((j, b) ∷ m) =
      if text_before k j then (k, a) ∷ (j, b) ∷ m else (j, b) ∷ insert_sorted k a m

  unfoldable pub sort_by_text : List (String × A) → List (String × A)
  unfolding insert_sorted
  sort_by_text [] = []
  sort_by_text ((k, a) ∷ m) = insert_sorted k a (sort_by_text m)

abbrev pub hex_digit : ℕ → String
hex_digit n =
    if nat_eq n 0
    then "0"
    else if nat_eq n 1
    then "1"
    else if nat_eq n 2
    then "2"
    else if nat_eq n 3
    then "3"
    else if nat_eq n 4
    then "4"
    else if nat_eq n 5
    then "5"
    else if nat_eq n 6
    then "6"
    else if nat_eq n 7
    then "7"
    else if nat_eq n 8
    then "8"
    else if nat_eq n 9
    then "9"
    else if nat_eq n 10
    then "a"
    else if nat_eq n 11
    then "b"
    else if nat_eq n 12
    then "c"
    else if nat_eq n 13
    then "d"
    else if nat_eq n 14
    then "e"
    else "f"

-- The short escapes of `JSON.stringify`, and `\u00xx` for the other control characters.
abbrev escape_control : ℕ → String
escape_control n =
    if nat_eq n 8
    then "\\b"
    else if nat_eq n 9
    then "\\t"
    else if nat_eq n 10
    then "\\n"
    else if nat_eq n 12
    then "\\f"
    else if nat_eq n 13
    then "\\r"
    else String.◌++◌ "\\u00" (String.◌++◌ (hex_digit (n / 16)) (hex_digit (n % 16)))

unfoldable pub escape : String → String
escape empty = empty
escape (first_char c s) =
    let n = code c in
    String.◌++◌
      (if nat_eq n b'"'
        then "\\\""
        else if nat_eq n b'\\'
        then "\\\\"
        else if ltb n 32
        then escape_control n
        else first_char c empty)
      (escape s)

-- `JSON.stringify` of a text.
abbrev pub quote_text : String → String
quote_text s = String.◌++◌ "\"" (String.◌++◌ (escape s) "\"")

-- `texts.join(',')`
abbrev pub join_commas : List String → String
join_commas [] = ""
join_commas (t ∷ []) = t
join_commas (t ∷ u ∷ ts) = String.◌++◌ t (String.◌++◌ "," (join_commas (u ∷ ts)))

-- The first error in the list, or all texts with their keys.
abbrev pub member_texts : List (String × Checked String) → Checked (List String)
member_texts [] = fine []
member_texts ((k, refused code) ∷ m) = refused code
member_texts ((k, fine t) ∷ m) =
    member_texts m >>= λ ts. fine (String.◌++◌ (quote_text k) (String.◌++◌ ":" t) ∷ ts)

abbrev pub bracketed : String → String → Checked (List String) → Checked String
bracketed open_ close ts =
    ts >>= λ us. fine (String.◌++◌ open_ (String.◌++◌ (join_commas us) close))

abbrev pub at_depth : ℕ → Checked String → Checked String
at_depth depth text = need (leb depth 16) "payload-too-deep" >> text

abbrev pub bool_text : Bool → String
bool_text true = "true"
bool_text false = "false"

module _ (host : Host) where
  -- `walk(x, depth)`
  unfoldable mutual
    unfolding escape sort_by_text

    pub walk : ℕ → Value → Checked String
    walk depth undefined = at_depth depth (refused "invalid-payload")
    walk depth null = at_depth depth (fine "null")
    walk depth (bool b) = at_depth depth (fine (bool_text b))
    walk depth (str s) = at_depth depth (fine (quote_text s))
    walk depth (num n) = at_depth depth (require (is_finite n) >> fine (host.number_text n))
    walk depth (arr vs) = at_depth depth (bracketed "[" "]" (walk_items (suc depth) vs))
    walk depth (obj fs) =
        at_depth depth
          (bracketed "{" "}" (member_texts (sort_by_text (walk_fields (suc depth) fs))))

    pub walk_items : ℕ → Items → Checked (List String)
    walk_items depth nil = fine []
    walk_items depth (cons v vs) = walk depth v >>= λ t. walk_items depth vs >>= λ ts. fine (t ∷ ts)

    pub walk_fields : ℕ → Fields → List (String × Checked String)
    walk_fields depth end = []
    walk_fields depth (field k v fs) = (k, walk depth v) ∷ walk_fields depth fs

  -- `canonicalCRMJSON(value)`
  unfoldable pub canonical : Value → Checked String
  unfolding walk
  canonical v = walk 0 v

  -- `copy(value)`: an equal value. That the code sorts the keys of objects in it and drops the sign of
  -- a zero is not modelled.
  unfoldable pub copy : Value → Checked Value
  unfolding canonical
  copy v = canonical v >>= λ _. fine v

-- The length of a text in UTF-8.
unfoldable pub utf8_length : String → ℕ
utf8_length empty = 0
utf8_length (first_char c s) =
    (if ltb (code c) 0x80
      then 1
      else if ltb (code c) 0x800
      then 2
      else if ltb (code c) 0x10000
      then 3
      else 4)
    + utf8_length s

abbrev pub crm_max_bytes : ℕ
crm_max_bytes = 48000

-- `bounded(value)`
unfoldable pub bounded : Host → Value → Checked String
unfolding canonical utf8_length
bounded host v = do
  encoded ← canonical host v
  need (leb (utf8_length encoded) crm_max_bytes) "payload-too-large"
  fine encoded
