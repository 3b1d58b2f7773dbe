-- ===== src/Js/Json.antt =====
-- One type for the values that come out of `JSON.parse` and property reads.
use beepa.Js.Numbers.{Number, finite, is_nonzero, is_safe_integer}
use beepa.Prelude.{
  ℕ, String, Bool, true, false, not, ◌&&◌, ◌||◌, nat_eq, if◌then◌else◌, Option, none, some, List,
  [], ◌∷◌, ◌==◌, lookup, get_or, is_some, ◌≡◌, refl, ap, Distinct,
}

-- An object lists its own properties in the order of `Object.keys`, each key once.
mutual
  pub data Value : Type 0 where
    undefined null : Value
    bool : Bool → Value
    num : Number → Value
    str : String → Value
    arr : Items → Value
    obj : Fields → Value

  pub data Items : Type 0 where
    cons : Value → Items → Items
    nil : Items

  pub data Fields : Type 0 where
    field : String → Value → Fields → Fields
    end : Fields

abbrev pub items : Items → List Value
items nil = []
items (cons v vs) = v ∷ items vs

abbrev pub of_items : List Value → Items
of_items [] = nil
of_items (v ∷ vs) = cons v (of_items vs)

abbrev pub entries : Fields → List (String × Value)
entries end = []
entries (field k v fs) = (k, v) ∷ entries fs

abbrev pub of_entries : List (String × Value) → Fields
of_entries [] = end
of_entries ((k, v) ∷ m) = field k v (of_entries m)

-- `if (x)`, `!!x`.
abbrev pub truthy : Value → Bool
truthy undefined = false
truthy null = false
truthy (bool b) = b
truthy (num n) = is_nonzero n
truthy (str s) = not (s == "")
truthy (arr vs) = true
truthy (obj fs) = true

-- `x.k` where `k` names no inherited property and no property of arrays or texts; a read of
-- null or undefined, which throws, stands behind a test in the program.
abbrev pub get : Value → String → Value
get (obj fs) k = get_or (lookup k (entries fs)) undefined
get _ k = undefined

-- `Object.prototype.hasOwnProperty.call(o, k)`.
abbrev pub has_own : Fields → String → Bool
has_own fs k = is_some (lookup k (entries fs))

-- An object that is neither null nor an array (`plainObject`).
abbrev pub as_object : Value → Option Fields
as_object (obj fs) = some fs
as_object _ = none

-- `Array.isArray(x)`, with the elements.
abbrev pub as_array : Value → Option (List Value)
as_array (arr vs) = some (items vs)
as_array _ = none

-- `typeof x === 'string'`, with the text.
abbrev pub as_string : Value → Option String
as_string (str s) = some s
as_string _ = none

abbrev pub as_number : Value → Option Number
as_number (num n) = some n
as_number _ = none

-- `x === 'text'`.
abbrev pub is_text : Value → String → Bool
is_text (str s) t = s == t
is_text _ t = false

pub entries-of_entries : (m : List (String × Value)) → entries (of_entries m) ≡ m
entries-of_entries [] = refl
entries-of_entries ((k, v) ∷ m) = ap (λ r. (k, v) ∷ r) (entries-of_entries m)

pub items-of_items : (vs : List Value) → items (of_items vs) ≡ vs
items-of_items [] = refl
items-of_items (v ∷ vs) = ap (λ r. v ∷ r) (items-of_items vs)

-- An object has each of its keys once, as every JavaScript object does.
abbrev pub IsObject : Value → Type 0
IsObject (obj fs) = Distinct (entries fs)
IsObject _ = Unit

-- `x === n` for a natural number literal.
abbrev pub is_number : Value → ℕ → Bool
is_number (num (finite negative m f)) n = not negative && nat_eq m n && nat_eq f 0
is_number _ n = false

abbrev pub is_true : Value → Bool
is_true (bool b) = b
is_true _ = false

-- `x == null`
abbrev pub is_nullish : Value → Bool
is_nullish undefined = true
is_nullish null = true
is_nullish _ = false

-- A safe integer that is not negative, as a natural number.
abbrev pub as_natural : Value → Option ℕ
as_natural (num (finite negative m f)) =
    if is_safe_integer (finite negative m f) && (not negative || nat_eq m 0) then some m else none
as_natural _ = none

-- `Object.hasOwn(x || {}, k)`
abbrev pub value_has_own : Value → String → Bool
value_has_own (obj fs) k = has_own fs k
value_has_own _ k = false
