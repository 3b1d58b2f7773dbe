-- ===== src/Consent/ContactKey/Injective.antt =====
-- Building against splitting the keys of contact overrides in shared/model/consent.js.
use Prim.Native.Char.{code}
use Prim.Native.String
use Prim.Native.String.{String, [], ◌∷◌}
use text.Mathlib.TextLemmas.{nil-append, cons-append}
use text.Mathlib.TextEquality.{Char-path}
use beepa.Prelude.{
  ℕ, zero, suc, true, false, some, ◌≡◌, refl, ap, arith, eq_iff, nat_eq, ◌==◌, Option-cases, inl,
  inr, Bool-cases,
}
use beepa.Js.{Value, str, at_most_chars}
use beepa.Consent.Keys.{source_key, key_char}
use beepa.Consent.ContactKey.{contact_override_key, cut, split_contact_override_key}

-- No character of the text is a bar.
abbrev NoBar : String → Type 0
NoBar [] = Unit
NoBar (c ∷ s) = (nat_eq (code c) b'|' ≡ false) × NoBar s

at_most_chars-NoBar : (n : ℕ) (s : String) → at_most_chars n key_char s ≡ true → NoBar s
unfolding at_most_chars
at_most_chars-NoBar n [] h = tt
at_most_chars-NoBar zero (c ∷ s) h = cc
at_most_chars-NoBar (suc n) (c ∷ s) h = (ground arith, at_most_chars-NoBar n s (ground arith))

source_key-NoBar : (s : String) → source_key s ≡ true → NoBar s
unfolding source_key
source_key-NoBar [] h = tt
source_key-NoBar (c ∷ s) h = (ground arith, at_most_chars-NoBar 31 s (ground arith))

cut-append : (s n : String) → NoBar s → cut (String.◌++◌ s (String.◌++◌ "|" n)) ≡ some (s, n)
unfolding cut
cut-append [] n h = rw (nil-append, cons-append, nil-append) refl
cut-append (c ∷ s) n (p, h) = rw cons-append (rw (cut, p, cut-append s n h) refl)

append_of_cut :
    (k : String) (p : String × String) → cut k ≡ some p → String.◌++◌ p.0 (String.◌++◌ "|" p.1) ≡ k
unfolding cut
append_of_cut [] p h = cc
append_of_cut (c ∷ k) p h = elim (Bool-cases (nat_eq (code c) b'|')) [
  | inl bar ↦
      let e : (◌≡◌ {A = String × String} ("", k) p) = ground arith in
      rw (← e, nil-append, cons-append, nil-append) (ap (λ d. d ∷ k) (Char-path _ c (ground arith)))
  | inr other ↦ elim (Option-cases (cut k)) [
    | inl none_left ↦ ground arith
    | inr (q, found) ↦
        let e : (◌≡◌ {A = String × String} (c ∷ q.0, q.1) p) = ground arith in
        rw (← e, cons-append) (ap (λ r. c ∷ r) (append_of_cut k q found))
  ]
]

source_key-ne-empty : (s : String) → source_key s ≡ true → (s == "") ≡ false
unfolding source_key
source_key-ne-empty [] h = cc
source_key-ne-empty (c ∷ s) h = elim (Bool-cases ((c ∷ s) == "")) [
  | inl same ↦ cc ((eq_iff (c ∷ s) "").0 same)
  | inr differ ↦ differ
]

key_parts :
    (s n key : String)
    → contact_override_key (str s) (str n) ≡ some key
    → (source_key s ≡ true) × ((n == "") ≡ false) × (String.◌++◌ s (String.◌++◌ "|" n) ≡ key)
unfolding contact_override_key
key_parts s n key h = ground arith

key_of_parts :
    (s n : String)
    → source_key s ≡ true
    → (n == "") ≡ false
    → contact_override_key (str s) (str n) ≡ some (String.◌++◌ s (String.◌++◌ "|" n))
unfolding contact_override_key
key_of_parts s n valid full = ground arith

split_parts :
    (key s n : String)
    → split_contact_override_key (str key) ≡ some (s, n)
    → (source_key s ≡ true) × ((n == "") ≡ false) × (cut key ≡ some (s, n))
unfolding split_contact_override_key
split_parts key s n h = elim (Option-cases (cut key)) [
  | inl uncut ↦ ground arith
  | inr (p, found) ↦ ground arith
]

split_of_parts :
    (key s n : String)
    → source_key s ≡ true
    → (n == "") ≡ false
    → cut key ≡ some (s, n)
    → split_contact_override_key (str key) ≡ some (s, n)
unfolding split_contact_override_key
split_of_parts key s n valid full found = ground (arith, source_key-ne-empty s)

-- A key that was built from two texts splits into exactly those, with every bar of the network id
-- kept.
pub split-contact_override_key :
    (s n key : String)
    → contact_override_key (str s) (str n) ≡ some key
    → split_contact_override_key (str key) ≡ some (s, n)
split-contact_override_key s n key h =
    let (valid, full, e) = key_parts s n key h in
    split_of_parts key s n valid full (rw (← e) (cut-append s n (source_key-NoBar s valid)))

-- Whatever splits is the key of its two parts.
pub contact_override_key-split :
    (key s n : String)
    → split_contact_override_key (str key) ≡ some (s, n)
    → contact_override_key (str s) (str n) ≡ some key
contact_override_key-split key s n h =
    let (valid, full, found) = split_parts key s n h in
    rw (← append_of_cut key (s, n) found) (key_of_parts s n valid full)

-- Two contacts with the same key are the same contact.
pub contact_override_key_injective :
    (source network_id source' network_id' : Value) (key : String)
    → contact_override_key source network_id ≡ some key
    → contact_override_key source' network_id' ≡ some key
    → (source ≡ source') × (network_id ≡ network_id')
unfolding contact_override_key
contact_override_key_injective (str s) (str n) (str s') (str n') key h h' =
    ground (arith, split-contact_override_key s n key h, split-contact_override_key s' n' key h')
contact_override_key_injective _ _ _ _ key h h' = ground arith
