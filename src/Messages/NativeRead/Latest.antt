-- ===== src/Messages/NativeRead/Latest.antt =====
-- Which native read state the events of a room leave.
use beepa.Prelude.{
  String, true, false, Option, none, some, List, [], ◌∷◌, ◌≤◌, ◌≡◌, inl, inr, arith, leb,
  Bool-cases, All,
}
use beepa.Js.{Value}
use beepa.Messages.NativeRead.{
  NativeState, native_read_from, native_read_from_room, room_events, told, newer,
}

-- A state is no older than another.
abbrev pub NotOlder : Option NativeState → NativeState → Type 0
NotOlder none old = Unit → true ≡ false
NotOlder (some s) old = old.observed_ts ≤ s.observed_ts

-- What an event tells, if it tells a state, is no newer.
abbrev pub Covers : Option NativeState → Option NativeState → Type 0
Covers state none = Unit
Covers state (some s) = NotOlder state s

Covers-refl : (s : Option NativeState) → Covers s s
Covers-refl none = tt
Covers-refl (some s) = omega arith

Covers-trans : (a b c : Option NativeState) → Covers a b → Covers b c → Covers a c
Covers-trans a b none h g = tt
Covers-trans a none (some s) h g = ground (arith, g tt)
Covers-trans none (some t) (some s) h g = h
Covers-trans (some r) (some t) (some s) h g = omega (arith, h, g)

module _ (text_form : Value → String) where
  newer-old :
      (state candidate : Option NativeState) → Covers (newer text_form state candidate) state
  newer-old state none = Covers-refl state
  newer-old none (some c) = tt
  newer-old (some s) (some c) = elim (Bool-cases (leb s.observed_ts c.observed_ts)) [
    | inl later ↦ rw (later) (ground (later, arith))
    | inr earlier ↦ rw (earlier) (Covers-refl (some s))
  ]

  newer-candidate :
      (state candidate : Option NativeState) → Covers (newer text_form state candidate) candidate
  newer-candidate state none = tt
  newer-candidate none (some c) = Covers-refl (some c)
  newer-candidate (some s) (some c) = elim (Bool-cases (leb s.observed_ts c.observed_ts)) [
    | inl later ↦ rw (later) (Covers-refl (some c))
    | inr earlier ↦ rw (earlier) (ground (earlier, arith))
  ]

  native_read_from-Covers :
      (bot : String) (state : Option NativeState) (events : List Value)
      → Covers (native_read_from text_form bot state events) state
        × All
            (λ ev. Covers (native_read_from text_form bot state events) (told text_form bot ev))
            events
  unfolding native_read_from
  native_read_from-Covers bot state [] = (Covers-refl state, tt)
  native_read_from-Covers bot state (ev ∷ events) =
      let next = newer text_form state (told text_form bot ev) in
      let (kept, all_told) = native_read_from-Covers bot next events in
      let last = native_read_from text_form bot next events in
      (
        Covers-trans last next state kept (newer-old state (told text_form bot ev)),
        (
          Covers-trans last next (told text_form bot ev) kept
              (newer-candidate state (told text_form bot ev)),
          all_told,
        ),
      )

  -- The state that a room leaves was observed no earlier than the one before and than each state that an
  -- event of the bot in the room tells; once there is a state, or an event tells one, there is one.
  pub native_read_from_room-Covers :
      (room : Value) (bot : String) (previous : Option NativeState)
      → Covers (native_read_from_room text_form room bot previous) previous
        × All
            (λ ev.
              Covers (native_read_from_room text_form room bot previous) (told text_form bot ev))
            (room_events text_form room)
  unfolding native_read_from_room
  native_read_from_room-Covers room bot previous =
      native_read_from-Covers bot previous (room_events text_form room)
