-- ===== src/CrmStore/Timeline.antt =====
-- What the events of a timeline make of the CRM state, without pages, cursors and sets of seen events.
use beepa.Prelude.{
  append-nil, String, Bool, true, false, not, ◌&&◌, ◌||◌, List, [], ◌∷◌, ◌++◌, map, keep, has, ◌≡◌,
  refl, ◌∙◌, inl, inr, arith, ◌==◌, eq_iff, Bool-cases, if◌then◌else◌,
}
use beepa.Js.{Value, get, is_text}
use beepa.Crm.Canonical.{Host}
use beepa.Crm.Format.{text_of}
use beepa.Crm.State.{Crm}
use beepa.Crm.Verified.{apply_verified_crm_operation}
use beepa.Crm.Verified.Integrity.{VerifiedHistory, begin, followed_by}
use beepa.CrmStore.Entries.{crm_operation_type, is_redacted}

abbrev pub event_key : Value → String
event_key event = text_of (get event "event_id")

-- An event that still has its operation.
abbrev pub is_operation : Value → Bool
is_operation event = is_text (get event "type") crm_operation_type && not (is_redacted event)

-- The first of the events with each id, but for the ids that were seen before.
abbrev pub first_events : List String → List Value → List Value
first_events seen [] = []
first_events seen (e ∷ es) =
    if has seen (event_key e)
    then first_events seen es
    else e ∷ first_events (event_key e ∷ seen) es

same_test :
    (seen : List String) (d : Value) (es : List Value) (e : Value)
    → has seen (event_key d) ≡ true
    → (has seen (event_key e) || has (map event_key es) (event_key e)) ≡ (
        has seen (event_key e)
        || ((event_key d == event_key e) || has (map event_key es) (event_key e)))
same_test seen d es e known = elim (Bool-cases (event_key d == event_key e)) [
  | inr other ↦ rw (other) refl
  | inl same ↦ let hit = rw ((eq_iff (event_key d) (event_key e)).0 same) at known in rw (hit) refl
]

other_test :
    (seen : List String) (d : Value) (es : List Value) (e : Value)
    → (((event_key d == event_key e) || has seen (event_key e))
        || has (map event_key es) (event_key e))
      ≡ (has seen (event_key e)
          || ((event_key d == event_key e) || has (map event_key es) (event_key e)))
other_test seen d es e = ground arith

pub first_events-last :
    (seen : List String) (es : List Value) (e : Value)
    → first_events seen (es ++ (e ∷ []))
      ≡ first_events seen es
        ++ (if has seen (event_key e) || has (map event_key es) (event_key e) then [] else e ∷ [])
first_events-last seen [] e = elim (Bool-cases (has seen (event_key e))) [
  | inl h ↦ rw (h) refl
  | inr h ↦ rw (h) refl
]
first_events-last seen (d ∷ es) e = elim (Bool-cases (has seen (event_key d))) [
  | inl known ↦ rw (known, first_events-last seen es e, same_test seen d es e known) refl
  | inr new ↦ rw (new, first_events-last (event_key d ∷ seen) es e, other_test seen d es e) refl
]

or_true : (b : Bool) → (b || true) ≡ true
or_true b = ground arith

pub first_events-known :
    (seen : List String) (es : List Value) (e : Value)
    → has (map event_key es) (event_key e) ≡ true
    → first_events seen (es ++ (e ∷ [])) ≡ first_events seen es
first_events-known seen es e h =
    first_events-last seen es e
    ∙ rw (h, or_true (has seen (event_key e))) (append-nil (first_events seen es))

pub has-last :
    (es : List Value) (e : Value) (k : String)
    → has (map event_key (es ++ (e ∷ []))) k ≡ (has (map event_key es) k || (event_key e == k))
has-last [] e k = ground arith
has-last (d ∷ es) e k = ground (arith, has-last es e k)

keep-append : (p : Value → Bool) (xs ys : List Value) → keep p (xs ++ ys) ≡ keep p xs ++ keep p ys
keep-append p [] ys = refl
keep-append p (x ∷ xs) ys = elim (Bool-cases (p x)) [
  | inl h ↦ rw (h, keep-append p xs ys) refl
  | inr h ↦ rw (h, keep-append p xs ys) refl
]

module _ (host : Host) (hash : String → String) where
  abbrev pub apply_content : Crm → Value → Crm
  apply_content state e = (apply_verified_crm_operation host hash state (get e "content")).state

  -- The operations of the events, one after the other.
  abbrev pub apply_all : Crm → List Value → Crm
  apply_all state [] = state
  apply_all state (e ∷ es) = apply_all (apply_content state e) es

  apply_all-append :
      (state : Crm) (xs ys : List Value)
      → apply_all state (xs ++ ys) ≡ apply_all (apply_all state xs) ys
  apply_all-append state [] ys = refl
  apply_all-append state (x ∷ xs) ys = apply_all-append (apply_content state x) xs ys

  -- The state that a timeline stands for: the operations of the events that are not redacted, each
  -- event once, in the order of the timeline.
  abbrev pub timeline_state : Crm → List Value → Crm
  timeline_state start events = apply_all start (keep is_operation (first_events [] events))

  module _ (start : Crm) (events : List Value) (e : Value) where
    -- An event that was read before, a new one without an operation, and a new operation.
    pub timeline-known :
        has (map event_key events) (event_key e) ≡ true
        → timeline_state start (events ++ (e ∷ [])) ≡ timeline_state start events
    timeline-known h =
        rw (first_events-last [] events e, h, append-nil (first_events [] events)) refl

    pub timeline-passed :
        has (map event_key events) (event_key e) ≡ false
        → is_operation e ≡ false
        → timeline_state start (events ++ (e ∷ [])) ≡ timeline_state start events
    timeline-passed h i =
        rw
          (
            first_events-last [] events e,
            h,
            keep-append is_operation (first_events [] events) (e ∷ []),
            i,
            append-nil (keep is_operation (first_events [] events)),
          )
          refl

    pub timeline-operates :
        has (map event_key events) (event_key e) ≡ false
        → is_operation e ≡ true
        → timeline_state start (events ++ (e ∷ [])) ≡ apply_content (timeline_state start events) e
    timeline-operates h i =
        rw
          (
            first_events-last [] events e,
            h,
            keep-append is_operation (first_events [] events) (e ∷ []),
            i,
            apply_all-append start (keep is_operation (first_events [] events)) (e ∷ []),
          )
          refl

  pub timeline_state-History :
      (start : Crm) (events : List Value)
      → VerifiedHistory host hash start (timeline_state start events)
  timeline_state-History start events = go start begin (keep is_operation (first_events [] events))
    where
      go :
          (state : Crm)
          → VerifiedHistory host hash start state
          → (es : List Value) → VerifiedHistory host hash start (apply_all state es)
      go state h [] = h
      go state h (e ∷ es) = go (apply_content state e) (followed_by (get e "content") h) es
