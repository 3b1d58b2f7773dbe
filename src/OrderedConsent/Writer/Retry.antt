-- ===== src/OrderedConsent/Writer/Retry.antt =====
-- The choice of a command by apps/user/ordered-consent.js when one is pending.
use beepa.Prelude.{
  String, Bool, true, Option, none, some, List, ◌≡◌, refl, sym, ap, ◌∙◌, arith, eq_refl, lookup,
  insert, lookup-insert, get_or, ◌&&◌, Option-cases, Bool-cases, inl, inr,
}
use mathlib.Core.Path.{subst}
use beepa.Js.{
  Value, undefined, str, get, as_string, is_text, strictly_equal, printed, loose_room_id, truthy,
  is_number, is_true,
}
use beepa.Matrix.Client.{ok}
use beepa.Consent.Level.{Level}
use beepa.OrderedConsent.Checks.{
  capability_ok, generation_ok, valid_id, saved_revision, base_revision,
}
use beepa.OrderedConsent.Writer.{
  intent_for, new_intent, is_current, optional, override_path, level_name,
}
use beepa.Matrix.Actions.Inversion.{resume-ok, pure-ok, fail_never}
use beepa.OrderedConsent.Writer.Actions.{Page, Session, Intent, Writer}

valid_id-as_string : (v : Value) → valid_id v ≡ true → is_text v (get_or (as_string v) "") ≡ true
unfolding valid_id
valid_id-as_string (str s) h = eq_refl s
valid_id-as_string _ h = cc

generation_ok-as_string :
    (v : Value) → generation_ok v ≡ true → is_text v (get_or (as_string v) "") ≡ true
generation_ok-as_string (str s) h = eq_refl s
generation_ok-as_string _ h = cc

last_two : (a b c d e f : Bool) → (a && b && c && d && e && f) ≡ true → (e ≡ true) × (f ≡ true)
last_two a b c d e f h = ground (arith, h)

and_three : (a b c : Bool) → a ≡ true → b ≡ true → c ≡ true → (a && b && c) ≡ true
and_three a b c h h' h'' = ground (arith, h, h', h'')

module _ (page : Page) (captured : Session) (key room : String) (level : Option Level) (cap : Value)
    (control : String) (named : get cap "policy_room_id" ≡ str control) where
  open page use {World, session, writer, set_writer, uuid}

  -- The intent is pending under its key, and was made for the capability.
  Pending : Intent → World → Type 0
  Pending i w = (lookup key (writer w).pending ≡ some i) × (is_current page i cap ≡ true)

  new_is_current :
      (i : Intent)
      → capability_ok cap ≡ true
      → i.journal_epoch ≡ get_or (as_string (get cap "journal_epoch")) ""
      → i.control_room ≡ get cap "policy_room_id"
      → i.generation ≡ get_or (as_string (get cap "generation")) ""
      → is_current page i cap ≡ true
  unfolding capability_ok
  new_is_current i h epoch at_control generation =
      let (e, f) =
        last_two (truthy cap) (is_number (get cap "schema") 1) (is_true (get cap "manual"))
          (loose_room_id (printed (get cap "policy_room_id"))) (valid_id (get cap "journal_epoch"))
          (generation_ok (get cap "generation")) h in
      and_three (is_text (get cap "journal_epoch") i.journal_epoch)
        (strictly_equal i.control_room (get cap "policy_room_id"))
        (is_text (get cap "generation") i.generation)
        (rw epoch (valid_id-as_string (get cap "journal_epoch") e))
        (rw (at_control, named) (eq_refl control))
        (rw generation (generation_ok-as_string (get cap "generation") f))

  stored-Pending :
      (j i : Intent) (s : Writer) (v w' : World)
      → is_current page j cap ≡ true
      → ((s : Writer) (v : World) → writer (set_writer s v) ≡ s)
      → w' ≡ set_writer (record s { pending = insert key j s.pending }) v
      → i ≡ j
      → Pending i w'
  unfolding Pending
  stored-Pending j i s v w' now law at same =
      let kept =
        ap (λ (t : Writer). lookup key t.pending)
          (ap writer at ∙ law (record s { pending = insert key j s.pending }) v) in
      (
        kept ∙ lookup-insert key key j s.pending ∙ rw (eq_refl key) (ap (λ k. some k) (sym same)),
        subst (λ k. is_current page k cap ≡ true) (sym same) now,
      )

  new_intent-Pending :
      (state : List Value) (w w' : World) (i : Intent)
      → capability_ok cap ≡ true
      → ((s : Writer) (v : World) → writer (set_writer s v) ≡ s)
      → new_intent page captured key room level cap state w ≡ (w', ok i)
      → Pending i w'
  unfolding new_intent Pending
  new_intent-Pending state w w' i good law h =
      let epoch = get_or (as_string (get cap "journal_epoch")) "" in
      let (w₁, override, e₁, h₁) =
        resume-ok (optional page captured (override_path page captured room) w) _ w' i h in
      elim (Option-cases (saved_revision (get_or override undefined))) [
        | inl bad ↦ fail_never w₁ none w' i (rw (bad) at h₁)
        | inr (saved, e₂) ↦
            elim (Option-cases (base_revision captured.user_id room epoch state saved)) [
              | inl bad ↦ fail_never w₁ none w' i (rw (e₂, bad) at h₁)
              | inr (base, e₃) ↦
                  let (at, same) = pure-ok _ _ w' i (rw (e₂, e₃) at h₁) in
                  let v = (uuid w₁).0 in
                  let j : Intent = record {
                    command_id = (uuid w₁).1;
                    journal_epoch = epoch;
                    room_id = room;
                    level = level_name level;
                    expected_revision = base;
                    control_room = get cap "policy_room_id";
                    generation = get_or (as_string (get cap "generation")) "";
                  } in
                  stored-Pending j i (writer v) v w' (new_is_current j good refl refl refl) law at
                    same
            ]
      ]

  intent_for-Pending :
      (state : List Value) (w w' : World) (i : Intent)
      → capability_ok cap ≡ true
      → ((s : Writer) (v : World) → writer (set_writer s v) ≡ s)
      → intent_for page captured key room level cap state w ≡ (w', ok i)
      → Pending i w'
  unfolding intent_for Pending
  intent_for-Pending state w w' i good law h = elim (Option-cases (lookup key (writer w).pending)) [
    | inl fresh ↦ new_intent-Pending state w w' i good law (rw (intent_for, fresh) at h)
    | inr (j, held) ↦ elim (Bool-cases (is_current page j cap)) [
      | inr stale ↦ fail_never w none w' i (rw (intent_for, held, stale) at h)
      | inl now ↦
          let (at, same) = pure-ok w j w' i (rw (intent_for, held, now) at h) in
          (rw (at, same) held, rw (same) now)
    ]
  ]

  -- For a valid capability that names its control room by a text, where the closure's variables hold
  -- what was stored in them: once a command was chosen for a change, every later attempt at the same
  -- change under the same capability chooses the same command, with its id and expected revision, as
  -- long as it is pending, whatever the control room's state says by then.
  pub intent_for-again :
      (state state' : List Value) (w w' w'' : World) (i : Intent)
      → capability_ok cap ≡ true
      → ((s : Writer) (v : World) → writer (set_writer s v) ≡ s)
      → intent_for page captured key room level cap state w ≡ (w', ok i)
      → lookup key (writer w'').pending ≡ lookup key (writer w').pending
      → intent_for page captured key room level cap state' w'' ≡ (w'', ok i)
  unfolding intent_for Pending
  intent_for-again state state' w w' w'' i good law h still =
      let (held, now) = intent_for-Pending state w w' i good law h in
      rw (intent_for, still ∙ held, now) refl
