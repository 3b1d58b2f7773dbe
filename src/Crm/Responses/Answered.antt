-- ===== src/Crm/Responses/Answered.antt =====
-- Which messages the links of `attributeResponses` of shared/model/crm.js join.
use beepa.Prelude.{
  ℕ, ◌≤◌, String, Bool, true, false, not, ◌&&◌, ◌||◌, List, [], ◌∷◌, ◌++◌, All, get_or, lookup,
  insert, has, ltb, ◌≡◌, refl, sym, ◌∙◌, ◌⊎◌, inl, inr, arith, ◌==◌, eq_iff, Bool-cases,
  Option-cases, if◌then◌else◌, append-again,
}
use mathlib.Core.Path.{subst}
use beepa.Contacts.Profile.WellFormed.{All-append}
use beepa.Js.{Value, bool, get}
use beepa.Crm.Checked.{Checked, fine, bind-fine, need-fine, fine-fine}
use beepa.Crm.Canonical.{Host, sort_by_text}
use beepa.Crm.Ensures.{Ensures, Ensures-after, Ensures-bind, Ensures-fine}
use beepa.Crm.Format.{with_field, text_within, revision}
use beepa.Crm.Manifest.{fold_checked}
use beepa.Crm.Responses.{
  Message, Ledger, Links, Attribution, message_of, counts, message_before, insert_message,
  sort_messages, link_value, add_message, read_record, group_message, answer_message, answer_group,
  all_links, attribute_responses, time_inversion, order_repeats, add,
}
use beepa.Crm.Responses.Incomplete.{
  OnLink, All-sort, All-values, All-last, IsKept, members, fold-Kept,
}

module _ {B : Type 0} {Q : B → Type 0} where
  Ensures-fold :
      {A : Type 0} (Good : A → Type 0) (step : B → A → Checked B) (xs : List A) (b : B)
      → ((c : B) (x : A) → Q c → Good x → Ensures Q (step c x))
      → All Good xs
      → Q b
      → Ensures Q (fold_checked step b xs)
  Ensures-fold Good step [] b k all q = Ensures-fine b q
  Ensures-fold Good step (x ∷ xs) b k (good, all) q = record {
    holds = λ last h.
        let (next, one, rest) = bind-fine _ _ _ h in
        (Ensures-fold Good step xs next k all ((k b x q good).holds next one)).holds last rest;
  }

-- Maps whose values have a property.
module _ {V : Type 0} (P : V → Type 0) where
  abbrev OnEntry : String × V → Type 0
  OnEntry e = P e.1

  insert-All :
      (k : String) (v : V) (m : List (String × V))
      → P v
      → All OnEntry m
      → All OnEntry (insert k v m)
  insert-All k v [] h all = (h, tt)
  insert-All k v ((j, u) ∷ m) h (one, all) = elim (Bool-cases (j == k)) [
    | inl same ↦ rw (same) (h, all)
    | inr other ↦ rw (other) (one, insert-All k v m h all)
  ]

  lookup-All :
      (k : String) (d : V) (m : List (String × V)) → P d → All OnEntry m → P (get_or (lookup k m) d)
  lookup-All k d [] h all = h
  lookup-All k d ((j, u) ∷ m) h (one, all) = elim (Bool-cases (j == k)) [
    | inl same ↦ rw (same) one
    | inr other ↦ rw (other) (lookup-All k d m h all)
  ]

module _ (host : Host) (P : Message → Type 0) where
  insert_message-All :
      (m : Message) (ms : List Message) → P m → All P ms → All P (insert_message m ms)
  insert_message-All m [] h all = (h, tt)
  insert_message-All m (n ∷ ns) h (one, all) = elim (Bool-cases (message_before m n)) [
    | inl first ↦ rw (insert_message, first) (h, (one, all))
    | inr later ↦ rw (insert_message, later) (one, insert_message-All m ns h all)
  ]

  sort_messages-All : (ms : List Message) → All P ms → All P (sort_messages ms)
  sort_messages-All [] all = tt
  sort_messages-All (m ∷ ms) (h, all) =
      insert_message-All m (sort_messages ms) h (sort_messages-All ms all)

  abbrev GoodLedger : Ledger → Type 0
  GoodLedger ledger = All (OnEntry P) ledger.unique

  add_message-Good :
      (ledger : Ledger) (key scope : String) (m : Message)
      → GoodLedger ledger
      → P m
      → Ensures GoodLedger (add_message host ledger key scope m)
  unfolding add_message
  add_message-Good ledger key scope m all h =
      let added = insert-All P key m ledger.unique h all in
      elim (Option-cases (lookup key ledger.unique)) [
        | inl new ↦ rw (add_message, new) (Ensures-fine _ added)
        | inr (old, known) ↦
            rw (add_message, known)
              (Ensures-after _ _ λ before.
                Ensures-after _ _ λ now. Ensures-fine _ (either (not (before == now)) added))
      ]
    where
      either :
          (other : Bool)
          → All (OnEntry P) (insert key m ledger.unique)
          → GoodLedger (
              if other
              then record ledger {
                ambiguous = add ledger.ambiguous key;
                blocked_scopes = add ledger.blocked_scopes scope;
              }
              else record ledger { unique = insert key m ledger.unique })
      either true added = all
      either false added = added

  read_record-Good :
      (ledger : Ledger) (r : Value)
      → GoodLedger ledger
      → (counts r ≡ true → P (message_of r))
      → Ensures GoodLedger (read_record host ledger r)
  unfolding read_record
  read_record-Good ledger r all h = elim (Bool-cases (counts r)) [
    | inr passed ↦ rw (read_record, passed) (Ensures-fine _ all)
    | inl counted ↦
        rw (read_record, counted)
          (Ensures-after _ _ λ scope. elim (Bool-cases (text_within 512 (get r "source_id"))) [
            | inr nameless ↦ rw (nameless) (Ensures-fine _ all)
            | inl named ↦ rw (named) (
                Ensures-after _ _ λ key.
                  elim (Bool-cases
                    (revision (get r "source_order") && revision (get r "source_ts"))) [
                      | inr unplaced ↦ rw (unplaced) (Ensures-fine _ all)
                      | inl placed ↦
                          rw (placed)
                            (add_message-Good ledger key scope (message_of r) all (h counted))
                    ])
          ])
  ]

  abbrev GoodGroups : List (String × List Message) × List String → Type 0
  GoodGroups (groups, pending) = All (OnEntry (All P)) groups

  group_message-Good :
      (ambiguous : List String) (acc : List (String × List Message) × List String)
      (e : String × Message)
      → GoodGroups acc
      → P e.1
      → Ensures GoodGroups (group_message host ambiguous acc e)
  unfolding group_message
  group_message-Good ambiguous (groups, pending) (key, m) all h =
      Ensures-after _ _ λ scope. Ensures-fine _ (either scope (has ambiguous key))
    where
      either :
          (scope : String) (skip : Bool)
          → GoodGroups (
              if skip
              then (groups, pending ++ (key ∷ []))
              else (insert scope (get_or (lookup scope groups) [] ++ (m ∷ [])) groups, pending))
      either scope true = all
      either scope false =
          insert-All (All P) scope _ groups
            (All-append P (get_or (lookup scope groups) []) (m ∷ [])
              (lookup-All (All P) scope [] groups tt all) (h, tt))
            all

  -- The message was sent to be answered.
  abbrev pub Outreach : Message → Type 0
  Outreach o = P o × (o.direction ≡ "outgoing") × (o.confirmed ≡ true) × (o.outreach ≡ true)

  -- The link joins a message that came in and an outreach that was sent no later.
  abbrev pub Answers : Value → Type 0
  Answers l =
      (r : Message) × (o : Message) × P r
      × Outreach o
      × ((r.direction == "outgoing") ≡ false)
      × (o.source_ts ≤ r.source_ts)
      × (link_value r o ≡ l)

  abbrev GoodTurn : List Message × Links → Type 0
  GoodTurn (unanswered, acc) = All Outreach unanswered × All (OnLink Answers) acc.links

  no_longer : (m n : ℕ) → ltb m n ≡ false → n ≤ m
  no_longer m n h = ground (h, arith)

  is_outreach :
      (r : Message)
      → P r
      → (r.direction == "outgoing") ≡ true
      → (r.confirmed && r.outreach) ≡ true
      → Outreach r
  is_outreach r h out both =
      (h, (eq_iff r.direction "outgoing").0 out, ground (both, arith), ground (both, arith))

  outgoing_pushed :
      (r : Message) (unanswered : List Message)
      → P r
      → (r.direction == "outgoing") ≡ true
      → All Outreach unanswered
      → All Outreach (if r.confirmed && r.outreach then r ∷ unanswered else unanswered)
  outgoing_pushed r unanswered h out all = elim (Bool-cases (r.confirmed && r.outreach)) [
    | inr other ↦ rw (other) all
    | inl both ↦ rw (both) (is_outreach r h out both, all)
  ]

  answer_message-Good :
      (turn : List Message × Links) (r : Message)
      → GoodTurn turn
      → P r
      → Ensures GoodTurn (answer_message host turn r)
  unfolding answer_message
  answer_message-Good ([], acc) r (out, all) h = elim (Bool-cases (r.direction == "outgoing")) [
    | inr came ↦ rw (answer_message, came) (Ensures-fine _ (tt, all))
    | inl sent ↦ elim (Bool-cases (r.confirmed && r.outreach)) [
      | inr other ↦ rw (answer_message, sent, other) (Ensures-fine _ (tt, all))
      | inl both ↦
          rw (answer_message, sent, both) (Ensures-fine _ ((is_outreach r h sent both, tt), all))
    ]
  ]
  answer_message-Good (outgoing ∷ older, acc) r ((one, out), all) h =
      elim (Bool-cases (r.direction == "outgoing")) [
        | inl sent ↦
            rw (answer_message, sent)
              (Ensures-fine _ (outgoing_pushed r (outgoing ∷ older) h sent (one, out), all))
        | inr came ↦ elim (Bool-cases (ltb r.source_ts outgoing.source_ts)) [
          | inl early ↦
              rw (answer_message, came, early)
                (Ensures-after _ _ λ key. Ensures-fine _ ((one, out), all))
          | inr later ↦
              rw (answer_message, came, later)
                (Ensures-after _ _ λ key. Ensures-fine _ (
                  out,
                  All-last Answers acc.links key (link_value r outgoing) all (
                    r,
                    outgoing,
                    h,
                    one,
                    came,
                    no_longer r.source_ts outgoing.source_ts later,
                    refl,
                  ),
                ))
        ]
      ]

  abbrev GoodLinks : Links → Type 0
  GoodLinks acc = All (OnLink Answers) acc.links

  answer_group-Good :
      (complete : Bool) (acc : Links) (e : String × List Message)
      → GoodLinks acc
      → All P e.1
      → Ensures GoodLinks (answer_group host complete acc e)
  unfolding answer_group
  answer_group-Good complete acc (scope, messages) all good =
      let group = sort_messages messages in
      elim (Bool-cases (
        not complete
        || has acc.blocked_scopes scope
        || time_inversion group
        || order_repeats group)) [
          | inl blocked ↦ rw (answer_group, blocked) (Ensures-after _ _ λ keys. Ensures-fine _ all)
          | inr free ↦
              rw (answer_group, free)
                (Ensures-bind _ _ λ end_ turned.
                  Ensures-fine _
                    ((Ensures-fold P (answer_message host) group ([], acc) answer_message-Good
                        (sort_messages-All messages good) (tt, all)).holds
                      end_ turned).1)
        ]

-- The message is what a record of the ledger says, one that is not passed over.
abbrev pub InLedger : List Value → Message → Type 0
InLedger records m =
    (r : Value) × (front : List Value) × (back : List Value) × (records ≡ front ++ (r ∷ back))
    × (counts r ≡ true)
    × (message_of r ≡ m)

ledger_members :
    (all front back : List Value)
    → all ≡ front ++ back
    → All (λ r. counts r ≡ true → InLedger all (message_of r)) back
ledger_members all front [] same = tt
ledger_members all front (r ∷ back) same = (
  (λ counted. (r, front, back, same, counted, refl)),
  ledger_members all (front ++ (r ∷ [])) back (same ∙ sym (append-again front r back)),
)

module _ (host : Host) (records previous : List Value) where
  -- The link joins a message that came in and an outreach of the ledger that was sent no later, or it
  -- is one of the previous links, marked as reconciling.
  abbrev pub Attributed : Value → Type 0
  Attributed l = Answers host (InLedger records) l ⊎ IsKept previous l

  weaken :
      (m : List (String × Value))
      → All (OnLink (Answers host (InLedger records))) m
      → All (OnLink Attributed) m
  weaken [] all = tt
  weaken (e ∷ m) (h, all) = (inl h, weaken m all)

  kept_members :
      (ls : List Value)
      → All (λ old. IsKept previous (with_field old "reconciling" (bool true))) ls
      → All (λ old. Attributed (with_field old "reconciling" (bool true))) ls
  kept_members [] all = tt
  kept_members (l ∷ ls) (h, all) = (inr h, kept_members ls all)

  all_links-Attributed :
      (complete : Bool) (found : Links)
      → all_links host records previous complete ≡ fine found
      → All (OnLink Attributed) found.links
  unfolding all_links
  all_links-Attributed complete found h =
      let P = InLedger records in
      let (ledger, read, h1) = bind-fine _ _ _ h in
      let good_ledger =
        (Ensures-fold {Q = GoodLedger host P} (λ r. counts r ≡ true → P (message_of r))
            (read_record host) records _ (λ c r all good. read_record-Good host P c r all good)
            (ledger_members records [] records refl) tt).holds
          ledger read in
      let (grouped, filled, h2) = bind-fine _ _ _ h1 in
      let good_groups =
        (Ensures-fold {Q = GoodGroups host P} (λ (e : String × Message). P e.1)
            (group_message host ledger.ambiguous) ledger.unique ([], ledger.pending)
            (λ c e all good. group_message-Good host P ledger.ambiguous c e all good) good_ledger
            tt).holds
          grouped filled in
      let (answered, step, h3) = bind-fine _ _ _ h2 in
      let good_links =
        (Ensures-fold {Q = GoodLinks host P} (λ (e : String × List Message). All P e.1)
            (answer_group host complete) grouped.0 _
            (λ c e all good. answer_group-Good host P complete c e all good) good_groups tt).holds
          answered step in
      fold-Kept host Attributed complete answered.pending previous answered found
        (kept_members previous (members host previous [] previous refl))
        (weaken answered.links good_links) h3

  -- Each link of the result joins a message that came in and a confirmed outreach that was sent no later,
  -- both of them records of the ledger, or it is a previous link, marked as reconciling.
  pub attribute_responses-Attributed :
      (complete : Bool) (a : Attribution)
      → attribute_responses host records previous complete ≡ fine a
      → All Attributed a.links
  unfolding attribute_responses
  attribute_responses-Attributed complete a h =
      let (_, h1) = need-fine _ _ _ _ h in
      let (found, made, h2) = bind-fine _ _ _ h1 in
      let (before, _, h3) = bind-fine _ _ _ h2 in
      subst (λ (r : Attribution). All Attributed r.links) (fine-fine _ _ h3)
        (All-values Attributed host (sort_by_text found.links)
          (All-sort Attributed found.links (all_links-Attributed complete found made)))
