-- ===== src/Routing/Observe.antt =====
-- `observe` of master/notification-routing.mjs.
use beepa.Prelude.{
  ℕ, suc, max, String, Bool, not, ◌&&◌, ◌||◌, none, some, List, [], ◌∷◌, ◌++◌, has, length, leb,
  ltb, ◌==◌, if◌then◌else◌, is_some, map,
}
use beepa.Js.{Value, get, as_natural, utf16_length}
use beepa.Crm.Checked.{Checked, fine, ◌>>=◌, ◌>>◌, need}
use beepa.Crm.Canonical.{canonical}
use beepa.Crm.Format.{is_plain, is_array, elements, revision, text_of, string_test}
use beepa.Crm.Monitoring.{Routing, monitoring_routing}
use beepa.Routing.Identity.{
  Engine, is_message, notification_matches, notification_identity, natural_of,
}
use beepa.Routing.Tables.{Route, Rule, Tables, route_of}

pub record Prepared : Type 0 where
  pub rule : Value
  pub policy : Routing

abbrev list_id_ok : Value → Bool
list_id_ok v = string_test (λ s. not (s == "") && leb (utf16_length s) 256) v

-- `r.delivery_slot` lies between the deadline and the slot.
abbrev slot_ok : Value → Value → Bool
slot_ok source r =
    is_some (as_natural (get r "delivery_slot"))
    && leb (natural_of (get source "due")) (natural_of (get r "delivery_slot"))
    && leb (natural_of (get r "delivery_slot")) (natural_of (get source "slot"))

-- The rules in order; `seen` are the lists before.
unfoldable pub prepare : Value → List String → List Value → Checked (List Prepared)
unfolding utf16_length notification_matches monitoring_routing
prepare source seen [] = fine []
prepare source seen (r ∷ rs) =
    need
      (is_plain r
        && list_id_ok (get r "list_id")
        && not (has seen (text_of (get r "list_id")))
        && revision (get r "revision")
        && notification_matches source r)
      "Invalid notification rule"
    >> need (is_message source || slot_ok source r) "Invalid reminder rule slot"
    >> monitoring_routing r
    >>= λ policy. prepare source (text_of (get r "list_id") ∷ seen) rs >>= λ more.
        fine (record { rule = r; policy = policy } ∷ more)

abbrev pub new_rule : String → Value → Prepared → Rule
new_rule i source p = record {
  id = i;
  list_id = text_of (get p.rule "list_id");
  revision = natural_of (get p.rule "revision");
  policy = p.policy;
  slot = if is_message source then none else as_natural (get p.rule "delivery_slot");
  chosen = p.policy.primary;
  state = "active";
}

-- The `rowid` that SQLite gives: one more than the largest.
abbrev pub next_sequence : List Route → ℕ
next_sequence [] = 1
next_sequence (r ∷ rs) = max (suc r.sequence) (next_sequence rs)

pub record Observed : Type 0 where
  pub db : Tables
  pub id : String

-- `observe`; the two inserts stand in one transaction.
unfoldable pub observe : Engine → ℕ → Tables → Value → Value → Checked Observed
unfolding notification_identity canonical prepare
observe engine now db source rules = do
  i ← notification_identity engine source
  text ← canonical engine.host source
  need (is_array rules && ltb 0 (length (elements rules)) && leb (length (elements rules)) 50)
      "Invalid notification rules"
  prepared ← prepare source [] (elements rules)
  elim (route_of db i) [
    | some old ↦
        need (old.text == text) "Notification identity changed" >> fine (record { db = db; id = i })
    | none ↦ fine (record {
      db = record {
        routes =
            db.routes
            ++ (record {
              id = i;
              sequence = next_sequence db.routes;
              source = source;
              text = text;
              created = now;
            }
                ∷ []);
        rules = db.rules ++ map (new_rule i source) prepared;
        attempts = db.attempts;
        cursor = db.cursor;
      };
      id = i;
    })
  ]
