-- ===== src/CrmStore/Tests.antt =====
-- Runs of the store of apps/master/crm-store.js.
use beepa.Prelude.{String, true, false, none, some, List, [], ◌∷◌, ◌≡◌, refl, inl, arith}
use beepa.Js.{Value, str, num, whole, arr, of_items}
use beepa.Crm.Checked.{Checked, fine, refused, need, ◌>>=◌, ◌>>◌}
use beepa.Crm.Canonical.{canonical}
use beepa.Crm.State.{Crm, Outcome}
use beepa.Crm.Tests.{
  host, make_person, object, hash, verified, empty_crm, make_list, make_binding, make_member,
  make_batch,
}
use beepa.Crm.Verified.Integrity.{AllVerified}
use beepa.CrmStore.Tasks.{Store, Outside, resume, new_store}
use beepa.CrmStore.{refresh}
use beepa.CrmStore.Entries.{crm_operation_type, is_page, is_own}
use beepa.Crm.Format.{id_text, event_text}
use beepa.CrmStore.Append.{append}
use beepa.CrmStore.Append.Outcomes
use beepa.CrmStore.Append.Outcomes.{Reported}
use beepa.CrmStore.Finished
use beepa.CrmStore.Runs.{Runs}
use beepa.CrmStore.Replayed.Pages.{StandsFor, Quiet}
use beepa.CrmStore.Replayed.Refreshed

-- A server that has answers ready, for a store that nothing else uses.
record Server : Type 0 where
  pub store : Store
  pub answers : List Value

abbrev answer : List Value → Server → Server × Checked Value
answer [] w = (w, refused "HTTP 500")
answer (a ∷ as_) w = (record w { answers = as_ }, fine a)

abbrev server : Outside
server = record {
  World = Server;
  store = λ w. w.store;
  set_store = λ s w. record w { store = s };
  is_current = λ w. true;
  bootstrap = λ w. (
    w,
    fine (
        object (
          ("manager_mxid", str "@m:h")
          ∷ ("schema_version", num (whole 1))
          ∷ ("room_id", str "!w:h")
          ∷ [])),
  );
  api = λ method path body w. answer w.answers w;
  hashing = λ w. w;
  on_change = λ w. w;
  refreshing = λ w. none;
  encode = λ text. text;
}

abbrev event : String → Value → Value
event id content = object (
    ("event_id", str id)
    ∷ ("sender", str "@m:h")
    ∷ ("type", str crm_operation_type)
    ∷ ("content", content)
    ∷ [])

abbrev page : List Value → List (String × Value) → Value
page events more = object (("chunk", arr (of_items events)) ∷ more)

-- Two pages, of which the second repeats an event, and then what a write and the next read answer.
abbrev world : Server
world = record {
  store = new_store;
  answers =
      page (event "$e1" make_person ∷ []) (("end", str "c1") ∷ [])
      ∷ page (event "$e1" make_person ∷ []) []
      ∷ [];
}

abbrev written : Server
written = record {
  store = new_store;
  answers =
      page [] []
      ∷ object (("event_id", str "$e1") ∷ [])
      ∷ page (event "$e1" make_person ∷ []) []
      ∷ [];
}

abbrev accepted : Outcome
accepted = record { accepted = true; code = "accepted"; duplicate = false }

calm : (w : Server) (as_ : List Value) → Quiet host hash "@m:h" server w (answer as_ w).0
calm w [] = inl refl
calm w (a ∷ as_) = inl refl

refresh_ready : (refresh host hash "@m:h" server world).0.store.ready ≡ true
unfolding refresh resume need id_text ◌>>=◌ ◌>>◌
refresh_ready = refl

refresh-StandsFor_example :
    Runs
      (λ w. StandsFor host hash "@m:h" server (server.store w))
      (λ w a. StandsFor host hash "@m:h" server (server.store w))
      (refresh host hash "@m:h" server world)
refresh-StandsFor_example =
    Refreshed.refresh-StandsFor host hash "@m:h" server (λ s w. refl)
      (λ method path body w. calm w w.answers) (λ w. inl refl) (λ w. inl refl) (λ w. inl refl)
      (λ w pending good h. ground (h, arith)) world (inl (refl, refl, refl))

append-Reported_example :
    (serialized : String) × (canonical host make_person ≡ fine serialized)
    × Reported host hash "@m:h" server make_person serialized
        (append host hash "@m:h" server make_person written).0
        (record { outcome = accepted; event_id = some "$e1" })
unfolding append resume need id_text ◌>>=◌ ◌>>◌
append-Reported_example =
    Outcomes.append-Reported host hash "@m:h" server make_person written _ _ refl

abbrev reviewed : Server
reviewed = record {
  store = new_store;
  answers =
      page
        (event "$e1" make_person
          ∷ event "$e2" make_list
          ∷ event "$e3" make_binding
          ∷ event "$e4" make_member
          ∷ event "$e5" make_batch
          ∷ [])
        []
      ∷ [];
}

abbrev reviewed_state : Crm
reviewed_state =
    verified
      (verified (verified (verified (verified empty_crm make_person) make_list) make_binding)
        make_member)
      make_batch

refresh-AllVerified_example : AllVerified host hash reviewed_state
unfolding refresh resume need id_text ◌>>=◌ ◌>>◌
refresh-AllVerified_example =
    Refreshed.refresh-AllVerified host hash "@m:h" server (λ s w. refl)
      (λ method path body w. calm w w.answers) (λ w. inl refl) (λ w. inl refl) (λ w. inl refl)
      (λ w pending good h. ground (h, arith)) reviewed reviewed_state (inl (refl, refl, refl)) refl

-- A store that has its room already.
abbrev bound : Server
bound = record world { store = record new_store { room_id = some "!w:h"; state = some empty_crm } }

refresh-finishes_example :
    (after : Server) × (refresh host hash "@m:h" server bound ≡ (after, fine tt))
    × (after.store.ready ≡ true)
unfolding event_text is_page is_own
refresh-finishes_example =
    Finished.refresh-finishes host hash "@m:h" server (λ w. refl) (λ w. refl) "!w:h" (λ s w. refl)
      (λ w. refl) (λ w. refl) empty_crm
      (page (event "$e1" make_person ∷ []) (("end", str "c1") ∷ []) ∷ [])
      (page (event "$e1" make_person ∷ []) []) bound refl refl refl (omega arith)
      (
        _,
        "c1",
        refl,
        refl,
        refl,
        ((refl, refl, refl, refl), tt),
        refl,
        refl,
        refl,
        (_, refl, refl, refl, ((refl, refl, refl, refl), tt), refl),
      )
