-- ===== src/Crm/Tests.antt =====
-- Runs of the CRM model of shared/model/crm.js.
use beepa.Prelude.{false, ◌⊎◌, ◌≤◌, ◌<◌, ◌+◌, ◌*◌, ℕ, String, none, List, [], ◌∷◌, ◌≡◌, refl, ◌==◌}
use beepa.Js.{Value, Number, finite, str, num, obj, arr, of_entries, of_items, whole, get}
use beepa.Crm.Checked.{fine, ◌>>=◌, ◌>>◌, need}
use beepa.Crm.Canonical.{Host, canonical, hex_digit}
use beepa.Crm.Format.{id_text, with_field}
use beepa.Crm.Monitoring.{monitoring_reminder_slot}
use beepa.Crm.State.{Crm, lists, create_crm_state, set_entity, entity, entry}
use beepa.Crm.Manifest.{validate_manifest}
use beepa.Crm.Timers.{list_seen, big_int}
use beepa.Crm.Apply.{apply_crm_operation, envelope}
use beepa.Crm.Edits.Exclusive
use beepa.Crm.Replay.{SameVerdict}
use beepa.Crm.History
use beepa.Crm.History.{begin, followed_by, Preserves}
use beepa.Crm.Slots
use beepa.Crm.Verified.{apply_verified_crm_operation}
use beepa.Crm.Verified.Integrity
use beepa.Crm.Verified.Integrity.{AllVerified}
use beepa.Crm.Seen
use beepa.Crm.Seen.{mark, is_same_line}
use beepa.Crm.Recipients
use beepa.Crm.Recipients.{Addressed}
use beepa.Crm.Links.Reached
use beepa.Crm.Links.Reached.{LinksOnce}

abbrev digit_text : Number → String
digit_text (finite negative m f) = hex_digit m
digit_text _ = "null"

abbrev pub host : Host
host = record { number_text = digit_text; is_timezone = λ z. z == "UTC" }

abbrev pub empty_crm : Crm
empty_crm = record {
  workspace_id = "!w:h";
  manager_mxid = "@m:h";
  control = none;
  entities = λ _. [];
  operations = [];
}

abbrev pub object : List (String × Value) → Value
object fs = obj (of_entries fs)

abbrev operation : String → String → String → ℕ → Value → Value
operation op_id type entity_id base payload = object (
    ("schema", num (whole 1))
    ∷ ("op_id", str op_id)
    ∷ ("workspace_id", str "!w:h")
    ∷ ("type", str type)
    ∷ ("entity_id", str entity_id)
    ∷ ("base_revision", num (whole base))
    ∷ ("payload", payload)
    ∷ [])

abbrev pub make_person : Value
make_person = operation "o1" "person.create" "p1" 0 (object (("label", str "Ann") ∷ []))

abbrev pub make_list : Value
make_list = operation "o2" "list.create" "l1" 0 (object (("name", str "Leads") ∷ []))

abbrev with_person : Crm
with_person = (apply_crm_operation host empty_crm make_person).state

made : (apply_crm_operation host empty_crm make_person).outcome.code ≡ "accepted"
unfolding apply_crm_operation ◌>>=◌ ◌>>◌ need id_text
made = refl

abbrev contact : Value
contact = object (("source", str "signal") ∷ ("network_id", str "n1") ∷ [])

abbrev pub make_binding : Value
make_binding = operation "o3" "binding.create" "b1" 0 (
    object (
      ("person_id", str "p1")
      ∷ ("owner_mxid", str "@a:h")
      ∷ ("generation", str "g")
      ∷ ("contact", contact)
      ∷ ("contact_version", str "v1")
      ∷ []))

abbrev pub make_member : Value
make_member =
    operation "o4" "member.set" "m1" 0
      (object (("list_id", str "l1") ∷ ("person_id", str "p1") ∷ ("binding_id", str "b1") ∷ []))

abbrev after : Crm → Value → Crm
after state op = (apply_crm_operation host state op).state

abbrev with_list : Crm
with_list = after with_person make_list

abbrev pub with_member : Crm
with_member = after (after with_list make_binding) make_member

abbrev pub route : Value
route = object (
    ("mode", str "direct_existing")
    ∷ ("source", str "signal")
    ∷ ("network_id", str "n1")
    ∷ ("consent_revision", num (whole 0))
    ∷ ("room_id", str "!r:h")
    ∷ [])

abbrev item : Value
item = object (
    ("item_id", str "i1")
    ∷ ("person_id", str "p1")
    ∷ ("binding_id", str "b1")
    ∷ ("binding_revision", num (whole 1))
    ∷ ("membership_revision", num (whole 1))
    ∷ ("membership_operation_id", str "o4")
    ∷ ("contact_version", str "v1")
    ∷ ("owner_mxid", str "@a:h")
    ∷ ("generation", str "g")
    ∷ ("child_id", str "child-aaaaaaaaaaaaaaaaaaaaaaaaaaaaaaaaaaaaaaaaaaaaaaaaaaaaaaaaaaaaaaaa")
    ∷ ("proposal_room_id", str "!q:h")
    ∷ ("route", route)
    ∷ ("body", str "Hello")
    ∷ [])

abbrev child : Value
child = object (
    ("child_id", str "child-aaaaaaaaaaaaaaaaaaaaaaaaaaaaaaaaaaaaaaaaaaaaaaaaaaaaaaaaaaaaaaaa")
    ∷ ("owner_mxid", str "@a:h")
    ∷ ("generation", str "g")
    ∷ ("journal_epoch", str "j")
    ∷ ("proposal_room_id", str "!q:h")
    ∷ ("item_ids", arr (of_items (str "i1" ∷ [])))
    ∷ [])

abbrev pub manifest : Value
manifest = object (
    ("schema", num (whole 1))
    ∷ ("batch_id", str "t1")
    ∷ ("workspace_id", str "!w:h")
    ∷ ("manager_mxid", str "@m:h")
    ∷ ("list_id", str "l1")
    ∷ ("list_revision", num (whole 1))
    ∷ ("reviewed_at", num (whole 5))
    ∷ ("items", arr (of_items (item ∷ [])))
    ∷ ("children", arr (of_items (child ∷ [])))
    ∷ ("payload_hash", str "aaaaaaaaaaaaaaaaaaaaaaaaaaaaaaaaaaaaaaaaaaaaaaaaaaaaaaaaaaaaaaaa")
    ∷ [])

made_member :
    (apply_crm_operation host (after with_list make_binding) make_member).outcome.code ≡ "accepted"
unfolding apply_crm_operation ◌>>=◌ ◌>>◌ need id_text
made_member = refl

reviewed : validate_manifest host with_member manifest ≡ fine tt
unfolding apply_crm_operation validate_manifest ◌>>=◌ ◌>>◌ need id_text
reviewed = refl

-- The names that every object inherits pass for entities: a membership is made in a list that is not there.
abbrev make_stray_member : Value
make_stray_member =
    operation "o5" "member.set" "m2" 0 (
      object
        (("list_id", str "toString") ∷ ("person_id", str "p1") ∷ ("binding_id", str "b1") ∷ []))

stray_member : (apply_crm_operation host with_member make_stray_member).outcome.code ≡ "accepted"
unfolding apply_crm_operation ◌>>=◌ ◌>>◌ need id_text
stray_member = refl

verdict_final_example :
    ((apply_crm_operation host with_list make_person).state ≡ with_list)
    × SameVerdict
        (apply_crm_operation host with_list make_person).outcome
        (apply_crm_operation host empty_crm make_person).outcome
unfolding apply_crm_operation envelope ◌>>=◌ ◌>>◌ need id_text
verdict_final_example =
    History.verdict_final host empty_crm with_list make_person _ refl refl refl
      (followed_by make_list begin)

History-Preserves_example : Preserves empty_crm with_list
History-Preserves_example =
    History.History-Preserves host empty_crm with_list
      (followed_by make_list (followed_by make_person begin))

-- A person under a name that is taken.
abbrev stale_person : Value
stale_person = operation "o6" "person.create" "p1" 0 (object (("label", str "Bob") ∷ []))

refused_keeps_example :
    ((apply_crm_operation host with_person stale_person).state.entities ≡ with_person.entities)
    × ((apply_crm_operation host with_person stale_person).state.control ≡ with_person.control)
unfolding apply_crm_operation ◌>>=◌ ◌>>◌ need id_text
refused_keeps_example = History.refused_keeps host with_person stale_person refl

abbrev new_name : String → Value
new_name name = object (("name", str name) ∷ [])

abbrev rename : Value
rename = operation "o7" "list.rename" "l1" 1 (new_name "Calls")

-- The list is archived at its first revision, after it was renamed and a person was added.
abbrev stale_archive : Value
stale_archive = operation "o8" "list.archive" "l1" 1 (object [])

abbrev another_person : Value
another_person = operation "o11" "person.create" "p2" 0 (object (("label", str "Cy") ∷ []))

list_edits_exclusive_example :
    (apply_crm_operation host
      (after (after with_list rename) another_person)
      stale_archive).outcome.accepted
    ≡ false
unfolding apply_crm_operation envelope entry ◌>>=◌ ◌>>◌ need id_text
list_edits_exclusive_example =
    Exclusive.list_edits_exclusive host with_list (after (after with_list rename) another_person)
      rename stale_archive _ refl refl refl refl refl (followed_by another_person begin) refl refl
      refl refl

monitoring_reminder_slot-bounds_example :
    (100000 ≤ 160000)
    × (160000 ≤ 200000)
    × (200000 < 160000 + 60000)
    × (k : ℕ) × (160000 ≡ 100000 + k * 60000)
unfolding monitoring_reminder_slot
monitoring_reminder_slot-bounds_example =
    Slots.monitoring_reminder_slot-bounds (num (whole 100000)) (num (whole 60000)) 200000 160000
      100000 60000 refl refl refl

validate_manifest-Addressed_example : Addressed with_member manifest
unfolding apply_crm_operation validate_manifest ◌>>=◌ ◌>>◌ need id_text
validate_manifest-Addressed_example =
    Recipients.validate_manifest-Addressed host with_member manifest refl

create_crm_state-LinksOnce_example : LinksOnce host with_member
unfolding create_crm_state ◌>>=◌ ◌>>◌ need
create_crm_state-LinksOnce_example =
    Reached.create_crm_state-LinksOnce host (str "!w:h") (str "@m:h") empty_crm with_member refl (
      followed_by make_member
        (followed_by make_binding (followed_by make_list (followed_by make_person begin))))

abbrev read_mark : String → Value
read_mark at = object (
    ("room_id", str "!r:h")
    ∷ ("owner_mxid", str "@a:h")
    ∷ ("event_id", str "$e")
    ∷ ("source_order", str at)
    ∷ ("bridge_epoch", str "b")
    ∷ ("generation", str "g")
    ∷ [])

abbrev marked : Crm
marked = after with_list (operation "o9" "list.seen" "l1" 1 (read_mark "10"))

abbrev marked_again : Crm
marked_again = set_entity marked lists "l1" (
    with_field
      (with_field (entity marked lists "l1") "seen"
        (with_field (get (entity marked lists "l1") "seen") "!r:h" (read_mark "12")))
      "revision" (num (whole 3)))

list_seen-order_example :
    ((t : String) × (canonical host (read_mark "12") ≡ fine t)
      × (canonical host (mark marked_again "l1" (read_mark "12")) ≡ fine t))
    × ((is_same_line (mark marked "l1" (read_mark "12")) (read_mark "12") ≡ false)
        ⊎ (big_int (get (mark marked "l1" (read_mark "12")) "source_order")
            ≤ big_int (get (mark marked_again "l1" (read_mark "12")) "source_order")))
unfolding apply_crm_operation entry list_seen ◌>>=◌ ◌>>◌ need id_text
list_seen-order_example = Seen.list_seen-order host marked "l1" 2 (read_mark "12") marked_again refl

abbrev pub hash : String → String
hash text = "aaaaaaaaaaaaaaaaaaaaaaaaaaaaaaaaaaaaaaaaaaaaaaaaaaaaaaaaaaaaaaaa"

abbrev pub make_batch : Value
make_batch = operation "o10" "batch.review" "t1" 0 manifest

abbrev with_batch : Crm
with_batch = (apply_verified_crm_operation host hash with_member make_batch).state

made_batch :
    (apply_verified_crm_operation host hash with_member make_batch).outcome.code ≡ "accepted"
unfolding apply_crm_operation apply_verified_crm_operation ◌>>=◌ ◌>>◌ need id_text
made_batch = refl

abbrev pub verified : Crm → Value → Crm
verified state op = (apply_verified_crm_operation host hash state op).state

create_crm_state-AllVerified_example : AllVerified host hash (
    verified
      (verified
        (verified (verified (verified empty_crm make_person) make_list) make_binding)
        make_member)
      make_batch)
unfolding create_crm_state ◌>>=◌ ◌>>◌ need
create_crm_state-AllVerified_example =
    Integrity.create_crm_state-AllVerified host hash (str "!w:h") (str "@m:h") empty_crm _ refl (
      Integrity.followed_by make_batch (
        Integrity.followed_by make_member (
          Integrity.followed_by make_binding
            (Integrity.followed_by make_list (Integrity.followed_by make_person Integrity.begin)))))
