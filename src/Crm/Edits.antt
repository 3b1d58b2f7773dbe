-- ===== src/Crm/Edits.antt =====
-- The edits of a list in shared/model/crm.js: what they ask of the revision, and what they write.
pub mod Exclusive
use beepa.Prelude.{
  ℕ, suc, String, Bool, true, false, ◌&&◌, some, ◌≡◌, ◌≢◌, refl, sym, arith, if◌then◌else◌, eq_refl,
  Bool-cases, inl, inr, lookup, insert, lookup-insert, get_or, ◌==◌,
}
use beepa.Js.{
  Value, undefined, null, bool, num, arr, obj, get, str, truthy, strictly_equal, entries-of_entries,
}
use beepa.Crm.Checked.{fine, need-fine, fine-fine}
use beepa.Crm.Canonical.{Host}
use beepa.Crm.Format.{with_field, own_entries}
use beepa.Crm.State.{
  Crm, Collection, persons, bindings, lists, memberships, batches, batch_cancellations, current,
  entity, set_entity, same_collection, entry,
}
use beepa.Crm.People.{revision_value}
use beepa.Crm.Lists.{list_monitoring, list_rename, list_archive, list_restore}
use beepa.Crm.Timers.{list_watch, list_contact_obligation, list_obligation, list_seen}
use beepa.Crm.Apply.{
  Kind, handle, list_monitoring_op, list_watch_op, list_contact_obligation_op, list_obligation_op,
  list_seen_op, list_rename_op, list_archive_op, list_restore_op, control_settings_op,
  person_create_op, binding_create_op, binding_update_op, list_create_op, member_set_op,
  member_remove_op, batch_review_op, batch_cancel_op, unknown_op,
}
use beepa.Crm.Ensures.{Ensures, Ensures-bind, Ensures-after, Ensures-then, Ensures-fine}

pub get-own_entries :
    (v : Value) (j : String) → get v j ≡ get_or (lookup j (own_entries v)) undefined
get-own_entries undefined j = refl
get-own_entries null j = refl
get-own_entries (bool b) j = refl
get-own_entries (num n) j = refl
get-own_entries (str t) j = refl
get-own_entries (arr vs) j = refl
get-own_entries (obj fs) j = refl

pub get-with_field :
    (v : Value) (k j : String) (w : Value)
    → get (with_field v k w) j ≡ (if k == j then w else get v j)
unfolding with_field
get-with_field v k j w =
    rw
      (
        entries-of_entries (insert k w (own_entries v)),
        lookup-insert k j w (own_entries v),
        get-own_entries v j,
      )
      (ground arith)

pub get-with_field_same : (v : Value) (k : String) (w : Value) → get (with_field v k w) k ≡ w
get-with_field_same v k w = rw (get-with_field v k k w, eq_refl k) refl

-- What an operation on a list does: it reads the current list and writes one field and the revision.
pub record Edited (state : Crm) (e : String) (b : ℕ) (next : Crm) : Type 0 where
  pub old : Value
  pub field : String
  pub value : Value
  pub is_current : current state lists e (revision_value b) ≡ fine old
  pub result :
      next
      ≡ set_entity state lists e
          (with_field (with_field old field value) "revision" (revision_value (suc b)))

module _ (host : Host) (state : Crm) (e : String) (b : ℕ) (p : Value) where
  edited :
      (old : Value) (k : String) (v : Value)
      → current state lists e (revision_value b) ≡ fine old
      → Ensures (Edited state e b) (
          fine (
            set_entity state lists e
              (with_field (with_field old k v) "revision" (revision_value (suc b)))))
  edited old k v h =
      Ensures-fine _ (record { old = old; field = k; value = v; is_current = h; result = refl })

  list_rename-Edited : Ensures (Edited state e b) (list_rename host state e b p)
  unfolding list_rename
  list_rename-Edited =
      Ensures-then _ _
        (Ensures-bind _ _ λ old h. Ensures-then _ _ (Ensures-then _ _ (edited old _ _ h)))

  list_archive-Edited : Ensures (Edited state e b) (list_archive host state e b p)
  unfolding list_archive
  list_archive-Edited =
      Ensures-then _ _
        (Ensures-bind _ _ λ old h. Ensures-then _ _ (Ensures-then _ _ (edited old _ _ h)))

  list_restore-Edited : Ensures (Edited state e b) (list_restore host state e b p)
  unfolding list_restore
  list_restore-Edited =
      Ensures-then _ _ (Ensures-bind _ _ λ old h. Ensures-then _ _ (edited old _ _ h))

  list_monitoring-Edited : Ensures (Edited state e b) (list_monitoring host state e b p)
  unfolding list_monitoring
  list_monitoring-Edited = Ensures-then _ _ (
      Ensures-then _ _ (
        Ensures-bind _ _ λ old h. Ensures-then _ _ (
          Ensures-then _ _ (
            Ensures-after _ _
              λ r. Ensures-then _ _ (Ensures-then _ _ (Ensures-after _ _ λ q. edited old _ _ h))))))

  list_watch-Edited : Ensures (Edited state e b) (list_watch host state e b p)
  unfolding list_watch
  list_watch-Edited = Ensures-then _ _ (
      Ensures-then _ _ (
        Ensures-bind _ _ λ old h. Ensures-then _ _ (
          Ensures-after _ _ λ r. Ensures-then _ _ (
            Ensures-then _ _ (
              Ensures-then _ _
                (Ensures-then _ _ (Ensures-then _ _ (Ensures-after _ _ λ q. edited old _ _ h))))))))

  list_contact_obligation-Edited :
      Ensures (Edited state e b) (list_contact_obligation host state e b p)
  unfolding list_contact_obligation
  list_contact_obligation-Edited = Ensures-then _ _ (
      Ensures-bind _ _ λ old h. Ensures-then _ _ (
        Ensures-then _ _ (
          Ensures-after _ _ λ key. Ensures-then _ _ (
            Ensures-then _ _
              (Ensures-then _ _ (Ensures-then _ _ (Ensures-after _ _ λ q. edited old _ _ h)))))))

  list_obligation-Edited : Ensures (Edited state e b) (list_obligation host state e b p)
  unfolding list_obligation
  list_obligation-Edited = Ensures-then _ _ (
      Ensures-bind _ _ λ old h. Ensures-then _ _ (
        Ensures-then _ _ (
          Ensures-then _ _ (
            Ensures-then _ _
              (Ensures-then _ _ (Ensures-then _ _ (Ensures-after _ _ λ q. edited old _ _ h)))))))

  list_seen-Edited : Ensures (Edited state e b) (list_seen host state e b p)
  unfolding list_seen
  list_seen-Edited = Ensures-then _ _ (
      Ensures-bind _ _ λ old h. Ensures-then _ _ (
        Ensures-then _ _ (
          Ensures-then _ _
            (Ensures-then _ _ (Ensures-then _ _ (Ensures-after _ _ λ q. edited old _ _ h))))))

-- The kinds of operation that edit a list.
abbrev pub is_list_edit : Kind → Bool
is_list_edit list_monitoring_op = true
is_list_edit list_watch_op = true
is_list_edit list_contact_obligation_op = true
is_list_edit list_obligation_op = true
is_list_edit list_seen_op = true
is_list_edit list_rename_op = true
is_list_edit list_archive_op = true
is_list_edit list_restore_op = true
is_list_edit _ = false

module _ (host : Host) (state : Crm) (e : String) (b : ℕ) (o : String) (p : Value) where
  pub handle-Edited :
      (kind : Kind)
      → is_list_edit kind ≡ true
      → Ensures (Edited state e b) (handle host state kind e b o p)
  unfolding handle
  handle-Edited control_settings_op h = ground (arith, h)
  handle-Edited person_create_op h = ground (arith, h)
  handle-Edited binding_create_op h = ground (arith, h)
  handle-Edited binding_update_op h = ground (arith, h)
  handle-Edited list_create_op h = ground (arith, h)
  handle-Edited member_set_op h = ground (arith, h)
  handle-Edited member_remove_op h = ground (arith, h)
  handle-Edited batch_review_op h = ground (arith, h)
  handle-Edited batch_cancel_op h = ground (arith, h)
  handle-Edited unknown_op h = ground (arith, h)
  handle-Edited list_monitoring_op h = list_monitoring-Edited host state e b p
  handle-Edited list_watch_op h = list_watch-Edited host state e b p
  handle-Edited list_contact_obligation_op h = list_contact_obligation-Edited host state e b p
  handle-Edited list_obligation_op h = list_obligation-Edited host state e b p
  handle-Edited list_seen_op h = list_seen-Edited host state e b p
  handle-Edited list_rename_op h = list_rename-Edited host state e b p
  handle-Edited list_archive_op h = list_archive-Edited host state e b p
  handle-Edited list_restore_op h = list_restore-Edited host state e b p

-- What `current` has checked.
pub current-fine :
    (state : Crm) (c : Collection) (e : String) (base v : Value)
    → current state c e base ≡ fine v
    → (entity state c e ≡ v) × (truthy v ≡ true) × (strictly_equal (get v "revision") base ≡ true)
unfolding current
current-fine state c e base v h =
    let (found, rest) = need-fine _ _ _ _ h in
    let (matches, last) = need-fine _ _ _ _ rest in
    let same = fine-fine _ _ last in (same, rw (sym same) found, rw (sym same) matches)

pub same_collection_refl : (c : Collection) → same_collection c c ≡ true
same_collection_refl persons = refl
same_collection_refl bindings = refl
same_collection_refl lists = refl
same_collection_refl memberships = refl
same_collection_refl batches = refl
same_collection_refl batch_cancellations = refl

pub lookup-set_entity :
    (state : Crm) (c d : Collection) (k j : String) (v : Value)
    → lookup j ((set_entity state c k v).entities d)
      ≡ (if same_collection c d && k == j then some v else lookup j (state.entities d))
unfolding set_entity
lookup-set_entity state c d k j v = elim (Bool-cases (same_collection c d)) [
  | inl h ↦ rw (h) (lookup-insert k j v (state.entities d))
  | inr h ↦ rw (h) refl
]

pub entity-set_entity :
    (state : Crm) (c : Collection) (k : String) (v : Value)
    → entity (set_entity state c k v) c k ≡ v
unfolding entry
entity-set_entity state c k v =
    rw (entry, lookup-set_entity state c c k k v, same_collection_refl c, eq_refl k) refl

-- An accepted edit leaves the list at the next revision.
pub Edited-revision :
    {state next : Crm} {e : String} {b : ℕ}
    → Edited state e b next
    → get (entity next lists e) "revision" ≡ revision_value (suc b)
Edited-revision {state} {next} {e} {b} h =
    rw
      (
        h.result,
        entity-set_entity state lists e
            (with_field (with_field h.old h.field h.value) "revision" (revision_value (suc b))),
        get-with_field_same (with_field h.old h.field h.value) "revision" (revision_value (suc b)),
      )
      refl
