-- ===== src/Crm/Responses.antt =====
-- `attributeResponses` of shared/model/crm.js: which outreach a message of a contact answers.
pub mod Incomplete
pub mod Answered
mod Tests
use beepa.Prelude.{
  ℕ, String, Bool, true, false, not, ◌&&◌, ◌||◌, Option, none, some, List, [], ◌∷◌, ◌++◌, map, has,
  any, length, is_some, get_or, leb, ltb, nat_eq, ◌==◌, if◌then◌else◌, lookup, insert,
}
use beepa.Js.{
  Value, undefined, null, str, num, bool, arr, obj, whole, of_items, of_entries, get, is_text,
  is_true, as_natural, is_nullish, strictly_equal,
}
use beepa.Crm.Checked.{Checked, fine, ◌>>=◌, ◌>>◌, need}
use beepa.Crm.Canonical.{Host, canonical, copy, sort_by_text, text_before}
use beepa.Crm.Format.{
  is_plain, bounded_identity, mxid, generation, text_within, revision, one_of, text_of, with_field,
}
use beepa.Crm.Manifest.{fold_checked}
use beepa.Crm.Batches.Child.{crm_message_key}

-- `normalized`
pub record Message : Type 0 where
  pub owner_mxid : Value
  pub generation : Value
  pub conversation_id : Value
  pub source_id : Value
  pub source_order : ℕ
  pub source_ts : ℕ
  pub direction : String
  pub kind : String
  pub confirmed : Bool
  pub outreach : Bool

-- The variables of the first loop; a set has each of its elements once.
pub record Ledger : Type 0 where
  pub unique : List (String × Message)
  pub ambiguous : List String
  pub pending : List String
  pub blocked_scopes : List String

-- Links with their keys, and the other variables of the loops over the groups and the previous links.
pub record Links : Type 0 where
  pub links : List (String × Value)
  pub pending : List String
  pub blocked_scopes : List String

pub record Attribution : Type 0 where
  pub links : List Value
  pub pending : List String
  pub corrections : List Value
  pub reconciling_scopes : List String

-- `set.add(x)`
abbrev pub add : List String → String → List String
add set x = if has set x then set else set ++ (x ∷ [])

abbrev pub message_value : Message → Value
message_value m = obj (
    of_entries (
      ("owner_mxid", m.owner_mxid)
      ∷ ("generation", m.generation)
      ∷ ("conversation_id", m.conversation_id)
      ∷ ("source_id", m.source_id)
      ∷ ("source_order", num (whole m.source_order))
      ∷ ("source_ts", num (whole m.source_ts))
      ∷ ("direction", str m.direction)
      ∷ ("kind", str m.kind)
      ∷ ("confirmed", bool m.confirmed)
      ∷ ("outreach", bool m.outreach)
      ∷ []))

abbrev pub message_of : Value → Message
message_of r = record {
  owner_mxid = get r "owner_mxid";
  generation = get r "generation";
  conversation_id = get r "conversation_id";
  source_id = get r "source_id";
  source_order = get_or (as_natural (get r "source_order")) 0;
  source_ts = get_or (as_natural (get r "source_ts")) 0;
  direction = text_of (get r "direction");
  kind = text_of (get r "kind");
  confirmed = is_true (get r "confirmed");
  outreach = is_true (get r "outreach");
}

-- Whether a record is not passed over.
unfoldable pub counts : Value → Bool
unfolding bounded_identity mxid text_within
counts r =
    is_plain r
    && is_true (get r "trusted")
    && bounded_identity mxid (get r "owner_mxid")
    && generation (get r "generation")
    && text_within 256 (get r "conversation_id")
    && one_of ("text" ∷ "media" ∷ []) (get r "kind")
    && not (is_true (get r "edit"))
    && not (is_true (get r "self_echo"))
    && one_of ("incoming" ∷ "outgoing" ∷ []) (get r "direction")

-- `a` does not come after `b` in a group.
abbrev pub message_before : Message → Message → Bool
message_before a b =
    ltb a.source_order b.source_order
    || (nat_eq a.source_order b.source_order
        && text_before (text_of a.source_id) (text_of b.source_id))

abbrev pub insert_message : Message → List Message → List Message
insert_message m [] = m ∷ []
insert_message m (n ∷ ns) =
    let rest = insert_message m ns in if message_before m n then m ∷ n ∷ ns else n ∷ rest

-- `group.sort(...)`, which is stable.
abbrev pub sort_messages : List Message → List Message
sort_messages [] = []
sort_messages (m ∷ ms) = insert_message m (sort_messages ms)

-- Whether two messages have one place in the conversation.
abbrev pub order_repeats : List Message → Bool
order_repeats [] = false
order_repeats (m ∷ ms) =
    any (λ (n : Message). nat_eq n.source_order m.source_order) ms || order_repeats ms

abbrev pub time_inversion : List Message → Bool
time_inversion [] = false
time_inversion (m ∷ []) = false
time_inversion (m ∷ n ∷ ms) = ltb n.source_ts m.source_ts || time_inversion (n ∷ ms)

abbrev pub link_value : Message → Message → Value
link_value r outgoing = obj (
    of_entries (
      ("rule_version", num (whole 1))
      ∷ ("owner_mxid", r.owner_mxid)
      ∷ ("generation", r.generation)
      ∷ ("conversation_id", r.conversation_id)
      ∷ ("incoming_id", r.source_id)
      ∷ ("outgoing_id", outgoing.source_id)
      ∷ ("incoming_order", num (whole r.source_order))
      ∷ ("outgoing_order", num (whole outgoing.source_order))
      ∷ []))

abbrev pub add_all : List String → List String → List String
add_all set [] = set
add_all set (x ∷ xs) = add_all (add set x) xs

-- `[...new Set(xs)].sort()`
abbrev pub sorted_set : List String → List String
sorted_set xs =
    map (λ (e : String × Bool). e.0) (sort_by_text (map (λ x. (x, true)) (add_all [] xs)))

module _ (host : Host) where
  -- `scopeKey(r)`
  unfoldable pub scope_key : Value → Checked String
  unfolding canonical
  scope_key r =
      canonical host
        (arr (of_items (get r "owner_mxid" ∷ get r "generation" ∷ get r "conversation_id" ∷ [])))

  -- `linkKey(l)`
  unfoldable pub link_key : Value → Checked String
  unfolding canonical
  link_key l = canonical host (
      arr (
        of_items (
          get l "owner_mxid"
          ∷ get l "generation"
          ∷ get l "conversation_id"
          ∷ get l "incoming_id"
          ∷ [])))

  -- A record that is seen under a key.
  unfoldable pub add_message : Ledger → String → String → Message → Checked Ledger
  unfolding canonical
  add_message ledger key scope m = elim (lookup key ledger.unique) [
    | none ↦ fine (record ledger { unique = insert key m ledger.unique })
    | some old ↦ canonical host (message_value old) >>= λ before.
        canonical host (message_value m) >>= λ now. fine (
          if not (before == now)
          then record ledger {
            ambiguous = add ledger.ambiguous key;
            blocked_scopes = add ledger.blocked_scopes scope;
          }
          else record ledger { unique = insert key m ledger.unique })
  ]

  -- A turn of the first loop.
  unfoldable pub read_record : Ledger → Value → Checked Ledger
  unfolding counts text_within scope_key crm_message_key add_message
  read_record ledger r =
      if not (counts r)
      then fine ledger
      else (scope_key r >>= λ scope.
          if not (text_within 512 (get r "source_id"))
          then fine (record ledger { blocked_scopes = add ledger.blocked_scopes scope })
          else (crm_message_key host r >>= λ key.
              if not (revision (get r "source_order") && revision (get r "source_ts"))
              then fine (record ledger {
                pending = ledger.pending ++ (key ∷ []);
                blocked_scopes = add ledger.blocked_scopes scope;
              })
              else add_message ledger key scope (message_of r)))

  -- A turn of the loop that fills `groups`, with the pending keys.
  unfoldable pub group_message :
      List String
      → List (String × List Message) × List String
      → String × Message
      → Checked (List (String × List Message) × List String)
  unfolding scope_key
  group_message ambiguous (groups, pending) (key, m) = scope_key (message_value m) >>= λ scope.
      fine (
        if has ambiguous key
        then (groups, pending ++ (key ∷ []))
        else (insert scope (get_or (lookup scope groups) [] ++ (m ∷ [])) groups, pending))

  -- A turn of the loop over a sorted group; the newest unanswered outreach comes first.
  unfoldable pub answer_message : List Message × Links → Message → Checked (List Message × Links)
  unfolding crm_message_key link_key
  answer_message ([], acc) r =
      if r.direction == "outgoing" && r.confirmed && r.outreach
      then fine ((r ∷ []), acc)
      else fine ([], acc)
  answer_message (outgoing ∷ older, acc) r =
      if r.direction == "outgoing"
      then fine
          ((if r.confirmed && r.outreach then r ∷ outgoing ∷ older else outgoing ∷ older), acc)
      else if ltb r.source_ts outgoing.source_ts
      then (crm_message_key host (message_value r) >>= λ key.
          fine (outgoing ∷ older, record acc { pending = acc.pending ++ (key ∷ []) }))
      else (link_key (link_value r outgoing) >>= λ key.
          fine (older, record acc { links = acc.links ++ ((key, link_value r outgoing) ∷ []) }))

  -- The keys of a group.
  unfoldable pub message_keys : List Message → Checked (List String)
  unfolding crm_message_key
  message_keys [] = fine []
  message_keys (m ∷ ms) =
      crm_message_key host (message_value m) >>= λ k. message_keys ms >>= λ ks. fine (k ∷ ks)

  -- A turn of the loop over the groups.
  unfoldable pub answer_group : Bool → Links → String × List Message → Checked Links
  unfolding answer_message message_keys
  answer_group complete acc (scope, messages) =
      let group = sort_messages messages in
      if not complete || has acc.blocked_scopes scope || time_inversion group || order_repeats group
      then (message_keys group >>= λ keys. fine (record acc {
        pending = acc.pending ++ keys;
        blocked_scopes = add acc.blocked_scopes scope;
      }))
      else (fold_checked answer_message ([], acc) group >>= λ end_. fine end_.1)

  -- The links with a previous one, unless its key has a link.
  unfoldable pub with_previous :
      List (String × Value) → String → Value → Checked (List (String × Value))
  unfolding copy with_field
  with_previous links key old =
      if is_some (lookup key links)
      then fine links
      else (copy host old >>= λ copied.
          fine (links ++ ((key, with_field copied "reconciling" (bool true)) ∷ [])))

  -- A turn of the loop over the previous links, with the keys that were pending before it. A link that
  -- has no key throws, here or where `before` is made.
  unfoldable pub keep_previous : Bool → List String → Links → Value → Checked Links
  unfolding scope_key link_key with_previous
  keep_previous complete pending_keys acc old = scope_key old >>= λ scope. link_key old >>= λ key.
      if not complete || has acc.blocked_scopes scope || has pending_keys key
      then (with_previous acc.links key old >>= λ links.
          fine (record acc { links = links; pending = acc.pending ++ (key ∷ []) }))
      else fine acc

  abbrev pub keyed : List Value → Checked (List (String × Value))
  keyed [] = fine []
  keyed (l ∷ ls) = link_key l >>= λ k. keyed ls >>= λ m. fine ((k, l) ∷ m)

  -- `new Map(entries)`
  abbrev pub as_map : List (String × Value) → List (String × Value) → List (String × Value)
  as_map m [] = m
  as_map m ((k, v) ∷ more) = as_map (insert k v m) more

  abbrev pub or_null_value : Value → Value
  or_null_value v = if is_nullish v then null else v

  -- The loop for `corrections`; a key that only `after` has makes none.
  abbrev pub corrections_of : List (String × Value) → List (String × Value) → List (String × Value)
  corrections_of [] after = []
  corrections_of ((key, old) ∷ before) after =
      let next = get_or (lookup key after) undefined in
      let rest = corrections_of before after in
      if not (is_some (lookup key after))
        || not (strictly_equal (get old "outgoing_id") (get next "outgoing_id"))
      then (
        key,
        obj (
            of_entries (
              ("incoming_key", str key)
              ∷ ("previous_outgoing_id", get old "outgoing_id")
              ∷ ("outgoing_id", or_null_value (get next "outgoing_id"))
              ∷ ("rule_version", num (whole 1))
              ∷ [])),
      )
        ∷ rest
      else rest

  abbrev pub values_of : List (String × Value) → List Value
  values_of m = map (λ (e : String × Value). e.1) m

  -- The links before they are sorted.
  unfoldable pub all_links : List Value → List Value → Bool → Checked Links
  unfolding read_record group_message answer_group keep_previous
  all_links records previous complete = do
    ledger ←
        fold_checked read_record
          (record { unique = []; ambiguous = []; pending = []; blocked_scopes = [] }) records
    grouped ← fold_checked (group_message ledger.ambiguous) ([], ledger.pending) ledger.unique
    answered ←
        fold_checked (answer_group complete)
          (record { links = []; pending = grouped.1; blocked_scopes = ledger.blocked_scopes })
          grouped.0
    fold_checked (keep_previous complete answered.pending) answered previous

  -- `attributeResponses(records, { previousLinks, complete })`
  unfoldable pub attribute_responses : List Value → List Value → Bool → Checked Attribution
  unfolding all_links sort_by_text
  attribute_responses records previous complete = do
    need (leb (length records) 100000) "ledger-too-large"
    found ← all_links records previous complete
    before ← keyed previous
    let links = sort_by_text found.links
    fine (record {
      links = values_of links;
      pending = sorted_set found.pending;
      corrections = values_of (sort_by_text (corrections_of (as_map [] before) (as_map [] links)));
      reconciling_scopes = sorted_set found.blocked_scopes;
    })
