-- ===== src/Contacts/Rooms/Linking.antt =====
-- The store after `linkRoom` and `unlinkRoom` of shared/model/contacts.js.
use mathlib.Core.Path.{subst}
use beepa.Prelude.{
  String, true, false, List, [], ◌∷◌, ◌++◌, ◌≡◌, refl, sym, ap₂, arith, eq_iff, eq_refl, has, any,
  All, map, ◌&&◌, ◌==◌, Bool-cases, inl, inr, if◌then◌else◌,
}
use beepa.Js.{Value}
use beepa.Matrix.Client.{room_id}
use beepa.Contacts.Profile.{Profile, handle_key, is_named, normalize_profiles, text_or_empty}
use beepa.Contacts.Profile.WellFormed.{
  NodupText, Avoids, Kept, rooms_of, handles_of, IsWellFormed, has-append, All-append, Kept-append,
  normalize_profiles-IsWellFormed,
}
use beepa.Contacts.Profile.Idempotent.{append-Kept, has-append-false, append-All, Avoids-nil}
use beepa.Contacts.Rooms.Texts.{
  without, has-without, without-append, without-NodupText, without-All,
}
use beepa.Contacts.Rooms.{has_id, detach_room, attach_room, link_room, unlink_room}

-- A change of every profile that keeps ids and handles.
module _ (f : Profile → Profile) (same_id : (p : Profile) → (f p).id ≡ p.id)
    (same_handles : (p : Profile) → (f p).handle_ids ≡ p.handle_ids) where
  ids_of-map :
      (ps : List Profile) → map (λ (p : Profile). p.id) (map f ps) ≡ map (λ (p : Profile). p.id) ps
  ids_of-map [] = refl
  ids_of-map (p ∷ ps) = ap₂ (λ x xs. x ∷ xs) (same_id p) (ids_of-map ps)

  handles_of-map : (ps : List Profile) → handles_of (map f ps) ≡ handles_of ps
  handles_of-map [] = refl
  handles_of-map (p ∷ ps) =
      ap₂ (λ hs rest. map handle_key hs ++ rest) (same_handles p) (handles_of-map ps)

  ids_full-map :
      (ps : List Profile)
      → All (λ (p : Profile). (p.id == "") ≡ false) ps
      → All (λ (p : Profile). (p.id == "") ≡ false) (map f ps)
  ids_full-map [] h = tt
  ids_full-map (p ∷ ps) (a, h) = (rw (same_id p) a, ids_full-map ps h)

  handles_named-map :
      (ps : List Profile)
      → All (λ (p : Profile). All (λ h. is_named h ≡ true) p.handle_ids) ps
      → All (λ (p : Profile). All (λ h. is_named h ≡ true) p.handle_ids) (map f ps)
  handles_named-map [] h = tt
  handles_named-map (p ∷ ps) (a, h) = (rw (same_handles p) a, handles_named-map ps h)

  pub map-IsWellFormed :
      (server : String) (ps : List Profile)
      → IsWellFormed server ps
      → NodupText (rooms_of (map f ps))
      → All (λ r. room_id server r ≡ true) (rooms_of (map f ps))
      → IsWellFormed server (map f ps)
  map-IsWellFormed server ps w r v = record {
    ids_unique = rw (ids_of-map ps) w.ids_unique;
    ids_full = ids_full-map ps w.ids_full;
    rooms_unique = r;
    rooms_valid = v;
    handles_unique = rw (handles_of-map ps) w.handles_unique;
    handles_named = handles_named-map ps w.handles_named;
  }

rooms_of-detach_room :
    (r : String) (ps : List Profile) → rooms_of (detach_room r ps) ≡ without r (rooms_of ps)
unfolding detach_room
rooms_of-detach_room r [] = refl
rooms_of-detach_room r (p ∷ ps) =
    rw (rooms_of-detach_room r ps) (sym (without-append r p.room_ids (rooms_of ps)))

pub detach_room-IsWellFormed :
    (server r : String) (ps : List Profile)
    → IsWellFormed server ps
    → IsWellFormed server (detach_room r ps)
unfolding detach_room
detach_room-IsWellFormed server r ps w =
    map-IsWellFormed (λ (p : Profile). record p { room_ids = without r p.room_ids }) (λ p. refl)
      (λ p. refl) server ps w
      (subst NodupText (sym (rooms_of-detach_room r ps))
        (without-NodupText r (rooms_of ps) w.rooms_unique))
      (subst (All (λ x. room_id server x ≡ true)) (sym (rooms_of-detach_room r ps))
        (without-All (λ x. room_id server x ≡ true) r (rooms_of ps) w.rooms_valid))

-- One more text among those that are avoided.
Avoids-insert :
    (a c ys : List String) (r : String)
    → Avoids (a ++ c) ys
    → has ys r ≡ false
    → Avoids ((a ++ r ∷ []) ++ c) ys
Avoids-insert a c [] r h n = tt
Avoids-insert a c (y ∷ ys) r (fresh, h) n = ground (
  arith,
  has-append y a c,
  has-append y (a ++ r ∷ []) c,
  has-append y a (r ∷ []),
  eq_iff r y,
  eq_iff y r,
  Avoids-insert a c ys r h,
)

attach_room_id :
    (id r : String) (ps : List Profile)
    → has (map (λ (p : Profile). p.id) ps) id ≡ false
    → attach_room id r ps ≡ ps
unfolding attach_room
attach_room_id id r [] h = refl
attach_room_id id r (p ∷ ps) h = ground (arith, attach_room_id id r ps)

rooms_of-attach_here :
    (id r : String) (p : Profile) (ps : List Profile)
    → has_id id p ≡ true
    → has (map (λ (q : Profile). q.id) ps) p.id ≡ false
    → rooms_of (attach_room id r (p ∷ ps)) ≡ (p.room_ids ++ r ∷ []) ++ rooms_of ps
unfolding attach_room
rooms_of-attach_here id r p ps here other = ground (arith, eq_iff p.id id, attach_room_id id r ps)

rooms_of-attach_later :
    (id r : String) (p : Profile) (ps : List Profile)
    → has_id id p ≡ false
    → rooms_of (attach_room id r (p ∷ ps)) ≡ p.room_ids ++ rooms_of (attach_room id r ps)
unfolding attach_room
rooms_of-attach_later id r p ps later = ground arith

attach_room-Kept :
    (claimed : List String) (id r : String) (ps : List Profile)
    → NodupText (map (λ (p : Profile). p.id) ps)
    → Kept claimed (rooms_of ps)
    → has claimed r ≡ false
    → has (rooms_of ps) r ≡ false
    → Kept claimed (rooms_of (attach_room id r ps))
attach_room-Kept claimed id r [] u k c n = unfold attach_room in k
attach_room-Kept claimed id r (p ∷ ps) (other, u) k c n =
    let (a, b) = append-Kept claimed p.room_ids (rooms_of ps) k in
    let (out, apart) = has-append-false r p.room_ids (rooms_of ps) n in
    let new : has (p.room_ids ++ claimed) r ≡ false =
      rw (has-append r p.room_ids claimed, out, c) refl in
    elim (Bool-cases (has_id id p)) [
      | inl here ↦ rw (rooms_of-attach_here id r p ps here other) (
          Kept-append claimed (p.room_ids ++ r ∷ []) (rooms_of ps)
            (Kept-append claimed p.room_ids (r ∷ []) a ((new, tt), (refl, tt)))
            (Avoids-insert p.room_ids claimed (rooms_of ps) r b.0 apart, b.1))
      | inr later ↦ rw (rooms_of-attach_later id r p ps later) (
          Kept-append claimed p.room_ids (rooms_of (attach_room id r ps)) a
            (attach_room-Kept (p.room_ids ++ claimed) id r ps u b new apart))
    ]

rooms_of-attach_each :
    (id r : String) (p : Profile) (ps : List Profile)
    → has_id id p ≡ true
    → rooms_of (attach_room id r (p ∷ ps))
      ≡ (p.room_ids ++ r ∷ []) ++ rooms_of (attach_room id r ps)
unfolding attach_room
rooms_of-attach_each id r p ps here = ground arith

attach_room-valid :
    (server id r : String) (ps : List Profile)
    → room_id server r ≡ true
    → All (λ x. room_id server x ≡ true) (rooms_of ps)
    → All (λ x. room_id server x ≡ true) (rooms_of (attach_room id r ps))
attach_room-valid server id r [] v h = unfold attach_room in h
attach_room-valid server id r (p ∷ ps) v h =
    let (a, b) = append-All (λ x. room_id server x ≡ true) p.room_ids (rooms_of ps) h in
    let rest = attach_room-valid server id r ps v b in
    elim (Bool-cases (has_id id p)) [
      | inl here ↦ rw (rooms_of-attach_each id r p ps here) (
          All-append (λ x. room_id server x ≡ true) (p.room_ids ++ r ∷ []) _
            (All-append (λ x. room_id server x ≡ true) p.room_ids (r ∷ []) a (v, tt)) rest)
      | inr later ↦
          rw (rooms_of-attach_later id r p ps later)
            (All-append (λ x. room_id server x ≡ true) p.room_ids _ a rest)
    ]

attach_one : String → String → Profile → Profile
attach_one id r p = if has_id id p then record p { room_ids = p.room_ids ++ r ∷ [] } else p

attach_room-IsWellFormed :
    (server id r : String) (ps : List Profile)
    → IsWellFormed server ps
    → room_id server r ≡ true
    → has (rooms_of ps) r ≡ false
    → IsWellFormed server (attach_room id r ps)
unfolding attach_room attach_one
attach_room-IsWellFormed server id r ps w v n =
    map-IsWellFormed (attach_one id r) (λ p. ground arith) (λ p. ground arith) server ps w
      (attach_room-Kept [] id r ps w.ids_unique (Avoids-nil _, w.rooms_unique) refl n).1
      (attach_room-valid server id r ps v w.rooms_valid)

-- Linking keeps the store well formed, whatever is linked to what: in particular a room is never in
-- two profiles.
pub link_room-IsWellFormed :
    (server id : String) (store room : Value) → IsWellFormed server (link_room server store id room)
unfolding link_room
link_room-IsWellFormed server id store room =
    let norm = normalize_profiles server store in
    let rid = text_or_empty room in
    let ready = normalize_profiles-IsWellFormed server store in
    elim (Bool-cases (any (has_id id) norm && room_id server rid)) [
      | inl ok ↦ rw ok (
          attach_room-IsWellFormed server id rid (detach_room rid norm)
            (detach_room-IsWellFormed server rid norm ready) (ground arith)
            (rw (rooms_of-detach_room rid norm, has-without rid rid (rooms_of norm), eq_refl rid)
              refl))
      | inr refused ↦ rw refused ready
    ]

pub unlink_room-IsWellFormed :
    (server room : String) (store : Value) → IsWellFormed server (unlink_room server store room)
unfolding unlink_room
unlink_room-IsWellFormed server room store =
    detach_room-IsWellFormed server room (normalize_profiles server store)
      (normalize_profiles-IsWellFormed server store)
