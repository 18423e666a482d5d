-- ===== src/Hub/Rooms.antt =====
-- Every member of a room has a grant for that room: the methods of the hub keep it so.
use nodejs_movy_data.Prelude.{
  String, true, Option, none, some, List, [], ◌∷◌, length, str_eq, eq_iff, ◌==◌, Dict, lookup,
  insert, delete, ◌≡◌, refl, sym, subst, All, All-Has, Has-of_lookup, Bool-cases, inl, inr, arith,
}
use mathlib.Core.Option.{some-injective}
use nodejs_movy_data.Hub.State.{
  Cohort, full, redacted, Room, room_key, same_cohort, same_room, Membership, Rooms, Hub, find_room,
  set_room, drop_room, without, leave_room, leave_run,
}

abbrev pub MemberOf : String → Room → Membership → Type 0
MemberOf run_id room m = (m.grant.run_id ≡ run_id) × (room_key m.grant ≡ room)

abbrev pub GoodRoom : String → Room × List Membership → Type 0
GoodRoom run_id e = All (MemberOf run_id e.0) e.1

abbrev pub GoodRun : String × Rooms → Type 0
GoodRun e = All (GoodRoom e.0) e.1

-- The grants of a room's members are for the room and its run.
abbrev pub IsGranted : {E : Type 0} → Hub E → Type 0
IsGranted hub = All GoodRun hub.by_run

same_cohort-eq : (a b : Cohort) → same_cohort a b ≡ true → a ≡ b
same_cohort-eq full full h = refl
same_cohort-eq full redacted h = cc
same_cohort-eq redacted full h = cc
same_cohort-eq redacted redacted h = refl

same_room-eq : (a b : Room) → same_room a b ≡ true → a ≡ b
same_room-eq a b h =
    let o : a.org_id ≡ b.org_id = (eq_iff a.org_id b.org_id).0 (ground (arith, h)) in
    let r : a.run_id ≡ b.run_id = (eq_iff a.run_id b.run_id).0 (ground (arith, h)) in
    let c : a.cohort ≡ b.cohort = same_cohort-eq a.cohort b.cohort (ground (arith, h)) in
    λ i. record { org_id = o i; run_id = r i; cohort = c i }

-- Entries of a map.
pub All-write :
    (P : String × Rooms → Type 0) (k : String) (v : Rooms) (d : Dict Rooms)
    → P (k, v)
    → All P d
    → All P (insert k v d)
unfolding insert
All-write P k v [] p h = (p, tt)
All-write P k v (e ∷ d) p h = elim (Bool-cases (str_eq e.0 k)) [
  | inl t ↦ rw t (subst (λ x. P (x, v)) (sym ((eq_iff e.0 k).0 t)) p, h.1)
  | inr f ↦ rw f (h.0, All-write P k v d p h.1)
]

All-erase :
    (P : String × Rooms → Type 0) (k : String) (d : Dict Rooms) → All P d → All P (delete k d)
unfolding delete
All-erase P k [] h = tt
All-erase P k (e ∷ d) h = elim (Bool-cases (str_eq e.0 k)) [
  | inl t ↦ rw t (All-erase P k d h.1)
  | inr f ↦ rw f (h.0, All-erase P k d h.1)
]

pub find_room-Good :
    (run_id : String) (room : Room) (rooms : Rooms) (ms : List Membership)
    → All (GoodRoom run_id) rooms
    → find_room room rooms ≡ some ms
    → GoodRoom run_id (room, ms)
unfolding find_room
find_room-Good run_id room [] ms h e = cc
find_room-Good run_id room (r ∷ rooms) ms h e = elim (Bool-cases (same_room r.0 room)) [
  | inl t ↦
      subst (λ x. All (MemberOf run_id room) x) (found (rw t at e))
        (subst (λ x. All (MemberOf run_id x) r.1) (same_room-eq r.0 room t) h.0)
  | inr f ↦ find_room-Good run_id room rooms ms h.1 (rw f at e)
]
  where
    found : some r.1 ≡ some ms → r.1 ≡ ms
    found q = some-injective r.1 ms q

pub set_room-Good :
    (run_id : String) (room : Room) (ms : List Membership) (rooms : Rooms)
    → GoodRoom run_id (room, ms)
    → All (GoodRoom run_id) rooms
    → All (GoodRoom run_id) (set_room room ms rooms)
unfolding set_room
set_room-Good run_id room ms [] g h = (g, tt)
set_room-Good run_id room ms (r ∷ rooms) g h = elim (Bool-cases (same_room r.0 room)) [
  | inl t ↦ rw t (g, h.1)
  | inr f ↦ rw f (h.0, set_room-Good run_id room ms rooms g h.1)
]

drop_room-Good :
    (run_id : String) (room : Room) (rooms : Rooms)
    → All (GoodRoom run_id) rooms
    → All (GoodRoom run_id) (drop_room room rooms)
unfolding drop_room
drop_room-Good run_id room [] h = tt
drop_room-Good run_id room (r ∷ rooms) h = elim (Bool-cases (same_room r.0 room)) [
  | inl t ↦ rw t (drop_room-Good run_id room rooms h.1)
  | inr f ↦ rw f (h.0, drop_room-Good run_id room rooms h.1)
]

without-All :
    (P : Membership → Type 0) (m : Membership) (ms : List Membership)
    → All P ms
    → All P (without m ms)
without-All P m [] h = tt
without-All P m (x ∷ ms) h = elim (Bool-cases (x.id == m.id)) [
  | inl t ↦ rw t (without-All P m ms h.1)
  | inr f ↦ rw f (h.0, without-All P m ms h.1)
]

leave_room-Good :
    (run_id : String) (m : Membership) (rooms : Rooms) (o : Option (List Membership))
    → find_room m.room rooms ≡ o
    → All (GoodRoom run_id) rooms
    → All (GoodRoom run_id) (leave_room m rooms o)
leave_room-Good run_id m rooms none e h = h
leave_room-Good run_id m rooms (some ms) e h = elim (Bool-cases (length (without m ms) == 0)) [
  | inl t ↦ rw t (drop_room-Good run_id m.room rooms h)
  | inr f ↦ rw f (
      set_room-Good run_id m.room (without m ms) rooms
        (without-All (MemberOf run_id m.room) m ms (find_room-Good run_id m.room rooms ms h e)) h)
]

pub leave_run-Good :
    (m : Membership) (by_run : Dict Rooms) (o : Option Rooms)
    → lookup m.grant.run_id by_run ≡ o
    → All GoodRun by_run
    → All GoodRun (leave_run m by_run o)
leave_run-Good m by_run none e h = h
leave_run-Good m by_run (some rooms) e h =
    elim (Bool-cases (length (leave_room m rooms (find_room m.room rooms)) == 0)) [
      | inl t ↦ rw t (All-erase GoodRun m.grant.run_id by_run h)
      | inr f ↦ rw f (
          All-write GoodRun m.grant.run_id _ by_run
            (leave_room-Good m.grant.run_id m rooms (find_room m.room rooms) refl (
              All-Has GoodRun (m.grant.run_id, rooms) by_run h
                (Has-of_lookup m.grant.run_id rooms by_run e)))
            h)
    ]
