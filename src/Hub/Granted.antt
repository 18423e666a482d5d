-- ===== src/Hub/Granted.antt =====
-- The methods of the hub keep every member in the room of its grant.
use nodejs_movy_data.Prelude.{
  ℕ, String, Bool, true, false, ◌||◌, Option, none, some, List, [], ◌∷◌, length, ◌==◌, get_or, Dict,
  lookup, ◌≡◌, refl, All, All-append, All-Has, Has-of_lookup, Bool-cases, inl, inr,
}
use nodejs_movy_data.Access.Roles.{OrgRole}
use nodejs_movy_data.Client.State.{WireRunStatus}
use nodejs_movy_data.Hub.State.{
  cohort_for, same_cohort, SubscriptionGrant, Room, room_key, Membership, Rooms, Hub, HubEvent,
  Frame, cohort_changed, revoked, run_status, find_room, peer_of, leave, unsubscribe, rooms_of,
  subscribe, deliver, deliver_all, publish_room, publish_rooms, publish, status_rooms,
  publish_status, recheck, recheck_all, revalidate, member_key, unsubscribe_all, close, Call, call,
  calls, payload,
}
use nodejs_movy_data.Hub.Rooms.{
  MemberOf, GoodRoom, GoodRun, IsGranted, All-write, find_room-Good, set_room-Good, leave_run-Good,
}

members-Good :
    (run_id : String) (room : Room) (rooms : Rooms) (o : Option (List Membership))
    → find_room room rooms ≡ o
    → All (GoodRoom run_id) rooms
    → GoodRoom run_id (room, get_or o [])
members-Good run_id room rooms none e h = tt
members-Good run_id room rooms (some ms) e h = find_room-Good run_id room rooms ms h e

module _ {E : Type 0} where
  unsubscribe-IsGranted :
      (peer : ℕ) (hub : Hub E) → IsGranted hub → IsGranted (unsubscribe peer hub)
  unfolding unsubscribe
  unsubscribe-IsGranted peer hub h = go (peer_of peer hub.by_peer)
    where
      go : (o : Option Membership) → IsGranted (leave peer hub o)
      go none = h
      go (some m) = leave_run-Good m hub.by_run (lookup m.grant.run_id hub.by_run) refl h

  pub rooms_of-Good :
      (run_id : String) (hub : Hub E) → IsGranted hub → All (GoodRoom run_id) (rooms_of run_id hub)
  rooms_of-Good run_id hub h = go (lookup run_id hub.by_run) refl
    where
      go : (o : Option Rooms) → lookup run_id hub.by_run ≡ o → All (GoodRoom run_id) (get_or o [])
      go none e = tt
      go (some rooms) e =
          All-Has GoodRun (run_id, rooms) hub.by_run h (Has-of_lookup run_id rooms hub.by_run e)

  subscribe-IsGranted :
      (resolves : Bool) (peer : ℕ) (grant : SubscriptionGrant) (hub : Hub E)
      → IsGranted hub
      → IsGranted (subscribe resolves peer grant hub)
  unfolding subscribe
  subscribe-IsGranted resolves peer grant hub h =
      let left = unsubscribe peer hub in
      let good = unsubscribe-IsGranted peer hub h in
      let rooms = rooms_of grant.run_id left in
      let these = rooms_of-Good grant.run_id left good in
      All-write GoodRun grant.run_id _ left.by_run
        (set_room-Good grant.run_id (room_key grant) _ rooms
          (All-append (MemberOf grant.run_id (room_key grant)) _ _
            (members-Good grant.run_id (room_key grant) rooms (find_room (room_key grant) rooms)
              refl these)
            ((refl, refl), tt))
          these)
        good

  module _ (dead : ℕ → Bool) where
    deliver-IsGranted :
        (m : Membership) (f : Frame E) (hub : Hub E)
        → IsGranted hub
        → IsGranted (deliver dead m f hub)
    unfolding deliver
    deliver-IsGranted m f hub h = elim (Bool-cases (dead m.peer)) [
      | inl t ↦ rw t (unsubscribe-IsGranted m.peer hub h)
      | inr n ↦ rw n h
    ]

    deliver_all-IsGranted :
        (ms : List Membership) (f : Frame E) (hub : Hub E)
        → IsGranted hub
        → IsGranted (deliver_all dead ms f hub)
    unfolding deliver_all
    deliver_all-IsGranted [] f hub h = h
    deliver_all-IsGranted (m ∷ ms) f hub h =
        deliver_all-IsGranted ms f _ (deliver-IsGranted m f hub h)

    publish_room-IsGranted :
        (run_id : String) (es : List (HubEvent E)) (e : Room × List Membership) (hub : Hub E)
        → IsGranted hub
        → IsGranted (publish_room dead run_id es e hub)
    unfolding publish_room
    publish_room-IsGranted run_id es e hub h =
        elim (Bool-cases (length e.1 == 0 || length (payload e.0 es) == 0)) [
          | inl t ↦ rw t h
          | inr f ↦ rw f (deliver_all-IsGranted e.1 _ hub h)
        ]

    publish_rooms-IsGranted :
        (run_id : String) (es : List (HubEvent E)) (rooms : Rooms) (hub : Hub E)
        → IsGranted hub
        → IsGranted (publish_rooms dead run_id es rooms hub)
    unfolding publish_rooms
    publish_rooms-IsGranted run_id es [] hub h = h
    publish_rooms-IsGranted run_id es (e ∷ rooms) hub h =
        publish_rooms-IsGranted run_id es rooms _ (publish_room-IsGranted run_id es e hub h)

    publish-IsGranted :
        (run_id : String) (es : List (HubEvent E)) (hub : Hub E)
        → IsGranted hub
        → IsGranted (publish dead run_id es hub)
    unfolding publish
    publish-IsGranted run_id es hub h = elim (Bool-cases (length es == 0)) [
      | inl t ↦ rw t h
      | inr f ↦ rw f (publish_rooms-IsGranted run_id es (rooms_of run_id hub) hub h)
    ]

    status_rooms-IsGranted :
        (run : WireRunStatus) (rooms : Rooms) (hub : Hub E)
        → IsGranted hub
        → IsGranted (status_rooms dead run rooms hub)
    unfolding status_rooms
    status_rooms-IsGranted run [] hub h = h
    status_rooms-IsGranted run (e ∷ rooms) hub h =
        status_rooms-IsGranted run rooms _ (deliver_all-IsGranted e.1 (run_status run) hub h)

    recheck-IsGranted :
        (role : Option OrgRole) (m : Membership) (hub : Hub E)
        → IsGranted hub
        → IsGranted (recheck dead role m hub)
    recheck-IsGranted none m hub h =
        unsubscribe-IsGranted m.peer (deliver dead m (revoked "no-longer-a-member") hub)
          (deliver-IsGranted m (revoked "no-longer-a-member") hub h)
    recheck-IsGranted (some role) m hub h =
        elim (Bool-cases (same_cohort (cohort_for role) m.grant.cohort)) [
          | inl t ↦ rw t h
          | inr f ↦ rw f (
              deliver-IsGranted m (cohort_changed (cohort_for role)) _ (
                subscribe-IsGranted true m.peer (record m.grant { cohort = cohort_for role }) hub
                  h))
        ]

    recheck_all-IsGranted :
        (roles : Dict OrgRole) (ms : List (ℕ × Membership)) (hub : Hub E)
        → IsGranted hub
        → IsGranted (recheck_all dead roles ms hub)
    unfolding recheck_all
    recheck_all-IsGranted roles [] hub h = h
    recheck_all-IsGranted roles (e ∷ ms) hub h =
        recheck_all-IsGranted roles ms _ (
          recheck-IsGranted (lookup (member_key e.1.grant.org_id e.1.grant.user_id) roles) e.1 hub
            h)

    unsubscribe_all-IsGranted :
        (ps : List (ℕ × Membership)) (hub : Hub E)
        → IsGranted hub
        → IsGranted (unsubscribe_all ps hub)
    unfolding unsubscribe_all
    unsubscribe_all-IsGranted [] hub h = h
    unsubscribe_all-IsGranted (p ∷ ps) hub h =
        unsubscribe_all-IsGranted ps _ (unsubscribe-IsGranted p.0 hub h)

    call-IsGranted : (c : Call E) (hub : Hub E) → IsGranted hub → IsGranted (call dead c hub)
    unfolding publish_status revalidate close
    call-IsGranted (Call.subscribes resolves peer grant) hub h =
        subscribe-IsGranted resolves peer grant hub h
    call-IsGranted (Call.unsubscribes peer) hub h = unsubscribe-IsGranted peer hub h
    call-IsGranted (Call.publishes run_id es) hub h = publish-IsGranted run_id es hub h
    call-IsGranted (Call.publishes_status run) hub h =
        status_rooms-IsGranted run (rooms_of run.id hub) hub h
    call-IsGranted (Call.revalidates ms none) hub h = h
    call-IsGranted (Call.revalidates ms (some roles)) hub h = recheck_all-IsGranted roles ms hub h
    call-IsGranted Call.closes hub h =
        unsubscribe_all-IsGranted hub.by_peer (record hub { armed = false }) h

    pub calls-IsGranted :
        (cs : List (Call E)) (hub : Hub E) → IsGranted hub → IsGranted (calls dead cs hub)
    unfolding calls
    calls-IsGranted [] hub h = h
    calls-IsGranted (c ∷ cs) hub h = calls-IsGranted cs _ (call-IsGranted c hub h)
