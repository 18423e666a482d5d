-- ===== src/Hub/State.antt =====
-- The class `RunHub` of apps/web/server/runs/run-hub.ts, each method as a function of the hub's state. A
-- peer is a number, since sockets are told apart by identity, and so is a membership.
use Prim.Native.String.{◌++◌ as append}
use nodejs_movy_data.Prelude.{
  ℕ, suc, String, Bool, true, false, not, ◌&&◌, ◌||◌, Option, none, some, List, [], ◌∷◌, ◌++◌,
  filter, length, str_eq, ◌==◌, if◌then◌else◌, get_or, Dict, lookup, insert, delete,
}
use nodejs_movy_data.Access.Roles.{OrgRole, viewer}
use nodejs_movy_data.Client.State.{WireRunStatus}

pub data Cohort : Type 0 where
  full redacted : Cohort

abbrev pub is_redacted : Cohort → Bool
is_redacted redacted = true
is_redacted full = false

-- run.serializer.ts
abbrev pub may_read_logs : OrgRole → Bool
may_read_logs viewer = false
may_read_logs _ = true

abbrev pub cohort_for : OrgRole → Cohort
cohort_for role = if may_read_logs role then full else redacted

pub record SubscriptionGrant : Type 0 where
  pub user_id : String
  pub org_id : String
  pub run_id : String
  pub cohort : Cohort

-- A room's key, `org:…:run:…:cohort`, by its three parts: the ids are uuids, which have no colon.
pub record Room : Type 0 where
  pub org_id : String
  pub run_id : String
  pub cohort : Cohort

abbrev pub room_key : SubscriptionGrant → Room
room_key g = record { org_id = g.org_id; run_id = g.run_id; cohort = g.cohort }

abbrev pub same_cohort : Cohort → Cohort → Bool
same_cohort full full = true
same_cohort redacted redacted = true
same_cohort _ _ = false

abbrev pub same_room : Room → Room → Bool
same_room a b =
    str_eq a.org_id b.org_id && (str_eq a.run_id b.run_id && same_cohort a.cohort b.cohort)

pub record Membership : Type 0 where
  pub id : ℕ
  pub peer : ℕ
  pub grant : SubscriptionGrant
  pub room : Room

-- An event, as far as the hub reads it: its type; `E` is the rest.
pub record HubEvent (E : Type 0) : Type 0 where
  pub type_of : String
  pub rest : E

pub data Frame (E : Type 0) : Type 0 where
  events : (run_id : String) → List (HubEvent E) → Frame E
  run_status : WireRunStatus → Frame E
  cohort_changed : Cohort → Frame E
  revoked : (reason : String) → Frame E

abbrev pub Rooms : Type 0
Rooms = List (Room × List Membership)

-- `sent` and `closed` are what the sockets have seen; `next_id` tells memberships apart.
pub record Hub (E : Type 0) : Type 0 where
  pub by_run : Dict Rooms
  pub by_peer : List (ℕ × Membership)
  pub armed : Bool
  pub next_id : ℕ
  pub sent : List (ℕ × Frame E)
  pub closed : List ℕ

abbrev pub empty_hub : {E : Type 0} → Hub E
empty_hub = record { by_run = []; by_peer = []; armed = false; next_id = 0; sent = []; closed = [] }

unfoldable pub find_room : Room → Rooms → Option (List Membership)
find_room room [] = none
find_room room (e ∷ rest) = if same_room e.0 room then some e.1 else find_room room rest

unfoldable pub set_room : Room → List Membership → Rooms → Rooms
set_room room ms [] = (room, ms) ∷ []
set_room room ms (e ∷ rest) =
    let below = set_room room ms rest in if same_room e.0 room then (room, ms) ∷ rest else e ∷ below

unfoldable pub drop_room : Room → Rooms → Rooms
drop_room room [] = []
drop_room room (e ∷ rest) =
    let below = drop_room room rest in if same_room e.0 room then below else e ∷ below

abbrev pub peer_of : ℕ → List (ℕ × Membership) → Option Membership
peer_of peer [] = none
peer_of peer (e ∷ rest) = if e.0 == peer then some e.1 else peer_of peer rest

abbrev pub without_peer : ℕ → List (ℕ × Membership) → List (ℕ × Membership)
without_peer peer = filter (λ e. not (e.0 == peer))

abbrev pub without : Membership → List Membership → List Membership
without m = filter (λ x. not (x.id == m.id))

abbrev pub leave_room : Membership → Rooms → Option (List Membership) → Rooms
leave_room m rooms none = rooms
leave_room m rooms (some members) =
    let left = without m members in
    if length left == 0 then drop_room m.room rooms else set_room m.room left rooms

abbrev pub leave_run : Membership → Dict Rooms → Option Rooms → Dict Rooms
leave_run m by_run none = by_run
leave_run m by_run (some rooms) =
    let left = leave_room m rooms (find_room m.room rooms) in
    if length left == 0 then delete m.grant.run_id by_run else insert m.grant.run_id left by_run

abbrev pub member_key : String → String → String
member_key org_id user_id = append org_id (append ":" user_id)

module _ {E : Type 0} where
  abbrev pub leave : ℕ → Hub E → Option Membership → Hub E
  leave peer hub none = hub
  leave peer hub (some m) =
      let by_peer = without_peer peer hub.by_peer in
      record hub {
        by_peer = by_peer;
        by_run = leave_run m hub.by_run (lookup m.grant.run_id hub.by_run);
        armed = if length by_peer == 0 then false else hub.armed;
      }

  unfoldable pub unsubscribe : ℕ → Hub E → Hub E
  unsubscribe peer hub = leave peer hub (peer_of peer hub.by_peer)

  abbrev pub rooms_of : String → Hub E → Rooms
  rooms_of run_id hub = get_or (lookup run_id hub.by_run) []

  abbrev pub join : ℕ → SubscriptionGrant → Bool → Hub E → Hub E
  join peer grant resolves hub =
      let room = room_key grant in
      let m : Membership = record { id = hub.next_id; peer = peer; grant = grant; room = room } in
      let rooms = rooms_of grant.run_id hub in
      record hub {
        by_run =
            insert grant.run_id (set_room room (get_or (find_room room rooms) [] ++ (m ∷ [])) rooms)
              hub.by_run;
        by_peer = without_peer peer hub.by_peer ++ ((peer, m) ∷ []);
        armed = hub.armed || resolves;
        next_id = suc hub.next_id;
      }

  -- `resolves` says that the hub has a role resolver.
  unfoldable pub subscribe : Bool → ℕ → SubscriptionGrant → Hub E → Hub E
  subscribe resolves peer grant hub = join peer grant resolves (unsubscribe peer hub)

  abbrev pub is_log : HubEvent E → Bool
  is_log e = str_eq e.type_of "log"

  -- What a room is sent of a batch.
  abbrev pub payload : Room → List (HubEvent E) → List (HubEvent E)
  payload room es = if is_redacted room.cohort then filter (λ e. not (is_log e)) es else es

  -- `dead p` says that `send` throws on the socket.
  module _ (dead : ℕ → Bool) where
    unfoldable pub deliver : Membership → Frame E → Hub E → Hub E
    deliver m frame hub =
        if dead m.peer
        then unsubscribe m.peer hub
        else record hub { sent = hub.sent ++ ((m.peer, frame) ∷ []) }

    unfoldable pub deliver_all : List Membership → Frame E → Hub E → Hub E
    deliver_all [] frame hub = hub
    deliver_all (m ∷ ms) frame hub = deliver_all ms frame (deliver m frame hub)

    unfoldable pub publish_room :
        String → List (HubEvent E) → Room × List Membership → Hub E → Hub E
    publish_room run_id es e hub =
        if length e.1 == 0 || length (payload e.0 es) == 0
        then hub
        else deliver_all e.1 (events run_id (payload e.0 es)) hub

    unfoldable pub publish_rooms : String → List (HubEvent E) → Rooms → Hub E → Hub E
    publish_rooms run_id es [] hub = hub
    publish_rooms run_id es (e ∷ rooms) hub =
        publish_rooms run_id es rooms (publish_room run_id es e hub)

    unfoldable pub publish : String → List (HubEvent E) → Hub E → Hub E
    publish run_id es hub =
        if length es == 0 then hub else publish_rooms run_id es (rooms_of run_id hub) hub

    unfoldable pub status_rooms : WireRunStatus → Rooms → Hub E → Hub E
    status_rooms run [] hub = hub
    status_rooms run (e ∷ rooms) hub = status_rooms run rooms (deliver_all e.1 (run_status run) hub)

    unfoldable pub publish_status : WireRunStatus → Hub E → Hub E
    publish_status run hub = status_rooms run (rooms_of run.id hub) hub

    abbrev pub evict : Membership → Hub E → Hub E
    evict m hub =
        let told = unsubscribe m.peer (deliver m (revoked "no-longer-a-member") hub) in
        record told { closed = told.closed ++ (m.peer ∷ []) }

    abbrev pub moved_to : Cohort → Membership → Hub E → Hub E
    moved_to c m hub =
        deliver m (cohort_changed c) (subscribe true m.peer (record m.grant { cohort = c }) hub)

    abbrev pub recheck : Option OrgRole → Membership → Hub E → Hub E
    recheck none m hub = evict m hub
    recheck (some role) m hub =
        if same_cohort (cohort_for role) m.grant.cohort
        then hub
        else moved_to (cohort_for role) m hub

    unfoldable pub recheck_all : Dict OrgRole → List (ℕ × Membership) → Hub E → Hub E
    recheck_all roles [] hub = hub
    recheck_all roles (e ∷ ms) hub =
        recheck_all roles ms
          (recheck (lookup (member_key e.1.grant.org_id e.1.grant.user_id) roles) e.1 hub)

    -- What follows the wait for the roles. `memberships` are those that the hub had before it: peers may
    -- have come, left or moved since. `none` is a resolver that threw; the counts of the moved and
    -- evicted are left out.
    unfoldable pub revalidate : List (ℕ × Membership) → Option (Dict OrgRole) → Hub E → Hub E
    revalidate memberships none hub = hub
    revalidate memberships (some roles) hub = recheck_all roles memberships hub

  unfoldable pub unsubscribe_all : List (ℕ × Membership) → Hub E → Hub E
  unsubscribe_all [] hub = hub
  unsubscribe_all (e ∷ es) hub = unsubscribe_all es (unsubscribe e.0 hub)

  unfoldable pub close : Hub E → Hub E
  close hub = unsubscribe_all hub.by_peer (record hub { armed = false })

-- The calls of the hub's methods.
pub data Call (E : Type 0) : Type 0 where
  subscribes : Bool → ℕ → SubscriptionGrant → Call E
  unsubscribes : ℕ → Call E
  publishes : String → List (HubEvent E) → Call E
  publishes_status : WireRunStatus → Call E
  revalidates : List (ℕ × Membership) → Option (Dict OrgRole) → Call E
  closes : Call E

module _ {E : Type 0} (dead : ℕ → Bool) where
  abbrev pub call : Call E → Hub E → Hub E
  call (subscribes resolves peer grant) = subscribe resolves peer grant
  call (unsubscribes peer) = unsubscribe peer
  call (publishes run_id es) = publish dead run_id es
  call (publishes_status run) = publish_status dead run
  call (revalidates memberships roles) = revalidate dead memberships roles
  call closes = close

  unfoldable pub calls : List (Call E) → Hub E → Hub E
  calls [] hub = hub
  calls (c ∷ cs) hub = calls cs (call c hub)
