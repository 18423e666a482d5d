-- ===== src/Hub/Isolation.antt =====
-- Who is sent a batch of events, and what of it.
use nodejs_movy_data.Prelude.{
  ℕ, String, Bool, not, ◌||◌, Option, none, some, List, [], ◌∷◌, ◌++◌, filter, length, ◌==◌,
  if◌then◌else◌, ◌≡◌, refl, sym, ap, ◌∙◌, subst, All, Has, Has-append_left, Has-append_right,
  All-Has, Bool-cases, ◌⊎◌, inl, inr,
}
use nodejs_movy_data.Hub.State.{
  Cohort, full, redacted, is_redacted, Room, Membership, Rooms, Hub, HubEvent, Frame, events,
  peer_of, leave, unsubscribe, rooms_of, deliver, deliver_all, publish_room, publish_rooms, publish,
  payload, is_log, Call, calls, empty_hub,
}
use nodejs_movy_data.Hub.Rooms.{MemberOf, GoodRoom}
use nodejs_movy_data.Hub.Granted.{rooms_of-Good, calls-IsGranted}

-- What a cohort may see of a batch.
abbrev pub visible : {E : Type 0} → Cohort → List (HubEvent E) → List (HubEvent E)
visible full es = es
visible redacted es = filter (λ e. not (is_log e)) es

-- The members of all rooms of a run.
abbrev pub members_in : Rooms → List Membership
members_in [] = []
members_in (e ∷ rooms) = e.1 ++ members_in rooms

Has-concat_inv : {A : Type 0} (x y : A) (xs : List A) → Has x (xs ++ (y ∷ [])) → Has x xs ⊎ (y ≡ x)
Has-concat_inv x y [] (inl e) = inr e
Has-concat_inv x y [] (inr h) = absurd h
Has-concat_inv x y (z ∷ xs) (inl e) = inl (inl e)
Has-concat_inv x y (z ∷ xs) (inr h) = elim (Has-concat_inv x y xs h) [
  | inl k ↦ inl (inr k)
  | inr e ↦ inr e
]

module _ {E : Type 0} (dead : ℕ → Bool) where
  pub sent-unsubscribe : (peer : ℕ) (hub : Hub E) → (unsubscribe peer hub).sent ≡ hub.sent
  unfolding unsubscribe
  sent-unsubscribe peer hub = go (peer_of peer hub.by_peer)
    where
      go : (o : Option Membership) → (leave peer hub o).sent ≡ hub.sent
      go none = refl
      go (some m) = refl

  -- A frame that is new, and to whom.
  abbrev pub Sent : List Membership → Frame E → ℕ × Frame E → Type 0
  Sent ms f x = (m : Membership) × Has m ms × (◌≡◌ {A = ℕ × Frame E} (m.peer, f) x)

  deliver-sent :
      (m : Membership) (f : Frame E) (hub : Hub E) (x : ℕ × Frame E)
      → Has x (deliver dead m f hub).sent
      → Has x hub.sent ⊎ (◌≡◌ {A = ℕ × Frame E} (m.peer, f) x)
  unfolding deliver
  deliver-sent m f hub x h = elim (Bool-cases (dead m.peer)) [
    | inl t ↦ inl (subst (Has x) (sent-unsubscribe m.peer hub) (rw t at h))
    | inr n ↦ Has-concat_inv x (m.peer, f) hub.sent (rw n at h)
  ]

  deliver_all-sent :
      (ms : List Membership) (f : Frame E) (hub : Hub E) (x : ℕ × Frame E)
      → Has x (deliver_all dead ms f hub).sent
      → Has x hub.sent ⊎ Sent ms f x
  unfolding deliver_all
  deliver_all-sent [] f hub x h = inl h
  deliver_all-sent (m ∷ ms) f hub x h = elim (deliver_all-sent ms f (deliver dead m f hub) x h) [
    | inl k ↦ elim (deliver-sent m f hub x k) [ inl j ↦ inl j | inr e ↦ inr (m, inl refl, e) ]
    | inr (n, k, e) ↦ inr (n, inr k, e)
  ]

  pub payload-visible :
      (room : Room) (es : List (HubEvent E)) → payload room es ≡ visible room.cohort es
  payload-visible room es = go room.cohort
    where
      go :
          (c : Cohort)
          → (if is_redacted c then filter (λ e. not (is_log e)) es else es) ≡ visible c es
      go full = refl
      go redacted = refl

  -- A member of the run, and what its cohort may see.
  abbrev pub Due : String → List (HubEvent E) → List Membership → ℕ × Frame E → Type 0
  Due run_id es ms x =
      (m : Membership) × Has m ms
      × (m.grant.run_id ≡ run_id)
      × (x ≡ (m.peer, events run_id (visible m.grant.cohort es)))

  publish_room-sent :
      (run_id : String) (es : List (HubEvent E)) (e : Room × List Membership) (hub : Hub E)
      (x : ℕ × Frame E)
      → GoodRoom run_id e
      → Has x (publish_room dead run_id es e hub).sent
      → Has x hub.sent ⊎ Due run_id es e.1 x
  unfolding publish_room
  publish_room-sent run_id es e hub x good h =
      elim (Bool-cases (length e.1 == 0 || length (payload e.0 es) == 0)) [
        | inl t ↦ inl (rw t at h)
        | inr f ↦ elim (deliver_all-sent e.1 (events run_id (payload e.0 es)) hub x (rw f at h)) [
          | inl k ↦ inl k
          | inr (m, k, q) ↦
              let member = All-Has (MemberOf run_id e.0) m e.1 good k in
              inr (
                m,
                k,
                member.0,
                sym q
                    ∙ ap (λ ps. (m.peer, events run_id ps))
                        (payload-visible e.0 es ∙ ap (λ r. visible r.cohort es) (sym member.1)),
              )
        ]
      ]

  publish_rooms-sent :
      (run_id : String) (es : List (HubEvent E)) (rooms : Rooms) (hub : Hub E) (x : ℕ × Frame E)
      → All (GoodRoom run_id) rooms
      → Has x (publish_rooms dead run_id es rooms hub).sent
      → Has x hub.sent ⊎ Due run_id es (members_in rooms) x
  unfolding publish_rooms
  publish_rooms-sent run_id es [] hub x good h = inl h
  publish_rooms-sent run_id es (e ∷ rooms) hub x good h =
      elim (publish_rooms-sent run_id es rooms (publish_room dead run_id es e hub) x good.1 h) [
        | inl k ↦ elim (publish_room-sent run_id es e hub x good.0 k) [
          | inl j ↦ inl j
          | inr (m, j, r, q) ↦ inr (m, Has-append_left m e.1 (members_in rooms) j, r, q)
        ]
        | inr (m, j, r, q) ↦ inr (m, Has-append_right m e.1 (members_in rooms) j, r, q)
      ]

  -- After any calls of the hub's methods, a frame that publishing a batch sends goes to a socket whose
  -- grant is for that run, and it is the part of the batch that the grant's cohort may see: all of it
  -- for the full cohort, no log for the redacted.
  pub publish_isolated :
      (cs : List (Call E)) (run_id : String) (es : List (HubEvent E)) (x : ℕ × Frame E)
      → Has x (publish dead run_id es (calls dead cs empty_hub)).sent
      → Has x (calls dead cs empty_hub).sent
        ⊎ Due run_id es (members_in (rooms_of run_id (calls dead cs empty_hub))) x
  unfolding publish
  publish_isolated cs run_id es x h = elim (Bool-cases (length es == 0)) [
    | inl t ↦ inl (rw t at h)
    | inr f ↦
        publish_rooms-sent run_id es (rooms_of run_id (calls dead cs empty_hub))
          (calls dead cs empty_hub) x
          (rooms_of-Good run_id (calls dead cs empty_hub) (calls-IsGranted dead cs empty_hub tt))
          (rw f at h)
  ]
