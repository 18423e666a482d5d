-- ===== src/Hub/Delivery.antt =====
-- Every live socket that watches a run is sent what it may see.
use nodejs_movy_data.Prelude.{
  ℕ, String, Bool, false, ◌||◌, List, [], ◌∷◌, ◌++◌, length, ◌==◌, ◌≡◌, refl, sym, ap, ◌∙◌, subst,
  All, Has, Has-append_left, Has-append_right, All-Has, Bool-cases, ◌⊎◌, inl, inr, arith,
}
use nodejs_movy_data.Hub.State.{
  Cohort, full, redacted, Room, Membership, Rooms, Hub, HubEvent, Frame, events, rooms_of, deliver,
  deliver_all, publish_room, publish_rooms, publish, payload, Call, calls, empty_hub,
}
use nodejs_movy_data.Hub.Rooms.{MemberOf, GoodRoom}
use nodejs_movy_data.Hub.Granted.{rooms_of-Good, calls-IsGranted}
use nodejs_movy_data.Hub.Isolation.{visible, members_in, sent-unsubscribe, payload-visible}

Has-append_inv : {A : Type 0} (x : A) (xs ys : List A) → Has x (xs ++ ys) → Has x xs ⊎ Has x ys
Has-append_inv x [] ys h = inr h
Has-append_inv x (z ∷ xs) ys (inl e) = inl (inl e)
Has-append_inv x (z ∷ xs) ys (inr h) = elim (Has-append_inv x xs ys h) [
  | inl k ↦ inl (inr k)
  | inr k ↦ inr k
]

members_some : (m : Membership) (ms : List Membership) → Has m ms → (length ms == 0) ≡ false
members_some m [] h = absurd h
members_some m (n ∷ ms) h = ground arith

module _ {E : Type 0} (dead : ℕ → Bool) (x : ℕ × Frame E) where
  deliver-keeps :
      (m : Membership) (f : Frame E) (hub : Hub E)
      → Has x hub.sent
      → Has x (deliver dead m f hub).sent
  unfolding deliver
  deliver-keeps m f hub h = elim (Bool-cases (dead m.peer)) [
    | inl t ↦ rw t (subst (Has x) (sym (sent-unsubscribe dead m.peer hub)) h)
    | inr n ↦ rw n (Has-append_left x hub.sent ((m.peer, f) ∷ []) h)
  ]

  deliver_all-keeps :
      (ms : List Membership) (f : Frame E) (hub : Hub E)
      → Has x hub.sent
      → Has x (deliver_all dead ms f hub).sent
  unfolding deliver_all
  deliver_all-keeps [] f hub h = h
  deliver_all-keeps (m ∷ ms) f hub h = deliver_all-keeps ms f _ (deliver-keeps m f hub h)

  publish_room-keeps :
      (run_id : String) (es : List (HubEvent E)) (e : Room × List Membership) (hub : Hub E)
      → Has x hub.sent
      → Has x (publish_room dead run_id es e hub).sent
  unfolding publish_room
  publish_room-keeps run_id es e hub h =
      elim (Bool-cases (length e.1 == 0 || length (payload e.0 es) == 0)) [
        | inl t ↦ rw t h
        | inr f ↦ rw f (deliver_all-keeps e.1 _ hub h)
      ]

  publish_rooms-keeps :
      (run_id : String) (es : List (HubEvent E)) (rooms : Rooms) (hub : Hub E)
      → Has x hub.sent
      → Has x (publish_rooms dead run_id es rooms hub).sent
  unfolding publish_rooms
  publish_rooms-keeps run_id es [] hub h = h
  publish_rooms-keeps run_id es (e ∷ rooms) hub h =
      publish_rooms-keeps run_id es rooms _ (publish_room-keeps run_id es e hub h)

module _ {E : Type 0} (dead : ℕ → Bool) where
  deliver_all-reaches :
      (m : Membership) (ms : List Membership) (f : Frame E) (hub : Hub E)
      → Has m ms
      → dead m.peer ≡ false
      → Has (m.peer, f) (deliver_all dead ms f hub).sent
  unfolding deliver_all deliver
  deliver_all-reaches m [] f hub h live = absurd h
  deliver_all-reaches m (n ∷ ms) f hub (inl e) live =
      deliver_all-keeps dead (m.peer, f) ms f (deliver dead n f hub)
        (rw (e, live) (Has-append_right (m.peer, f) hub.sent _ (inl refl)))
  deliver_all-reaches m (n ∷ ms) f hub (inr h) live = deliver_all-reaches m ms f _ h live

  -- What it may see is not empty.
  abbrev pub Sees : Cohort → List (HubEvent E) → Type 0
  Sees c es = (length (visible c es) == 0) ≡ false

  publish_room-reaches :
      (m : Membership) (run_id : String) (es : List (HubEvent E)) (e : Room × List Membership)
      (hub : Hub E)
      → GoodRoom run_id e
      → Has m e.1
      → dead m.peer ≡ false
      → Sees m.grant.cohort es
      → Has
          (m.peer, events run_id (visible m.grant.cohort es))
          (publish_room dead run_id es e hub).sent
  unfolding publish_room
  publish_room-reaches m run_id es e hub good h live sees =
      rw (members_some m e.1 h, same, sees) (deliver_all-reaches m e.1 _ hub h live)
    where
      same : payload e.0 es ≡ visible m.grant.cohort es
      same =
          payload-visible dead e.0 es
          ∙ ap (λ r. visible r.cohort es) (sym (All-Has (MemberOf run_id e.0) m e.1 good h).1)

  publish_rooms-reaches :
      (m : Membership) (run_id : String) (es : List (HubEvent E)) (rooms : Rooms) (hub : Hub E)
      → All (GoodRoom run_id) rooms
      → Has m (members_in rooms)
      → dead m.peer ≡ false
      → Sees m.grant.cohort es
      → Has
          (m.peer, events run_id (visible m.grant.cohort es))
          (publish_rooms dead run_id es rooms hub).sent
  unfolding publish_rooms
  publish_rooms-reaches m run_id es [] hub good h live sees = absurd h
  publish_rooms-reaches m run_id es (e ∷ rooms) hub good h live sees =
      elim (Has-append_inv m e.1 (members_in rooms) h) [
        | inl k ↦
            publish_rooms-keeps dead _ run_id es rooms _
              (publish_room-reaches m run_id es e hub good.0 k live sees)
        | inr k ↦ publish_rooms-reaches m run_id es rooms _ good.1 k live sees
      ]

  batch_some : (c : Cohort) (es : List (HubEvent E)) → Sees c es → (length es == 0) ≡ false
  batch_some full es h = h
  batch_some redacted [] h = cc
  batch_some redacted (e ∷ es) h = ground arith

  -- After any calls of the hub's methods, publishing a batch sends each member of the run's rooms whose
  -- socket is alive the part of the batch that its cohort may see, unless that is empty.
  pub publish_reaches :
      (cs : List (Call E)) (run_id : String) (es : List (HubEvent E)) (m : Membership)
      → Has m (members_in (rooms_of run_id (calls dead cs empty_hub)))
      → dead m.peer ≡ false
      → Sees m.grant.cohort es
      → Has
          (m.peer, events run_id (visible m.grant.cohort es))
          (publish dead run_id es (calls dead cs empty_hub)).sent
  unfolding publish
  publish_reaches cs run_id es m h live sees = rw (batch_some m.grant.cohort es sees) (
      publish_rooms-reaches m run_id es (rooms_of run_id (calls dead cs empty_hub)) _
        (rooms_of-Good run_id (calls dead cs empty_hub) (calls-IsGranted dead cs empty_hub tt)) h
        live sees)
