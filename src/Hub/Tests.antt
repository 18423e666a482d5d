-- ===== src/Hub/Tests.antt =====
-- Two sockets on one run, one of them in the redacted cohort.
use nodejs_movy_data.Prelude.{
  ℕ, String, Bool, false, true, List, [], ◌∷◌, refl, ◌⊎◌, inl, inr, Has, lookup, insert,
}
use nodejs_movy_data.Hub.State.{
  full, redacted, SubscriptionGrant, Membership, HubEvent, events, Call, subscribes, calls,
  empty_hub, publish, rooms_of, subscribe, unsubscribe, find_room, set_room, Cohort, room_key,
}
use nodejs_movy_data.Hub.Isolation.{members_in, publish_isolated, Due}
use nodejs_movy_data.Hub.Delivery.{publish_reaches}

abbrev alive : ℕ → Bool
alive p = false

abbrev grant_of : String → Cohort → SubscriptionGrant
grant_of user cohort = record { user_id = user; org_id = "o"; run_id = "r"; cohort = cohort }

abbrev joined : List (Call ℕ)
joined = subscribes true 1 (grant_of "ann" full) ∷ subscribes true 2 (grant_of "vic" redacted) ∷ []

abbrev viewer_of : Membership
viewer_of = record {
  id = 1;
  peer = 2;
  grant = grant_of "vic" redacted;
  room = room_key (grant_of "vic" redacted);
}

abbrev batch : List (HubEvent ℕ)
batch = record { type_of = "log"; rest = 7 } ∷ record { type_of = "table_progress"; rest = 8 } ∷ []

abbrev shown : List (HubEvent ℕ)
shown = record { type_of = "table_progress"; rest = 8 } ∷ []

watching : Has viewer_of (members_in (rooms_of "r" (calls alive joined empty_hub)))
unfolding calls subscribe unsubscribe find_room set_room lookup insert
watching = inr (inl refl)

publish_reaches_example :
    Has (2, events "r" shown) (publish alive "r" batch (calls alive joined empty_hub)).sent
publish_reaches_example = publish_reaches alive joined "r" batch viewer_of watching refl refl

publish_isolated_example :
    Has (2, events "r" shown) (calls alive joined empty_hub).sent
    ⊎ Due alive "r" batch
        (members_in (rooms_of "r" (calls alive joined empty_hub)))
        (2, events "r" shown)
publish_isolated_example =
    publish_isolated alive joined "r" batch (2, events "r" shown)
      (publish_reaches alive joined "r" batch viewer_of watching refl refl)
