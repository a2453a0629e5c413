-- ===== src/Kafka/Tests.antt =====
-- Events of two tenants, and one handler that fails.
use chassis_go.Prelude.{
  ℕ, ◌≡◌, true, false, ◌||◌, ◌==◌, text_comparable, nat_comparable, text, none, some, [], ◌∷◌,
  if◌then◌else◌,
}
use chassis_go.Kafka.Tenant.{new_tenant_filter, should_deliver, grants_to, revokes_from, change}
use chassis_go.Kafka.Tenant.Grants.{last_granted, should_deliver-change}
use chassis_go.Kafka.Subscriber.{Event, Subscriber, handle_batch, commit_batch}
use chassis_go.Kafka.Subscriber.Durable.{all_durable, commit_batch-durable}

should_deliver-change_example :
    should_deliver
      (text "b")
      (change (new_tenant_filter (text "a")) (grants_to (text "b") ∷ revokes_from (text "c") ∷ []))
    ≡ (text "b" == []
        || text "b" == text "a"
        || text "b" == text "shared"
        || last_granted (text "b") false (grants_to (text "b") ∷ revokes_from (text "c") ∷ []))
should_deliver-change_example =
    should_deliver-change (text "a") (text "b")
      (grants_to (text "b") ∷ revokes_from (text "c") ∷ [])

-- A record is its own event; the handler fails on the event 0, and the broker takes all.
abbrev failing_subscriber : Subscriber (Event ℕ) ℕ ℕ
failing_subscriber = record {
  unwrap_envelope = λ evt. some evt;
  filter = some (new_tenant_filter (text "a"));
  handlers = (text "ai8.>", λ evt. if evt.data_of == 0 then some 7 else none) ∷ [];
  client = some (λ topic evt e. true);
}

abbrev bad_event : Event ℕ
bad_event = record { tenant_id = text "a"; subject = text "ai8.scan"; data_of = 0 }

abbrev good_event : Event ℕ
good_event = record { tenant_id = text "shared"; subject = text "ai8.scan"; data_of = 1 }

commit_batch-durable_example : commit_batch failing_subscriber (bad_event ∷ good_event ∷ []) ≡ (
    if all_durable (handle_batch failing_subscriber (bad_event ∷ good_event ∷ [])).1
    then some (bad_event ∷ good_event ∷ [])
    else none)
commit_batch-durable_example = commit_batch-durable failing_subscriber bad_event (good_event ∷ [])
