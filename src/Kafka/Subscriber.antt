-- ===== src/Kafka/Subscriber.antt =====
-- kafkakit/subscriber.go: what becomes of a record that was polled, and which batches are committed.
-- The handlers stand in the order in which the loop over the map meets them. Decoding the envelope,
-- the handlers and the broker are parameters; log lines are left out, and calls are recorded.
pub mod Durable
use chassis_go.Prelude.{
  ℕ, Bool, true, false, ◌&&◌, text, text_comparable, insert, Option, none, some, List, [], ◌∷◌,
  ◌++◌, if◌then◌else◌,
}
use chassis_go.Kafka.Tenant.{TenantFilter, should_deliver}
use chassis_go.Kafka.Pattern.{match_pattern}

-- `Event`: what `handleRecord` reads of it, and the rest.
pub record Event (D : Type 0) : Type 0 where
  pub tenant_id : List ℕ
  pub subject : List ℕ
  pub data_of : D

-- `Subscriber`. A client that is not nil is given by its `ProduceSync` to the dead-letter topic,
-- which tells whether the broker took the record.
pub record Subscriber (Raw D E : Type 0) : Type 0 where
  pub unwrap_envelope : Raw → Option (Event D)
  pub filter : Option TenantFilter
  pub handlers : List (List ℕ × (Event D → Option E))
  pub client : Option (List ℕ → Event D → E → Bool)

-- A call of a handler with its result, or a record produced to a topic and whether it was taken.
pub data Action (D E : Type 0) : Type 0 where
  called : List ℕ → Event D → Option E → Action D E
  produced : List ℕ → Event D → E → Bool → Action D E

-- `dlqTopic`.
unfoldable pub dlq_topic : List ℕ → List ℕ
dlq_topic subject = text "ai8._dlq." ++ subject

module _ {D : Type 0} where
  -- `s.filter != nil && !s.filter.ShouldDeliver(evt.TenantID)`, negated.
  pub is_delivered : Option TenantFilter → Event D → Bool
  is_delivered none evt = true
  is_delivered (some f) evt = should_deliver evt.tenant_id f

module _ {D E : Type 0} where
  -- The first handler whose pattern matches.
  pub find_handler :
      List (List ℕ × (Event D → Option E)) → List ℕ → Option (List ℕ × (Event D → Option E))
  find_handler [] subject = none
  find_handler ((pattern, h) ∷ handlers) subject =
      let rest = find_handler handlers subject in
      if match_pattern pattern subject then some (pattern, h) else rest

  -- `routeToDLQ`: whether it returns nil, and what it produced. Where the record cannot be marshalled,
  -- nothing is produced; this counts as a refusal of the broker.
  pub route_to_dlq : Option (List ℕ → Event D → E → Bool) → Event D → E → Bool × List (Action D E)
  route_to_dlq none evt e = (false, [])
  route_to_dlq (some produce) evt e =
      let ok = produce (dlq_topic evt.subject) evt e in
      (ok, produced (dlq_topic evt.subject) evt e ok ∷ [])

  -- What follows a handler's result.
  pub after_handler :
      Option (List ℕ → Event D → E → Bool) → List ℕ → Event D → Option E → Bool × List (Action D E)
  after_handler client pattern evt none = (true, called pattern evt none ∷ [])
  after_handler client pattern evt (some e) =
      let (ok, log) = route_to_dlq client evt e in (ok, called pattern evt (some e) ∷ log)

module _ {Raw D E : Type 0} where
  -- `Subscribe`: a pattern that is there gets the new handler.
  pub subscribe : List ℕ → (Event D → Option E) → Subscriber Raw D E → Subscriber Raw D E
  subscribe pattern h s = record s { handlers = insert pattern h s.handlers }

  -- `SubscribeMulti`.
  pub subscribe_multi :
      List (List ℕ × (Event D → Option E)) → Subscriber Raw D E → Subscriber Raw D E
  unfolding subscribe
  subscribe_multi [] s = s
  subscribe_multi ((pattern, h) ∷ handlers) s = subscribe_multi handlers (subscribe pattern h s)

  pub run_handler :
      Subscriber Raw D E
      → Event D
      → Option (List ℕ × (Event D → Option E))
      → Bool × List (Action D E)
  run_handler s evt none = (true, [])
  run_handler s evt (some (pattern, h)) = after_handler s.client pattern evt (h evt)

  -- What is done with the envelope, if it could be unwrapped.
  pub handle_event : Subscriber Raw D E → Option (Event D) → Bool × List (Action D E)
  handle_event s none = (true, [])
  handle_event s (some evt) =
      if is_delivered s.filter evt
      then run_handler s evt (find_handler s.handlers evt.subject)
      else (true, [])

  -- `handleRecord`: false leaves the offset uncommitted.
  pub handle_record : Subscriber Raw D E → Raw → Bool × List (Action D E)
  handle_record s r = handle_event s (s.unwrap_envelope r)

  -- The records of one poll, in order: whether all are handled, and what each has called.
  pub handle_batch : Subscriber Raw D E → List Raw → Bool × List (List (Action D E))
  handle_batch s [] = (true, [])
  handle_batch s (r ∷ records) =
      let (ok, log) = handle_record s r in
      let (oks, logs) = handle_batch s records in (ok && oks, log ∷ logs)

  -- The records that `CommitRecords` is called with, if it is, in at-least-once mode.
  pub commit_batch : Subscriber Raw D E → List Raw → Option (List Raw)
  commit_batch s [] = none
  commit_batch s (r ∷ records) =
      if (handle_batch s (r ∷ records)).0 then some (r ∷ records) else none
