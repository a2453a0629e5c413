-- ===== src/Kafka/Subscriber/Durable.antt =====
-- What a committed batch has left behind, and which events reach a handler.
use chassis_go.Prelude.{
  ℕ, Bool, true, false, ◌&&◌, ◌≡◌, refl, ◌==◌, text_comparable, same_text_iff, Option, none, some,
  List, [], ◌∷◌, if◌then◌else◌, arith, All, Bool-cases, inl, inr,
}
use chassis_go.Kafka.Pattern.{match_pattern}
use chassis_go.Kafka.Subscriber.{
  Event, Subscriber, Action, called, produced, dlq_topic, is_delivered, find_handler, route_to_dlq,
  after_handler, run_handler, handle_event, handle_record, handle_batch, commit_batch,
}

module _ {D E : Type 0} where
  -- What is called for one record: a handler that fails is followed by a dead letter on the topic of
  -- the event's subject that the broker took.
  abbrev pub durable : List (Action D E) → Bool
  durable [] = true
  durable (called pattern evt none ∷ log) = durable log
  durable (called pattern evt (some e) ∷ []) = false
  durable (called pattern evt (some e) ∷ called p v r ∷ log) = false
  durable (called pattern evt (some e) ∷ produced topic v f ok ∷ log) =
      topic == dlq_topic evt.subject && ok && durable log
  durable (produced topic v f ok ∷ log) = durable log

  abbrev pub all_durable : List (List (Action D E)) → Bool
  all_durable [] = true
  all_durable (log ∷ logs) = durable log && all_durable logs

  route_to_dlq-durable :
      (client : Option (List ℕ → Event D → E → Bool)) (pattern : List ℕ) (evt : Event D) (e : E)
      → durable (called pattern evt (some e) ∷ (route_to_dlq client evt e).1)
        ≡ (route_to_dlq client evt e).0
  unfolding route_to_dlq
  route_to_dlq-durable none pattern evt e = refl
  route_to_dlq-durable (some produce) pattern evt e =
      ground (arith, same_text_iff (dlq_topic evt.subject) (dlq_topic evt.subject))

  after_handler-durable :
      (client : Option (List ℕ → Event D → E → Bool)) (pattern : List ℕ) (evt : Event D)
      (result : Option E)
      → durable (after_handler client pattern evt result).1
        ≡ (after_handler client pattern evt result).0
  unfolding after_handler
  after_handler-durable client pattern evt none = refl
  after_handler-durable client pattern evt (some e) = route_to_dlq-durable client pattern evt e

module _ {Raw D E : Type 0} (s : Subscriber Raw D E) where
  run_handler-durable :
      (evt : Event D) (found : Option (List ℕ × (Event D → Option E)))
      → durable (run_handler s evt found).1 ≡ (run_handler s evt found).0
  unfolding run_handler
  run_handler-durable evt none = refl
  run_handler-durable evt (some (pattern, h)) = after_handler-durable s.client pattern evt (h evt)

  handle_event-durable :
      (unwrapped : Option (Event D))
      → durable (handle_event s unwrapped).1 ≡ (handle_event s unwrapped).0
  unfolding handle_event
  handle_event-durable none = refl
  handle_event-durable (some evt) =
      ground (arith, run_handler-durable evt (find_handler s.handlers evt.subject))

  handle_batch-durable :
      (records : List Raw) → all_durable (handle_batch s records).1 ≡ (handle_batch s records).0
  unfolding handle_batch handle_record
  handle_batch-durable [] = refl
  handle_batch-durable (r ∷ records) =
      rw (handle_event-durable (s.unwrap_envelope r), handle_batch-durable records) refl

  -- In at-least-once mode, a batch that is not empty is committed, whole, exactly if every handler
  -- that failed on one of its records left a dead letter that the broker took.
  pub commit_batch-durable :
      (r : Raw) (records : List Raw)
      → commit_batch s (r ∷ records)
        ≡ (if all_durable (handle_batch s (r ∷ records)).1 then some (r ∷ records) else none)
  unfolding commit_batch
  commit_batch-durable r records = rw (handle_batch-durable (r ∷ records)) refl

  -- What the subscriber may do: call a handler whose pattern matches the subject of an event of a
  -- tenant that is delivered, and produce to the dead-letter topic of the event's subject.
  abbrev pub Allowed : Action D E → Type 0
  Allowed (called pattern evt r) =
      (match_pattern pattern evt.subject ≡ true) × (is_delivered s.filter evt ≡ true)
  Allowed (produced topic evt e ok) = topic ≡ dlq_topic evt.subject

  found-matches :
      (handlers : List (List ℕ × (Event D → Option E))) (subject pattern : List ℕ)
      (h : Event D → Option E)
      → find_handler handlers subject ≡ some (pattern, h)
      → match_pattern pattern subject ≡ true
  unfolding find_handler
  found-matches [] subject pattern h e = ground arith
  found-matches ((p, k) ∷ handlers) subject pattern h e =
      elim (Bool-cases (match_pattern p subject)) [
        | inl m ↦ ground arith
        | inr m ↦ ground (arith, found-matches handlers subject pattern h)
      ]

  route_to_dlq-Allowed :
      (client : Option (List ℕ → Event D → E → Bool)) (evt : Event D) (e : E)
      → All Allowed (route_to_dlq client evt e).1
  unfolding route_to_dlq
  route_to_dlq-Allowed none evt e = tt
  route_to_dlq-Allowed (some produce) evt e = (refl, tt)

  after_handler-Allowed :
      (pattern : List ℕ) (evt : Event D) (result : Option E)
      → match_pattern pattern evt.subject ≡ true
      → is_delivered s.filter evt ≡ true
      → All Allowed (after_handler s.client pattern evt result).1
  unfolding after_handler
  after_handler-Allowed pattern evt none m d = ((m, d), tt)
  after_handler-Allowed pattern evt (some e) m d = ((m, d), route_to_dlq-Allowed s.client evt e)

  run_handler-Allowed :
      (evt : Event D) (found : Option (List ℕ × (Event D → Option E)))
      → find_handler s.handlers evt.subject ≡ found
      → is_delivered s.filter evt ≡ true
      → All Allowed (run_handler s evt found).1
  unfolding run_handler
  run_handler-Allowed evt none e d = tt
  run_handler-Allowed evt (some (pattern, h)) e d =
      after_handler-Allowed pattern evt (h evt) (found-matches s.handlers evt.subject pattern h e) d

  handle_event-Allowed : (unwrapped : Option (Event D)) → All Allowed (handle_event s unwrapped).1
  unfolding handle_event
  handle_event-Allowed none = tt
  handle_event-Allowed (some evt) = elim (Bool-cases (is_delivered s.filter evt)) [
    | inl d ↦ rw (d, All) (run_handler-Allowed evt (find_handler s.handlers evt.subject) refl d)
    | inr d ↦ rw (d, All) tt
  ]

  -- A handler is only called with an event that the tenant filter delivers and whose subject the
  -- handler's pattern matches, and a dead letter only goes to the dead-letter topic of its subject.
  pub handle_record-Allowed : (r : Raw) → All Allowed (handle_record s r).1
  unfolding handle_record
  handle_record-Allowed r = handle_event-Allowed (s.unwrap_envelope r)
