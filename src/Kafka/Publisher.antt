-- ===== src/Kafka/Publisher.antt =====
-- kafkakit/publisher.go and the counters of kafkakit/kafkakit.go: one event and a batch of events.
-- Encoding an event, which marshals and wraps it, and the broker are parameters.
pub mod Accounts
pub mod Tests
use chassis_go.Prelude.{ℕ, ◌+◌, Option, none, some, List, [], ◌∷◌}

-- `publisherStats`.
pub record PublisherStats : Type 0 where
  pub published : ℕ
  pub errors : ℕ
  pub last_published : ℕ

pub inc_published : ℕ → PublisherStats → PublisherStats
inc_published now s = record s { published = s.published + 1; last_published = now }

pub inc_errors : PublisherStats → PublisherStats
inc_errors s = record s { errors = s.errors + 1 }

-- The record of an event, its topic among it, or the error of a step that makes it.
pub data Encoded (R E : Type 0) : Type 0 where
  encoded : R → Encoded R E
  refused : E → Encoded R E

-- `Publisher`, by what it calls: the encoding, and `ProduceSync`, which gives one result for each
-- record.
pub record Publisher (V R E : Type 0) : Type 0 where
  pub encode : V → Encoded R E
  pub produce_sync : List R → List (Option E)

-- The error, the records that were produced, and the counters.
pub record Published (R E : Type 0) : Type 0 where
  pub err : Option E
  pub sent : List R
  pub stats : PublisherStats

-- `results.FirstErr()`.
first_err : {E : Type 0} → List (Option E) → Option E
first_err [] = none
first_err (none ∷ results) = first_err results
first_err (some e ∷ results) = some e

module _ {R E : Type 0} where
  -- The loop over the results of a batch.
  count_results : ℕ → List R → List (Option E) → PublisherStats → Published R E
  unfolding inc_published inc_errors
  count_results now sent [] s = record { err = none; sent = sent; stats = s }
  count_results now sent (none ∷ results) s = count_results now sent results (inc_published now s)
  count_results now sent (some e ∷ results) s = record {
    err = some e;
    sent = sent;
    stats = inc_errors s;
  }

  -- What `Publish` does with the first error of the results.
  finish_publish : ℕ → List R → Option E → PublisherStats → Published R E
  unfolding inc_published inc_errors
  finish_publish now sent none s = record { err = none; sent = sent; stats = inc_published now s }
  finish_publish now sent (some e) s = record { err = some e; sent = sent; stats = inc_errors s }

  -- `append`, unless the event or a later one fails.
  add_record : Encoded R E → Encoded (List R) E → Encoded (List R) E
  add_record (refused e) rest = refused e
  add_record (encoded r) (refused e) = refused e
  add_record (encoded r) (encoded rs) = encoded (r ∷ rs)

module _ {V R E : Type 0} where
  -- The loop over the events of a batch, which stops at the first that fails.
  encode_all : Publisher V R E → List V → Encoded (List R) E
  unfolding add_record
  encode_all p [] = encoded []
  encode_all p (v ∷ events) = add_record (p.encode v) (encode_all p events)

  send_batch : Publisher V R E → ℕ → Encoded (List R) E → PublisherStats → Published R E
  unfolding count_results inc_errors
  send_batch p now (refused e) s = record { err = some e; sent = []; stats = inc_errors s }
  send_batch p now (encoded rs) s = count_results now rs (p.produce_sync rs) s

  -- `PublishBatch`.
  pub publish_batch : Publisher V R E → ℕ → List V → PublisherStats → Published R E
  unfolding encode_all send_batch
  publish_batch p now events s = send_batch p now (encode_all p events) s

  send_one : Publisher V R E → ℕ → Encoded R E → PublisherStats → Published R E
  unfolding first_err finish_publish inc_errors
  send_one p now (refused e) s = record { err = some e; sent = []; stats = inc_errors s }
  send_one p now (encoded r) s = finish_publish now (r ∷ []) (first_err (p.produce_sync (r ∷ []))) s

  -- `Publish`.
  pub publish : Publisher V R E → ℕ → V → PublisherStats → Published R E
  unfolding send_one
  publish p now v s = send_one p now (p.encode v) s
