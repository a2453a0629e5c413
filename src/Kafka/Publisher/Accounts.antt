-- ===== src/Kafka/Publisher/Accounts.antt =====
-- What the counters of a batch tell.
use chassis_go.Prelude.{
  ℕ, suc, ◌+◌, ◌<◌, ◌≡◌, refl, ap, Option, none, some, List, [], ◌∷◌, length, arith, ◌⊎◌, inl, inr,
}
use chassis_go.Kafka.Publisher.{
  PublisherStats, inc_published, inc_errors, Encoded, encoded, refused, Publisher, Published,
  count_results, add_record, encode_all, send_batch, publish_batch,
}

module _ {R E : Type 0} where
  -- All of `n` events are published and counted; or the batch fails with an error, which is counted,
  -- and fewer than `n` events are.
  abbrev pub Accounts : ℕ → PublisherStats → Published R E → Type 0
  Accounts n before p =
      ((p.err ≡ none)
        × (p.stats.published ≡ before.published + n)
        × (p.stats.errors ≡ before.errors)
        × (length p.sent ≡ n))
      ⊎ ((e : E) × (p.err ≡ some e)
          × (p.stats.errors ≡ before.errors + 1)
          × (p.stats.published < before.published + n))

  count_results-Accounts :
      (now : ℕ) (sent : List R) (results : List (Option E)) (s : PublisherStats)
      → ((count_results now sent results s).err ≡ none)
          × ((count_results now sent results s).stats.published ≡ s.published + length results)
          × ((count_results now sent results s).stats.errors ≡ s.errors)
          × ((count_results now sent results s).sent ≡ sent)
        ⊎ ((e : E) × ((count_results now sent results s).err ≡ some e)
            × ((count_results now sent results s).stats.errors ≡ s.errors + 1)
            × ((count_results now sent results s).stats.published < s.published + length results))
  unfolding count_results inc_published inc_errors
  count_results-Accounts now sent [] s = inl (refl, omega arith, refl, refl)
  count_results-Accounts now sent (some e ∷ results) s = inr (e, refl, refl, omega arith)
  count_results-Accounts now sent (none ∷ results) s =
      elim (count_results-Accounts now sent results (inc_published now s)) [
        | inl (err, published, errors, kept) ↦ inl (err, omega (arith, published), errors, kept)
        | inr (e, err, errors, published) ↦ inr (e, err, errors, omega (arith, published))
      ]

  abbrev HasSize : ℕ → Encoded (List R) E → Type 0
  HasSize n (refused e) = Unit
  HasSize n (encoded rs) = length rs ≡ n

  add_record-HasSize :
      (n : ℕ) (r : Encoded R E) (rest : Encoded (List R) E)
      → HasSize n rest
      → HasSize (suc n) (add_record r rest)
  unfolding add_record
  add_record-HasSize n (refused e) rest h = tt
  add_record-HasSize n (encoded r) (refused e) h = tt
  add_record-HasSize n (encoded r) (encoded rs) h = ap suc h

module _ {V R E : Type 0} (p : Publisher V R E) where
  encode_all-HasSize : (events : List V) → HasSize (length events) (encode_all p events)
  unfolding encode_all
  encode_all-HasSize [] = refl
  encode_all-HasSize (v ∷ events) =
      add_record-HasSize (length events) (p.encode v) (encode_all p events)
        (encode_all-HasSize events)

  send_batch-Accounts :
      (now n : ℕ) (all : Encoded (List R) E) (s : PublisherStats)
      → ((rs : List R) → length (p.produce_sync rs) ≡ length rs)
      → 0 < n
      → HasSize n all
      → Accounts n s (send_batch p now all s)
  unfolding send_batch inc_errors
  send_batch-Accounts now n (refused e) s answers pos h = inr (e, refl, refl, omega arith)
  send_batch-Accounts now n (encoded rs) s answers pos h =
      elim (count_results-Accounts now rs (p.produce_sync rs) s) [
        | inl (err, published, errors, kept) ↦
            inl (
              err,
              omega (arith, published, answers rs, h),
              errors,
              omega (arith, ap length kept, h),
            )
        | inr (e, err, errors, published) ↦
            inr (e, err, errors, omega (arith, published, answers rs, h))
      ]

  -- If the broker answers for every record, a batch of at least one event ends in one of two ways:
  -- without an error, when as many records are produced as it has events, all of them are counted as
  -- published and no error is counted; or with an error, when one error is counted and fewer events
  -- are counted as published than it has.
  pub publish_batch-Accounts :
      (now : ℕ) (events : List V) (s : PublisherStats)
      → ((rs : List R) → length (p.produce_sync rs) ≡ length rs)
      → 0 < length events
      → Accounts (length events) s (publish_batch p now events s)
  unfolding publish_batch
  publish_batch-Accounts now events s answers pos =
      send_batch-Accounts now (length events) (encode_all p events) s answers pos
        (encode_all-HasSize events)
