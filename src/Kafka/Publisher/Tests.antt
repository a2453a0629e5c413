-- ===== src/Kafka/Publisher/Tests.antt =====
-- A batch of two events, the second of which the broker refuses.
use chassis_go.Prelude.{
  ℕ, suc, ◌<◌, ◌≡◌, refl, ap, Option, none, some, List, [], ◌∷◌, length, if◌then◌else◌, ◌==◌,
  nat_comparable, arith,
}
use chassis_go.Kafka.Publisher.{PublisherStats, encoded, Publisher, publish_batch}
use chassis_go.Kafka.Publisher.Accounts.{Accounts, publish_batch-Accounts}

abbrev answer_all : List ℕ → List (Option ℕ)
answer_all [] = []
answer_all (r ∷ rs) = (if r == 9 then some 1 else none) ∷ answer_all rs

answer_each : (rs : List ℕ) → length (answer_all rs) ≡ length rs
answer_each [] = refl
answer_each (r ∷ rs) = ap suc (answer_each rs)

abbrev refuses_nine : Publisher ℕ ℕ ℕ
refuses_nine = record { encode = λ v. encoded v; produce_sync = answer_all }

abbrev two_events : List ℕ
two_events = 8 ∷ 9 ∷ []

abbrev no_stats : PublisherStats
no_stats = record { published = 0; errors = 0; last_published = 0 }

two_pos : 0 < length two_events
two_pos = omega arith

publish_batch-Accounts_example :
    Accounts (length two_events) no_stats (publish_batch refuses_nine 5 two_events no_stats)
publish_batch-Accounts_example =
    publish_batch-Accounts refuses_nine 5 two_events no_stats answer_each two_pos
