-- ===== src/Webhook/Tests.antt =====
-- A sender with a delivery, and receivers at some times.
use chassis_go.Prelude.{
  ℕ, ◌*◌, ◌≡◌, refl, false, text_comparable, text, is_empty, none, List, [], ◌∷◌, ◌++◌, lookup,
  insert, ◌==◌, nat_comparable, if◌then◌else◌, arith, inl,
}
use chassis_go.Webhook.{
  Delivery, Sender, Status, pending, delivered, Reply, lost, answered, Failure, SendResult, sent,
  server_error, crashed, Object, new_delivery, send_loop, register, max_deliveries, Headers,
  sign_headers, verify_payload, accepted, expired, is_stale, strip_prefix,
}
use chassis_go.Webhook.Log.{IsLog, leaving, without, register-IsLog}
use chassis_go.Webhook.Outcome.{Undecided, send_loop-decided}
use chassis_go.Webhook.RoundTrip.{verify_payload-sign_headers, verify_payload-far_future}

abbrev tag : List ℕ → List ℕ → List ℕ
tag key message = 1 ∷ key ++ message

tag_given : (key message : List ℕ) → is_empty (tag key message) ≡ false
tag_given key message = refl

abbrev noon : ℕ
noon = 1700000000

verify_payload-sign_headers_example :
    verify_payload tag
      (noon * 1000000000)
      (sign_headers tag noon (text "{}") (text "s"))
      (text "{}")
      (text "s")
    ≡ accepted (text "{}")
verify_payload-sign_headers_example =
    verify_payload-sign_headers tag (text "{}") (text "s") noon (noon * 1000000000) tag_given
      (omega arith) (omega arith)

verify_payload-far_future_example :
    verify_payload tag
      (noon * 1000000000)
      (sign_headers tag (noon * 10) (text "{}") (text "s"))
      (text "{}")
      (text "s")
    ≡ accepted (text "{}")
verify_payload-far_future_example =
    verify_payload-far_future tag (text "{}") (text "s") (noon * 10) (noon * 1000000000) tag_given
      (omega arith) (omega arith)

abbrev soon : Headers
soon = sign_headers tag noon (text "{}") (text "s")

-- The first attempt is lost, the second is answered by a status.
abbrev second : ℕ → Reply ℕ
second n = if n == 1 then lost 7 else answered 204

first_lost : Undecided second 1 2
unfolding chassis_go.Webhook.is_success chassis_go.Webhook.is_client_error new_delivery
first_lost n low high = let one : n ≡ 1 = omega arith in rw one refl

send_loop-decided_example :
    send_loop second 3 1 none (new_delivery (text "u"))
    ≡ (sent, record { url = text "u"; status = delivered; attempts = 2; last_error = none })
unfolding chassis_go.Webhook.is_success chassis_go.Webhook.is_client_error new_delivery
send_loop-decided_example =
    send_loop-decided second 3 2 (text "u") (omega arith) (omega arith) first_lost (inl refl)

abbrev empty : Sender ℕ
empty = record { max_attempts = 3; deliveries = []; order = [] }

empty-IsLog : IsLog empty
unfolding lookup chassis_go.Recency.Laws.contains
empty-IsLog = (record { distinct = tt; unique = tt; same = λ k. refl; size = refl }, omega arith)

abbrev parcel : Delivery ℕ
parcel = record { url = text "u"; status = pending; attempts = 0; last_error = none }

register-IsLog_example :
    ((register (text "id") parcel empty).deliveries
      ≡ without (leaving empty) (insert (text "id") parcel []))
    × IsLog (register (text "id") parcel empty)
unfolding lookup
register-IsLog_example = register-IsLog (text "id") parcel empty empty-IsLog refl
