-- ===== src/Webhook/Outcome.antt =====
-- What decides a delivery.
use chassis_go.Prelude.{
  ℕ, zero, suc, ◌+◌, ◌≤◌, ◌<◌, ◌≡◌, refl, ◌∙◌, Bool, true, false, ◌||◌, ◌==◌, nat_comparable,
  Option, none, some, List, if◌then◌else◌, arith, Bool-cases, inl, inr, ◌⊎◌,
}
use chassis_go.Webhook.{
  Reply, unmade, lost, answered, Failure, of_error, http_status, SendResult, sent, client_error,
  server_error, crashed, delivered, failed, is_success, is_client_error, Object, give_up,
  after_reply, send_loop, new_delivery,
}

module _ {E : Type 0} where
  -- Whether a reply ends the loop.
  abbrev pub decides : Reply E → Bool
  decides (unmade e) = false
  decides (lost e) = false
  decides (answered code) = is_success code || is_client_error code

  -- What the reply that ends the loop makes of the delivery.
  abbrev pub decided : Reply E → Object E → SendResult E × Object E
  decided (unmade e) d = (crashed, d)
  decided (lost e) d = (crashed, d)
  decided (answered code) d =
      if is_success code
      then (sent, record d { status = delivered })
      else (client_error code, record d { status = failed; last_error = some (http_status code) })

  abbrev pub failure_of : Reply E → Failure E
  failure_of (unmade e) = of_error e
  failure_of (lost e) = of_error e
  failure_of (answered code) = http_status code

  after_deciding :
      (r : Reply E) (d : Object E) (rest : Failure E → SendResult E × Object E)
      → decides r ≡ true
      → after_reply r d rest ≡ decided r d
  unfolding after_reply
  after_deciding (unmade e) d rest h = cc
  after_deciding (lost e) d rest h = cc
  after_deciding (answered code) d rest h = ground arith

  after_others :
      (r : Reply E) (d : Object E) (rest : Failure E → SendResult E × Object E)
      → decides r ≡ false
      → after_reply r d rest ≡ rest (failure_of r)
  unfolding after_reply
  after_others (unmade e) d rest h = refl
  after_others (lost e) d rest h = refl
  after_others (answered code) d rest h = ground arith

  abbrev pub Undecided : (ℕ → Reply E) → ℕ → ℕ → Type 0
  Undecided reply from before = (n : ℕ) → from ≤ n → n < before → decides (reply n) ≡ false

  -- The delivery when attempt `n` has been counted.
  abbrev pub at_attempt : ℕ → Object E → Object E
  at_attempt n d = record d { attempts = n }

  module _ (reply : ℕ → Reply E) (n : ℕ) where
    loop_decided :
        (left attempt : ℕ) (last : Option (Failure E)) (d : Object E)
        → Undecided reply attempt n
        → decides (reply n) ≡ true
        → attempt ≤ n
        → n < attempt + left
        → send_loop reply left attempt last d ≡ decided (reply n) (at_attempt n d)
    unfolding send_loop
    loop_decided zero attempt last d before at from h = absurd (omega arith)
    loop_decided (suc left) attempt last d before at from h = elim (Bool-cases (attempt == n)) [
      | inl here ↦
          let same : attempt ≡ n = ground arith in rw same (after_deciding (reply n) _ _ at)
      | inr later ↦
          let others =
            after_others (reply attempt) (at_attempt attempt d)
              (λ f. send_loop reply left (attempt + 1) (some f) (at_attempt attempt d))
              (before attempt (omega arith) (ground arith)) in
          others
          ∙ loop_decided left (attempt + 1) _ (at_attempt attempt d)
              (λ m after below. before m (omega arith) below) at (ground arith) (omega arith)
    ]

    loop_exhausted :
        (left attempt : ℕ) (last : Option (Failure E)) (d : Object E)
        → Undecided reply attempt (n + 1)
        → n + 1 ≡ attempt + suc left
        → send_loop reply (suc left) attempt last d
          ≡ give_up (some (failure_of (reply n))) (at_attempt n d)
    unfolding send_loop
    loop_exhausted zero attempt last d all h =
        let same : attempt ≡ n = omega arith in
        rw same (after_others (reply n) _ _ (all n (omega arith) (omega arith)))
    loop_exhausted (suc left) attempt last d all h =
        let others =
          after_others (reply attempt) (at_attempt attempt d)
            (λ f. send_loop reply (suc left) (attempt + 1) (some f) (at_attempt attempt d))
            (all attempt (omega arith) (omega arith)) in
        others
        ∙ loop_exhausted left (attempt + 1) (some (failure_of (reply attempt)))
            (at_attempt attempt d) (λ m after below. all m (omega arith) below) (omega arith)

  -- A failed delivery after its last attempt.
  abbrev pub exhausted : ℕ → Failure E → List ℕ → SendResult E × Object E
  exhausted n f url =
      (server_error f, record { url = url; status = failed; attempts = n; last_error = some f })

  -- A delivery ends in one of two ways. If an attempt within the maximum gets a 2xx or 4xx status, the
  -- first that does decides, and no attempt follows it: delivered, or failed with that status. If none
  -- does, and the maximum is positive, the maximum of attempts is made, and the delivery has failed
  -- with the error of the last attempt.
  pub send_loop-decided :
      (reply : ℕ → Reply E) (max n : ℕ) (url : List ℕ)
      → 1 ≤ n
      → n ≤ max
      → Undecided reply 1 n
      → (decides (reply n) ≡ true) ⊎ (n ≡ max)
      → send_loop reply max 1 none (new_delivery url) ≡ (
          if decides (reply n)
          then decided (reply n) (at_attempt n (new_delivery url))
          else exhausted max (failure_of (reply n)) url)
  unfolding give_up new_delivery
  send_loop-decided reply zero n url low high before ends = absurd (omega arith)
  send_loop-decided reply (suc max) n url low high before ends =
      elim (Bool-cases (decides (reply n))) [
        | inl at ↦
            rw at
              (loop_decided reply n (suc max) 1 none (new_delivery url) before at low (omega arith))
        | inr on ↦
            let last : n ≡ suc max = ground arith in
            let all : Undecided reply 1 (n + 1) = λ m after below. elim (Bool-cases (m == n)) [
              | inl here ↦ let same : m ≡ n = ground arith in rw same on
              | inr less ↦ before m after (ground arith)
            ] in
            rw on (
              loop_exhausted reply n max 1 none (new_delivery url) all (omega arith) ∙ rw last refl)
      ]
