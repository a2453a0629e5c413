-- ===== src/Webhook.antt =====
-- webhook/webhook.go: signed deliveries with retries, and their verification on the other side.
-- Texts are lists of bytes. JSON, the random id, the clock and the HTTP client are parameters; each
-- block under the lock is one step. The compaction of the slice behind the order is left out.
pub mod Log
pub mod Outcome
pub mod RoundTrip
pub mod Tests
use chassis_go.Prelude.{
  ℤ, pos, negsuc, is_empty, parse_int64, ℕ, zero, suc, ◌+◌, ◌-◌, ◌*◌, ◌^◌, ◌%◌, Bool, true, false,
  ltb, leb, ◌==◌, ◌&&◌, ◌||◌, nat_comparable, text_comparable, text, Option, none, some, List, [],
  ◌∷◌, ◌++◌, length, take, drop, lookup, insert, erase, decimal, parse_decimal, if◌then◌else◌,
}
use chassis_go.Seal.{sign, verify, int64_gt}

abbrev pub max_deliveries : ℕ
max_deliveries = 10000

pub data Status : Type 0 where
  pending delivered failed : Status

-- `Delivery`, less what does not change after it is made.
pub record Delivery (E : Type 0) : Type 0 where
  pub url : List ℕ
  pub status : Status
  pub attempts : ℕ
  pub last_error : Option E

pub record Sender (E : Type 0) : Type 0 where
  pub max_attempts : ℕ
  pub deliveries : List (List ℕ × Delivery E)
  pub order : List (List ℕ)

module _ {E : Type 0} where
  -- `delete(s.deliveries, s.order[0]); s.order = s.order[1:]`, if the order is not empty.
  drop_oldest : Sender E → Sender E
  drop_oldest s = elim s.order [
    | [] ↦ s
    | id ∷ ids ↦ record s { deliveries = erase id s.deliveries; order = ids }
  ]

  -- `for len(s.deliveries) > max`, with fuel.
  evict_over : ℕ → ℕ → Sender E → Sender E
  unfolding drop_oldest
  evict_over zero max s = s
  evict_over (suc fuel) max s =
      let rest = evict_over fuel max (drop_oldest s) in
      if ltb max (length s.deliveries) then rest else s

  -- The first block under the lock, with a round of the loop for each id in the order.
  pub register : List ℕ → Delivery E → Sender E → Sender E
  unfolding evict_over
  register id delivery s =
      let added = record s {
        deliveries = insert id delivery s.deliveries;
        order = s.order ++ id ∷ [];
      } in
      evict_over (length added.order) max_deliveries added

-- What an attempt meets: the request cannot be made, it gets no answer, or a status.
pub data Reply (E : Type 0) : Type 0 where
  unmade lost : E → Reply E
  answered : ℕ → Reply E

pub data Failure (E : Type 0) : Type 0 where
  of_error : E → Failure E
  http_status : ℕ → Failure E

-- The results of `Send` after its first block; `crashed` is the panic of `lastErr.Error()` on nil.
pub data SendResult (E : Type 0) : Type 0 where
  sent : SendResult E
  client_error : ℕ → SendResult E
  server_error : Failure E → SendResult E
  crashed : SendResult E

pub is_success : ℕ → Bool
is_success code = leb 200 code && ltb code 300

pub is_client_error : ℕ → Bool
is_client_error code = leb 400 code && ltb code 500

abbrev pub Object : Type 0 → Type 0
Object E = Delivery (Failure E)

module _ {E : Type 0} where
  -- After the loop.
  give_up : Option (Failure E) → Object E → SendResult E × Object E
  give_up none d = (crashed, record d { status = failed })
  give_up (some f) d = (server_error f, record d { status = failed; last_error = some f })

  -- What follows a reply; `rest` goes on with the next attempt.
  after_reply : Reply E → Object E → (Failure E → SendResult E × Object E) → SendResult E × Object E
  after_reply (unmade e) d rest = rest (of_error e)
  after_reply (lost e) d rest = rest (of_error e)
  after_reply (answered code) d rest =
      if is_success code
      then (sent, record d { status = delivered })
      else if is_client_error code
      then (client_error code, record d { status = failed; last_error = some (http_status code) })
      else rest (http_status code)

  -- The loop, with the attempts that are left, on the delivery that the sender points to.
  pub send_loop : (ℕ → Reply E) → ℕ → ℕ → Option (Failure E) → Object E → SendResult E × Object E
  unfolding give_up after_reply is_success is_client_error
  send_loop reply zero attempt last d = give_up last d
  send_loop reply (suc left) attempt last d =
      let tried = record d { attempts = attempt } in
      after_reply (reply attempt) tried (λ f. send_loop reply left (attempt + 1) (some f) tried)

  pub new_delivery : List ℕ → Object E
  new_delivery url = record { url = url; status = pending; attempts = 0; last_error = none }

  -- What the map holds of a delivery that has changed: nothing, if it was evicted meanwhile.
  point : List ℕ → Object E → Sender (Failure E) → Sender (Failure E)
  point id d s = elim (lookup id s.deliveries) [
    | none ↦ s
    | some _ ↦ record s { deliveries = insert id d s.deliveries }
  ]

  -- `Send` of a payload that could be marshalled.
  pub send :
      (ℕ → Reply E) → List ℕ → List ℕ → Sender (Failure E) → SendResult E × Sender (Failure E)
  unfolding point
  send reply id url s =
      let (result, d) = send_loop reply s.max_attempts 1 none (new_delivery url) in
      (result, point id d (register id (new_delivery url) s))

  -- `Status`.
  pub status_of : List ℕ → Sender (Failure E) → Option (Object E)
  status_of id s = lookup id s.deliveries

-- The two headers that are read.
pub record Headers : Type 0 where
  pub signature : List ℕ
  pub timestamp : List ℕ

-- The signature headers that `Send` sets, on the time in seconds.
pub sign_headers : (List ℕ → List ℕ → List ℕ) → ℕ → List ℕ → List ℕ → Headers
sign_headers hmac now body secret = record {
  signature = text "sha256=" ++ sign hmac (decimal now ++ b'.' ∷ body) secret;
  timestamp = decimal now;
}

-- `time.Since(time.Unix(ts, 0))` in nanoseconds, as an int64 pattern. The difference saturates, and a
-- time whose seconds since the year 1 are no int64 is one of the past.
pub saturate_pos : ℕ → ℕ
saturate_pos d = if ltb d (2 ^ 63) then d else 2 ^ 63 - 1

pub saturate_neg : ℕ → ℕ
saturate_neg d = if leb d (2 ^ 63) then 2 ^ 64 - d else 2 ^ 63

pub since : ℕ → ℤ → ℕ
unfolding saturate_pos saturate_neg
since now (pos ts) =
    if leb (2 ^ 63 - 62135596800) ts
    then 2 ^ 63 - 1
    else if leb (ts * 1000000000) now
    then saturate_pos (now - ts * 1000000000)
    else saturate_neg (ts * 1000000000 - now)
since now (negsuc n) = saturate_pos (now + (n + 1) * 1000000000)

-- `if age < 0 { age = -age }`.
pub absolute : ℕ → ℕ
absolute age = if leb (2 ^ 63) age then (2 ^ 64 - age) % 2 ^ 64 else age

-- `age > 5*time.Minute`.
pub is_stale : ℕ → ℤ → Bool
unfolding absolute
is_stale now ts = int64_gt (absolute (since now ts)) 300000000000

-- `if len(sig) > 7 && sig[:7] == "sha256=" { sig = sig[7:] }`.
pub strip_prefix : List ℕ → List ℕ
strip_prefix sig = if ltb 7 (length sig) && (take 7 sig == text "sha256=") then drop 7 sig else sig

pub data Verdict : Type 0 where
  accepted : List ℕ → Verdict
  bad_signature expired : Verdict

check_time : (List ℕ → List ℕ → List ℕ) → ℕ → Headers → List ℕ → List ℕ → Option ℤ → Verdict
check_time hmac now h body secret none = bad_signature
check_time hmac now h body secret (some ts) =
    if is_stale now ts
    then expired
    else if verify hmac (h.timestamp ++ b'.' ∷ body) (strip_prefix h.signature) secret
    then accepted body
    else bad_signature

-- `VerifyPayload`, on the time in nanoseconds.
pub verify_payload : (List ℕ → List ℕ → List ℕ) → ℕ → Headers → List ℕ → List ℕ → Verdict
unfolding check_time
verify_payload hmac now h body secret =
    if is_empty h.signature || is_empty h.timestamp
    then bad_signature
    else check_time hmac now h body secret (parse_int64 h.timestamp)
