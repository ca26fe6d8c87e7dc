-- ===== src/Queue/Order.antt =====
-- The order in which requests enter and leave a queue.
use solana_vault_v.Base.{
  ℕ, ◌+◌, ◌≤◌, ◌<◌, ◌≡◌, List, [], ◌∷◌, Option, some, ok, ◌>>=◌, arith, u64_max, zero, suc, refl,
  ap, sym, >>=-eq-ok,
}
use solana_vault_v.Error.{Outcome, AsyncVaultError}
use solana_vault_v.Queue.{
  FifoQueue, increment_total, next_queue_request_id, check_and_advance_queue,
}

-- The queue after the requests with these numbers have been processed.
abbrev pub process_all :
    AsyncVaultError → List (Option ℕ) → Option FifoQueue → Outcome (Option FifoQueue)
process_all e [] q = ok q
process_all e (id ∷ ids) q = do q' ← check_and_advance_queue e q id; process_all e ids q'

-- The number that is next.
pub check_and_advance_queue-eq_ok :
    (e : AsyncVaultError) (q : FifoQueue) (id : Option ℕ) {o : Option FifoQueue}
    → check_and_advance_queue e (some q) id ≡ ok o
    → q.last_processed < u64_max
    → (id ≡ some (q.last_processed + 1))
      × (o ≡ some (record q { last_processed = q.last_processed + 1 }))
unfolding check_and_advance_queue
check_and_advance_queue-eq_ok e q id h small = ground arith

-- The consecutive numbers from a first one.
abbrev pub numbers : ℕ → ℕ → List (Option ℕ)
numbers first zero = []
numbers first (suc n) = some first ∷ numbers (first + 1) n

abbrev pub size : List (Option ℕ) → ℕ
size [] = 0
size (_ ∷ rest) = suc (size rest)

-- The numbers of so many requests, entered one after the other, and the queue after them.
unfoldable pub enter_all : ℕ → FifoQueue → List (Option ℕ) × FifoQueue
enter_all zero q = ([], q)
enter_all (suc n) q =
    let rest = enter_all n (increment_total q) in
    ((next_queue_request_id (some q)).0 ∷ rest.0, rest.1)

enter_all-numbers :
    (n : ℕ) (q : FifoQueue)
    → q.total + n ≤ u64_max
    → ((enter_all n q).0 ≡ numbers (q.total + 1) n)
      × ((enter_all n q).1.last_processed ≡ q.last_processed)
unfolding enter_all increment_total next_queue_request_id
enter_all-numbers zero q fits = (refl, refl)
enter_all-numbers (suc n) q fits =
    let next = enter_all-numbers n (increment_total q) (ground arith) in ground arith

-- Whatever requests were processed one after the other, they were exactly the next consecutive numbers
-- of the queue, as long as the numbers fit in 64 bits.
pub process_all-numbers :
    (e : AsyncVaultError) (ids : List (Option ℕ)) (q : FifoQueue) {o : Option FifoQueue}
    → process_all e ids (some q) ≡ ok o
    → q.last_processed + size ids ≤ u64_max
    → ids ≡ numbers (q.last_processed + 1) (size ids)
process_all-numbers e [] q h fits = refl
process_all-numbers e (id ∷ ids) q {o} h fits =
    let (next, one, h1) = >>=-eq-ok (check_and_advance_queue e (some q) id) _ h in
    let (is_next, moved) = check_and_advance_queue-eq_ok e q id one (omega arith) in
    let rest =
      process_all-numbers e ids (record q { last_processed = q.last_processed + 1 }) {o = o}
        (rw (sym moved) h1) (omega arith) in
    rw is_next (ap (λ l. some (q.last_processed + 1) ∷ l) rest)

-- First in, first out: when as many requests as entered an idle queue are later processed one
-- after the other, the order that the queue accepts is the one in which they entered (with
-- numbers below 2^64).
pub process_all-enter_all :
    (e : AsyncVaultError) (n : ℕ) (q : FifoQueue) (ids : List (Option ℕ)) {o : Option FifoQueue}
    → q.last_processed ≡ q.total
    → q.total + n ≤ u64_max
    → process_all e ids (some (enter_all n q).1) ≡ ok o
    → size ids ≡ n
    → ids ≡ (enter_all n q).0
process_all-enter_all e n q ids {o} idle fits h all =
    let (entered, same) = enter_all-numbers n q fits in
    let out = process_all-numbers e ids (enter_all n q).1 {o = o} h (ground arith) in grind arith

-- The next consecutive numbers of a queue are accepted one after the other, up to the last of
-- them (with numbers below 2^64).
pub process_all-in_order :
    (e : AsyncVaultError) (n : ℕ) (q : FifoQueue)
    → q.last_processed + n ≤ u64_max
    → process_all e (numbers (q.last_processed + 1) n) (some q)
      ≡ ok (some (record q { last_processed = q.last_processed + n }))
unfolding check_and_advance_queue
process_all-in_order e zero q fits = ground arith
process_all-in_order e (suc n) q fits =
    let rest =
      process_all-in_order e n (record q { last_processed = q.last_processed + 1 }) (omega arith) in
    grind arith
