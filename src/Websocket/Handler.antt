-- ===== src/Websocket/Handler.antt =====
-- What Websocket._handler decides when a task has ended: `done` holds the results of the tasks that
-- ended first, in the order in which the loop reads them. A task that was still running is cancelled.
use async_substrate_interfac.Prelude.{
  ℕ, suc, ◌+◌, ◌≡◌, refl, ◌∙◌, Bool, true, false, not, ◌&&◌, ◌||◌, List, [], ◌∷◌, ltb, leb,
  if◌then◌else◌, arith, Bool-cases, inl, inr,
}

-- The exceptions of a task: ConnectionClosedOK, another ConnectionClosed, a timeout, an SSLError,
-- or any other.
pub data Ending (Error : Type 0) : Type 0 where
  closed_ok connection_closed timed_out ssl_error : Ending Error
  other : Error → Ending Error

-- What a task returns: the exception, or the class ConnectionClosed itself, which is no exception.
pub data TaskResult (Error : Type 0) : Type 0 where
  exception : Ending Error → TaskResult Error
  closed_class : TaskResult Error
  cancelled : TaskResult Error

-- The end of `_start_receiving` and of `_start_sending`.
unfoldable pub ended : {Error : Type 0} → Ending Error → TaskResult Error
ended ssl_error = closed_class
ended e = exception e

pub data Reason (Error : Type 0) : Type 0 where
  open_subscriptions max_retries : Reason Error
  of_task : Ending Error → Reason Error

pub data Decision (Error : Type 0) : Type 0 where
  clean reconnecting cancelled_error : Decision Error
  failing : Reason Error → Decision Error

-- What the loop over the tasks that are done ends with: `seen` has should_reconnect, is_retry and the
-- attempts.
pub data Scan : Type 0 where
  graceful broken : Scan
  seen : Bool → Bool → ℕ → Scan

unfoldable pub examine : {Error : Type 0} → Bool → List (TaskResult Error) → Bool → Bool → ℕ → Scan
examine idle [] should retrying n = seen should retrying n
examine idle (exception closed_ok ∷ l) should retrying n =
    let rest = examine idle l true retrying n in if idle then graceful else rest
examine idle (exception connection_closed ∷ l) should retrying n = examine idle l true retrying n
examine idle (exception timed_out ∷ l) should retrying n = examine idle l true true (n + 1)
examine idle (exception ssl_error ∷ l) should retrying n = examine idle l should retrying n
examine idle (exception (other e) ∷ l) should retrying n = examine idle l should retrying n
examine idle (closed_class ∷ l) should retrying n = examine idle l should retrying n
examine idle (cancelled ∷ l) should retrying n = broken

unfoldable pub leave : {Error : Type 0} → ℕ → TaskResult Error → Decision Error
leave subscriptions (exception e) = failing (of_task e)
leave subscriptions closed_class = if ltb 0 subscriptions then failing open_subscriptions else clean
leave subscriptions cancelled = cancelled_error

-- `recv_task.result()`, then `send_task.result()`.
unfoldable pub finish : {Error : Type 0} → ℕ → TaskResult Error → TaskResult Error → Decision Error
unfolding leave
finish subscriptions (exception e) send_result = failing (of_task e)
finish subscriptions closed_class send_result = leave subscriptions send_result
finish subscriptions cancelled send_result = cancelled_error

unfoldable pub after_scan :
    {Error : Type 0} → ℕ → ℕ → TaskResult Error → TaskResult Error → Scan → Decision Error
unfolding finish
after_scan retries subscriptions recv_result send_result graceful = clean
after_scan retries subscriptions recv_result send_result broken = cancelled_error
after_scan retries subscriptions recv_result send_result (seen false _ _) =
    finish subscriptions recv_result send_result
after_scan retries subscriptions recv_result send_result (seen true retrying n) =
    if ltb 0 subscriptions
    then failing open_subscriptions
    else if retrying && leb retries n
    then failing max_retries
    else reconnecting

-- `marked` and `received` count the calls of mark_waiting_for_response and mark_response_received.
unfoldable pub handler :
    {Error : Type 0}
    → ℕ
    → ℕ
    → ℕ
    → ℕ
    → ℕ
    → List (TaskResult Error)
    → TaskResult Error
    → TaskResult Error
    → Decision Error
unfolding after_scan examine
handler marked received attempts retries subscriptions done recv_result send_result =
    after_scan retries subscriptions recv_result send_result
      (examine (leb marked received) done false false attempts)

-- Where only the sending task has ended, by an exception that is no lost connection, the result of
-- the receiving task is asked for although it was cancelled: the handler ends by CancelledError.
pub handler-send_only :
    {Error : Type 0} (marked received attempts retries subscriptions : ℕ) (e : Error)
    → handler marked received attempts retries subscriptions
        (ended (other e) ∷ [])
        cancelled
        (ended (other e))
      ≡ cancelled_error
unfolding handler ended
handler-send_only marked received attempts retries subscriptions e = refl

-- Where only the receiving task has ended, by an SSLError, which it turns into the class
-- ConnectionClosed, the handler does not reconnect: it ends by CancelledError.
pub handler-ssl_error :
    {Error : Type 0} (marked received attempts retries subscriptions : ℕ)
    → handler {Error = Error} marked received attempts retries subscriptions
        (ended ssl_error ∷ [])
        (ended ssl_error)
        cancelled
      ≡ cancelled_error
unfolding handler ended
handler-ssl_error marked received attempts retries subscriptions = refl

-- The loop reads a result that ends the handler at once.
pub stops : {Error : Type 0} → Bool → List (TaskResult Error) → Bool
stops idle [] = false
stops idle (exception closed_ok ∷ l) = idle || stops idle l
stops idle (exception _ ∷ l) = stops idle l
stops idle (closed_class ∷ l) = stops idle l
stops idle (cancelled ∷ l) = true

pub any_lost : {Error : Type 0} → List (TaskResult Error) → Bool
any_lost [] = false
any_lost (exception closed_ok ∷ l) = true
any_lost (exception connection_closed ∷ l) = true
any_lost (exception timed_out ∷ l) = true
any_lost (_ ∷ l) = any_lost l

pub timeouts : {Error : Type 0} → List (TaskResult Error) → ℕ
timeouts [] = 0
timeouts (exception timed_out ∷ l) = suc (timeouts l)
timeouts (_ ∷ l) = timeouts l

scanned :
    {Error : Type 0} (idle : Bool) (l : List (TaskResult Error)) (should retrying : Bool) (n : ℕ)
    → stops idle l ≡ false
    → examine idle l should retrying n
      ≡ seen (should || any_lost l) (retrying || ltb 0 (timeouts l)) (n + timeouts l)
unfolding examine stops any_lost timeouts
scanned idle [] should retrying n h = ground arith
scanned idle (exception closed_ok ∷ l) should retrying n h =
    ground (arith, scanned idle l true retrying n)
scanned idle (exception connection_closed ∷ l) should retrying n h =
    ground (arith, scanned idle l true retrying n)
scanned idle (exception timed_out ∷ l) should retrying n h =
    ground (arith, scanned idle l true true (n + 1))
scanned idle (exception ssl_error ∷ l) should retrying n h = scanned idle l should retrying n h
scanned idle (exception (other e) ∷ l) should retrying n h = scanned idle l should retrying n h
scanned idle (closed_class ∷ l) should retrying n h = scanned idle l should retrying n h
scanned idle (cancelled ∷ l) should retrying n h = absurd (cc h)

not_seen : Scan → Bool
not_seen (seen _ _ _) = false
not_seen graceful = true
not_seen broken = true

stopped_scan :
    {Error : Type 0} (idle : Bool) (l : List (TaskResult Error)) (should retrying : Bool) (n : ℕ)
    → stops idle l ≡ true
    → not_seen (examine idle l should retrying n) ≡ true
unfolding examine stops not_seen
stopped_scan idle [] should retrying n h = absurd (cc h)
stopped_scan true (exception closed_ok ∷ l) should retrying n h = refl
stopped_scan false (exception closed_ok ∷ l) should retrying n h =
    stopped_scan false l true retrying n h
stopped_scan idle (exception connection_closed ∷ l) should retrying n h =
    stopped_scan idle l true retrying n h
stopped_scan idle (exception timed_out ∷ l) should retrying n h =
    stopped_scan idle l true true (n + 1) h
stopped_scan idle (exception ssl_error ∷ l) should retrying n h =
    stopped_scan idle l should retrying n h
stopped_scan idle (exception (other e) ∷ l) should retrying n h =
    stopped_scan idle l should retrying n h
stopped_scan idle (closed_class ∷ l) should retrying n h = stopped_scan idle l should retrying n h
stopped_scan idle (cancelled ∷ l) should retrying n h = refl

pub reconnects : {Error : Type 0} → Decision Error → Bool
reconnects reconnecting = true
reconnects _ = false

-- When the handler is to reconnect: a connection was lost, nothing ends the handler at once, no
-- subscription is open, and, after a timeout, there are attempts left.
pub may_reconnect : {Error : Type 0} → Bool → ℕ → ℕ → ℕ → List (TaskResult Error) → Bool
unfolding stops any_lost timeouts
may_reconnect idle attempts retries subscriptions done =
    not (stops idle done)
    && any_lost done
    && not (ltb 0 subscriptions)
    && not (ltb 0 (timeouts done) && leb retries (attempts + timeouts done))

left_alone :
    {Error : Type 0} (subscriptions : ℕ) (r s : TaskResult Error)
    → reconnects (finish subscriptions r s) ≡ false
unfolding finish reconnects
left_alone subscriptions (exception e) s = refl
left_alone subscriptions closed_class (exception e) = refl
left_alone subscriptions closed_class closed_class = ground arith
left_alone subscriptions closed_class cancelled = refl
left_alone subscriptions cancelled s = refl

stopped_alone :
    {Error : Type 0} (retries subscriptions : ℕ) (r s : TaskResult Error) (scan : Scan)
    → not_seen scan ≡ true
    → reconnects (after_scan retries subscriptions r s scan) ≡ false
unfolding after_scan reconnects not_seen
stopped_alone retries subscriptions r s graceful h = refl
stopped_alone retries subscriptions r s broken h = refl
stopped_alone retries subscriptions r s (seen _ _ _) h = absurd (cc h)

seen_alone :
    {Error : Type 0} (retries subscriptions n : ℕ) (should retrying : Bool) (r s : TaskResult Error)
    → reconnects (after_scan retries subscriptions r s (seen should retrying n))
      ≡ (should && not (ltb 0 subscriptions) && not (retrying && leb retries n))
unfolding after_scan reconnects
seen_alone retries subscriptions n false retrying r s = left_alone subscriptions r s
seen_alone retries subscriptions n true retrying r s = ground arith

-- The handler reconnects exactly when a connection was lost, no result ends the handler at once, no
-- subscription is open and, after a timeout, attempts are left.
pub handler-may_reconnect :
    {Error : Type 0} (marked received attempts retries subscriptions : ℕ)
    (done : List (TaskResult Error)) (r s : TaskResult Error)
    → reconnects (handler marked received attempts retries subscriptions done r s)
      ≡ may_reconnect (leb marked received) attempts retries subscriptions done
unfolding handler may_reconnect
handler-may_reconnect marked received attempts retries subscriptions done r s =
    let idle = leb marked received in
    elim (Bool-cases (stops idle done)) [
      | inl stop ↦
          stopped_alone retries subscriptions r s (examine idle done false false attempts)
            (stopped_scan idle done false false attempts stop)
          ∙ rw stop refl
      | inr go ↦
          rw (scanned idle done false false attempts go, go)
            (seen_alone retries subscriptions (attempts + timeouts done) (any_lost done)
              (ltb 0 (timeouts done)) r s)
    ]
