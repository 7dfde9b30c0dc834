-- ===== src/NetLink/Threads/Ending.antt =====
-- How the monitor ends.
use grpc_jni_client.Prelude.{ℕ, suc, ◌+◌, ◌≤◌, ◌≡◌, ◌≢◌, ◌⊎◌, refl, Bool, true, false, arith}
use grpc_jni_client.NetLink.Threads.{
  LoopPc, loop_head, receiving, walking, gone, entry, joining, closing, finished, Threads, Arrival,
  message, failure, LoopStep, receive, leave, wake, walked, StopStep, clear_running, shut_down,
  join, close, Run, here, looped, arrived, stopped, monitoring,
}

-- The socket is closed, and the stop is over, only after the thread has gone.
record Inv (wakes : Bool) (t : Threads) : Type 0 where
  pub clean : t.misread ≡ false
  pub closed : t.open_socket ≡ false → t.stop ≡ finished
  pub joined : (t.stop ≡ closing) ⊎ (t.stop ≡ finished) → t.loop ≡ gone
  pub cleared : t.stop ≢ entry → t.running ≡ false
  pub shut : t.stop ≡ joining → t.woken ≡ wakes

LoopStep-Inv : {wakes : Bool} {t u : Threads} → LoopStep t u → Inv wakes t → Inv wakes u
LoopStep-Inv (receive a b) v = ground arith
LoopStep-Inv (leave a b) v = ground arith
LoopStep-Inv (wake a b) v = ground arith
LoopStep-Inv (walked a) v = ground arith

Arrival-Inv : {wakes : Bool} {t u : Threads} → Arrival t u → Inv wakes t → Inv wakes u
Arrival-Inv (message a) v = ground arith
Arrival-Inv (failure a) v = ground arith

StopStep-Inv : {wakes : Bool} {t u : Threads} → StopStep wakes t u → Inv wakes t → Inv wakes u
StopStep-Inv (clear_running a) v = ground arith
StopStep-Inv (shut_down a) v = ground arith
StopStep-Inv (join a b) v = ground arith
StopStep-Inv (close a) v = ground arith

Run-Inv :
    {wakes : Bool} {s : Threads} {n : ℕ} {t : Threads} → Inv wakes s → Run wakes s n t → Inv wakes t
Run-Inv v here = v
Run-Inv v (looped r st) = LoopStep-Inv st (Run-Inv v r)
Run-Inv v (arrived r st) = Arrival-Inv st (Run-Inv v r)
Run-Inv v (stopped r st) = StopStep-Inv st (Run-Inv v r)

monitoring-Inv : (wakes : Bool) → Inv wakes (monitoring true)
monitoring-Inv wakes = record {
  clean = refl;
  closed = λ e. cc;
  joined = λ e. ground arith;
  cleared = λ e. absurd (e refl);
  shut = λ e. cc;
}

-- If `start` has got a socket: whatever the two threads do from then on, `recv` is never called on a closed
-- socket, and once the socket is closed, the thread has gone. If it has got none, which it does not look at,
-- the first step of the thread calls `recv` on no open socket.
pub socket_outlives_loop :
    {wakes : Bool} {n : ℕ} {t : Threads}
    → Run wakes (monitoring true) n t
    → (t.misread ≡ false)
      × ((t.open_socket ≡ true) ⊎ (t.loop ≡ gone))
      × ((u : Threads) × Run wakes (monitoring false) 1 u × (u.misread ≡ true))
socket_outlives_loop {wakes} {t} r =
    let v = Run-Inv (monitoring-Inv wakes) r in
    (ground (arith, v), ground (arith, v), (_, looped here (receive refl refl), refl))

-- The steps that the loop has left once `running_` is cleared.
abbrev pub left : LoopPc → ℕ
left loop_head = 1
left receiving = 3
left walking = 2
left gone = 0

LoopStep-left :
    {t u : Threads}
    → LoopStep t u
    → t.running ≡ false
    → (u.running ≡ false) × (suc (left u.loop) ≤ left t.loop)
LoopStep-left (receive a b) z = ground arith
LoopStep-left (leave a b) z = ground arith
LoopStep-left (wake a b) z = ground arith
LoopStep-left (walked a) z = ground arith

Arrival-left :
    {t u : Threads}
    → Arrival t u
    → t.running ≡ false
    → (u.running ≡ false) × (suc (left u.loop) ≤ left t.loop)
Arrival-left (message a) z = ground arith
Arrival-left (failure a) z = ground arith

StopStep-left :
    {wakes : Bool} {t u : Threads}
    → StopStep wakes t u
    → t.running ≡ false
    → (u.running ≡ false) × (u.loop ≡ t.loop)
StopStep-left (clear_running a) z = (refl, refl)
StopStep-left (shut_down a) z = (z, refl)
StopStep-left (join a b) z = (z, refl)
StopStep-left (close a) z = (z, refl)

run-left :
    {wakes : Bool} {s : Threads} {n : ℕ} {t : Threads}
    → s.running ≡ false
    → Run wakes s n t
    → (t.running ≡ false) × (n + left t.loop ≤ left s.loop)
run-left z here = (z, omega arith)
run-left z (looped r st) =
    let (y, h) = run-left z r in let (y', h') = LoopStep-left st y in (y', omega arith)
run-left z (arrived r st) =
    let (y, h) = run-left z r in let (y', h') = Arrival-left st y in (y', omega arith)
run-left z (stopped r st) =
    let (y, h) = run-left z r in let (y', same) = StopStep-left st y in (y', rw same h)

left_bound : (p : LoopPc) → left p ≤ 3
left_bound loop_head = omega arith
left_bound receiving = omega arith
left_bound walking = omega arith
left_bound gone = omega arith

-- Once `running_` is cleared, the monitor's thread makes at most three more steps, however the stopping
-- thread goes on: at most one more buffer is received and walked over.
loop_steps_bounded :
    {wakes : Bool} {s : Threads} {n : ℕ} {t : Threads} → s.running ≡ false → Run wakes s n t → n ≤ 3
loop_steps_bounded {s} z r = let (y, h) = run-left z r in omega (arith, h, left_bound s.loop)

-- The stop is over, the thread has gone, and the socket is closed.
abbrev pub Ended : Threads → Type 0
Ended t = (t.stop ≡ finished) × (t.loop ≡ gone) × (t.open_socket ≡ false)
