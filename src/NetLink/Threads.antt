-- ===== src/NetLink/Threads.antt =====
-- `threadLoop` and `stop` of NetLinkMonitor.h as the two threads that they run on. A step is one access
-- to `running_`, or one call on the socket. `wakes` tells whether `shutdown` ends a pending `recv`,
-- which is up to the kernel.
pub mod Ending
use grpc_jni_client.Prelude.{ℕ, zero, suc, ◌≡◌, Bool, true, false, not, ◌||◌}

-- Where the monitor's thread stands.
pub data LoopPc : Type 0 where
  loop_head : LoopPc  -- `while (running_)`
  receiving : LoopPc  -- within `recv`
  walking : LoopPc  -- in the walk over the buffer
  gone : LoopPc

-- Where the stopping thread stands.
pub data StopPc : Type 0 where
  entry : StopPc  -- before `running_` is cleared
  shutting : StopPc  -- before `shutdown`
  joining : StopPc  -- before or within `join`
  closing : StopPc  -- before `close`
  finished : StopPc

-- `open_socket` tells whether the descriptor is open, `misread` whether `recv` was called on it when it
-- was not.
pub record Threads : Type 0 where
  pub running : Bool
  pub open_socket : Bool
  pub woken : Bool
  pub misread : Bool
  pub loop : LoopPc
  pub stop : StopPc

-- What the kernel brings to a `recv` that waits: a buffer, or an error that is not due to the stop.
pub data Arrival (t : Threads) : Threads → Type 0 where
  message : t.loop ≡ receiving → Arrival t (record t { loop = walking })
  failure : t.loop ≡ receiving → Arrival t (record t { loop = loop_head })

pub data LoopStep (t : Threads) : Threads → Type 0 where
  receive :
      t.loop ≡ loop_head
      → t.running ≡ true
      → LoopStep t (record t { misread = t.misread || not t.open_socket; loop = receiving })
  leave : t.loop ≡ loop_head → t.running ≡ false → LoopStep t (record t { loop = gone })
  wake : t.loop ≡ receiving → t.woken ≡ true → LoopStep t (record t { loop = loop_head })
  walked : t.loop ≡ walking → LoopStep t (record t { loop = loop_head })

pub data StopStep (wakes : Bool) (t : Threads) : Threads → Type 0 where
  clear_running : t.stop ≡ entry → StopStep wakes t (record t { running = false; stop = shutting })
  shut_down : t.stop ≡ shutting → StopStep wakes t (record t { woken = wakes; stop = joining })
  join : t.stop ≡ joining → t.loop ≡ gone → StopStep wakes t (record t { stop = closing })
  close : t.stop ≡ closing → StopStep wakes t (record t { open_socket = false; stop = finished })

-- A run of both threads, with the number of the loop's steps and arrivals.
pub data Run (wakes : Bool) (s : Threads) : ℕ → Threads → Type 0 where
  here : Run wakes s zero s
  looped : {n : ℕ} {t u : Threads} → Run wakes s n t → LoopStep t u → Run wakes s (suc n) u
  arrived : {n : ℕ} {t u : Threads} → Run wakes s n t → Arrival t u → Run wakes s (suc n) u
  stopped : {n : ℕ} {t u : Threads} → Run wakes s n t → StopStep wakes t u → Run wakes s n u

-- A run in which nothing arrives.
pub data Silent (wakes : Bool) (s : Threads) : Threads → Type 0 where
  begin : Silent wakes s s
  by_loop : {t u : Threads} → Silent wakes s t → LoopStep t u → Silent wakes s u
  by_stop : {t u : Threads} → Silent wakes s t → StopStep wakes t u → Silent wakes s u

-- The monitor after `start`, which does not look whether `socket` gave a descriptor.
abbrev pub monitoring : Bool → Threads
monitoring open_socket = record {
  running = true;
  open_socket = open_socket;
  woken = false;
  misread = false;
  loop = loop_head;
  stop = entry;
}
