-- ===== src/NetLink/Examples.antt =====
-- The theorems on the monitor at concrete inputs. A position in a buffer is the number of messages,
-- or of attributes, that are left.
use grpc_jni_client.Prelude.{
  ℕ, zero, suc, ◌-◌, ◌<◌, ◌≡◌, ◌⊎◌, refl, arith, Bool, true, false, pos, List, Option, none, some,
  [], ◌∷◌,
}
use grpc_jni_client.Platform.{returned}
use grpc_jni_client.Platform.Sample.{sample}
use grpc_jni_client.NetLink.{net_link_start, net_link_stop}
use grpc_jni_client.NetLink.Lifecycle.{opened, start_stop_balanced}
use grpc_jni_client.NetLink.Messages.{Netlink, NetlinkRules}
use grpc_jni_client.NetLink.Loop.{thread_loop, thread_loop_delivers}
use grpc_jni_client.NetLink.Messages.Heard.{heard, receives}
use grpc_jni_client.NetLink.Messages.Delivery.{announcements, messages, attributes, addresses}
use grpc_jni_client.NetLink.Threads.{
  Threads, Run, receive, clear_running, shut_down, here, looped, stopped, monitoring, receiving,
  gone, shutting, joining,
}
use grpc_jni_client.NetLink.Threads.Ending.{socket_outlives_loop}

abbrev some_left : ℕ → Bool
some_left zero = false
some_left (suc n) = true

some_left_shrinks : (n : ℕ) → some_left n ≡ true → n - 1 < n
some_left_shrinks zero e = cc
some_left_shrinks (suc n) e = omega arith

-- Each message is about a new IPv6 address and has as many attributes as messages are left.
abbrev counted : Netlink
counted = record {
  Message = ℕ;
  Attribute = ℕ;
  nlmsg_ok = some_left;
  nlmsg_next = λ n. n - 1;
  nlmsg_type = λ n. 20;
  ifa_family = λ n. 10;
  if_name = λ n. "wlan0";
  ifa_rta = λ n. n;
  rta_ok = some_left;
  rta_next = λ n. n - 1;
  rta_type = λ n. n;
  address = λ n. "fe80::1";
}

abbrev counted_rules : NetlinkRules counted
counted_rules = record {
  room = λ n. n;
  attribute_room = λ n. n;
  next_shrinks = some_left_shrinks;
  rta_next_shrinks = some_left_shrinks;
  attributes_within = λ n. omega arith;
}

-- A failed `recv`, then a buffer of two messages.
abbrev two_rounds : List (Option ℕ)
two_rounds = none ∷ some 2 ∷ []

thread_loop_delivers_example :
    let (ended, after) = thread_loop counted (pos 4) (pos 7) 4097 4097 two_rounds sample [] in
    (ended ≡ returned tt)
    × (heard (pos 4) sample after ≡ ("wlan0", "fe80::1") ∷ ("wlan0", "fe80::1") ∷ [])
    × (receives after ≡ 2)
unfolding announcements messages attributes addresses
thread_loop_delivers_example =
    thread_loop_delivers counted_rules (pos 4) (pos 7) 4097 4097 sample two_rounds [] (omega arith)
      (omega arith) (omega arith) (λ tr. refl)

start_stop_balanced_example :
    let (monitor, started) = net_link_start (pos 4) none sample [] in
    let (after, halted) = net_link_stop monitor sample started in
    (after ≡ none)
    × (opened sample (record { sockets = 0; threads = 0 }) halted
        ≡ record { sockets = 0; threads = 0 })
start_stop_balanced_example =
    start_stop_balanced sample (record { sockets = 0; threads = 0 }) (pos 4) []

-- The stop clears `running_` while the thread is within `recv`.
abbrev cleared_state : Threads
cleared_state = record (monitoring true) { loop = receiving; running = false; stop = shutting }

abbrev cleared_run : Run true (monitoring true) 1 cleared_state
cleared_run = stopped (looped here (receive refl refl)) (clear_running refl)

socket_outlives_loop_example :
    (cleared_state.misread ≡ false)
    × ((cleared_state.open_socket ≡ true) ⊎ (cleared_state.loop ≡ gone))
    × ((u : Threads) × Run true (monitoring false) 1 u × (u.misread ≡ true))
socket_outlives_loop_example = socket_outlives_loop cleared_run

-- The stop waits for the thread.
abbrev waiting_state : Threads
waiting_state = record cleared_state { woken = true; stop = joining }

abbrev waiting_run : Run true (monitoring true) 1 waiting_state
waiting_run = stopped cleared_run (shut_down refl)
