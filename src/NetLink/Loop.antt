-- ===== src/NetLink/Loop.antt =====
-- `threadLoop` of NetLinkMonitor.h, the loop of the monitor's thread, as that thread runs it.
use grpc_jni_client.Prelude.{
  ℕ, ℤ, ◌+◌, ◌<◌, ◌≤◌, ◌≡◌, ◌∙◌, refl, sym, ap, List, [], ◌∷◌, ◌++◌, length, Option, none, some,
  arith,
}
use grpc_jni_client.Platform.{
  Outcome, returned, recv_socket, os, Action, Platform, Trace, pure, tell, ◌>>=◌, ◌>>◌,
}
use grpc_jni_client.NetLink.Messages.{Netlink, NetlinkRules, walk_messages, after_attributes}
use mathlib.Core.List.{append_assoc, append-nil}
use grpc_jni_client.NetLink.Messages.Heard.{
  heard, receives, Attaches, deliver-heard, deliver-receives,
}
use grpc_jni_client.NetLink.Messages.Delivery.{
  Announcement, deliver, messages, announcements, walk_messages_delivers,
}

-- `sizeof(buf)`
abbrev pub buffer_size : ℕ
buffer_size = 4096

module _ (n : Netlink) (callback_obj sock : ℤ) (inner outer : ℕ) where
  -- The list holds, for each round until `running_` is cleared, what `recv` brings: a buffer, by the
  -- position of its first message, or none where the length is not positive. The numbers bound the
  -- rounds of the loops over attributes and over messages.
  unfoldable pub thread_loop : List (Option n.Message) → Action (Outcome (Unit {0}))
  thread_loop [] = pure (returned tt)
  thread_loop (none ∷ rest) = do tell (os (recv_socket sock)); thread_loop rest
  thread_loop (some m ∷ rest) = do
    tell (os (recv_socket sock))
    ended ← walk_messages n callback_obj inner outer m
    after_attributes n callback_obj ended (thread_loop rest)

  -- Each buffer is received, and its announcements are delivered before the next is received.
  unfoldable pub deliver_all : List (Option n.Message) → Action (Unit {0})
  deliver_all [] = pure tt
  deliver_all (none ∷ rest) = do tell (os (recv_socket sock)); deliver_all rest
  deliver_all (some m ∷ rest) = do
    tell (os (recv_socket sock))
    deliver callback_obj (announcements n inner (messages n outer m))
    deliver_all rest

-- The addresses in the messages about new IPv6 addresses, in all buffers.
abbrev pub announced : (n : Netlink) → ℕ → ℕ → List (Option n.Message) → List Announcement
announced n inner outer [] = []
announced n inner outer (none ∷ rest) = announced n inner outer rest
announced n inner outer (some m ∷ rest) =
    announcements n inner (messages n outer m) ++ announced n inner outer rest

-- `recv` writes no more than the buffer holds.
abbrev pub FitBuffer : {n : Netlink} → NetlinkRules n → List (Option n.Message) → Type 0
FitBuffer rules [] = Unit
FitBuffer rules (none ∷ rest) = FitBuffer rules rest
FitBuffer rules (some m ∷ rest) = (rules.room m ≤ buffer_size) × FitBuffer rules rest

module _ {n : Netlink} (rules : NetlinkRules n) (callback_obj sock : ℤ) (inner outer : ℕ)
    (p : Platform) where
  -- The loop makes no more and no fewer calls than the deliveries, in the same order.
  thread_loop-deliver_all :
      (received : List (Option n.Message)) (tr : Trace)
      → buffer_size < inner
      → buffer_size < outer
      → FitBuffer rules received
      → thread_loop n callback_obj sock inner outer received p tr
        ≡ (returned tt, (deliver_all n callback_obj sock inner outer received p tr).1)
  unfolding thread_loop deliver_all after_attributes
  thread_loop-deliver_all [] tr g h fits = refl
  thread_loop-deliver_all (none ∷ rest) tr g h fits = thread_loop-deliver_all rest _ g h fits
  thread_loop-deliver_all (some m ∷ rest) tr g h (fit, fits) =
      rw
        (walk_messages_delivers n rules callback_obj p inner outer m (os (recv_socket sock) ∷ tr)
          (omega (arith, fit)) (omega (arith, fit)))
        (thread_loop-deliver_all rest _ g h fits)

  deliver_all-heard :
      (received : List (Option n.Message)) (tr : Trace)
      → Attaches p
      → heard callback_obj p (deliver_all n callback_obj sock inner outer received p tr).1
        ≡ heard callback_obj p tr ++ announced n inner outer received
  unfolding deliver_all
  deliver_all-heard [] tr a = sym (append-nil (heard callback_obj p tr))
  deliver_all-heard (none ∷ rest) tr a = deliver_all-heard rest _ a
  deliver_all-heard (some m ∷ rest) tr a =
      let found = announcements n inner (messages n outer m) in
      deliver_all-heard rest _ a
      ∙ ap (λ l. l ++ announced n inner outer rest)
          (deliver-heard callback_obj p a found (os (recv_socket sock) ∷ tr))
      ∙ append_assoc (heard callback_obj p tr) found (announced n inner outer rest)

  deliver_all-receives :
      (received : List (Option n.Message)) (tr : Trace)
      → Attaches p
      → receives (deliver_all n callback_obj sock inner outer received p tr).1
        ≡ receives tr + length received
  unfolding deliver_all
  deliver_all-receives [] tr a = omega arith
  deliver_all-receives (none ∷ rest) tr a =
      omega (arith, deliver_all-receives rest (os (recv_socket sock) ∷ tr) a)
  deliver_all-receives (some m ∷ rest) tr a =
      let found = announcements n inner (messages n outer m) in
      let first = os (recv_socket sock) ∷ tr in
      omega (
        arith,
        deliver_all-receives rest (deliver callback_obj found p first).1 a,
        deliver-receives callback_obj p a found first,
      )

  -- If the iteration obeys the rules of the kernel headers, no received buffer is longer than 4096
  -- bytes, both bounds on rounds are larger than that, and the thread is attached to the VM or can be,
  -- then the loop ends when `running_` is cleared, with no inner loop that hangs: it has called `recv` once
  -- each round, and by `onIpv6Ready` the Java side has heard the interface and the address of each address
  -- attribute of each message about a new IPv6 address in the buffers, once and in order, and nothing else.
  -- A failed `recv` reports nothing.
  pub thread_loop_delivers :
      (received : List (Option n.Message)) (tr : Trace)
      → buffer_size < inner
      → buffer_size < outer
      → FitBuffer rules received
      → Attaches p
      → let (ended, after) = thread_loop n callback_obj sock inner outer received p tr in
        (ended ≡ returned tt)
        × (heard callback_obj p after ≡ heard callback_obj p tr ++ announced n inner outer received)
        × (receives after ≡ receives tr + length received)
  thread_loop_delivers received tr g h fits a =
      rw (thread_loop-deliver_all received tr g h fits)
        (refl, deliver_all-heard received tr a, deliver_all-receives received tr a)
