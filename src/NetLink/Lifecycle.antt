-- ===== src/NetLink/Lifecycle.antt =====
-- Starting and stopping the monitor: sockets, threads and global references.
use grpc_jni_client.Prelude.{
  ℕ, ◌∙◌, ℤ, ◌+◌, ◌-◌, ◌≡◌, refl, true, false, none, some, [], ◌∷◌, is_zero, is_nonneg, arith,
  Bool-cases, inl, inr, if◌then◌else◌,
}
use grpc_jni_client.Platform.{
  open_netlink_socket, bind_socket, close_socket, spawn_thread, join_thread, new_global_ref, jni,
  os, Call, Trace, Platform,
}
use grpc_jni_client.Jni.Rules.{with_env-Preserves}
use grpc_jni_client.NetLink.{
  NetLinkMonitor, new_monitor, start, stop, destroy, net_link_start, net_link_stop,
}

-- What a history has opened and not closed again, and the threads it has started and not joined.
pub record Open : Type 0 where
  pub sockets : ℕ
  pub threads : ℕ

abbrev pub open_step : Call → ℤ → Open → Open
open_step (os open_netlink_socket) r o = record o {
  sockets = if is_nonneg r then o.sockets + 1 else o.sockets;
}
open_step (os (close_socket _)) r o = record o { sockets = o.sockets - 1 }
open_step (os spawn_thread) r o = record o { threads = o.threads + 1 }
open_step (os join_thread) r o = record o { threads = o.threads - 1 }
open_step _ r o = o

abbrev pub opened : Platform → Open → Trace → Open
opened p begin [] = begin
opened p begin (c ∷ tr) = open_step c (p.answer tr c) (opened p begin tr)

module _ (p : Platform) (begin : Open) where
  destroy_quiet :
      (monitor : NetLinkMonitor) (tr : Trace) (o : Open)
      → monitor.running ≡ false
      → opened p begin tr ≡ o
      → opened p begin (destroy monitor p tr).1 ≡ o
  unfolding destroy stop
  destroy_quiet monitor tr o z e = elim (Bool-cases (is_zero monitor.callback_obj)) [
    | inl y ↦ rw (z, y) e
    | inr y ↦
        rw (z, y) (with_env-Preserves p (λ h. opened p begin h ≡ o) (λ c h w. w) _ (λ h w. w) tr e)
  ]

  stop_closes :
      (monitor : NetLinkMonitor) (tr : Trace)
      → monitor.running ≡ true
      → monitor.joinable ≡ true
      → let (stopped, tr') = stop monitor p tr in
        let o = opened p begin tr in
        (stopped.running ≡ false)
        × (opened p begin tr' ≡ record {
          sockets = if is_nonneg monitor.sock then o.sockets - 1 else o.sockets;
          threads = o.threads - 1;
        })
  unfolding stop
  stop_closes monitor tr z e = ground arith

  -- Starting again while the monitor is there, and stopping when there is none, call nothing.
  pub repeated_calls_idle :
      (thiz : ℤ) (monitor : NetLinkMonitor) (tr : Trace)
      → (net_link_start thiz (some monitor) p tr ≡ (some monitor, tr))
        × (net_link_stop none p tr ≡ (none, tr))
  unfolding net_link_start net_link_stop
  repeated_calls_idle thiz monitor tr = (refl, refl)

  -- A stop after a start ends with no monitor, and with as many open sockets and unjoined threads as
  -- before the start, also where the socket could not be opened.
  pub start_stop_balanced :
      (thiz : ℤ) (tr : Trace)
      → let (monitor, started) = net_link_start thiz none p tr in
        let (after, stopped) = net_link_stop monitor p started in
        (after ≡ none) × (opened p begin stopped ≡ opened p begin tr)
  unfolding net_link_start net_link_stop new_monitor start
  start_stop_balanced thiz tr =
      let object = p.answer tr (jni (new_global_ref thiz)) in
      let sock = p.answer (jni (new_global_ref thiz) ∷ tr) (os open_netlink_socket) in
      let monitor : NetLinkMonitor = record {
        running = true;
        sock = sock;
        joinable = true;
        callback_obj = object;
      } in
      let closed =
        stop_closes monitor
          (os spawn_thread
            ∷ os (bind_socket sock)
            ∷ os open_netlink_socket
            ∷ jni (new_global_ref thiz)
            ∷ tr)
          refl refl in
      (refl, destroy_quiet _ _ _ closed.0 (closed.1 ∙ ground arith))
