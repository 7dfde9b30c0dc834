-- ===== src/NetLink.antt =====
-- app/src/main/cpp/rpc/source/net/NetLinkMonitor.h and NetLinkMonitor.cpp: the monitor that tells
-- the Java side of each new IPv6 address.
pub mod Lifecycle
pub mod Messages
pub mod Loop
pub mod Threads
mod Examples
use grpc_jni_client.Prelude.{
  ℤ, pos, negsuc, Bool, true, false, Option, none, some, is_zero, is_nonneg, if◌then◌else◌,
}
use grpc_jni_client.Platform.{
  open_netlink_socket, bind_socket, shutdown_socket, close_socket, spawn_thread, join_thread, os,
  new_global_ref, delete_global_ref, jni, Action, Io, Trace, Platform, pure, ask, tell, ◌>>=◌, ◌>>◌,
}
use grpc_jni_client.Jni.{with_env}

-- `joinable` tells whether `thread_` holds a thread.
pub record NetLinkMonitor : Type 0 where
  pub running : Bool
  pub sock : ℤ
  pub joinable : Bool
  pub callback_obj : ℤ

unfoldable pub new_monitor : ℤ → Action NetLinkMonitor
new_monitor obj = do
  callback_obj ← ask (jni (new_global_ref obj))
  pure (record { running = false; sock = negsuc 0; joinable = false; callback_obj = callback_obj })

-- The results of `socket` and `bind` are not looked at.
unfoldable pub start : NetLinkMonitor → Action NetLinkMonitor
start self = if self.running then pure self else do
  sock ← ask (os open_netlink_socket)
  tell (os (bind_socket sock))
  tell (os spawn_thread)
  pure (record self { running = true; sock = sock; joinable = true })

unfoldable pub when_open : ℤ → Action (Unit {0}) → Action (Unit {0})
when_open sock act = if is_nonneg sock then act else pure tt

unfoldable pub stop : NetLinkMonitor → Action NetLinkMonitor
unfolding when_open
stop self =
    if self.running
    then (do
      when_open self.sock (tell (os (shutdown_socket self.sock)))
      if self.joinable then tell (os join_thread) else pure tt
      when_open self.sock (tell (os (close_socket self.sock)))
      pure (record self { running = false; sock = negsuc 0; joinable = false }))
    else pure self

unfoldable pub destroy : NetLinkMonitor → Action (Unit {0})
destroy self = do
  stopped ← stop self
  if is_zero stopped.callback_obj
      then pure tt
      else with_env (tell (jni (delete_global_ref stopped.callback_obj)))

-- `netLinkStart` and `netLinkStop`; the argument is `gMonitor`.
unfoldable pub net_link_start : ℤ → Option NetLinkMonitor → Action (Option NetLinkMonitor)
net_link_start thiz (some monitor) = pure (some monitor)
net_link_start thiz none = do
  monitor ← new_monitor thiz
  started ← start monitor
  pure (some started)

unfoldable pub net_link_stop : Option NetLinkMonitor → Action (Option NetLinkMonitor)
net_link_stop none = pure none
net_link_stop (some monitor) = do stopped ← stop monitor; destroy stopped; pure none
