-- ===== src/Runtime/Listener/Lifecycle.antt =====
-- The life of the video stream's listener.
use grpc_jni_client.Prelude.{
  ℕ, ◌+◌, ◌-◌, ◌≡◌, true, false, String, [], ◌∷◌, is_zero, arith, if◌then◌else◌, ℤ,
}
use grpc_jni_client.Platform.{pull_init, pull_close, Call, rpc, Trace, Platform}
use grpc_jni_client.Runtime.State.{Runtime}
use grpc_jni_client.Runtime.Listener.{init_pull_listener, shutdown_pull_listener}

-- The listeners opened and not closed in a history.
abbrev pub listener_step : Call → ℤ → ℕ → ℕ
listener_step (rpc (pull_init _)) r n = if is_zero r then n else n + 1
listener_step (rpc pull_close) r n = n - 1
listener_step _ r n = n

abbrev pub listeners : Platform → Trace → ℕ
listeners p [] = 0
listeners p (c ∷ tr) = listener_step c (p.answer tr c) (listeners p tr)

-- The runtime's listener is the only one open.
abbrev pub OneListener : Platform → Runtime → Type 0
OneListener p r = listeners p r.trace ≡ (if r.pull_listener then 1 else 0)

module _ (p : Platform) (url : String) (r : Runtime) where
  -- Both operations keep the runtime's listener the only open one; after the first there is one
  -- exactly if it reports success, and after the second there is none.
  pub listener_lifecycle :
      OneListener p r
      → let (ok, opened) = init_pull_listener url p r in
        let closed = (shutdown_pull_listener p r).1 in
        OneListener p opened
        × (opened.pull_listener ≡ ok)
        × OneListener p closed
        × (closed.pull_listener ≡ false)
  unfolding init_pull_listener shutdown_pull_listener
  listener_lifecycle v = ground arith

  -- A second `initPullListener` after a successful one opens nothing, whatever its address.
  pub init_pull_listener_again :
      (other : String)
      → (init_pull_listener url p r).0 ≡ true
      → let r' = (init_pull_listener url p r).1 in init_pull_listener other p r' ≡ (true, r')
  unfolding init_pull_listener
  init_pull_listener_again other e = ground arith
