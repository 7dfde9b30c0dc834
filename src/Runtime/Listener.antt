-- ===== src/Runtime/Listener.antt =====
-- The video stream: `initPullListener` and `shutdownPullListener` of CarplayRpcRuntime.cpp, and the
-- callback that feeds each received frame to the decoder. `NngUdsRpcPullListener` itself is in the
-- static library.
pub mod Retry
pub mod Lifecycle
use grpc_jni_client.Prelude.{
  ℕ, zero, suc, List, Bool, true, false, String, is_zero, ltb, length, if◌then◌else◌,
}
use grpc_jni_client.Platform.{
  Outcome, returned, faulted, looping, pull_init, pull_start_recv_loop, pull_close, rpc, sleep_ms,
  os, pure, ask, tell, ◌>>=◌, ◌>>◌, gets, modify,
}
use grpc_jni_client.Runtime.State.{Method, on_trace}
use grpc_jni_client.Runtime.Codec.{queue_input_buffer}

-- `while (true)`: try, and sleep after a failure; the number bounds the rounds.
unfoldable pub retry : ℕ → ℕ → Method Bool → Method (Outcome (Unit {0}))
retry zero pause attempt = pure looping
retry (suc rounds) pause attempt = do
  ok ← attempt
  let rest = (do on_trace (tell (os (sleep_ms pause))); retry rounds pause attempt)
  if ok then pure (returned tt) else rest

-- The log line after the first attempt reads the frame's first five bytes.
short_frame : ℕ → List ℕ → Method (Outcome (Unit {0}))
short_frame zero bytes = pure looping
short_frame (suc rounds) bytes = do queue_input_buffer bytes 0 0; pure faulted

unfoldable pub receive_frame : ℕ → List ℕ → Method (Outcome (Unit {0}))
unfolding short_frame
receive_frame rounds bytes =
    if ltb (length bytes) 5
    then short_frame rounds bytes
    else retry rounds 5 (queue_input_buffer bytes 0 0)

unfoldable pub init_pull_listener : String → Method Bool
init_pull_listener url = do
  present ← gets (λ r. r.pull_listener)
  if present then pure true else do
    modify (λ r. record r { pull_listener = true })
    opened ← on_trace (ask (rpc (pull_init url)))
    if is_zero opened
        then (do modify (λ r. record r { pull_listener = false }); pure false)
        else do on_trace (tell (rpc pull_start_recv_loop)); pure true

unfoldable pub shutdown_pull_listener : Method (Unit {0})
shutdown_pull_listener = do
  present ← gets (λ r. r.pull_listener)
  if present
      then (do on_trace (tell (rpc pull_close)); modify (λ r. record r { pull_listener = false }))
      else pure tt
