-- ===== src/Runtime/System.antt =====
-- The whole runtime as its environment drives it: the JNI entries, the requests and frames that the
-- transport brings in, and the rounds of the video and the output thread, in any order. One event
-- runs to its end before the next one; `Runtime.Teardown` has threads that interleave.
pub mod Quiet
pub mod Video
pub mod Entries
pub mod Client
pub mod Refinement
pub mod Invariant
pub mod Closing
pub mod Service
pub mod Decoder
pub mod Stages
pub mod Pipeline
pub mod Stream
mod Examples
use grpc_jni_client.Prelude.{ℕ, ℤ, zero, suc, List, [], ◌∷◌, Option, none, some, String, Bool}
use grpc_jni_client.Platform.{
  Outcome, returned, faulted, looping, outcome_map, Platform, pure, ◌>>=◌, ◌>>◌,
}
use grpc_jni_client.Messages.{Flatbuffers}
use grpc_jni_client.Dial.{registered, handler_func}
use grpc_jni_client.Runtime.State.{Handler, request, response, Runtime, Method, Garbage}
use grpc_jni_client.Jni.Loading.{unset}
use grpc_jni_client.Runtime.Listener.{receive_frame}
use grpc_jni_client.Runtime.Handlers.{run_handler}
use grpc_jni_client.Runtime.Session.{
  JString, JByteArray, register_receivers, start_carplay_session, start_bt_iap2_link,
  receive_bt_iap2_data, touch_screen_hid, on_load, init_carplay_rpc,
}
use grpc_jni_client.Runtime.Screen.{prepare_screen, render_loop, surface_available, output_loop}

-- `remote_request` runs the wrapper that the method table holds under the name, if there is one: when
-- it does so is up to the transport, and no other code of the program runs for a request. The first
-- number is that of the rounds that a wait may take.
pub data Event : Type 0 where
  init_again : Event
  start_session : JString → JString → ℤ → JString → ℤ → Event
  start_link : JString → Event
  bt_data : JByteArray → ℤ → Event
  touch : ℤ → Event
  surface : ℤ → Event
  remote_request : ℕ → String → List ℕ → Event
  video_frame : ℕ → List ℕ → Event
  video_start : Event
  video_rounds : ℕ → Event
  output_rounds : ℕ → Event

abbrev done : {A : Type 0} → Method A → Method (Outcome (Unit {0}))
done m = do m; pure (returned tt)

abbrev ended : {A : Type 0} → Method (Outcome A) → Method (Outcome (Unit {0}))
ended m = do o ← m; pure (outcome_map (λ _. tt) o)

go_on : Outcome (Unit {0}) → Method (Outcome (Unit {0})) → Method (Outcome (Unit {0}))
go_on faulted rest = pure faulted
go_on (returned _) rest = rest
go_on looping rest = rest

-- From the load of the library to the first `initCarplayRpc`.
unfoldable pub boot : Garbage → ℤ → ℤ → Platform → Runtime
boot junk jvm thiz p =
    let (_, java, tr) = on_load unset jvm p [] in (init_carplay_rpc junk java thiz none p tr).1

module _ (fb : Flatbuffers) where
  unfoldable pub run_wrapper : ℕ → Option Handler → List ℕ → Method (Outcome (Unit {0}))
  run_wrapper rounds none req_buf = pure (returned tt)
  run_wrapper rounds (some h) req_buf =
      ended (handler_func fb request response (run_handler rounds) h req_buf [])

  unfoldable pub serve : ℕ → String → List ℕ → Method (Outcome (Unit {0}))
  unfolding run_wrapper
  serve rounds name req_buf p r = run_wrapper rounds (registered name r.dial) req_buf p r

  unfoldable pub step : Event → Method (Outcome (Unit {0}))
  unfolding serve
  step init_again = done register_receivers
  step (start_session ssid pwd channel v6 security) =
      ended (start_carplay_session fb ssid pwd channel v6 security)
  step (start_link mac) = ended (start_bt_iap2_link fb mac)
  step (bt_data rfcomm len) = ended (receive_bt_iap2_data fb rfcomm len)
  step (touch hid) = touch_screen_hid fb hid
  step (surface object) = done (surface_available object)
  step (remote_request rounds name req_buf) = serve rounds name req_buf
  step (video_frame rounds bytes) = receive_frame rounds bytes
  step video_start = done prepare_screen
  step (video_rounds rounds) = render_loop rounds
  step (output_rounds rounds) = output_loop rounds

  -- Undefined behaviour ends the run; a thread that is still in its loop does not hold up the others.
  unfoldable pub run : List Event → Method (Outcome (Unit {0}))
  unfolding go_on
  run [] = pure (returned tt)
  run (e ∷ es) = do o ← step e; go_on o (run es)

-- To keep a property over a run, keep it over each event.
module _ (fb : Flatbuffers) (p : Platform) (P : Runtime → Type 0)
    (kept : (e : Event) (r : Runtime) → P r → P (step fb e p r).1) where
  go_on-keeps :
      (o : Outcome (Unit {0})) (rest : Method (Outcome (Unit {0}))) (r : Runtime)
      → P r
      → P (rest p r).1
      → P (go_on o rest p r).1
  unfolding go_on
  go_on-keeps faulted rest r v w = v
  go_on-keeps (returned _) rest r v w = w
  go_on-keeps looping rest r v w = w

  pub run-keeps : (es : List Event) (r : Runtime) → P r → P (run fb es p r).1
  unfolding run
  run-keeps [] r v = v
  run-keeps (e ∷ es) r v =
      go_on-keeps (step fb e p r).0 (run fb es) _ (kept e r v) (run-keeps es _ (kept e r v))
