-- ===== src/Runtime/System/Examples.antt =====
-- The theorems on the whole runtime at a concrete run.
use grpc_jni_client.Renderer.{OesRenderer}
use grpc_jni_client.Renderer.Drawing.{draw_calls}
use grpc_jni_client.Runtime.System.Stages.{KeepsUp, Showing, decoded}
use grpc_jni_client.Runtime.System.Pipeline.{frame_reaches_screen}
use grpc_jni_client.Runtime.System.Stream.{stream, Streamed, stream_reaches_screen}
use grpc_jni_client.Runtime.Codec.Live.{live, UsesLive}
use grpc_jni_client.Runtime.Codec.Accounts.{made, deleted, lost, one_unless_null}
use grpc_jni_client.Runtime.System.Decoder.{run-boot-UsesLive}
use grpc_jni_client.Platform.{egl, swap_buffers, Outcome, returned, outcome_map}
use grpc_jni_client.Messages.{Flatbuffers, string_request, bytes_request}
use grpc_jni_client.Messages.Buffers.{generated, generated-IsLawful}
use grpc_jni_client.Messages.Wire.{calls, calls-LibraryRules}
use grpc_jni_client.Runtime.State.{
  handle_disable_bluetooth, handle_screen_stream_configuration, Runtime, new_runtime, Garbage,
}
use grpc_jni_client.Runtime.Handlers.{run_handler}
use grpc_jni_client.Runtime.System.Service.{request_served, session_request_served}
use grpc_jni_client.Prelude.{
  ℕ, false, arith, length, ◌≤◌, ◌+◌, ◌≡◌, refl, Bool, true, some, pos, List, [], ◌∷◌, is_zero,
  if◌then◌else◌,
}
use grpc_jni_client.Platform.Sample.{sample}
use grpc_jni_client.Runtime.Sample.{
  format, junk, streaming_runtime, ssid, passphrase, address, rfcomm,
}
use grpc_jni_client.Runtime.System.{
  Event, start_session, bt_data, surface, remote_request, video_frame, video_start, video_rounds,
  output_rounds, boot, run, step,
}
use grpc_jni_client.Runtime.System.Client.{IsSound, Changes}
use grpc_jni_client.Runtime.System.Refinement.{view, run_refines}
use grpc_jni_client.Runtime.System.Invariant.{Accounts, run-boot_consistent}
use grpc_jni_client.Runtime.Session.{
  destroy_runtime, start_carplay_session, check_peer_rpc_dial_available, when_available,
  begin_stream, send_hostapd_info, register_rpc_method, rpc_remote_call, init_carplay_rpc,
  register_receivers, init_carplay_rpc_runtime, on_load,
}
use grpc_jni_client.Runtime.Listener.{init_pull_listener}
use grpc_jni_client.Runtime.Listener.Lifecycle.{listeners}
use grpc_jni_client.Runtime.Screen.Frames.{surfaces}
use grpc_jni_client.Runtime.System.Closing.{run-destroy_runtime}

-- The generated functions over the sample library.
abbrev wire : Flatbuffers
wire = generated calls

abbrev session : List Event
session =
    start_session ssid passphrase (pos 36) address (pos 3)
    ∷ remote_request 3 "screenStreamStart" []
    ∷ video_start
    ∷ surface (pos 8)
    ∷ remote_request 3 "screenStreamConfiguration" (1 ∷ 2 ∷ [])
    ∷ video_frame 2 (0 ∷ 0 ∷ 0 ∷ 1 ∷ 101 ∷ [])
    ∷ output_rounds 2
    ∷ video_rounds 2
    ∷ bt_data rfcomm (pos 2)
    ∷ []

run-boot_consistent_example :
    let r = (run format session sample (boot junk (pos 1) (pos 5) sample)).1 in
    Accounts sample r × IsSound (view r)
run-boot_consistent_example = run-boot_consistent sample format junk (pos 1) (pos 5) session

run_refines_example :
    Changes (view streaming_runtime) (view (run format session sample streaming_runtime).1)
run_refines_example = run_refines sample format session streaming_runtime

run-destroy_runtime_example :
    let r = (run format session sample (boot junk (pos 1) (pos 5) sample)).1 in
    let destroyed = (destroy_runtime sample r).1 in
    (listeners sample destroyed.trace ≡ 0)
    × (surfaces sample destroyed.trace ≡ (if is_zero r.attached_surface then 0 else 1))
run-destroy_runtime_example = run-destroy_runtime sample format junk (pos 1) (pos 5) session

request_served_example :
    let r = (run wire session sample (boot junk (pos 1) (pos 5) sample)).1 in
    step wire
      (remote_request 1 "disableBluetooth"
        (wire.finish string_request (record { value = some "00:11" })))
      sample
      r
    ≡ (let (o, r') =
          run_handler 1 handle_disable_bluetooth (record { value = some "00:11" }) sample r in
        (outcome_map (λ _. tt) o, r'))
request_served_example =
    request_served sample wire junk (pos 1) (pos 5) session 1 handle_disable_bluetooth
      (record { value = some "00:11" }) (generated-IsLawful calls calls-LibraryRules) tt refl

-- The runtime after a session that begins at once, and some events.
abbrev begun : Outcome Bool × Runtime
begun =
    start_carplay_session wire ssid passphrase (pos 36) address (pos 3) sample
      (run wire [] sample (boot junk (pos 1) (pos 5) sample)).1

abbrev later : List Event
later = video_start ∷ surface (pos 8) ∷ video_rounds 2 ∷ []

begun_well : begun.0 ≡ returned true
unfolding boot run start_carplay_session check_peer_rpc_dial_available when_available begin_stream
    send_hostapd_info init_pull_listener register_rpc_method rpc_remote_call init_carplay_rpc
    register_receivers init_carplay_rpc_runtime on_load new_runtime
begun_well = refl

session_request_served_example :
    let r = (run wire later sample begun.1).1 in
    step wire
      (remote_request 1 "screenStreamConfiguration"
        (wire.finish bytes_request (record { value = some (1 ∷ []) })))
      sample
      r
    ≡ (let (o, r') =
          run_handler 1 handle_screen_stream_configuration
            (record { value = some (1 ∷ []) })
            sample
            r in
        (outcome_map (λ _. tt) o, r'))
session_request_served_example =
    session_request_served sample wire junk (pos 1) (pos 5) [] later ssid passphrase address
      (pos 36) (pos 3) 1 handle_screen_stream_configuration (record { value = some (1 ∷ []) })
      (generated-IsLawful calls calls-LibraryRules) (omega arith, tt) begun_well

-- The uninitialised pointer happens to be null.
abbrev zeroed : Garbage
zeroed = record junk { media_codec = pos 0 }

run-boot-UsesLive_example :
    let r = (run format session sample (boot zeroed (pos 1) (pos 5) sample)).1 in
    UsesLive sample r.trace
    × (r.media_codec ≡ live sample r.trace)
    × (made sample r.trace ≡ deleted r.trace + lost sample r.trace + one_unless_null r.media_codec)
run-boot-UsesLive_example = run-boot-UsesLive sample format zeroed (pos 1) (pos 5) session refl

abbrev delta_frame : List ℕ
delta_frame = 0 ∷ 0 ∷ 0 ∷ 1 ∷ 65 ∷ 7 ∷ []

abbrev key_frame : List ℕ
key_frame = 0 ∷ 0 ∷ 0 ∷ 1 ∷ 101 ∷ []

sample-KeepsUp : (bytes : List ℕ) → length bytes ≤ 64 → KeepsUp sample bytes 7
sample-KeepsUp bytes h = record {
  has_index = λ m tr. refl;
  has_buffer = λ m i tr. refl;
  has_room = λ m i tr. h;
  takes_frame = λ m i n pts flags tr. refl;
  gives_frame = λ m tr. refl;
  releases = λ m i tr. refl;
  has_image = λ t tr. refl;
}

abbrev screen_renderer : OesRenderer
screen_renderer = record {
  program = pos 6;
  a_pos = pos 0;
  a_tex = pos 1;
  u_tex_matrix = pos 2;
  u_sampler = pos 3;
}

abbrev showing_runtime : Runtime
showing_runtime = record streaming_runtime {
  attached_window = pos 8;
  attached_surface = pos 9;
  attached_window_width = pos 1872;
  attached_window_height = pos 756;
  attached_window_updated = false;
  oes_texture = pos 5;
  oes_renderer = screen_renderer;
}

showing_runtime-Showing : Showing showing_runtime
showing_runtime-Showing = record {
  decoder = refl;
  running = omega arith;
  texture = refl;
  native = refl;
  attached = refl;
  going = refl;
  program = refl;
  surface = refl;
}

frame_reaches_screen_example :
    run wire
      (video_frame 1 key_frame ∷ output_rounds 1 ∷ video_rounds 1 ∷ [])
      sample
      showing_runtime
    ≡ (
      returned tt,
      record showing_runtime {
        trace =
            egl (swap_buffers (pos 0) (pos 9))
            ∷ draw_calls screen_renderer
                (pos 5)
                (pos 1872)
                (pos 756)
                (decoded sample showing_runtime key_frame 7);
      },
    )
frame_reaches_screen_example =
    frame_reaches_screen sample key_frame 7 (sample-KeepsUp key_frame (omega arith)) wire
      showing_runtime showing_runtime-Showing (omega arith)

stream_reaches_screen_example :
    let (ended, r) = run wire (stream (key_frame ∷ delta_frame ∷ [])) sample showing_runtime in
    (ended ≡ returned tt) × Streamed sample 7 (key_frame ∷ delta_frame ∷ []) showing_runtime r
stream_reaches_screen_example =
    stream_reaches_screen sample 7 wire (key_frame ∷ delta_frame ∷ []) showing_runtime
      showing_runtime-Showing
      (
        omega arith,
        sample-KeepsUp key_frame (omega arith),
        (omega arith, sample-KeepsUp delta_frame (omega arith), tt),
      )
