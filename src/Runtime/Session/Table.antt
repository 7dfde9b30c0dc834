-- ===== src/Runtime/Session/Table.antt =====
-- Which remote methods the peer can call, and when.
use grpc_jni_client.Prelude.{
  ℤ, ◌≡◌, refl, Bool, true, false, Option, none, some, String, arith, str_eq, if◌then◌else◌, ◌≢◌,
  ◌∙◌,
}
use grpc_jni_client.Platform.{Outcome, returned, Platform, Trace}
use grpc_jni_client.Prelude.Dict.{lookup-empty}
use grpc_jni_client.Jni.{JniHelper}
use grpc_jni_client.Messages.{Flatbuffers}
use grpc_jni_client.Dial.{new_dial, registered, set_pipe_handler, set_rpc_debug_mode}
use grpc_jni_client.Dial.Methods.{registered-register_method}
use grpc_jni_client.Runtime.State.{
  Handler, handle_send_iap2_detect_packet, handle_carplay_available_packet,
  handle_disable_bluetooth, handle_screen_stream_start, handle_screen_stream_stop,
  handle_screen_stream_configuration, Runtime, Garbage, new_runtime, default_pipe_handler,
}
use grpc_jni_client.Runtime.Listener.{init_pull_listener}
use grpc_jni_client.Runtime.Session.{
  JString, init_carplay_rpc_runtime, check_peer_rpc_dial_available, rpc_remote_call,
  register_rpc_method, init_carplay_rpc, send_hostapd_info, begin_stream, when_available,
  start_carplay_session,
}

-- The methods that the Bluetooth and availability services need, over a table `otherwise`.
abbrev pub receiver : (String → Option Handler) → String → Option Handler
receiver otherwise name =
    if str_eq "disableBluetooth" name
    then some handle_disable_bluetooth
    else if str_eq "carplayAvailable" name
    then some handle_carplay_available_packet
    else if str_eq "sendIap2DetectPacket" name
    then some handle_send_iap2_detect_packet
    else otherwise name

-- The methods of the video stream, over a table `otherwise`.
abbrev pub streamer : (String → Option Handler) → String → Option Handler
streamer otherwise name =
    if str_eq "screenStreamConfiguration" name
    then some handle_screen_stream_configuration
    else if str_eq "screenStreamStop" name
    then some handle_screen_stream_stop
    else if str_eq "screenStreamStart" name
    then some handle_screen_stream_start
    else otherwise name

registered_new :
    (name : String)
    → registered name
        (set_rpc_debug_mode true (set_pipe_handler default_pipe_handler (new_dial Handler)))
      ≡ none
unfolding registered set_rpc_debug_mode set_pipe_handler new_dial
registered_new name = lookup-empty name

module _ (p : Platform) (fb : Flatbuffers) (ssid pwd v6 : JString) (channel security : ℤ) where
  -- Sending the request registers nothing and ends with true, if it ends.
  dial-send_hostapd_info :
      (r : Runtime)
      → let (ended, r') = send_hostapd_info fb ssid pwd channel v6 security p r in
        (r'.dial ≡ r.dial) × (ended ≢ returned false)
  unfolding send_hostapd_info rpc_remote_call
  dial-send_hostapd_info r = ground arith

  abbrev Extends : String → Runtime → Outcome Bool × Runtime → Type 0
  Extends name r (ended, r') =
      (ended ≡ returned true → registered name r'.dial ≡ streamer (λ n. registered n r.dial) name)
      × (ended ≡ returned false → registered name r'.dial ≡ registered name r.dial)

  dial-init_pull_listener :
      (url : String) (r : Runtime) → (init_pull_listener url p r).1.dial ≡ r.dial
  unfolding init_pull_listener
  dial-init_pull_listener url r = ground arith

  begin_stream-Extends :
      (name : String) (listening : Bool) (r : Runtime)
      → Extends name r (begin_stream fb listening ssid pwd channel v6 security p r)
  unfolding begin_stream register_rpc_method
  begin_stream-Extends name false r = ((λ e. cc), (λ e. refl))
  begin_stream-Extends name true r =
      let sent = dial-send_hostapd_info _ in
      ((λ e. rw sent.0 (simp registered-register_method)), (λ e. absurd (sent.1 e)))

  when_available-Extends :
      (name : String) (ready : Bool) (r : Runtime)
      → Extends name r (when_available fb ready ssid pwd channel v6 security p r)
  unfolding when_available
  when_available-Extends name false r = ((λ e. cc), (λ e. refl))
  when_available-Extends name true r =
      let same = dial-init_pull_listener "abstract://carplay.video.rpc" r in
      let begun =
        begin_stream-Extends name (init_pull_listener "abstract://carplay.video.rpc" p r).0
          (init_pull_listener "abstract://carplay.video.rpc" p r).1 in
      ((λ e. begun.0 e ∙ rw same), (λ e. begun.1 e ∙ rw same))

  -- A session that reports success has registered the three methods of the video stream over those
  -- there before, and has changed no other.
  pub registered-start_carplay_session :
      (name : String) (r : Runtime)
      → (start_carplay_session fb ssid pwd channel v6 security p r).0 ≡ returned true
      → registered name (start_carplay_session fb ssid pwd channel v6 security p r).1.dial
        ≡ streamer (λ n. registered n r.dial) name
  unfolding start_carplay_session check_peer_rpc_dial_available
  registered-start_carplay_session name r = (when_available-Extends name r.dial_started r).0

  -- A session that reports failure leaves the table of methods alone.
  pub registered-start_carplay_session_failed :
      (name : String) (r : Runtime)
      → (start_carplay_session fb ssid pwd channel v6 security p r).0 ≡ returned false
      → registered name (start_carplay_session fb ssid pwd channel v6 security p r).1.dial
        ≡ registered name r.dial
  unfolding start_carplay_session check_peer_rpc_dial_available
  registered-start_carplay_session_failed name r = (when_available-Extends name r.dial_started r).1

module _ (p : Platform) (name : String) where
  -- The first `initCarplayRpc` offers exactly the three receivers, whether or not the dial started.
  pub registered-init_carplay_rpc :
      (junk : Garbage) (java : JniHelper) (thiz : ℤ) (tr : Trace)
      → registered name (init_carplay_rpc junk java thiz none p tr).1.dial
        ≡ receiver (λ _. none) name
  unfolding init_carplay_rpc init_carplay_rpc_runtime register_rpc_method new_runtime
      check_peer_rpc_dial_available
  registered-init_carplay_rpc junk java thiz tr = simp (registered-register_method, registered_new)
