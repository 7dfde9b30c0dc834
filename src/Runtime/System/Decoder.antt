-- ===== src/Runtime/System/Decoder.antt =====
-- However the environment drives the runtime, the decoder that it calls is alive.
use grpc_jni_client.Prelude.{
  ℤ, pos, ◌+◌, ◌≡◌, ◌∙◌, arith, is_zero, Bool-cases, inl, inr, Bool, true, false, String, List, [],
}
use grpc_jni_client.Platform.{Platform, Trace, jni, get_env}
use grpc_jni_client.Messages.{Flatbuffers}
use grpc_jni_client.Renderer.{draw}
use grpc_jni_client.Dial.{registered}
use grpc_jni_client.Jni.{JniHelper}
use grpc_jni_client.Jni.Loading.{unset}
use grpc_jni_client.Jni.Rules.{initialize-Preserves}
use grpc_jni_client.Runtime.State.{Runtime, Garbage, new_runtime}
use grpc_jni_client.Runtime.Codec.Accounts.{
  made, deleted, lost, one_unless_null, decoders_accounted,
}
use grpc_jni_client.Runtime.Codec.Live.{live, UsesLive, HeldAt, HeldAt-jni, CodecHeld}
use grpc_jni_client.Runtime.Listener.{init_pull_listener}
use grpc_jni_client.Runtime.Session.{
  JString, register_receivers, init_carplay_rpc_runtime, check_peer_rpc_dial_available,
  register_rpc_method, begin_stream, when_available, start_carplay_session, init_carplay_rpc,
  on_load,
}
use grpc_jni_client.Runtime.Screen.{render_frame, attach_window, draw_frame}
use grpc_jni_client.Runtime.Screen.Frames.{render_loop-keeps}
use grpc_jni_client.Runtime.System.{
  Event, init_again, start_session, start_link, bt_data, touch, surface, remote_request,
  video_frame, video_start, video_rounds, output_rounds, step, run, run-keeps, boot,
}
use grpc_jni_client.Runtime.System.Quiet.{receive_frame-Quiet}
use grpc_jni_client.Runtime.System.Entries.{
  send_hostapd_info-Quiet, start_bt_iap2_link-Quiet, receive_bt_iap2_data-Quiet,
  touch_screen_hid-Quiet, run_wrapper-Quiet,
}
use grpc_jni_client.Runtime.System.Video.{
  prepare_screen-Quiet, output_loop-Quiet, surface_available-Quiet, update_image-Quiet,
}

module _ (p : Platform) where
  register_receivers-CodecHeld :
      (r : Runtime) → CodecHeld p r → CodecHeld p (register_receivers p r).1
  unfolding register_receivers init_carplay_rpc_runtime register_rpc_method
      check_peer_rpc_dial_available
  register_receivers-CodecHeld r v = v

  init_pull_listener-CodecHeld :
      (url : String) (r : Runtime) → CodecHeld p r → CodecHeld p (init_pull_listener url p r).1
  unfolding init_pull_listener
  init_pull_listener-CodecHeld url r v = ground arith

  attach_window-CodecHeld : (r : Runtime) → CodecHeld p r → CodecHeld p (attach_window p r).1
  unfolding attach_window
  attach_window-CodecHeld r v = ground arith

  draw_frame-CodecHeld : (r : Runtime) → CodecHeld p r → CodecHeld p (draw_frame p r).1
  unfolding draw_frame draw
  draw_frame-CodecHeld r v = ground arith

  render_frame-CodecHeld : (r : Runtime) → CodecHeld p r → CodecHeld p (render_frame p r).1
  unfolding render_frame
  render_frame-CodecHeld r v =
      draw_frame-CodecHeld _ (attach_window-CodecHeld _ ((update_image-Quiet p _).decoder v))

  module _ (fb : Flatbuffers) where
    begin_stream-CodecHeld :
        (listening : Bool) (ssid pwd v6 : JString) (channel security : ℤ) (r : Runtime)
        → CodecHeld p r
        → CodecHeld p (begin_stream fb listening ssid pwd channel v6 security p r).1
    unfolding begin_stream register_rpc_method
    begin_stream-CodecHeld false ssid pwd v6 channel security r v = v
    begin_stream-CodecHeld true ssid pwd v6 channel security r v =
        (send_hostapd_info-Quiet p fb ssid pwd v6 channel security _).decoder v

    when_available-CodecHeld :
        (ready : Bool) (ssid pwd v6 : JString) (channel security : ℤ) (r : Runtime)
        → CodecHeld p r
        → CodecHeld p (when_available fb ready ssid pwd channel v6 security p r).1
    unfolding when_available
    when_available-CodecHeld false ssid pwd v6 channel security r v = v
    when_available-CodecHeld true ssid pwd v6 channel security r v =
        begin_stream-CodecHeld _ ssid pwd v6 channel security _ (init_pull_listener-CodecHeld _ r v)

    step-CodecHeld : (e : Event) (r : Runtime) → CodecHeld p r → CodecHeld p (step fb e p r).1
    unfolding step start_carplay_session check_peer_rpc_dial_available
    step-CodecHeld init_again r v = register_receivers-CodecHeld r v
    step-CodecHeld (start_session ssid pwd channel v6 security) r v =
        when_available-CodecHeld r.dial_started ssid pwd v6 channel security r v
    step-CodecHeld (start_link mac) r v = (start_bt_iap2_link-Quiet p fb mac r).decoder v
    step-CodecHeld (bt_data rfcomm len) r v =
        (receive_bt_iap2_data-Quiet p fb rfcomm len r).decoder v
    step-CodecHeld (touch hid) r v = (touch_screen_hid-Quiet p fb hid r).decoder v
    step-CodecHeld (surface object) r v = (surface_available-Quiet p object r).decoder v
    step-CodecHeld (remote_request rounds name req_buf) r v =
        (run_wrapper-Quiet p fb rounds (registered name r.dial) req_buf r).decoder v
    step-CodecHeld (video_frame rounds bytes) r v = (receive_frame-Quiet p rounds bytes r).decoder v
    step-CodecHeld video_start r v = (prepare_screen-Quiet p r).decoder v
    step-CodecHeld (video_rounds rounds) r v =
        render_loop-keeps p (CodecHeld p) (λ s w. w) render_frame-CodecHeld rounds r v
    step-CodecHeld (output_rounds rounds) r v = (output_loop-Quiet p rounds r).decoder v

  on_load-HeldAt :
      (java : JniHelper) (jvm : ℤ) (tr : Trace)
      → HeldAt p (pos 0) tr
      → HeldAt p (pos 0) (on_load java jvm p tr).2
  unfolding on_load
  on_load-HeldAt java jvm tr v = elim (Bool-cases (is_zero (p.answer tr (jni get_env)))) [
    | inl e ↦ rw e (initialize-Preserves p (HeldAt p (pos 0)) (HeldAt-jni p (pos 0)) java jvm _ v)
    | inr e ↦ rw e v
  ]

  boot-CodecHeld :
      (junk : Garbage) (jvm thiz : ℤ)
      → junk.media_codec ≡ pos 0
      → CodecHeld p (boot junk jvm thiz p)
  unfolding boot init_carplay_rpc new_runtime
  boot-CodecHeld junk jvm thiz z =
      let (same, uses) = on_load-HeldAt unset jvm [] (ground arith) in
      register_receivers-CodecHeld _ (z ∙ same, uses)

  -- If `new` finds a null pointer in the decoder's member, which has no initialiser: from the load of
  -- the library on, and for any sequence of JNI entries, requests, frames and rounds of the threads, each
  -- of which runs to its end before the next, every call of a decoder has gone to the one that was made
  -- last, not null and not yet deleted, and the runtime's pointer is that decoder or null. Each decoder
  -- that was made has been deleted, or is the one of the pointer, or was lost when another one was asked
  -- for while it was alive.
  pub run-boot-UsesLive :
      (fb : Flatbuffers) (junk : Garbage) (jvm thiz : ℤ) (es : List Event)
      → junk.media_codec ≡ pos 0
      → let r = (run fb es p (boot junk jvm thiz p)).1 in
        UsesLive p r.trace
        × (r.media_codec ≡ live p r.trace)
        × (made p r.trace ≡ deleted r.trace + lost p r.trace + one_unless_null r.media_codec)
  run-boot-UsesLive fb junk jvm thiz es z =
      let (same, uses) =
        run-keeps fb p (CodecHeld p) (step-CodecHeld fb) es _ (boot-CodecHeld junk jvm thiz z) in
      (uses, same, rw same (decoders_accounted p (run fb es p (boot junk jvm thiz p)).1.trace uses))
