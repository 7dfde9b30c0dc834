-- ===== src/Runtime/System/Refinement.antt =====
-- Every event of the runtime is a sequence of the client's changes.
use grpc_jni_client.Prelude.{
  ℕ, ℤ, ◌≡◌, ◌∙◌, refl, ap, sym, subst, arith, Bool, true, false, Option, String, List,
  if◌then◌else◌, Bool-cases, inl, inr, fun_ext,
}
use grpc_jni_client.Platform.{Platform}
use grpc_jni_client.Messages.{Flatbuffers}
use grpc_jni_client.Dial.{registered, set_rpc_debug_mode, set_pipe_handler}
use grpc_jni_client.Dial.Methods.{registered-register_method}
use grpc_jni_client.Runtime.State.{Handler, Runtime, default_pipe_handler}
use grpc_jni_client.Runtime.Listener.{init_pull_listener}
use grpc_jni_client.Runtime.Session.{
  JString, register_receivers, init_carplay_rpc_runtime, check_peer_rpc_dial_available,
  register_rpc_method, begin_stream, when_available, start_carplay_session,
}
use grpc_jni_client.Runtime.Screen.{
  render_frame, update_image, attach_window, draw_frame, render_loop,
}
use grpc_jni_client.Runtime.System.{
  Event, init_again, start_session, start_link, bt_data, touch, surface, remote_request,
  video_frame, video_start, video_rounds, output_rounds, step, run, run-keeps,
}
use grpc_jni_client.Runtime.System.Client.{
  Client, offer_receivers, listen, offer_stream, Changes, none_yet, one_more, Changes-trans,
}
use grpc_jni_client.Runtime.System.Quiet.{Quiet, receive_frame-Quiet}
use grpc_jni_client.Runtime.Screen.Frames.{render_loop-keeps}
use grpc_jni_client.Runtime.System.Entries.{
  send_hostapd_info-Quiet, start_bt_iap2_link-Quiet, receive_bt_iap2_data-Quiet,
  touch_screen_hid-Quiet, run_wrapper-Quiet,
}
use grpc_jni_client.Runtime.System.Video.{
  prepare_screen-Quiet, output_loop-Quiet, surface_available-Quiet,
}

abbrev pub view : Runtime → Client
view r = record { methods = λ name. registered name r.dial; listening = r.pull_listener }

module _ (p : Platform) where
  Quiet-Changes : {a b : Runtime} → Quiet p a b → Changes (view a) (view b)
  Quiet-Changes {a} {b} q = rw (q.dial, q.listener) none_yet

  init_pull_listener_lem :
      (url : String) (r : Runtime)
      → let (ok, r') = init_pull_listener url p r in
        (r'.dial ≡ r.dial)
        × (r'.pull_listener ≡ ok)
        × (r'.pull_listener ≡ (if ok then true else r.pull_listener))
  unfolding init_pull_listener
  init_pull_listener_lem url r = ground arith

  -- Opening the listener is the client's `listen`, or no change if it fails.
  init_pull_listener-Changes :
      (url : String) (r : Runtime) → Changes (view r) (view (init_pull_listener url p r).1)
  init_pull_listener-Changes url r =
      let (same, _, now) = init_pull_listener_lem url r in
      elim (Bool-cases (init_pull_listener url p r).0) [
        | inl e ↦ rw (same, now, e) (one_more none_yet listen)
        | inr e ↦ rw (same, now, e) none_yet
      ]

  registered_settings :
      (name : String) (r : Runtime)
      → registered name (set_rpc_debug_mode true (set_pipe_handler default_pipe_handler r.dial))
        ≡ registered name r.dial
  unfolding registered set_rpc_debug_mode set_pipe_handler
  registered_settings name r = refl

  register_receivers-Changes : (r : Runtime) → Changes (view r) (view (register_receivers p r).1)
  unfolding register_receivers init_carplay_rpc_runtime register_rpc_method
      check_peer_rpc_dial_available
  register_receivers-Changes r =
      subst (Changes (view r))
        (ap (λ (m : String → Option Handler). record { methods = m; listening = r.pull_listener })
          (fun_ext λ name. sym (simp (registered-register_method, registered_settings))))
        (one_more none_yet offer_receivers)

  -- A frame changes neither the methods nor the listener.
  attach_window-view : (r : Runtime) → view (attach_window p r).1 ≡ view r
  unfolding attach_window
  attach_window-view r = ground arith

  draw_frame-view : (r : Runtime) → view (draw_frame p r).1 ≡ view r
  unfolding draw_frame
  draw_frame-view r = ground arith

  render_frame-view : (r : Runtime) → view (render_frame p r).1 ≡ view r
  unfolding render_frame update_image
  render_frame-view r = draw_frame-view _ ∙ attach_window-view _ ∙ ground arith

  render_loop-view : (rounds : ℕ) (r : Runtime) → view (render_loop rounds p r).1 ≡ view r
  render_loop-view rounds r =
      render_loop-keeps p (λ s. view s ≡ view r) (λ s e. e) (λ s e. render_frame-view s ∙ e) rounds
        r refl

  module _ (fb : Flatbuffers) where
    begin_stream-Changes :
        (listening : Bool) (ssid pwd v6 : JString) (channel security : ℤ) (r : Runtime)
        → (listening ≡ true → r.pull_listener ≡ true)
        → Changes (view r) (view (begin_stream fb listening ssid pwd channel v6 security p r).1)
    unfolding begin_stream register_rpc_method
    begin_stream-Changes false ssid pwd v6 channel security r h = none_yet
    begin_stream-Changes true ssid pwd v6 channel security r h =
        Changes-trans
          (subst (Changes (view r))
            (ap
              (λ (m : String → Option Handler). record { methods = m; listening = r.pull_listener })
              (fun_ext λ name. sym (simp (registered-register_method))))
            (one_more none_yet (offer_stream (h refl))))
          (Quiet-Changes (send_hostapd_info-Quiet p fb ssid pwd v6 channel security _))

    when_available-Changes :
        (ready : Bool) (ssid pwd v6 : JString) (channel security : ℤ) (r : Runtime)
        → Changes (view r) (view (when_available fb ready ssid pwd channel v6 security p r).1)
    unfolding when_available
    when_available-Changes false ssid pwd v6 channel security r = none_yet
    when_available-Changes true ssid pwd v6 channel security r =
        Changes-trans (init_pull_listener-Changes "abstract://carplay.video.rpc" r) (
          begin_stream-Changes _ ssid pwd v6 channel security _
            (λ e. (init_pull_listener_lem "abstract://carplay.video.rpc" r).1 ∙ e))

    -- Every event of the runtime is a sequence of the client's changes.
    pub step-Changes : (e : Event) (r : Runtime) → Changes (view r) (view (step fb e p r).1)
    unfolding step start_carplay_session check_peer_rpc_dial_available
    step-Changes init_again r = register_receivers-Changes r
    step-Changes (start_session ssid pwd channel v6 security) r =
        when_available-Changes r.dial_started ssid pwd v6 channel security r
    step-Changes (start_link mac) r = Quiet-Changes (start_bt_iap2_link-Quiet p fb mac r)
    step-Changes (bt_data rfcomm len) r =
        Quiet-Changes (receive_bt_iap2_data-Quiet p fb rfcomm len r)
    step-Changes (touch hid) r = Quiet-Changes (touch_screen_hid-Quiet p fb hid r)
    step-Changes (surface object) r = Quiet-Changes (surface_available-Quiet p object r)
    step-Changes (remote_request rounds name req_buf) r =
        Quiet-Changes (run_wrapper-Quiet p fb rounds (registered name r.dial) req_buf r)
    step-Changes (video_frame rounds bytes) r = Quiet-Changes (receive_frame-Quiet p rounds bytes r)
    step-Changes video_start r = Quiet-Changes (prepare_screen-Quiet p r)
    step-Changes (video_rounds rounds) r = rw (render_loop-view rounds r) none_yet
    step-Changes (output_rounds rounds) r = Quiet-Changes (output_loop-Quiet p rounds r)

    -- Whatever the environment does, and in whatever order, what the peer can observe of the runtime
    -- develops by the client's changes.
    pub run_refines : (es : List Event) (r : Runtime) → Changes (view r) (view (run fb es p r).1)
    run_refines es r =
        run-keeps fb p (λ s. Changes (view r) (view s))
          (λ e s c. Changes-trans c (step-Changes e s)) es r none_yet
