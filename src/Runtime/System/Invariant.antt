-- ===== src/Runtime/System/Invariant.antt =====
-- What holds of the runtime's resources however the environment drives it.
use grpc_jni_client.Prelude.{
  ℤ, ◌∙◌, ap, sym, subst, fun_ext, arith, Bool, true, false, Option, none, String, List, [],
  if◌then◌else◌, Bool-cases, inl, inr, is_zero,
}
use grpc_jni_client.Platform.{Platform, Trace, jni, get_env}
use grpc_jni_client.Renderer.{draw}
use grpc_jni_client.Messages.{Flatbuffers}
use grpc_jni_client.Dial.{registered}
use grpc_jni_client.Jni.{JniHelper}
use grpc_jni_client.Jni.Loading.{unset}
use grpc_jni_client.Jni.Rules.{initialize-Preserves}
use grpc_jni_client.Runtime.Session.Table.{registered-init_carplay_rpc}
use grpc_jni_client.Runtime.State.{Handler, Runtime, Garbage, new_runtime}
use grpc_jni_client.Runtime.Codec.Input.{WritesFit}
use grpc_jni_client.Runtime.Listener.{init_pull_listener}
use grpc_jni_client.Runtime.Listener.Lifecycle.{OneListener}
use grpc_jni_client.Runtime.Session.{
  JString, register_receivers, init_carplay_rpc_runtime, check_peer_rpc_dial_available,
  register_rpc_method, begin_stream, when_available, start_carplay_session, init_carplay_rpc,
  on_load,
}
use grpc_jni_client.Runtime.Screen.{render_frame, attach_window, draw_frame}
use grpc_jni_client.Runtime.Screen.Frames.{OneSurface, waited, render_loop-keeps}
use grpc_jni_client.Runtime.System.{
  Event, init_again, start_session, start_link, bt_data, touch, surface, remote_request,
  video_frame, video_start, video_rounds, output_rounds, step, run, run-keeps, boot,
}
use grpc_jni_client.Runtime.System.Client.{
  IsSound, offer_receivers, Change-IsSound, Changes-IsSound,
}
use grpc_jni_client.Runtime.System.Quiet.{Quiet, QuietTrace, receive_frame-Quiet}
use grpc_jni_client.Runtime.System.Entries.{
  send_hostapd_info-Quiet, start_bt_iap2_link-Quiet, receive_bt_iap2_data-Quiet,
  touch_screen_hid-Quiet, run_wrapper-Quiet,
}
use grpc_jni_client.Runtime.System.Video.{
  prepare_screen-Quiet, output_loop-Quiet, surface_available-Quiet, update_image-Quiet,
}
use grpc_jni_client.Runtime.System.Refinement.{view, run_refines}

-- No write went beyond an input buffer, and the listener and the window's surface that the runtime
-- holds are the only ones open.
pub record Accounts (p : Platform) (r : Runtime) : Type 0 where
  pub writes : WritesFit p r.trace
  pub one_listener : OneListener p r
  pub one_surface : OneSurface p r

module _ (p : Platform) where
  pub Quiet-Accounts : {a b : Runtime} → Quiet p a b → Accounts p a → Accounts p b
  Quiet-Accounts q v = record {
    writes = q.history.fits v.writes;
    one_listener =
        q.history.opened ∙ v.one_listener ∙ ap (λ (b : Bool). if b then 1 else 0) (sym q.listener);
    one_surface =
        q.history.made ∙ v.one_surface ∙ ap (λ (s : ℤ). if is_zero s then 0 else 1) (sym q.surface);
  }

  register_receivers-Accounts : (r : Runtime) → Accounts p r → Accounts p (register_receivers p r).1
  unfolding register_receivers init_carplay_rpc_runtime register_rpc_method
      check_peer_rpc_dial_available
  register_receivers-Accounts r v = ground arith

  init_pull_listener-Accounts :
      (url : String) (r : Runtime) → Accounts p r → Accounts p (init_pull_listener url p r).1
  unfolding init_pull_listener
  init_pull_listener-Accounts url r v = ground arith

  attach_window-Accounts : (r : Runtime) → Accounts p r → Accounts p (attach_window p r).1
  unfolding attach_window
  attach_window-Accounts r v = ground arith

  draw_frame-Accounts : (r : Runtime) → Accounts p r → Accounts p (draw_frame p r).1
  unfolding draw_frame draw
  draw_frame-Accounts r v = ground arith

  render_frame-Accounts : (r : Runtime) → Accounts p r → Accounts p (render_frame p r).1
  unfolding render_frame
  render_frame-Accounts r v = draw_frame-Accounts _ (
      attach_window-Accounts _ (
        Quiet-Accounts (update_image-Quiet p _) (record {
          writes = v.writes;
          one_listener = v.one_listener;
          one_surface = v.one_surface;
        })))

  waited-Accounts : (r : Runtime) → Accounts p r → Accounts p (waited r)
  waited-Accounts r v = record {
    writes = (tt, v.writes);
    one_listener = v.one_listener;
    one_surface = v.one_surface;
  }

  module _ (fb : Flatbuffers) where
    begin_stream-Accounts :
        (listening : Bool) (ssid pwd v6 : JString) (channel security : ℤ) (r : Runtime)
        → Accounts p r
        → Accounts p (begin_stream fb listening ssid pwd channel v6 security p r).1
    unfolding begin_stream register_rpc_method
    begin_stream-Accounts false ssid pwd v6 channel security r v = v
    begin_stream-Accounts true ssid pwd v6 channel security r v =
        Quiet-Accounts (send_hostapd_info-Quiet p fb ssid pwd v6 channel security _)
          (record { writes = v.writes; one_listener = v.one_listener; one_surface = v.one_surface })

    when_available-Accounts :
        (ready : Bool) (ssid pwd v6 : JString) (channel security : ℤ) (r : Runtime)
        → Accounts p r
        → Accounts p (when_available fb ready ssid pwd channel v6 security p r).1
    unfolding when_available
    when_available-Accounts false ssid pwd v6 channel security r v = v
    when_available-Accounts true ssid pwd v6 channel security r v =
        begin_stream-Accounts _ ssid pwd v6 channel security _ (init_pull_listener-Accounts _ r v)

    step-Accounts : (e : Event) (r : Runtime) → Accounts p r → Accounts p (step fb e p r).1
    unfolding step start_carplay_session check_peer_rpc_dial_available
    step-Accounts init_again r v = register_receivers-Accounts r v
    step-Accounts (start_session ssid pwd channel v6 security) r v =
        when_available-Accounts r.dial_started ssid pwd v6 channel security r v
    step-Accounts (start_link mac) r v = Quiet-Accounts (start_bt_iap2_link-Quiet p fb mac r) v
    step-Accounts (bt_data rfcomm len) r v =
        Quiet-Accounts (receive_bt_iap2_data-Quiet p fb rfcomm len r) v
    step-Accounts (touch hid) r v = Quiet-Accounts (touch_screen_hid-Quiet p fb hid r) v
    step-Accounts (surface object) r v = Quiet-Accounts (surface_available-Quiet p object r) v
    step-Accounts (remote_request rounds name req_buf) r v =
        Quiet-Accounts (run_wrapper-Quiet p fb rounds (registered name r.dial) req_buf r) v
    step-Accounts (video_frame rounds bytes) r v =
        Quiet-Accounts (receive_frame-Quiet p rounds bytes r) v
    step-Accounts video_start r v = Quiet-Accounts (prepare_screen-Quiet p r) v
    step-Accounts (video_rounds rounds) r v =
        render_loop-keeps p (Accounts p) waited-Accounts render_frame-Accounts rounds r v
    step-Accounts (output_rounds rounds) r v = Quiet-Accounts (output_loop-Quiet p rounds r) v

    pub run-Accounts : (es : List Event) (r : Runtime) → Accounts p r → Accounts p (run fb es p r).1
    run-Accounts es r v = run-keeps fb p (Accounts p) step-Accounts es r v

  on_load-quiet :
      (java : JniHelper) (jvm : ℤ) (tr : Trace) → QuietTrace p tr (on_load java jvm p tr).2
  unfolding on_load
  on_load-quiet java jvm tr = elim (Bool-cases (is_zero (p.answer tr (jni get_env)))) [
    | inl e ↦
        rw e (
          initialize-Preserves p (QuietTrace p tr) (λ c h q. ground arith) java jvm _
            (ground arith))
    | inr e ↦ rw e (ground arith)
  ]

  boot-Accounts : (junk : Garbage) (jvm thiz : ℤ) → Accounts p (boot junk jvm thiz p)
  unfolding boot init_carplay_rpc new_runtime
  boot-Accounts junk jvm thiz =
      let q = on_load-quiet unset jvm [] in
      register_receivers-Accounts _
        (record { writes = (tt, q.fits tt); one_listener = q.opened; one_surface = q.made })

  blank-IsSound : IsSound (record { methods = λ _. none; listening = false })
  blank-IsSound = record { named = λ name h e. cc; listened = λ name h e z. cc }

  boot-IsSound : (junk : Garbage) (jvm thiz : ℤ) → IsSound (view (boot junk jvm thiz p))
  unfolding boot init_carplay_rpc new_runtime register_receivers check_peer_rpc_dial_available
      register_rpc_method init_carplay_rpc_runtime
  boot-IsSound junk jvm thiz =
      let (_, java, tr) = on_load unset jvm p [] in
      subst IsSound
        (ap (λ (m : String → Option Handler). record { methods = m; listening = false })
          (fun_ext λ name. sym (registered-init_carplay_rpc p name junk java thiz tr)))
        (Change-IsSound offer_receivers blank-IsSound)

  -- From the load of the library on, and for any sequence of JNI entries, requests, frames and rounds
  -- of the threads: no write went beyond a decoder's input buffer; the listener and the window's
  -- surface that the runtime holds are the only ones open; the peer finds each handler under its own
  -- name only; and it finds those of the video stream only while the stream has a listener.
  pub run-boot_consistent :
      (fb : Flatbuffers) (junk : Garbage) (jvm thiz : ℤ) (es : List Event)
      → let r = (run fb es p (boot junk jvm thiz p)).1 in Accounts p r × IsSound (view r)
  run-boot_consistent fb junk jvm thiz es = (
    run-Accounts fb es _ (boot-Accounts junk jvm thiz),
    Changes-IsSound (run_refines p fb es _) (boot-IsSound junk jvm thiz),
  )
