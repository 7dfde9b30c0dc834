-- ===== src/Runtime/Handlers/Frame.antt =====
-- What no remote method touches.
use grpc_jni_client.Prelude.{
  ℕ, ℤ, ◌≡◌, refl, ap, ◌∙◌, Bool, List, ◌∷◌, [], inl, inr, Option-cases, Bool-cases, is_zero,
}
use grpc_jni_client.Platform.{Platform, Outcome, returned, faulted, looping}
use grpc_jni_client.Messages.{Message}
use grpc_jni_client.Dial.{Dial}
use grpc_jni_client.Runtime.State.{
  Handler, handle_send_iap2_detect_packet, handle_carplay_available_packet,
  handle_disable_bluetooth, handle_screen_stream_start, handle_screen_stream_stop,
  handle_screen_stream_configuration, request, Runtime,
}
use grpc_jni_client.Runtime.Codec.{queue_input_buffer, stop_media_codec}
use grpc_jni_client.Runtime.Codec.Input.{queue_input_buffer_frame}
use grpc_jni_client.Runtime.Listener.{retry}
use grpc_jni_client.Runtime.Listener.Retry.{retry-keeps}
use grpc_jni_client.Runtime.Handlers.{
  run_handler, codec_config_flag, send_iap2_detect_packet, send_payload,
  screen_stream_configuration, finish_configuration,
}

-- The method table, the listener of the video stream and the surface of the window.
abbrev pub core : Runtime → Dial Handler × Bool × ℤ
core r = (r.dial, r.pull_listener, r.attached_surface)

module _ (p : Platform) where
  pub retry-core :
      (rounds pause : ℕ) (bytes : List ℕ) (flags : ℕ) (r : Runtime)
      → core (retry rounds pause (queue_input_buffer bytes 0 flags) p r).1 ≡ core r
  retry-core rounds pause bytes flags r =
      retry-keeps p pause (queue_input_buffer bytes 0 flags) (λ s. core s ≡ core r)
        (λ s e. ap core (queue_input_buffer_frame p s bytes 0 flags) ∙ e) (λ s e. e) rounds r refl

  pub stop_media_codec-core : (r : Runtime) → core (stop_media_codec p r).1 ≡ core r
  unfolding stop_media_codec
  stop_media_codec-core r = elim (Bool-cases (is_zero r.media_codec)) [
    | inl z ↦ rw z refl
    | inr z ↦ rw z refl
  ]

  send_payload-core : (payload : List ℕ) (r : Runtime) → core (send_payload payload p r).1 ≡ core r
  unfolding send_payload
  send_payload-core [] r = refl
  send_payload-core (b ∷ bs) r = refl

  finish_configuration-core :
      (ended : Outcome (Unit {0})) (r : Runtime) → core (finish_configuration ended p r).1 ≡ core r
  unfolding finish_configuration
  finish_configuration-core (returned _) r = refl
  finish_configuration-core faulted r = refl
  finish_configuration-core looping r = refl

  -- No remote method changes the method table, the listener or the window's surface.
  pub run_handler-core :
      (rounds : ℕ) (h : Handler) (req : Message (request h)) (r : Runtime)
      → core (run_handler rounds h req p r).1 ≡ core r
  unfolding run_handler
  run_handler-core rounds handle_send_iap2_detect_packet req r = elim (Option-cases req.payload) [
    | inl e ↦ rw (e, run_handler, send_iap2_detect_packet) refl
    | inr (payload, e) ↦ rw (e, run_handler, send_iap2_detect_packet) (send_payload-core payload r)
  ]
  run_handler-core rounds handle_carplay_available_packet req r = refl
  run_handler-core rounds handle_disable_bluetooth req r = refl
  run_handler-core rounds handle_screen_stream_start req r = refl
  run_handler-core rounds handle_screen_stream_stop req r = stop_media_codec-core r
  run_handler-core rounds handle_screen_stream_configuration req r = elim (Option-cases req.value) [
    | inl e ↦ rw (e, run_handler, screen_stream_configuration) refl
    | inr (bytes, e) ↦
        rw (e, run_handler, screen_stream_configuration)
          (finish_configuration-core _ _ ∙ retry-core rounds 20 bytes codec_config_flag r)
  ]
