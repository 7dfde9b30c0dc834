-- ===== src/Runtime/Handlers/Decoder.antt =====
-- The remote methods call no decoder but the live one.
use grpc_jni_client.Prelude.{ℕ, List, [], ◌∷◌, inl, inr, Option-cases}
use grpc_jni_client.Platform.{Platform, Outcome, returned, faulted, looping}
use grpc_jni_client.Jni.Rules.{with_env_fallible-Preserves}
use grpc_jni_client.Messages.{Message}
use grpc_jni_client.Runtime.State.{
  Handler, handle_send_iap2_detect_packet, handle_carplay_available_packet,
  handle_disable_bluetooth, handle_screen_stream_start, handle_screen_stream_stop,
  handle_screen_stream_configuration, request, Runtime,
}
use grpc_jni_client.Runtime.Codec.{queue_input_buffer}
use grpc_jni_client.Runtime.Codec.Live.{
  HeldAt, HeldAt-jni, CodecHeld, queue_input_buffer-CodecHeld, stop_media_codec-CodecHeld,
}
use grpc_jni_client.Runtime.Listener.Retry.{retry-keeps}
use grpc_jni_client.Runtime.Handlers.{
  run_handler, codec_config_flag, send_iap2_detect_packet, send_payload,
  screen_stream_configuration, finish_configuration,
}
use grpc_jni_client.Runtime.Handlers.Rules.{
  pass_availability-kept, pass_address-kept, send_payload-kept,
}

module _ (p : Platform) where
  send_payload-CodecHeld :
      (payload : List ℕ) (r : Runtime) → CodecHeld p r → CodecHeld p (send_payload payload p r).1
  unfolding send_payload
  send_payload-CodecHeld [] r v = v
  send_payload-CodecHeld (b ∷ bs) r v =
      send_payload-kept p (HeldAt p r.media_codec) (HeldAt-jni p r.media_codec) (b ∷ bs) r v

  finish_configuration-CodecHeld :
      (ended : Outcome (Unit {0})) (r : Runtime)
      → CodecHeld p r
      → CodecHeld p (finish_configuration ended p r).1
  unfolding finish_configuration
  finish_configuration-CodecHeld (returned _) r v = v
  finish_configuration-CodecHeld faulted r v = v
  finish_configuration-CodecHeld looping r v = v

  pub run_handler-CodecHeld :
      (rounds : ℕ) (h : Handler) (req : Message (request h)) (r : Runtime)
      → CodecHeld p r
      → CodecHeld p (run_handler rounds h req p r).1
  unfolding run_handler
  run_handler-CodecHeld rounds handle_send_iap2_detect_packet req r v =
      elim (Option-cases req.payload) [
        | inl e ↦ rw (e, run_handler, send_iap2_detect_packet) v
        | inr (payload, e) ↦
            rw (e, run_handler, send_iap2_detect_packet) (send_payload-CodecHeld payload r v)
      ]
  run_handler-CodecHeld rounds handle_carplay_available_packet req r v =
      with_env_fallible-Preserves p (HeldAt p r.media_codec) (HeldAt-jni p r.media_codec) _
        (pass_availability-kept p (HeldAt p r.media_codec) (HeldAt-jni p r.media_codec)
          r.java_object req)
        r.trace v
  run_handler-CodecHeld rounds handle_disable_bluetooth req r v =
      with_env_fallible-Preserves p (HeldAt p r.media_codec) (HeldAt-jni p r.media_codec) _
        (pass_address-kept p (HeldAt p r.media_codec) (HeldAt-jni p r.media_codec) r.java_object
          req)
        r.trace v
  run_handler-CodecHeld rounds handle_screen_stream_start req r v = v
  run_handler-CodecHeld rounds handle_screen_stream_stop req r v = stop_media_codec-CodecHeld p r v
  run_handler-CodecHeld rounds handle_screen_stream_configuration req r v =
      elim (Option-cases req.value) [
        | inl e ↦ rw (e, run_handler, screen_stream_configuration) v
        | inr (bytes, e) ↦
            rw (e, run_handler, screen_stream_configuration)
              (finish_configuration-CodecHeld _ _ (
                retry-keeps p 20 (queue_input_buffer bytes 0 codec_config_flag) (CodecHeld p)
                  (queue_input_buffer-CodecHeld p bytes 0 codec_config_flag) (λ s w. w) rounds r v))
      ]
