-- ===== src/Runtime/Handlers/Rules.antt =====
-- Predicates on histories that the calls of the handlers do not break.
use grpc_jni_client.Prelude.{
  ℕ, ℤ, inl, inr, List, [], ◌∷◌, String, is_zero, Bool-cases, Option-cases,
}
use grpc_jni_client.Platform.{
  OsCall, CodecCall, os, codec, jni, new_direct_byte_buffer, Outcome, returned, faulted, looping,
  Platform, Trace,
}
use grpc_jni_client.Jni.{call_void_method}
use grpc_jni_client.Jni.Rules.{
  Stable, Preserves, with_env-Preserves, with_env_fallible-Preserves, call_void_method-Preserves,
}
use grpc_jni_client.Messages.{Message, CarplayAvailability, StringRequest}
use grpc_jni_client.Runtime.State.{
  Handler, handle_send_iap2_detect_packet, handle_carplay_available_packet,
  handle_disable_bluetooth, handle_screen_stream_start, handle_screen_stream_stop,
  handle_screen_stream_configuration, request, Runtime,
}
use grpc_jni_client.Runtime.Codec.{queue_input_buffer, stop_media_codec}
use grpc_jni_client.Runtime.Listener.Retry.{retry-keeps}
use grpc_jni_client.Runtime.Handlers.{
  run_handler, codec_config_flag, send_iap2_detect_packet, screen_stream_configuration,
  pass_byte_buffer, pass_availability, pass_address, send_payload, finish_configuration,
}

-- `P` is kept by JNI calls.
module _ (p : Platform) (P : Trace → Type 0) (stable : Stable P) where
  called :
      (obj : ℤ) (name sig : String) (args : List ℤ)
      → Preserves p P (call_void_method obj name sig args)
  called = call_void_method-Preserves p P stable

  pub pass_byte_buffer-kept :
      (obj : ℤ) (payload : List ℕ) → Preserves p P (pass_byte_buffer obj payload)
  unfolding pass_byte_buffer
  pass_byte_buffer-kept obj payload tr v =
      elim (Bool-cases (is_zero (p.answer tr (jni (new_direct_byte_buffer payload))))) [
        | inl z ↦ rw z (stable _ _ v)
        | inr z ↦ rw z (stable _ _ (called _ _ _ _ _ (stable _ _ v)))
      ]

  pub pass_address-kept : (obj : ℤ) (req : StringRequest) → Preserves p P (pass_address obj req)
  unfolding pass_address
  pass_address-kept obj req tr v = elim (Option-cases req.value) [
    | inl e ↦ rw (e, pass_address) v
    | inr (address, e) ↦ rw (e, pass_address) (called _ _ _ _ _ (stable _ _ v))
  ]

  pub pass_availability-kept :
      (obj : ℤ) (req : CarplayAvailability) → Preserves p P (pass_availability obj req)
  unfolding pass_availability
  pass_availability-kept obj req tr v = elim (Option-cases req.usb_transport_identifier) [
    | inl e ↦ rw (e, pass_availability) v
    | inr (usb, e) ↦ elim (Option-cases req.bluetooth_transport_identifier) [
      | inl f ↦ rw (e, f, pass_availability) (stable _ _ v)
      | inr (bt, f) ↦
          rw (e, f, pass_availability)
            (stable _ _ (stable _ _ (called _ _ _ _ _ (stable _ _ (stable _ _ v)))))
    ]
  ]

  pub send_payload-kept :
      (payload : List ℕ) (r : Runtime) → P r.trace → P (send_payload payload p r).1.trace
  unfolding send_payload
  send_payload-kept [] r v = v
  send_payload-kept (b ∷ bs) r v =
      with_env-Preserves p P stable _ (pass_byte_buffer-kept r.java_object (b ∷ bs)) r.trace v

-- `P` is kept by JNI calls, by thread calls and sleeps, by ending a decoder, and by offering it input.
module _ (p : Platform) (P : Trace → Type 0) (stable : Stable P)
    (os_stable : (c : OsCall) (tr : Trace) → P tr → P (os c ∷ tr))
    (stop_stable : (x : ℤ) (tr : Trace) → P tr → P (codec (CodecCall.stop x) ∷ tr))
    (delete_stable : (x : ℤ) (tr : Trace) → P tr → P (codec (CodecCall.delete x) ∷ tr))
    (input_kept : (bytes : List ℕ) (pts flags : ℕ) (r : Runtime)
      → P r.trace
      → P (queue_input_buffer bytes pts flags p r).1.trace) where
  finish_configuration-kept :
      (ended : Outcome (Unit {0})) (r : Runtime)
      → P r.trace
      → P (finish_configuration ended p r).1.trace
  unfolding finish_configuration
  finish_configuration-kept (returned _) r v = v
  finish_configuration-kept faulted r v = v
  finish_configuration-kept looping r v = v

  stop_media_codec-kept : (r : Runtime) → P r.trace → P (stop_media_codec p r).1.trace
  unfolding stop_media_codec
  stop_media_codec-kept r v = elim (Bool-cases (is_zero r.media_codec)) [
    | inl z ↦ rw z v
    | inr z ↦ rw z (delete_stable _ _ (stop_stable _ _ v))
  ]

  -- Whatever the request and however long it may wait, a handler keeps `P`.
  pub run_handler-kept :
      (rounds : ℕ) (h : Handler) (req : Message (request h)) (r : Runtime)
      → P r.trace
      → P (run_handler rounds h req p r).1.trace
  unfolding run_handler
  run_handler-kept rounds handle_send_iap2_detect_packet req r v = elim (Option-cases req.payload) [
    | inl e ↦ rw (e, run_handler, send_iap2_detect_packet) v
    | inr (payload, e) ↦
        rw (e, run_handler, send_iap2_detect_packet) (send_payload-kept p P stable payload r v)
  ]
  run_handler-kept rounds handle_carplay_available_packet req r v =
      with_env_fallible-Preserves p P stable _ (pass_availability-kept p P stable r.java_object req)
        r.trace v
  run_handler-kept rounds handle_disable_bluetooth req r v =
      with_env_fallible-Preserves p P stable _ (pass_address-kept p P stable r.java_object req)
        r.trace v
  run_handler-kept rounds handle_screen_stream_start req r v = os_stable _ _ v
  run_handler-kept rounds handle_screen_stream_stop req r v = stop_media_codec-kept r v
  run_handler-kept rounds handle_screen_stream_configuration req r v =
      elim (Option-cases req.value) [
        | inl e ↦ rw (e, run_handler, screen_stream_configuration) v
        | inr (bytes, e) ↦
            rw (e, run_handler, screen_stream_configuration)
              (finish_configuration-kept _ _ (
                retry-keeps p 20 (queue_input_buffer bytes 0 codec_config_flag) (λ s. P s.trace)
                  (input_kept bytes 0 codec_config_flag) (λ s. os_stable _ _) rounds r v))
      ]
