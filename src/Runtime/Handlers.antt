-- ===== src/Runtime/Handlers.antt =====
-- The remote methods that CarplayRpcRuntime.cpp offers to the peer. `rounds` bounds the wait of
-- `handleScreenStreamConfiguration`.
pub mod Rules
pub mod Memory
pub mod Faults
pub mod Frame
pub mod Decoder
pub mod Waiting
pub mod Buffers
use grpc_jni_client.Prelude.{
  ℕ, ℤ, pos, List, [], ◌∷◌, Bool, true, false, none, some, is_zero, if◌then◌else◌,
}
use grpc_jni_client.Platform.{
  Outcome, returned, faulted, looping, outcome_map, new_direct_byte_buffer, delete_local_ref,
  new_string_utf, jni, os, spawn_thread, Action, pure, ask, tell, ◌>>=◌, ◌>>◌, gets, modify,
}
use grpc_jni_client.Jni.{with_env, with_env_fallible, call_void_method}
use grpc_jni_client.Messages.{
  Message, BtRfcommData, CarplayAvailability, StringRequest, VoidRequest, BytesRequest,
  VoidResponse,
}
use grpc_jni_client.Runtime.State.{
  available, Handler, handle_send_iap2_detect_packet, handle_carplay_available_packet,
  handle_disable_bluetooth, handle_screen_stream_start, handle_screen_stream_stop,
  handle_screen_stream_configuration, request, response, Method, on_trace,
}
use grpc_jni_client.Runtime.Codec.{queue_input_buffer, stop_media_codec}
use grpc_jni_client.Runtime.Listener.{retry}

abbrev pub void : VoidResponse
void = record {}

abbrev pub jbool : Bool → ℤ
jbool true = pos 1
jbool false = pos 0

pub pass_byte_buffer : ℤ → List ℕ → Action (Unit {0})
pass_byte_buffer java_object payload = do
  buffer ← ask (jni (new_direct_byte_buffer payload))
  if is_zero buffer then pure tt else do
    call_void_method java_object "callbackWithByteArray" "(Ljava/nio/ByteBuffer;)V" (buffer ∷ [])
    tell (jni (delete_local_ref buffer))

pub send_payload : List ℕ → Method (Outcome VoidResponse)
unfolding pass_byte_buffer
send_payload [] = pure (returned void)
send_payload (b ∷ bs) = do
  java_object ← gets (λ r. r.java_object)
  on_trace (with_env (pass_byte_buffer java_object (b ∷ bs)))
  pure (returned void)

send_iap2_detect_packet : BtRfcommData → Method (Outcome VoidResponse)
unfolding send_payload
send_iap2_detect_packet req = elim req.payload [
  | none ↦ pure faulted
  | some payload ↦ send_payload payload
]

pub pass_availability : ℤ → CarplayAvailability → Action (Outcome (Unit {0}))
pass_availability java_object req = elim req.usb_transport_identifier [
  | none ↦ pure faulted
  | some usb ↦ (do
    usb_str ← ask (jni (new_string_utf usb))
    elim req.bluetooth_transport_identifier [
      | none ↦ pure faulted
      | some bt ↦ (do
        bt_str ← ask (jni (new_string_utf bt))
        call_void_method java_object "callbackCarplayAvailable"
            "(ZLjava/lang/String;ZLjava/lang/String;)V"
            (jbool req.wired_available ∷ usb_str ∷ jbool req.wireless_available ∷ bt_str ∷ [])
        tell (jni (delete_local_ref usb_str))
        tell (jni (delete_local_ref bt_str))
        pure (returned tt))
    ])
]

carplay_available_packet : CarplayAvailability → Method (Outcome VoidResponse)
unfolding pass_availability
carplay_available_packet req = do
  java_object ← gets (λ r. r.java_object)
  ended ← on_trace (with_env_fallible (pass_availability java_object req))
  pure (outcome_map (λ _. void) ended)

-- The string made for the address is not released.
pub pass_address : ℤ → StringRequest → Action (Outcome (Unit {0}))
pass_address java_object req = elim req.value [
  | none ↦ pure faulted
  | some address ↦ (do
    j_addr ← ask (jni (new_string_utf address))
    call_void_method java_object "disableBluetooth" "(Ljava/lang/String;)V" (j_addr ∷ [])
    pure (returned tt))
]

disable_bluetooth : StringRequest → Method (Outcome VoidResponse)
unfolding pass_address
disable_bluetooth req = do
  java_object ← gets (λ r. r.java_object)
  ended ← on_trace (with_env_fallible (pass_address java_object req))
  pure (outcome_map (λ _. void) ended)

start_screen_stream_thread : Method (Unit {0})
start_screen_stream_thread = on_trace (tell (os spawn_thread))

screen_stream_start : VoidRequest → Method (Outcome VoidResponse)
unfolding start_screen_stream_thread
screen_stream_start req = do start_screen_stream_thread; pure (returned void)

screen_stream_stop : VoidRequest → Method (Outcome VoidResponse)
screen_stream_stop req = do stop_media_codec; pure (returned void)

abbrev pub codec_config_flag : ℕ
codec_config_flag = 2

-- AMEDIACODEC_BUFFER_FLAG_CODEC_CONFIG is 2.
finish_configuration : Outcome (Unit {0}) → Method (Outcome VoidResponse)
finish_configuration (returned _) = do
  modify (λ r. record r { media_codec_status = available })
  pure (returned void)
finish_configuration faulted = pure faulted
finish_configuration looping = pure looping

screen_stream_configuration : ℕ → BytesRequest → Method (Outcome VoidResponse)
unfolding finish_configuration
screen_stream_configuration rounds req = elim req.value [
  | none ↦ pure faulted
  | some bytes ↦ (do
    ended ← retry rounds 20 (queue_input_buffer bytes 0 codec_config_flag)
    finish_configuration ended)
]

-- What `dispatch` runs for a registered handler.
unfoldable pub run_handler :
    ℕ → (h : Handler) → Message (request h) → Method (Outcome (Message (response h)))
unfolding send_iap2_detect_packet carplay_available_packet disable_bluetooth screen_stream_start
    screen_stream_stop screen_stream_configuration
run_handler rounds handle_send_iap2_detect_packet req = send_iap2_detect_packet req
run_handler rounds handle_carplay_available_packet req = carplay_available_packet req
run_handler rounds handle_disable_bluetooth req = disable_bluetooth req
run_handler rounds handle_screen_stream_start req = screen_stream_start req
run_handler rounds handle_screen_stream_stop req = screen_stream_stop req
run_handler rounds handle_screen_stream_configuration req = screen_stream_configuration rounds req
