-- ===== src/Runtime/Session.antt =====
-- The JNI entries of CarplayRpcRuntime.cpp and the calls that they make to the peer. `gRuntime` is
-- the argument of each; where it is null the entry dereferences a null pointer, except in
-- `initCarplayRpc`, which makes the object, and in `notifySurfaceAvailable`.
pub mod Table
pub mod Requests
pub mod Peer
use grpc_jni_client.Prelude.{
  ℕ, ℤ, pos, negsuc, List, Bool, true, false, not, Option, none, some, String, is_zero, leb, length,
  take, if◌then◌else◌,
}
use grpc_jni_client.Platform.{
  Outcome, returned, faulted, get_env, delete_global_ref, get_string_utf_chars,
  release_string_utf_chars, get_byte_array_elements, release_byte_array_elements, jni, dial_start,
  call_remote, rpc, Platform, Trace, pure, ask, tell, ◌>>=◌, ◌>>◌, gets, modify,
}
use grpc_jni_client.Jni.{JniHelper, initialize, with_env}
use grpc_jni_client.Messages.{
  Flatbuffers, bt_rfcomm_data, hostapd_info, string_request, int64_request,
}
use grpc_jni_client.Dial.{register_method, set_pipe_handler, set_rpc_debug_mode}
use grpc_jni_client.Runtime.State.{
  Handler, handle_send_iap2_detect_packet, handle_carplay_available_packet,
  handle_disable_bluetooth, handle_screen_stream_start, handle_screen_stream_stop,
  handle_screen_stream_configuration, Runtime, Garbage, new_runtime, Method, on_trace,
  default_pipe_handler,
}
use grpc_jni_client.Runtime.Listener.{init_pull_listener, shutdown_pull_listener}

-- A Java string or byte array: its reference, and what the VM copies out of it.
pub record JString : Type 0 where
  pub ref : ℤ
  pub text : String

pub record JByteArray : Type 0 where
  pub ref : ℤ
  pub elements : List ℕ

unfoldable pub init_carplay_rpc_runtime : Method (Unit {0})
init_carplay_rpc_runtime = do
  modify (λ r. record r { dial = set_pipe_handler default_pipe_handler r.dial })
  modify (λ r. record r { dial = set_rpc_debug_mode true r.dial })
  begun ← on_trace (ask (rpc dial_start))
  modify (λ r. record r { dial_started = not (is_zero begun) })

unfoldable pub check_peer_rpc_dial_available : Method Bool
check_peer_rpc_dial_available = gets (λ r. r.dial_started)

-- Whether the call succeeded is logged and dropped.
unfoldable pub rpc_remote_call : String → List ℕ → Method (Unit {0})
rpc_remote_call method req_buf = on_trace (tell (rpc (call_remote method req_buf)))

-- `resigteRpcMethod`
unfoldable pub register_rpc_method : String → Handler → Method Bool
register_rpc_method name handler = do
  modify (λ r. record r { dial = register_method name handler r.dial })
  pure true

unfoldable pub on_load : JniHelper → ℤ → Platform → Trace → ℤ × JniHelper × Trace
on_load self jvm p tr =
    let (got, tr') = ask (jni get_env) p tr in
    if is_zero got
    then (let (self', tr'') = initialize self jvm p tr' in (pos 0x10006, self', tr''))
    else (negsuc 0, self, tr')

obtain : Garbage → JniHelper → ℤ → Option Runtime → Platform → Trace → Runtime
obtain junk java thiz (some r) p tr = r
obtain junk java thiz none p tr = new_runtime junk java thiz p tr

unfoldable pub register_receivers : Method Bool
register_receivers = do
  init_carplay_rpc_runtime
  register_rpc_method "sendIap2DetectPacket" handle_send_iap2_detect_packet
  register_rpc_method "carplayAvailable" handle_carplay_available_packet
  register_rpc_method "disableBluetooth" handle_disable_bluetooth
  check_peer_rpc_dial_available

unfoldable pub init_carplay_rpc :
    Garbage → JniHelper → ℤ → Option Runtime → Platform → Trace → Bool × Runtime
unfolding obtain register_receivers
init_carplay_rpc junk java thiz g_runtime p tr =
    register_receivers p (obtain junk java thiz g_runtime p tr)

module _ (fb : Flatbuffers) where
  -- `CreateString` of a null pointer is undefined behaviour.
  unfoldable pub send_hostapd_info : JString → JString → ℤ → JString → ℤ → Method (Outcome Bool)
  send_hostapd_info ssid pwd channel v6_address security_type = do
    ssid_str ← on_trace (ask (jni (get_string_utf_chars ssid.ref)))
    pwd_str ← on_trace (ask (jni (get_string_utf_chars pwd.ref)))
    ipv6_str ← on_trace (ask (jni (get_string_utf_chars v6_address.ref)))
    if is_zero ssid_str
        then pure faulted
        else if is_zero pwd_str
        then pure faulted
        else if is_zero ipv6_str
        then pure faulted
        else do
          on_trace (tell (jni (release_string_utf_chars ssid.ref)))
          on_trace (tell (jni (release_string_utf_chars pwd.ref)))
          on_trace (tell (jni (release_string_utf_chars v6_address.ref)))
          rpc_remote_call "startWirelessCarplaySession" (
              fb.finish hostapd_info (record {
                hostapd_ssid = some ssid.text;
                hostapd_passphrase = some pwd.text;
                hostapd_channel = channel;
                hostapd_ip_address_v6 = some v6_address.text;
                hostapd_security_type = security_type;
              }))
          pure (returned true)

  unfoldable pub begin_stream : Bool → JString → JString → ℤ → JString → ℤ → Method (Outcome Bool)
  begin_stream false ssid pwd channel v6_address security_type = pure (returned false)
  begin_stream true ssid pwd channel v6_address security_type = do
    register_rpc_method "screenStreamStart" handle_screen_stream_start
    register_rpc_method "screenStreamStop" handle_screen_stream_stop
    register_rpc_method "screenStreamConfiguration" handle_screen_stream_configuration
    send_hostapd_info ssid pwd channel v6_address security_type

  unfoldable pub when_available : Bool → JString → JString → ℤ → JString → ℤ → Method (Outcome Bool)
  when_available false ssid pwd channel v6_address security_type = pure (returned false)
  when_available true ssid pwd channel v6_address security_type = do
    listening ← init_pull_listener "abstract://carplay.video.rpc"
    begin_stream listening ssid pwd channel v6_address security_type

  unfoldable pub start_carplay_session : JString → JString → ℤ → JString → ℤ → Method (Outcome Bool)
  start_carplay_session ssid pwd channel v6_address security_type = do
    ready ← check_peer_rpc_dial_available
    when_available ready ssid pwd channel v6_address security_type

  -- Constructing a `std::string` from a null pointer is undefined behaviour.
  unfoldable pub start_bt_iap2_link : JString → Method (Outcome Bool)
  start_bt_iap2_link mac_string = do
    ready ← check_peer_rpc_dial_available
    if ready
        then (do
          chars ← on_trace (ask (jni (get_string_utf_chars mac_string.ref)))
          if is_zero chars then pure faulted else do
            on_trace (tell (jni (release_string_utf_chars mac_string.ref)))
            rpc_remote_call "startBtIap2Link"
                (fb.finish string_request (record { value = some mac_string.text }))
            pure (returned true))
        else pure (returned false)

  -- The bytes `native_data .. native_data + data_length`, which the source reads without any test; none where
  -- they do not lie within the array, since that read is undefined behaviour.
  copy_bytes : List ℕ → ℤ → Option (List ℕ)
  copy_bytes elements (negsuc n) = none
  copy_bytes elements (pos n) = if leb n (length elements) then some (take n elements) else none

  unfoldable pub receive_bt_iap2_data : JByteArray → ℤ → Method (Outcome Bool)
  unfolding copy_bytes
  receive_bt_iap2_data rfcomm_data data_length = do
    ready ← check_peer_rpc_dial_available
    if ready
        then (do
          native_data ← on_trace (ask (jni (get_byte_array_elements rfcomm_data.ref)))
          if is_zero native_data
              then pure (returned false)
              else elim (copy_bytes rfcomm_data.elements data_length) [
                | none ↦ pure faulted
                | some payload ↦ (do
                  on_trace (tell (jni (release_byte_array_elements rfcomm_data.ref)))
                  rpc_remote_call "receiveRfcommDataFromBt"
                      (fb.finish bt_rfcomm_data (record { payload = some payload; length = pos 0 }))
                  pure (returned true))
              ])
        else pure (returned false)

  unfoldable pub touch_screen_hid : ℤ → Method (Outcome (Unit {0}))
  touch_screen_hid hid_value = do
    ready ← check_peer_rpc_dial_available
    if ready
        then (do
          rpc_remote_call "touchScreenHid" (fb.finish int64_request (record { value = hid_value }))
          pure (returned tt))
        else pure (returned tt)

-- `~CarplayRpcRuntime`, which no code of the program comes to call: `destroyCarplayRpc` is empty.
-- The body of the destructor. The members' destructors come after it: the renderer's is `destroy` of
-- Renderer, and the dial's stop is in the static library. The pointer that is set to null goes away with
-- the object.
unfoldable pub destroy_runtime : Method (Unit {0})
destroy_runtime = do
  shutdown_pull_listener
  java_object ← gets (λ r. r.java_object)
  if is_zero java_object
      then pure tt
      else on_trace (with_env (tell (jni (delete_global_ref java_object))))

-- The entry is to return a jboolean, and ends without a return.
unfoldable pub destroy_carplay_rpc : Method (Outcome Bool)
destroy_carplay_rpc = pure faulted

-- `notifyFrameAvailable`, `notifySurfaceUnavailable` and `notifySurfaceInputEvent`: all that they did is
-- commented out.
unfoldable pub notify_nothing : Method (Unit {0})
notify_nothing = pure tt

-- An entry that goes through `gRuntime`.
unfoldable pub through_g_runtime :
    {A : Type 0} → Option Runtime → Method (Outcome A) → Platform → Outcome A × Option Runtime
through_g_runtime none m p = (faulted, none)
through_g_runtime (some r) m p = let (a, r') = m p r in (a, some r')
