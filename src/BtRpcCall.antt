-- ===== src/BtRpcCall.antt =====
-- app/src/main/cpp/rpc/source/CarplayBtRpcCall.cpp: the JNI entries of an earlier version, most of
-- which is commented out. The build compiles them next to those of CarplayRpcRuntime.cpp.
pub mod Session
mod Examples
use grpc_jni_client.Prelude.{ℕ, ℤ, List, Bool, true, some, is_zero, if◌then◌else◌}
use grpc_jni_client.Platform.{
  Outcome, returned, faulted, get_string_utf_chars, release_string_utf_chars, jni, Action, pure,
  ask, tell, ◌>>=◌, ◌>>◌,
}
use grpc_jni_client.Messages.{Flatbuffers, hostapd_info}
use grpc_jni_client.Runtime.Session.{JString, JByteArray}

-- `BluetoothRpc.receiveBtIap2Data`: the whole body is commented out, so the function, which is to
-- return a jboolean, ends without a return.
unfoldable pub receive_bt_iap2_data : JByteArray → ℤ → Action (Outcome Bool)
receive_bt_iap2_data rfcomm_data data_length = pure faulted

-- `BluetoothRpc.startBtIap2Link`: likewise.
unfoldable pub start_bt_iap2_link : JString → Action (Outcome Bool)
start_bt_iap2_link mac_string = pure faulted

module _ (fb : Flatbuffers) where
  -- The bytes that the builder holds at the end.
  unfoldable pub session_request : JString → JString → ℤ → JString → ℤ → List ℕ
  session_request ssid pwd channel v6_address security_type = fb.finish hostapd_info (record {
    hostapd_ssid = some ssid.text;
    hostapd_passphrase = some pwd.text;
    hostapd_channel = channel;
    hostapd_ip_address_v6 = some v6_address.text;
    hostapd_security_type = security_type;
  })

  -- `CarplayRuntime.startCarplaySession`: `CreateString` of a null pointer is undefined behaviour. The
  -- call that would send the request is commented out.
  unfoldable pub start_carplay_session : JString → JString → ℤ → JString → ℤ → Action (Outcome Bool)
  start_carplay_session ssid pwd channel v6_address security_type = do
    ssid_str ← ask (jni (get_string_utf_chars ssid.ref))
    pwd_str ← ask (jni (get_string_utf_chars pwd.ref))
    ipv6_str ← ask (jni (get_string_utf_chars v6_address.ref))
    if is_zero ssid_str
        then pure faulted
        else if is_zero pwd_str
        then pure faulted
        else if is_zero ipv6_str
        then pure faulted
        else do
          tell (jni (release_string_utf_chars ssid.ref))
          tell (jni (release_string_utf_chars pwd.ref))
          tell (jni (release_string_utf_chars v6_address.ref))
          let req_buf = session_request ssid pwd channel v6_address security_type
          pure (returned true)
