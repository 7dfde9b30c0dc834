-- ===== src/Runtime/System/Entries.antt =====
-- The JNI entries and requests that are quiet.
use grpc_jni_client.Prelude.{ℕ, ℤ, arith, List, [], Option, none, some}
use grpc_jni_client.Platform.{Platform}
use grpc_jni_client.Messages.{Flatbuffers}
use grpc_jni_client.Runtime.State.{Handler, Runtime}
use grpc_jni_client.Runtime.Session.{
  JString, JByteArray, check_peer_rpc_dial_available, rpc_remote_call, send_hostapd_info,
  start_bt_iap2_link, receive_bt_iap2_data, touch_screen_hid,
}
use grpc_jni_client.Runtime.System.{run_wrapper}
use grpc_jni_client.Runtime.System.Quiet.{Quiet, Quiet-refl, handler_func-Quiet}

module _ (p : Platform) (fb : Flatbuffers) where
  pub send_hostapd_info-Quiet :
      (ssid pwd v6 : JString) (channel security : ℤ) (r : Runtime)
      → Quiet p r (send_hostapd_info fb ssid pwd channel v6 security p r).1
  unfolding send_hostapd_info rpc_remote_call
  send_hostapd_info-Quiet ssid pwd v6 channel security r = ground arith

  pub start_bt_iap2_link-Quiet :
      (mac : JString) (r : Runtime) → Quiet p r (start_bt_iap2_link fb mac p r).1
  unfolding start_bt_iap2_link check_peer_rpc_dial_available rpc_remote_call
  start_bt_iap2_link-Quiet mac r = ground arith

  pub receive_bt_iap2_data-Quiet :
      (rfcomm : JByteArray) (len : ℤ) (r : Runtime)
      → Quiet p r (receive_bt_iap2_data fb rfcomm len p r).1
  unfolding receive_bt_iap2_data check_peer_rpc_dial_available rpc_remote_call
  receive_bt_iap2_data-Quiet rfcomm len r = ground arith

  pub touch_screen_hid-Quiet : (hid : ℤ) (r : Runtime) → Quiet p r (touch_screen_hid fb hid p r).1
  unfolding touch_screen_hid check_peer_rpc_dial_available rpc_remote_call
  touch_screen_hid-Quiet hid r = ground arith

  pub run_wrapper-Quiet :
      (rounds : ℕ) (found : Option Handler) (req_buf : List ℕ) (r : Runtime)
      → Quiet p r (run_wrapper fb rounds found req_buf p r).1
  unfolding run_wrapper
  run_wrapper-Quiet rounds none req_buf r = Quiet-refl p r
  run_wrapper-Quiet rounds (some h) req_buf r = handler_func-Quiet p fb rounds h req_buf [] r
