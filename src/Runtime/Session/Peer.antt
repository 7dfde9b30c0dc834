-- ===== src/Runtime/Session/Peer.antt =====
-- What the peer reads of the messages that the JNI entries send.
use grpc_jni_client.Prelude.{
  ℕ, zero, suc, ℤ, pos, [], ◌∷◌, ◌≤◌, ◌≡◌, List, some, true, String, is_zero, false, arith, length,
  take, ap,
}
use grpc_jni_client.Platform.{
  returned, get_byte_array_elements, call_remote, jni, rpc, Platform, Trace,
}
use grpc_jni_client.Messages.{
  Schema, Message, Flatbuffers, bt_rfcomm_data, hostapd_info, string_request, int64_request,
}
use grpc_jni_client.Messages.Buffers.{IsLawful}
use grpc_jni_client.Messages.Ranges.{int32, int64, InRange, AreBytes, IsTyped}
use grpc_jni_client.Messages.RoundTrip.{settled}
use grpc_jni_client.Runtime.State.{Runtime}
use grpc_jni_client.Runtime.Session.{
  JString, JByteArray, start_carplay_session, start_bt_iap2_link, receive_bt_iap2_data,
  touch_screen_hid, check_peer_rpc_dial_available, rpc_remote_call,
}
use grpc_jni_client.Runtime.Session.Requests.{
  newest, start_carplay_session_sends, receive_bt_iap2_data_sends,
}

-- The last thing in the history is a remote call, whose bytes pass the peer's `VerifyBuffer` and
-- read as the message. Only a floating-point minus zero arrives as zero.
abbrev pub Heard : Flatbuffers → Trace → String → (s : Schema) → Message s → Type 0
Heard fb tr method s m =
    (bytes : List ℕ) × (newest tr ≡ some (rpc (call_remote method bytes)))
    × (fb.verify_buffer s bytes ≡ true)
    × (fb.get_root s bytes ≡ settled s m)

AreBytes-take : (n : ℕ) (bytes : List ℕ) → AreBytes bytes → AreBytes (take n bytes)
AreBytes-take zero bytes v = tt
AreBytes-take (suc n) [] v = tt
AreBytes-take (suc n) (b ∷ bytes) (x, v) = (x, AreBytes-take n bytes v)

module _ (fb : Flatbuffers) (p : Platform) where
  heard :
      (lawful : IsLawful fb) (tr : Trace) (method : String) (s : Schema) (m : Message s)
      → IsTyped s m
      → newest tr ≡ some (rpc (call_remote method (fb.finish s m)))
      → Heard fb tr method s m
  heard lawful tr method s m v e =
      let (verified, same) = lawful s m v in (fb.finish s m, e, verified, same)

  -- If the byte format reads back what was built, and the channel and the security type are 32-bit
  -- integers: a session that reports success has a pull listener for the video stream, and the last
  -- thing that it did is a call of the peer's `startWirelessCarplaySession`, whose bytes the peer
  -- verifies and reads as the access point's five settings, as the Java side gave them.
  pub start_carplay_session-Heard :
      (ssid pwd v6 : JString) (channel security : ℤ) (r : Runtime)
      → IsLawful fb
      → InRange int32 channel
      → InRange int32 security
      → (start_carplay_session fb ssid pwd channel v6 security p r).0 ≡ returned true
      → let r' = (start_carplay_session fb ssid pwd channel v6 security p r).1 in
        Heard fb r'.trace "startWirelessCarplaySession" hostapd_info (record {
          hostapd_ssid = some ssid.text;
          hostapd_passphrase = some pwd.text;
          hostapd_channel = channel;
          hostapd_ip_address_v6 = some v6.text;
          hostapd_security_type = security;
        })
        × (r'.pull_listener ≡ true)
  start_carplay_session-Heard ssid pwd v6 channel security r lawful x y e =
      let (sent, listening) = start_carplay_session_sends fb p ssid pwd v6 channel security r e in
      (heard lawful _ _ hostapd_info _ (x, y) sent, listening)

  -- If the byte format reads back what was built, and the array's elements are bytes: with the dial
  -- started, the array's elements at hand and a length within the array, `receiveBtIap2Data`
  -- reports success, and the peer reads exactly that many of the first bytes, in a call of its
  -- `receiveRfcommDataFromBt`.
  pub receive_bt_iap2_data-Heard :
      (rfcomm : JByteArray) (n : ℕ) (r : Runtime)
      → IsLawful fb
      → AreBytes rfcomm.elements
      → r.dial_started ≡ true
      → is_zero (p.answer r.trace (jni (get_byte_array_elements rfcomm.ref))) ≡ false
      → n ≤ length rfcomm.elements
      → let (ended, r') = receive_bt_iap2_data fb rfcomm (pos n) p r in
        (ended ≡ returned true)
        × Heard fb r'.trace "receiveRfcommDataFromBt" bt_rfcomm_data
            (record { payload = some (take n rfcomm.elements); length = pos 0 })
  receive_bt_iap2_data-Heard rfcomm n r lawful v started got h =
      let sent = receive_bt_iap2_data_sends fb p rfcomm n r started got h in
      (
        ap (λ w. w.0) sent,
        heard lawful _ _ bt_rfcomm_data _ (AreBytes-take n rfcomm.elements v, omega arith)
            (ap (λ w. newest w.1.trace) sent),
      )

  start_bt_iap2_link_sends :
      (mac : JString) (r : Runtime)
      → (start_bt_iap2_link fb mac p r).0 ≡ returned true
      → newest (start_bt_iap2_link fb mac p r).1.trace
        ≡ some (
            rpc (
              call_remote "startBtIap2Link"
                (fb.finish string_request (record { value = some mac.text }))))
  unfolding start_bt_iap2_link check_peer_rpc_dial_available rpc_remote_call
  start_bt_iap2_link_sends mac r e = ground arith

  -- If the byte format reads back what was built: where `startBtIap2Link` reports success, the peer
  -- reads the address as the Java side gave it, in a call of its `startBtIap2Link`.
  pub start_bt_iap2_link-Heard :
      (mac : JString) (r : Runtime)
      → IsLawful fb
      → (start_bt_iap2_link fb mac p r).0 ≡ returned true
      → Heard fb
          (start_bt_iap2_link fb mac p r).1.trace
          "startBtIap2Link"
          string_request
          (record { value = some mac.text })
  start_bt_iap2_link-Heard mac r lawful e =
      heard lawful _ _ string_request _ tt (start_bt_iap2_link_sends mac r e)

  touch_screen_hid_sends :
      (hid : ℤ) (r : Runtime)
      → r.dial_started ≡ true
      → newest (touch_screen_hid fb hid p r).1.trace
        ≡ some
            (rpc (call_remote "touchScreenHid" (fb.finish int64_request (record { value = hid }))))
  unfolding touch_screen_hid check_peer_rpc_dial_available rpc_remote_call
  touch_screen_hid_sends hid r e = ground arith

  -- If the byte format reads back what was built, the report is a 64-bit integer, and the dial has
  -- started, the peer reads each touch report as it was given, in a call of its `touchScreenHid`.
  pub touch_screen_hid-Heard :
      (hid : ℤ) (r : Runtime)
      → IsLawful fb
      → InRange int64 hid
      → r.dial_started ≡ true
      → Heard fb
          (touch_screen_hid fb hid p r).1.trace
          "touchScreenHid"
          int64_request
          (record { value = hid })
  touch_screen_hid-Heard hid r lawful x e =
      heard lawful _ _ int64_request _ x (touch_screen_hid_sends hid r e)
