-- ===== src/Runtime/Session/Requests.antt =====
-- What the JNI entries send to the peer.
use grpc_jni_client.Prelude.{
  ℕ, ℤ, pos, ◌≤◌, ◌<◌, ◌≡◌, refl, List, [], ◌∷◌, Option, none, Bool, true, false, some, String,
  is_zero, arith, length, take, ◌∙◌,
}
use grpc_jni_client.Platform.{
  Outcome, returned, faulted, get_byte_array_elements, release_byte_array_elements, call_remote,
  Call, jni, rpc, Platform, Trace,
}
use grpc_jni_client.Messages.{Flatbuffers, bt_rfcomm_data, hostapd_info}
use grpc_jni_client.Runtime.State.{Runtime}
use grpc_jni_client.Runtime.Listener.{init_pull_listener}
use grpc_jni_client.Runtime.Session.{
  JString, JByteArray, check_peer_rpc_dial_available, rpc_remote_call, register_rpc_method,
  send_hostapd_info, begin_stream, when_available, start_carplay_session, start_bt_iap2_link,
  receive_bt_iap2_data, touch_screen_hid,
}

abbrev pub newest : Trace → Option Call
newest [] = none
newest (c ∷ tr) = some c

module _ (fb : Flatbuffers) (p : Platform) where
  -- While the dial has not started, no entry calls anything or changes the runtime; each reports
  -- failure (`touchScreenHid` has no result).
  entries_silent :
      (ssid pwd v6 mac : JString) (channel security : ℤ) (rfcomm : JByteArray) (len hid : ℤ)
      (r : Runtime)
      → r.dial_started ≡ false
      → (start_carplay_session fb ssid pwd channel v6 security p r ≡ (returned false, r))
        × (start_bt_iap2_link fb mac p r ≡ (returned false, r))
        × (receive_bt_iap2_data fb rfcomm len p r ≡ (returned false, r))
        × (touch_screen_hid fb hid p r ≡ (returned tt, r))
  unfolding start_carplay_session when_available start_bt_iap2_link receive_bt_iap2_data
      touch_screen_hid check_peer_rpc_dial_available
  entries_silent ssid pwd v6 mac channel security rfcomm len hid r z = ground arith

  module _ (ssid pwd v6 : JString) (channel security : ℤ) where
    abbrev pub session_request : List ℕ
    session_request = fb.finish hostapd_info (record {
      hostapd_ssid = some ssid.text;
      hostapd_passphrase = some pwd.text;
      hostapd_channel = channel;
      hostapd_ip_address_v6 = some v6.text;
      hostapd_security_type = security;
    })

    send_hostapd_info-newest :
        (r : Runtime)
        → let (ended, r') = send_hostapd_info fb ssid pwd channel v6 security p r in
          (ended ≡ returned true
            → newest r'.trace
              ≡ some (rpc (call_remote "startWirelessCarplaySession" session_request)))
          × (r'.pull_listener ≡ r.pull_listener)
    unfolding send_hostapd_info rpc_remote_call
    send_hostapd_info-newest r = ground arith

    abbrev Begun : Outcome Bool × Runtime → Type 0
    Begun (ended, r') =
        ended ≡ returned true
        → (newest r'.trace ≡ some (rpc (call_remote "startWirelessCarplaySession" session_request)))
          × (r'.pull_listener ≡ true)

    begin_stream-Begun :
        (listening : Bool) (r : Runtime)
        → (listening ≡ true → r.pull_listener ≡ true)
        → Begun (begin_stream fb listening ssid pwd channel v6 security p r)
    unfolding begin_stream register_rpc_method
    begin_stream-Begun false r h e = cc
    begin_stream-Begun true r h e =
        let sent = send_hostapd_info-newest _ in (sent.0 e, sent.1 ∙ h refl)

    listening-init_pull_listener :
        (url : String) (r : Runtime)
        → let (ok, r') = init_pull_listener url p r in r'.pull_listener ≡ ok
    unfolding init_pull_listener
    listening-init_pull_listener url r = ground arith

    when_available-Begun :
        (ready : Bool) (r : Runtime)
        → Begun (when_available fb ready ssid pwd channel v6 security p r)
    unfolding when_available
    when_available-Begun false r e = cc
    when_available-Begun true r e =
        begin_stream-Begun _ _
          (λ ok. listening-init_pull_listener "abstract://carplay.video.rpc" r ∙ ok) e

    -- A session that reports success has a pull listener for the video stream, and the last thing it
    -- did is to send the peer the access point's five settings as they were given.
    pub start_carplay_session_sends :
        (r : Runtime)
        → (start_carplay_session fb ssid pwd channel v6 security p r).0 ≡ returned true
        → let r' = (start_carplay_session fb ssid pwd channel v6 security p r).1 in
          (newest r'.trace ≡ some (rpc (call_remote "startWirelessCarplaySession" session_request)))
          × (r'.pull_listener ≡ true)
    unfolding start_carplay_session check_peer_rpc_dial_available
    start_carplay_session_sends r e = when_available-Begun r.dial_started r e

  -- The bytes that `receiveBtIap2Data` sends.
  abbrev pub rfcomm_request : List ℕ → List ℕ
  rfcomm_request payload =
      fb.finish bt_rfcomm_data (record { payload = some payload; length = pos 0 })

  module _ (rfcomm : JByteArray) (n : ℕ) (r : Runtime) (started : r.dial_started ≡ true)
      (got : is_zero (p.answer r.trace (jni (get_byte_array_elements rfcomm.ref))) ≡ false) where
    -- With the dial started, the array's elements at hand and a length within the array,
    -- `receiveBtIap2Data` sends exactly that many of the first bytes, after releasing the elements,
    -- and reports success.
    pub receive_bt_iap2_data_sends :
        n ≤ length rfcomm.elements
        → receive_bt_iap2_data fb rfcomm (pos n) p r ≡ (
          returned true,
          record r {
            trace =
                rpc
                  (call_remote "receiveRfcommDataFromBt" (rfcomm_request (take n rfcomm.elements)))
                ∷ jni (release_byte_array_elements rfcomm.ref)
                ∷ jni (get_byte_array_elements rfcomm.ref)
                ∷ r.trace;
          },
        )
    unfolding receive_bt_iap2_data check_peer_rpc_dial_available rpc_remote_call
    receive_bt_iap2_data_sends h = ground arith

    -- With the dial started and the array's elements at hand, a length beyond the array's end, which
    -- nothing checks, makes `receiveBtIap2Data` read outside the array.
    pub receive_bt_iap2_data_overruns :
        length rfcomm.elements < n → (receive_bt_iap2_data fb rfcomm (pos n) p r).0 ≡ faulted
    unfolding receive_bt_iap2_data check_peer_rpc_dial_available
    receive_bt_iap2_data_overruns h = ground arith
