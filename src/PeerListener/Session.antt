-- ===== src/PeerListener/Session.antt =====
-- What the client sends, at a listener of this kind.

use grpc_jni_client.Prelude.{
  ℕ, ℤ, pos, ◌≤◌, ◌≡◌, ◌∙◌, refl, eq_refl, true, false, some, String, List, length, take, is_zero,
}
use grpc_jni_client.Platform.{
  Outcome, returned, outcome_map, Io, Platform, Trace, call_remote, rpc, jni,
  get_byte_array_elements,
}
use grpc_jni_client.Messages.{
  Schema, Message, Flatbuffers, hostapd_info, bt_rfcomm_data, int64_request, string_request,
}
use grpc_jni_client.Messages.Buffers.{IsLawful}
use grpc_jni_client.Messages.Ranges.{int32, int64, InRange, AreBytes}
use grpc_jni_client.Messages.RoundTrip.{settled}
use grpc_jni_client.PeerListener.{PeerListener, HandlerFunc, wrapper, register_method, registered}
use grpc_jni_client.PeerListener.Methods.{registered-register_method, wrapper_verified}
use grpc_jni_client.Runtime.State.{Runtime}
use grpc_jni_client.Runtime.Session.{
  JString, JByteArray, start_carplay_session, touch_screen_hid, receive_bt_iap2_data,
  start_bt_iap2_link,
}
use grpc_jni_client.Runtime.Session.Requests.{newest}
use grpc_jni_client.Runtime.Session.Peer.{
  Heard, start_carplay_session-Heard, touch_screen_hid-Heard, receive_bt_iap2_data-Heard,
  start_bt_iap2_link-Heard,
}

-- The last thing in the history is a remote call of the method, and the wrapper that the listener holds
-- under that name runs `handler` on the message, whatever the state of the peer.
pub record Reaches {S : Type 0} (fb : Flatbuffers) (tr : Trace) (method : String)
    (request response : Schema) (handler : Message request → Io S (Outcome (Message response)))
    (m : Message request) (l : PeerListener S) : Type 0 where
  pub bytes : List ℕ
  pub sent : newest tr ≡ some (rpc (call_remote method bytes))
  pub func : HandlerFunc S
  pub held : registered method l ≡ some func
  pub run :
      (resp : List ℕ) (q : Platform) (s : S)
      → func bytes resp q s
        ≡ (let (o, s') = handler m q s in (outcome_map (fb.finish response) o, s'))

module _ {S : Type 0} (fb : Flatbuffers) (request response : Schema)
    (handler : Message request → Io S (Outcome (Message response))) where
  -- What is heard reaches the handler of its method.
  Heard-Reaches :
      (tr : Trace) (method : String) (m : Message request) (l : PeerListener S)
      → Heard fb tr method request m
      → Reaches fb tr method request response handler
          (settled request m)
          (register_method fb request response method handler l)
  Heard-Reaches tr method m l (bytes, sent, verified, same) = record {
    bytes = bytes;
    sent = sent;
    func = wrapper fb request response handler;
    held =
        registered-register_method fb request response handler method method l
        ∙ rw (eq_refl method) refl;
    run = λ resp q s.
        wrapper_verified fb request response handler bytes resp (settled request m) q s verified
          same;
  }

module _ {S : Type 0} (fb : Flatbuffers) (p : Platform) (response : Schema) where
  -- If the byte format reads back what was built, and the channel and the security type are 32-bit
  -- integers: a session that reports success has a pull listener for the video stream, and the last thing
  -- that it did is a call of the peer's `startWirelessCarplaySession`; a peer's listener on which a handler
  -- is registered under that name, for the access point's table, runs the handler on the five settings
  -- as the Java side of the client gave them, and encodes its response.
  pub start_carplay_session-Reaches :
      (handler : Message hostapd_info → Io S (Outcome (Message response))) (l : PeerListener S)
      (ssid pwd v6 : JString) (channel security : ℤ) (r : Runtime)
      → IsLawful fb
      → InRange int32 channel
      → InRange int32 security
      → (start_carplay_session fb ssid pwd channel v6 security p r).0 ≡ returned true
      → Reaches fb
          (start_carplay_session fb ssid pwd channel v6 security p r).1.trace
          "startWirelessCarplaySession"
          hostapd_info
          response
          handler
          (record {
            hostapd_ssid = some ssid.text;
            hostapd_passphrase = some pwd.text;
            hostapd_channel = channel;
            hostapd_ip_address_v6 = some v6.text;
            hostapd_security_type = security;
          })
          (register_method fb hostapd_info response "startWirelessCarplaySession" handler l)
        × ((start_carplay_session fb ssid pwd channel v6 security p r).1.pull_listener ≡ true)
  start_carplay_session-Reaches handler l ssid pwd v6 channel security r lawful x y e =
      let (told, listening) =
        start_carplay_session-Heard fb p ssid pwd v6 channel security r lawful x y e in
      (Heard-Reaches fb hostapd_info response handler _ _ _ l told, listening)

  -- If the byte format reads back what was built, the report is a 64-bit integer, and the dial has started:
  -- the handler of `touchScreenHid` runs on the report as it was given.
  touch_screen_hid-Reaches :
      (handler : Message int64_request → Io S (Outcome (Message response))) (l : PeerListener S)
      (hid : ℤ) (r : Runtime)
      → IsLawful fb
      → InRange int64 hid
      → r.dial_started ≡ true
      → Reaches fb
          (touch_screen_hid fb hid p r).1.trace
          "touchScreenHid"
          int64_request
          response
          handler
          (record { value = hid })
          (register_method fb int64_request response "touchScreenHid" handler l)
  touch_screen_hid-Reaches handler l hid r lawful x e =
      Heard-Reaches fb int64_request response handler _ _ _ l
        (touch_screen_hid-Heard fb p hid r lawful x e)

  -- If the byte format reads back what was built, the array's elements are bytes, and the dial has
  -- started: the handler of `receiveRfcommDataFromBt` runs on the first bytes, as many as were given.
  receive_bt_iap2_data-Reaches :
      (handler : Message bt_rfcomm_data → Io S (Outcome (Message response))) (l : PeerListener S)
      (rfcomm : JByteArray) (n : ℕ) (r : Runtime)
      → IsLawful fb
      → AreBytes rfcomm.elements
      → r.dial_started ≡ true
      → is_zero (p.answer r.trace (jni (get_byte_array_elements rfcomm.ref))) ≡ false
      → n ≤ length rfcomm.elements
      → Reaches fb
          (receive_bt_iap2_data fb rfcomm (pos n) p r).1.trace
          "receiveRfcommDataFromBt"
          bt_rfcomm_data
          response
          handler
          (record { payload = some (take n rfcomm.elements); length = pos 0 })
          (register_method fb bt_rfcomm_data response "receiveRfcommDataFromBt" handler l)
  receive_bt_iap2_data-Reaches handler l rfcomm n r lawful v started got h =
      Heard-Reaches fb bt_rfcomm_data response handler _ _ _ l
        (receive_bt_iap2_data-Heard fb p rfcomm n r lawful v started got h).1

  -- If the byte format reads back what was built: where `startBtIap2Link` reports success, the handler of
  -- that name runs on the address as it was given.
  start_bt_iap2_link-Reaches :
      (handler : Message string_request → Io S (Outcome (Message response))) (l : PeerListener S)
      (mac : JString) (r : Runtime)
      → IsLawful fb
      → (start_bt_iap2_link fb mac p r).0 ≡ returned true
      → Reaches fb
          (start_bt_iap2_link fb mac p r).1.trace
          "startBtIap2Link"
          string_request
          response
          handler
          (record { value = some mac.text })
          (register_method fb string_request response "startBtIap2Link" handler l)
  start_bt_iap2_link-Reaches handler l mac r lawful e =
      Heard-Reaches fb string_request response handler _ _ _ l
        (start_bt_iap2_link-Heard fb p mac r lawful e)
