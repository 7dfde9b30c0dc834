-- ===== src/PeerListener/Examples.antt =====
-- The theorems on the listener at concrete inputs.
use grpc_jni_client.Prelude.{◌≡◌, refl, pos, true, some, List, ◌∷◌, arith}
use grpc_jni_client.Platform.{Outcome, returned, Io}
use grpc_jni_client.Platform.Sample.{sample}
use grpc_jni_client.Messages.{Message, hostapd_info, void_response, HostapdInfo}
use grpc_jni_client.Messages.Buffers.{generated, generated-IsLawful}
use grpc_jni_client.Messages.Wire.{calls, calls-LibraryRules}
use grpc_jni_client.PeerListener.{new_peer_listener, register_method}
use grpc_jni_client.PeerListener.Session.{Reaches, start_carplay_session-Reaches}
use grpc_jni_client.Runtime.Sample.{streaming_runtime, ssid, passphrase, address}
use grpc_jni_client.Runtime.Session.{
  start_carplay_session, when_available, begin_stream, send_hostapd_info,
  check_peer_rpc_dial_available, rpc_remote_call, register_rpc_method,
}
use grpc_jni_client.Runtime.Listener.{init_pull_listener}

-- A peer that keeps the access points that it is told of.
abbrev keep : Message hostapd_info → Io (List HostapdInfo) (Outcome (Message void_response))
keep m p s = (returned (record {}), m ∷ s)

start_carplay_session-Reaches_example :
    Reaches
      (generated calls)
      (start_carplay_session
        (generated calls)
        ssid
        passphrase
        (pos 36)
        address
        (pos 3)
        sample
        streaming_runtime).1.trace
      "startWirelessCarplaySession"
      hostapd_info
      void_response
      keep
      (record {
        hostapd_ssid = some ssid.text;
        hostapd_passphrase = some passphrase.text;
        hostapd_channel = pos 36;
        hostapd_ip_address_v6 = some address.text;
        hostapd_security_type = pos 3;
      })
      (register_method
        (generated calls)
        hostapd_info
        void_response
        "startWirelessCarplaySession"
        keep
        (new_peer_listener (List HostapdInfo)))
    × ((start_carplay_session
          (generated calls)
          ssid
          passphrase
          (pos 36)
          address
          (pos 3)
          sample
          streaming_runtime).1.pull_listener
        ≡ true)
unfolding start_carplay_session when_available begin_stream send_hostapd_info
    check_peer_rpc_dial_available rpc_remote_call register_rpc_method init_pull_listener
start_carplay_session-Reaches_example =
    start_carplay_session-Reaches (generated calls) sample void_response keep
      (new_peer_listener (List HostapdInfo)) ssid passphrase address (pos 36) (pos 3)
      streaming_runtime (generated-IsLawful calls calls-LibraryRules) (omega arith) (omega arith)
      refl
