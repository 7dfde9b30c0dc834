-- ===== src/BtRpcCall/Examples.antt =====
-- The session entry of CarplayBtRpcCall.cpp at a concrete input.
use grpc_jni_client.Prelude.{pos, true, false, [], ◌≡◌, ◌⊎◌}
use grpc_jni_client.Platform.{returned, faulted}
use grpc_jni_client.Platform.Sample.{sample}
use grpc_jni_client.Runtime.Sample.{format, ssid, passphrase, address}
use grpc_jni_client.BtRpcCall.{start_carplay_session}
use grpc_jni_client.BtRpcCall.Session.{
  transport_calls, strings, null_string, start_carplay_session_unsent,
}

start_carplay_session_unsent_example :
    let (ended, tr) =
      start_carplay_session format ssid passphrase (pos 36) address (pos 3) sample [] in
    (transport_calls tr ≡ 0)
    × (((null_string sample ssid passphrase address [] ≡ true) × (ended ≡ faulted))
        ⊎ ((null_string sample ssid passphrase address [] ≡ false)
            × (ended ≡ returned true)
            × (strings sample tr ≡ 0)))
unfolding start_carplay_session
start_carplay_session_unsent_example =
    start_carplay_session_unsent format sample ssid passphrase address (pos 36) (pos 3) []
