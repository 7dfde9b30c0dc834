-- ===== src/Runtime/System/Client.antt =====
-- What the runtime promises to the peer, with no decoder, screen or trace: which methods can be called
-- remotely, and whether the video stream has a listener.
use grpc_jni_client.Prelude.{◌≡◌, refl, arith, Bool, true, false, Option, some, String, eq_iff, ◌⊎◌}
use grpc_jni_client.Runtime.State.{
  Handler, handle_send_iap2_detect_packet, handle_carplay_available_packet,
  handle_disable_bluetooth, handle_screen_stream_start, handle_screen_stream_stop,
  handle_screen_stream_configuration,
}
use grpc_jni_client.Runtime.Session.Table.{receiver, streamer}

pub record Client : Type 0 where
  pub methods : String → Option Handler
  pub listening : Bool

-- The stream's methods are offered only while the stream is listened to, which never ends.
pub data Change (c : Client) : Client → Type 0 where
  offer_receivers : Change c (record c { methods = receiver c.methods })
  listen : Change c (record c { listening = true })
  offer_stream : c.listening ≡ true → Change c (record c { methods = streamer c.methods })

pub data Changes (c : Client) : Client → Type 0 where
  none_yet : Changes c c
  one_more : {d e : Client} → Changes c d → Change d e → Changes c e

pub Changes-trans : {c d e : Client} → Changes c d → Changes d e → Changes c e
Changes-trans xs none_yet = xs
Changes-trans xs (one_more ys y) = one_more (Changes-trans xs ys) y

-- The name under which the peer knows a method.
abbrev pub method_name : Handler → String
method_name handle_send_iap2_detect_packet = "sendIap2DetectPacket"
method_name handle_carplay_available_packet = "carplayAvailable"
method_name handle_disable_bluetooth = "disableBluetooth"
method_name handle_screen_stream_start = "screenStreamStart"
method_name handle_screen_stream_stop = "screenStreamStop"
method_name handle_screen_stream_configuration = "screenStreamConfiguration"

abbrev pub of_stream : Handler → Bool
of_stream handle_screen_stream_start = true
of_stream handle_screen_stream_stop = true
of_stream handle_screen_stream_configuration = true
of_stream _ = false

-- Each handler is found under its own name only, and the stream's handlers only with a listener.
pub record IsSound (c : Client) : Type 0 where
  pub named : (name : String) (h : Handler) → c.methods name ≡ some h → name ≡ method_name h
  pub listened :
      (name : String) (h : Handler)
      → c.methods name ≡ some h
      → of_stream h ≡ true
      → c.listening ≡ true

receiver_cases :
    (methods : String → Option Handler) (name : String) (h : Handler)
    → receiver methods name ≡ some h
    → ((name ≡ method_name h) × (of_stream h ≡ false)) ⊎ (methods name ≡ some h)
receiver_cases methods name h e = ground (
  arith,
  eq_iff "disableBluetooth" name,
  eq_iff "carplayAvailable" name,
  eq_iff "sendIap2DetectPacket" name,
)

streamer_cases :
    (methods : String → Option Handler) (name : String) (h : Handler)
    → streamer methods name ≡ some h
    → (name ≡ method_name h) ⊎ (methods name ≡ some h)
streamer_cases methods name h e = ground (
  arith,
  eq_iff "screenStreamStart" name,
  eq_iff "screenStreamStop" name,
  eq_iff "screenStreamConfiguration" name,
)

pub Change-IsSound : {c d : Client} → Change c d → IsSound c → IsSound d
Change-IsSound {c} offer_receivers s = record {
  named = λ name h e. ground (arith, receiver_cases c.methods name h e, s.named name h);
  listened = λ name h e z. ground (arith, receiver_cases c.methods name h e, s.listened name h);
}
Change-IsSound listen s = record { named = s.named; listened = λ name h e z. refl }
Change-IsSound {c} (offer_stream l) s = record {
  named = λ name h e. ground (arith, streamer_cases c.methods name h e, s.named name h);
  listened = λ name h e z. l;
}

pub Changes-IsSound : {c d : Client} → Changes c d → IsSound c → IsSound d
Changes-IsSound none_yet s = s
Changes-IsSound (one_more xs x) s = Change-IsSound x (Changes-IsSound xs s)
