-- ===== src/Runtime/Sample.antt =====
-- Concrete data for the tests of `Runtime`: a byte format in which every buffer verifies, a runtime
-- whose decoder runs, one without a decoder, and the arguments of a session.
use grpc_jni_client.Prelude.{ℕ, ℤ, pos, true, false, Option, none, some, List, [], ◌∷◌}
use grpc_jni_client.Messages.{
  Schema, bt_rfcomm_data, carplay_availability, hostapd_info, string_request, bytes_request,
  int64_request, float_request, float_response, double_request, double_response, Float,
  void_request, void_response, bool_request, int_request, bool_response, int_response,
  int64_response, string_response, bytes_response, rpc_message, Message, Flatbuffers,
}
use grpc_jni_client.Dial.{new_dial}
use grpc_jni_client.Runtime.State.{
  Handler, MediaCodecStatus, idle, started, stopped, Runtime, Garbage,
}
use grpc_jni_client.Runtime.Session.{JString, JByteArray}

-- An empty vector is taken for one that was left out.
abbrev present : List ℕ → Option (List ℕ)
present [] = none
present (b ∷ bs) = some (b ∷ bs)

-- The `float` -1.0.
abbrev minus_one : Float
minus_one = record { negative = true; magnitude = 1_065_353_216 }

abbrev sample_root : (s : Schema) → List ℕ → Message s
sample_root bt_rfcomm_data bytes = record { payload = present bytes; length = pos 0 }
sample_root carplay_availability bytes = record {
  wired_available = true;
  usb_transport_identifier = some "usb";
  wireless_available = false;
  bluetooth_transport_identifier = none;
}
sample_root hostapd_info bytes = record {
  hostapd_ssid = some "car";
  hostapd_passphrase = some "secret";
  hostapd_channel = pos 36;
  hostapd_ip_address_v6 = some "fe80::1";
  hostapd_security_type = pos 3;
}
sample_root string_request bytes = record { value = some "00:11:22:33:44:55" }
sample_root string_response bytes = record { value = some "00:11:22:33:44:55" }
sample_root bytes_request bytes = record { value = present bytes }
sample_root bytes_response bytes = record { value = present bytes }
sample_root int64_request bytes = record { value = pos 5 }
sample_root int64_response bytes = record { value = pos 5 }
sample_root void_request bytes = record {}
sample_root void_response bytes = record {}
sample_root bool_request bytes = record { value = true }
sample_root bool_response bytes = record { value = true }
sample_root int_request bytes = record { value = pos 1 }
sample_root int_response bytes = record { value = pos 1 }
sample_root float_request bytes = record { value = minus_one }
sample_root float_response bytes = record { value = minus_one }
sample_root double_request bytes = record { value = minus_one }
sample_root double_response bytes = record { value = minus_one }
sample_root rpc_message bytes = record {
  message_type = pos 0;
  id = pos 1;
  method = none;
  payload = present bytes;
}

abbrev sample_finish : (s : Schema) → Message s → List ℕ
sample_finish bt_rfcomm_data m = elim m.payload [ none ↦ [] | some bytes ↦ bytes ]
sample_finish hostapd_info m = 1 ∷ []
sample_finish string_request m = 2 ∷ []
sample_finish int64_request m = 3 ∷ []
sample_finish _ m = []

abbrev pub format : Flatbuffers
format = record { verify_buffer = λ s bytes. true; get_root = sample_root; finish = sample_finish }

abbrev pub runtime : ℤ → MediaCodecStatus → Runtime
runtime media_codec status = record {
  java = record { jvm = pos 1; class_loader = pos 2; load_class_method = pos 3 };
  java_object = pos 4;
  dial = new_dial Handler;
  dial_started = true;
  media_codec = media_codec;
  media_codec_status = status;
  pull_listener = false;
  frame_available = false;
  render_quit = false;
  attached_window = pos 0;
  attached_window_width = pos 0;
  attached_window_height = pos 0;
  attached_surface = pos 0;
  attached_window_updated = true;
  oes_texture = pos 0;
  display = pos 0;
  surface = pos 0;
  context = pos 0;
  config = pos 0;
  g_window = pos 7;
  surface_texture = pos 7;
  oes_renderer = record {
    program = pos 0;
    a_pos = pos 0;
    a_tex = pos 0;
    u_tex_matrix = pos 0;
    u_sampler = pos 0;
  };
  trace = [];
}

abbrev pub streaming_runtime : Runtime
streaming_runtime = runtime (pos 7) started

abbrev pub fresh_runtime : Runtime
fresh_runtime = runtime (pos 0) idle

abbrev pub stopped_runtime : Runtime
stopped_runtime = runtime (pos 0) stopped

abbrev pub silent_runtime : Runtime
silent_runtime = record fresh_runtime { dial_started = false }

abbrev pub junk : Garbage
junk = record {
  media_codec = pos 99;
  attached_window = pos 99;
  attached_window_width = pos 99;
  attached_window_height = pos 99;
  config = pos 99;
  g_window = pos 99;
  surface_texture = pos 99;
}

abbrev pub ssid : JString
ssid = record { ref = pos 11; text = "car" }

abbrev pub passphrase : JString
passphrase = record { ref = pos 12; text = "secret" }

abbrev pub address : JString
address = record { ref = pos 13; text = "fe80::1" }

abbrev pub rfcomm : JByteArray
rfcomm = record { ref = pos 14; elements = 255 ∷ 85 ∷ 2 ∷ [] }
