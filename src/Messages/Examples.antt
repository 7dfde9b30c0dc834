-- ===== src/Messages/Examples.antt =====
-- The round trip at a concrete table, in the byte format of Messages/Wire.
use grpc_jni_client.Prelude.{◌≡◌, refl, true, false, none, some}
use grpc_jni_client.Messages.{
  carplay_availability, CarplayAvailability, double_request, DoubleRequest,
}
use grpc_jni_client.Messages.Tables.{create}
use grpc_jni_client.Messages.Accessors.{read}
use grpc_jni_client.Messages.Wire.{calls, calls-LibraryRules}
use grpc_jni_client.Messages.Buffers.{generated, built_bytes_read_back}

abbrev wired : CarplayAvailability
wired = record {
  wired_available = true;
  usb_transport_identifier = some "usb0";
  wireless_available = false;
  bluetooth_transport_identifier = none;
}

built_bytes_read_back_example :
    let bytes = (generated calls).finish carplay_availability wired in
    ((generated calls).verify_buffer carplay_availability bytes ≡ true)
    × ((generated calls).get_root carplay_availability bytes ≡ wired)
built_bytes_read_back_example =
    built_bytes_read_back calls carplay_availability wired calls-LibraryRules tt

abbrev minus_zero : DoubleRequest
minus_zero = record { value = record { negative = true; magnitude = 0 } }

minus_zero_arrives :
    (generated calls).get_root double_request ((generated calls).finish double_request minus_zero)
    ≡ record { value = record { negative = false; magnitude = 0 } }
unfolding read create
minus_zero_arrives = refl
