-- ===== src/Messages/Tables.antt =====
-- The builders that the FlatBuffers compiler generated: for each table the calls in the order of
-- `Create…`. The numbers are the `VT_` offsets and the widths.
use grpc_jni_client.Prelude.{ℤ, pos, Bool, true, false, List, [], ◌∷◌}
use grpc_jni_client.Messages.{
  BtRfcommData, CarplayAvailability, HostapdInfo, StringRequest, BytesRequest, Int64Request,
  BoolRequest, IntRequest, RpcMessage, BoolResponse, IntResponse, Int64Response, StringResponse,
  BytesResponse, Schema, bt_rfcomm_data, carplay_availability, hostapd_info, string_request,
  bytes_request, int64_request, void_request, void_response, bool_request, int_request,
  bool_response, int_response, int64_response, string_response, bytes_response, rpc_message,
  float_request, double_request, float_response, double_response, FloatRequest, DoubleRequest,
  FloatResponse, DoubleResponse, Message,
}
use grpc_jni_client.Messages.Ranges.{uint8, int8, int32, uint32, int64}
use grpc_jni_client.Messages.Library.{Write, element, float_element, string, vector}

-- `static_cast<uint8_t>`
abbrev pub uint8_of : Bool → ℤ
uint8_of true = pos 1
uint8_of false = pos 0

create_bt_rfcomm_data : BtRfcommData → List Write
create_bt_rfcomm_data m = element 6 int32 m.length (pos 0) ∷ vector 4 m.payload ∷ []

create_carplay_availability : CarplayAvailability → List Write
create_carplay_availability m =
    string 10 m.bluetooth_transport_identifier
    ∷ string 6 m.usb_transport_identifier
    ∷ element 8 uint8 (uint8_of m.wireless_available) (pos 0)
    ∷ element 4 uint8 (uint8_of m.wired_available) (pos 0)
    ∷ []

create_hostapd_info : HostapdInfo → List Write
create_hostapd_info m =
    element 12 int32 m.hostapd_security_type (pos 0)
    ∷ string 10 m.hostapd_ip_address_v6
    ∷ element 8 int32 m.hostapd_channel (pos 0)
    ∷ string 6 m.hostapd_passphrase
    ∷ string 4 m.hostapd_ssid
    ∷ []

create_string_request : StringRequest → List Write
create_string_request m = string 4 m.value ∷ []

create_bytes_request : BytesRequest → List Write
create_bytes_request m = vector 4 m.value ∷ []

create_int64_request : Int64Request → List Write
create_int64_request m = element 4 int64 m.value (pos 0) ∷ []

create_bool_request : BoolRequest → List Write
create_bool_request m = element 4 uint8 (uint8_of m.value) (pos 0) ∷ []

create_int_request : IntRequest → List Write
create_int_request m = element 4 int32 m.value (pos 0) ∷ []

create_bool_response : BoolResponse → List Write
create_bool_response m = element 4 uint8 (uint8_of m.value) (pos 0) ∷ []

create_int_response : IntResponse → List Write
create_int_response m = element 4 int32 m.value (pos 0) ∷ []

create_int64_response : Int64Response → List Write
create_int64_response m = element 4 int64 m.value (pos 0) ∷ []

create_string_response : StringResponse → List Write
create_string_response m = string 4 m.value ∷ []

create_bytes_response : BytesResponse → List Write
create_bytes_response m = vector 4 m.value ∷ []

create_float_request : FloatRequest → List Write
create_float_request m = float_element 4 4 m.value ∷ []

create_double_request : DoubleRequest → List Write
create_double_request m = float_element 4 8 m.value ∷ []

create_float_response : FloatResponse → List Write
create_float_response m = float_element 4 4 m.value ∷ []

create_double_response : DoubleResponse → List Write
create_double_response m = float_element 4 8 m.value ∷ []

create_rpc_message : RpcMessage → List Write
create_rpc_message m =
    vector 10 m.payload
    ∷ string 8 m.method
    ∷ element 6 uint32 m.id (pos 0)
    ∷ element 4 int8 m.message_type (pos 0)
    ∷ []

unfoldable pub create : (s : Schema) → Message s → List Write
unfolding create_bt_rfcomm_data create_carplay_availability create_hostapd_info
    create_string_request create_bytes_request create_int64_request create_bool_request
    create_int_request create_rpc_message create_bool_response create_int_response
    create_int64_response create_string_response create_bytes_response create_float_request
    create_double_request create_float_response create_double_response
create bt_rfcomm_data m = create_bt_rfcomm_data m
create carplay_availability m = create_carplay_availability m
create hostapd_info m = create_hostapd_info m
create string_request m = create_string_request m
create bytes_request m = create_bytes_request m
create int64_request m = create_int64_request m
create void_request m = []
create void_response m = []
create bool_request m = create_bool_request m
create int_request m = create_int_request m
create bool_response m = create_bool_response m
create int_response m = create_int_response m
create int64_response m = create_int64_response m
create string_response m = create_string_response m
create bytes_response m = create_bytes_response m
create rpc_message m = create_rpc_message m
create float_request m = create_float_request m
create double_request m = create_double_request m
create float_response m = create_float_response m
create double_response m = create_double_response m
