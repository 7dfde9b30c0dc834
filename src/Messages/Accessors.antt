-- ===== src/Messages/Accessors.antt =====
-- The accessors and `Verify` of the tables that the FlatBuffers compiler generated. The numbers are the
-- `VT_` offsets and the widths.
use grpc_jni_client.Prelude.{pos, Bool, true, not, ◌&&◌, is_zero}
use grpc_jni_client.Messages.{
  BtRfcommData, CarplayAvailability, HostapdInfo, RpcMessage, Schema, bt_rfcomm_data,
  carplay_availability, hostapd_info, string_request, bytes_request, int64_request, void_request,
  void_response, bool_request, int_request, bool_response, int_response, int64_response,
  string_response, bytes_response, rpc_message, float_request, double_request, float_response,
  double_response, Message,
}
use grpc_jni_client.Messages.Ranges.{uint8, int8, int32, uint32, int64}
use grpc_jni_client.Messages.Library.{Library}

module _ (lib : Library) where
  open lib use {
    Table, get_field, get_float, get_string, get_vector, verify_table_start, verify_field,
    verify_offset, verify_string, verify_vector, end_table,
  }

  read_bt_rfcomm_data : Table → BtRfcommData
  read_bt_rfcomm_data t = record { payload = get_vector 4 t; length = get_field 6 int32 (pos 0) t }

  read_carplay_availability : Table → CarplayAvailability
  read_carplay_availability t = record {
    wired_available = not (is_zero (get_field 4 uint8 (pos 0) t));
    usb_transport_identifier = get_string 6 t;
    wireless_available = not (is_zero (get_field 8 uint8 (pos 0) t));
    bluetooth_transport_identifier = get_string 10 t;
  }

  read_hostapd_info : Table → HostapdInfo
  read_hostapd_info t = record {
    hostapd_ssid = get_string 4 t;
    hostapd_passphrase = get_string 6 t;
    hostapd_channel = get_field 8 int32 (pos 0) t;
    hostapd_ip_address_v6 = get_string 10 t;
    hostapd_security_type = get_field 12 int32 (pos 0) t;
  }

  read_rpc_message : Table → RpcMessage
  read_rpc_message t = record {
    message_type = get_field 4 int8 (pos 0) t;
    id = get_field 6 uint32 (pos 0) t;
    method = get_string 8 t;
    payload = get_vector 10 t;
  }

  unfoldable pub read : (s : Schema) → Table → Message s
  unfolding read_bt_rfcomm_data read_carplay_availability read_hostapd_info read_rpc_message
  read bt_rfcomm_data t = read_bt_rfcomm_data t
  read carplay_availability t = read_carplay_availability t
  read hostapd_info t = read_hostapd_info t
  read string_request t = record { value = get_string 4 t }
  read string_response t = record { value = get_string 4 t }
  read bytes_request t = record { value = get_vector 4 t }
  read bytes_response t = record { value = get_vector 4 t }
  read int64_request t = record { value = get_field 4 int64 (pos 0) t }
  read int64_response t = record { value = get_field 4 int64 (pos 0) t }
  read void_request t = record {}
  read void_response t = record {}
  read bool_request t = record { value = not (is_zero (get_field 4 uint8 (pos 0) t)) }
  read bool_response t = record { value = not (is_zero (get_field 4 uint8 (pos 0) t)) }
  read int_request t = record { value = get_field 4 int32 (pos 0) t }
  read int_response t = record { value = get_field 4 int32 (pos 0) t }
  read rpc_message t = read_rpc_message t
  read float_request t = record { value = get_float 4 4 t }
  read double_request t = record { value = get_float 4 8 t }
  read float_response t = record { value = get_float 4 4 t }
  read double_response t = record { value = get_float 4 8 t }

  -- What each `Verify` tests between `VerifyTableStart` and `EndTable`.
  verify_bt_rfcomm_data : Table → Bool
  verify_bt_rfcomm_data t = verify_offset 4 t && verify_vector 4 t && verify_field 6 4 t

  verify_carplay_availability : Table → Bool
  verify_carplay_availability t =
      verify_field 4 1 t
      && verify_offset 6 t
      && verify_string 6 t
      && verify_field 8 1 t
      && verify_offset 10 t
      && verify_string 10 t

  verify_hostapd_info : Table → Bool
  verify_hostapd_info t =
      verify_offset 4 t
      && verify_string 4 t
      && verify_offset 6 t
      && verify_string 6 t
      && verify_field 8 4 t
      && verify_offset 10 t
      && verify_string 10 t
      && verify_field 12 4 t

  verify_rpc_message : Table → Bool
  verify_rpc_message t =
      verify_field 4 1 t
      && verify_field 6 4 t
      && verify_offset 8 t
      && verify_string 8 t
      && verify_offset 10 t
      && verify_vector 10 t

  unfoldable pub verify_fields : Schema → Table → Bool
  unfolding verify_bt_rfcomm_data verify_carplay_availability verify_hostapd_info verify_rpc_message
  verify_fields bt_rfcomm_data t = verify_bt_rfcomm_data t
  verify_fields carplay_availability t = verify_carplay_availability t
  verify_fields hostapd_info t = verify_hostapd_info t
  verify_fields string_request t = verify_offset 4 t && verify_string 4 t
  verify_fields string_response t = verify_offset 4 t && verify_string 4 t
  verify_fields bytes_request t = verify_offset 4 t && verify_vector 4 t
  verify_fields bytes_response t = verify_offset 4 t && verify_vector 4 t
  verify_fields int64_request t = verify_field 4 8 t
  verify_fields int64_response t = verify_field 4 8 t
  verify_fields void_request t = true
  verify_fields void_response t = true
  verify_fields bool_request t = verify_field 4 1 t
  verify_fields bool_response t = verify_field 4 1 t
  verify_fields int_request t = verify_field 4 4 t
  verify_fields int_response t = verify_field 4 4 t
  verify_fields rpc_message t = verify_rpc_message t
  verify_fields float_request t = verify_field 4 4 t
  verify_fields double_request t = verify_field 4 8 t
  verify_fields float_response t = verify_field 4 4 t
  verify_fields double_response t = verify_field 4 8 t

  unfoldable pub verify : Schema → Table → Bool
  verify s t = verify_table_start t && verify_fields s t && end_table t
