-- ===== src/Messages/Verified.antt =====
-- What a generated builder leaves passes the generated `Verify`.
use grpc_jni_client.Prelude.{◌≡◌, refl, Bool, true, false, pos, arith}
use grpc_jni_client.Messages.{
  Schema, bt_rfcomm_data, carplay_availability, hostapd_info, string_request, bytes_request,
  int64_request, void_request, void_response, bool_request, int_request, bool_response,
  int_response, int64_response, string_response, bytes_response, rpc_message, float_request,
  double_request, float_response, double_response, Message,
}
use grpc_jni_client.Messages.Ranges.{uint8, int8, int32, uint32, int64, InRange, IsTyped}
use grpc_jni_client.Messages.Library.{Library, LibraryRules}
use grpc_jni_client.Messages.Tables.{uint8_of, create}
use grpc_jni_client.Messages.Accessors.{verify_fields}

pub InRange-uint8_of : (b : Bool) → InRange uint8 (uint8_of b)
InRange-uint8_of true = omega arith
InRange-uint8_of false = omega arith

module _ (lib : Library) (rules : LibraryRules lib) where
  open rules use {field_rule, float_rule, string_rule, vector_rule}

  pub verify_fields-create :
      (s : Schema) (m : Message s)
      → IsTyped s m
      → verify_fields lib s (lib.build (create s m)) ≡ true
  unfolding verify_fields create
  verify_fields-create bt_rfcomm_data m v =
      rw
        (
          (field_rule 6 int32 m.length (pos 0) (create bt_rfcomm_data m) v.1 refl refl).1,
          (vector_rule 4 m.payload (create bt_rfcomm_data m) v.0 refl refl).1,
          (vector_rule 4 m.payload (create bt_rfcomm_data m) v.0 refl refl).2,
        )
        refl
  verify_fields-create carplay_availability m v =
      rw
        (
          (field_rule 4 uint8 (uint8_of m.wired_available) (pos 0) (create carplay_availability m)
              (InRange-uint8_of m.wired_available) refl refl).1,
          (string_rule 6 m.usb_transport_identifier (create carplay_availability m) refl refl).1,
          (string_rule 6 m.usb_transport_identifier (create carplay_availability m) refl refl).2,
          (field_rule 8 uint8 (uint8_of m.wireless_available) (pos 0)
              (create carplay_availability m) (InRange-uint8_of m.wireless_available) refl refl).1,
          (string_rule 10 m.bluetooth_transport_identifier (create carplay_availability m) refl
              refl).1,
          (string_rule 10 m.bluetooth_transport_identifier (create carplay_availability m) refl
              refl).2,
        )
        refl
  verify_fields-create hostapd_info m v =
      rw
        (
          (string_rule 4 m.hostapd_ssid (create hostapd_info m) refl refl).1,
          (string_rule 4 m.hostapd_ssid (create hostapd_info m) refl refl).2,
          (string_rule 6 m.hostapd_passphrase (create hostapd_info m) refl refl).1,
          (string_rule 6 m.hostapd_passphrase (create hostapd_info m) refl refl).2,
          (field_rule 8 int32 m.hostapd_channel (pos 0) (create hostapd_info m) v.0 refl refl).1,
          (string_rule 10 m.hostapd_ip_address_v6 (create hostapd_info m) refl refl).1,
          (string_rule 10 m.hostapd_ip_address_v6 (create hostapd_info m) refl refl).2,
          (field_rule 12 int32 m.hostapd_security_type (pos 0) (create hostapd_info m) v.1 refl
              refl).1,
        )
        refl
  verify_fields-create string_request m v =
      rw
        (
          (string_rule 4 m.value (create string_request m) refl refl).1,
          (string_rule 4 m.value (create string_request m) refl refl).2,
        )
        refl
  verify_fields-create string_response m v =
      rw
        (
          (string_rule 4 m.value (create string_response m) refl refl).1,
          (string_rule 4 m.value (create string_response m) refl refl).2,
        )
        refl
  verify_fields-create bytes_request m v =
      rw
        (
          (vector_rule 4 m.value (create bytes_request m) v refl refl).1,
          (vector_rule 4 m.value (create bytes_request m) v refl refl).2,
        )
        refl
  verify_fields-create bytes_response m v =
      rw
        (
          (vector_rule 4 m.value (create bytes_response m) v refl refl).1,
          (vector_rule 4 m.value (create bytes_response m) v refl refl).2,
        )
        refl
  verify_fields-create int64_request m v =
      rw ((field_rule 4 int64 m.value (pos 0) (create int64_request m) v refl refl).1) refl
  verify_fields-create int64_response m v =
      rw ((field_rule 4 int64 m.value (pos 0) (create int64_response m) v refl refl).1) refl
  verify_fields-create void_request m v = refl
  verify_fields-create void_response m v = refl
  verify_fields-create bool_request m v =
      rw
        ((field_rule 4 uint8 (uint8_of m.value) (pos 0) (create bool_request m)
          (InRange-uint8_of m.value) refl refl).1)
        refl
  verify_fields-create bool_response m v =
      rw
        ((field_rule 4 uint8 (uint8_of m.value) (pos 0) (create bool_response m)
          (InRange-uint8_of m.value) refl refl).1)
        refl
  verify_fields-create int_request m v =
      rw ((field_rule 4 int32 m.value (pos 0) (create int_request m) v refl refl).1) refl
  verify_fields-create int_response m v =
      rw ((field_rule 4 int32 m.value (pos 0) (create int_response m) v refl refl).1) refl
  verify_fields-create rpc_message m v =
      rw
        (
          (field_rule 4 int8 m.message_type (pos 0) (create rpc_message m) v.0 refl refl).1,
          (field_rule 6 uint32 m.id (pos 0) (create rpc_message m) v.1 refl refl).1,
          (string_rule 8 m.method (create rpc_message m) refl refl).1,
          (string_rule 8 m.method (create rpc_message m) refl refl).2,
          (vector_rule 10 m.payload (create rpc_message m) v.2 refl refl).1,
          (vector_rule 10 m.payload (create rpc_message m) v.2 refl refl).2,
        )
        refl
  verify_fields-create float_request m v =
      rw ((float_rule 4 4 m.value (create float_request m) v refl refl).1) refl
  verify_fields-create double_request m v =
      rw ((float_rule 4 8 m.value (create double_request m) v refl refl).1) refl
  verify_fields-create float_response m v =
      rw ((float_rule 4 4 m.value (create float_response m) v refl refl).1) refl
  verify_fields-create double_response m v =
      rw ((float_rule 4 8 m.value (create double_response m) v refl refl).1) refl
