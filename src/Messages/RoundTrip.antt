-- ===== src/Messages/RoundTrip.antt =====
-- A message that one side builds, the other side verifies and reads back.
use grpc_jni_client.Prelude.{◌≡◌, refl, Bool, true, false, not, is_zero, pos}
use grpc_jni_client.Messages.{
  Schema, bt_rfcomm_data, carplay_availability, hostapd_info, string_request, bytes_request,
  int64_request, void_request, void_response, bool_request, int_request, bool_response,
  int_response, int64_response, string_response, bytes_response, rpc_message, float_request,
  double_request, float_response, double_response, Message,
}
use grpc_jni_client.Messages.Ranges.{uint8, int8, int32, uint32, int64, IsTyped}
use grpc_jni_client.Messages.Library.{Library, LibraryRules, settled_float}
use grpc_jni_client.Messages.Tables.{uint8_of, create}
use grpc_jni_client.Messages.Accessors.{read, verify}
use grpc_jni_client.Messages.Verified.{InRange-uint8_of, verify_fields-create}

-- A message as it arrives: all of it, but for a floating-point minus zero.
abbrev pub settled : (s : Schema) → Message s → Message s
settled float_request m = record { value = settled_float m.value }
settled double_request m = record { value = settled_float m.value }
settled float_response m = record { value = settled_float m.value }
settled double_response m = record { value = settled_float m.value }
settled bt_rfcomm_data m = m
settled carplay_availability m = m
settled hostapd_info m = m
settled string_request m = m
settled bytes_request m = m
settled int64_request m = m
settled void_request m = m
settled void_response m = m
settled bool_request m = m
settled int_request m = m
settled rpc_message m = m
settled bool_response m = m
settled int_response m = m
settled int64_response m = m
settled string_response m = m
settled bytes_response m = m

bool_of-uint8_of : (b : Bool) → not (is_zero (uint8_of b)) ≡ b
bool_of-uint8_of true = refl
bool_of-uint8_of false = refl

module _ (lib : Library) (rules : LibraryRules lib) where
  open rules use {field_rule, float_rule, string_rule, vector_rule, start_rule, end_rule}

  read-create :
      (s : Schema) (m : Message s) → IsTyped s m → read lib s (lib.build (create s m)) ≡ settled s m
  unfolding read create
  read-create bt_rfcomm_data m v =
      rw
        (
          (field_rule 6 int32 m.length (pos 0) (create bt_rfcomm_data m) v.1 refl refl).0,
          (vector_rule 4 m.payload (create bt_rfcomm_data m) v.0 refl refl).0,
        )
        refl
  read-create carplay_availability m v =
      rw
        (
          (field_rule 4 uint8 (uint8_of m.wired_available) (pos 0) (create carplay_availability m)
              (InRange-uint8_of m.wired_available) refl refl).0,
          bool_of-uint8_of m.wired_available,
          (string_rule 6 m.usb_transport_identifier (create carplay_availability m) refl refl).0,
          (field_rule 8 uint8 (uint8_of m.wireless_available) (pos 0)
              (create carplay_availability m) (InRange-uint8_of m.wireless_available) refl refl).0,
          bool_of-uint8_of m.wireless_available,
          (string_rule 10 m.bluetooth_transport_identifier (create carplay_availability m) refl
              refl).0,
        )
        refl
  read-create hostapd_info m v =
      rw
        (
          (string_rule 4 m.hostapd_ssid (create hostapd_info m) refl refl).0,
          (string_rule 6 m.hostapd_passphrase (create hostapd_info m) refl refl).0,
          (field_rule 8 int32 m.hostapd_channel (pos 0) (create hostapd_info m) v.0 refl refl).0,
          (string_rule 10 m.hostapd_ip_address_v6 (create hostapd_info m) refl refl).0,
          (field_rule 12 int32 m.hostapd_security_type (pos 0) (create hostapd_info m) v.1 refl
              refl).0,
        )
        refl
  read-create string_request m v =
      rw ((string_rule 4 m.value (create string_request m) refl refl).0) refl
  read-create string_response m v =
      rw ((string_rule 4 m.value (create string_response m) refl refl).0) refl
  read-create bytes_request m v =
      rw ((vector_rule 4 m.value (create bytes_request m) v refl refl).0) refl
  read-create bytes_response m v =
      rw ((vector_rule 4 m.value (create bytes_response m) v refl refl).0) refl
  read-create int64_request m v =
      rw ((field_rule 4 int64 m.value (pos 0) (create int64_request m) v refl refl).0) refl
  read-create int64_response m v =
      rw ((field_rule 4 int64 m.value (pos 0) (create int64_response m) v refl refl).0) refl
  read-create void_request m v = refl
  read-create void_response m v = refl
  read-create bool_request m v =
      rw
        (
          (field_rule 4 uint8 (uint8_of m.value) (pos 0) (create bool_request m)
              (InRange-uint8_of m.value) refl refl).0,
          bool_of-uint8_of m.value,
        )
        refl
  read-create bool_response m v =
      rw
        (
          (field_rule 4 uint8 (uint8_of m.value) (pos 0) (create bool_response m)
              (InRange-uint8_of m.value) refl refl).0,
          bool_of-uint8_of m.value,
        )
        refl
  read-create int_request m v =
      rw ((field_rule 4 int32 m.value (pos 0) (create int_request m) v refl refl).0) refl
  read-create int_response m v =
      rw ((field_rule 4 int32 m.value (pos 0) (create int_response m) v refl refl).0) refl
  read-create rpc_message m v =
      rw
        (
          (field_rule 4 int8 m.message_type (pos 0) (create rpc_message m) v.0 refl refl).0,
          (field_rule 6 uint32 m.id (pos 0) (create rpc_message m) v.1 refl refl).0,
          (string_rule 8 m.method (create rpc_message m) refl refl).0,
          (vector_rule 10 m.payload (create rpc_message m) v.2 refl refl).0,
        )
        refl
  read-create float_request m v =
      rw ((float_rule 4 4 m.value (create float_request m) v refl refl).0) refl
  read-create double_request m v =
      rw ((float_rule 4 8 m.value (create double_request m) v refl refl).0) refl
  read-create float_response m v =
      rw ((float_rule 4 4 m.value (create float_response m) v refl refl).0) refl
  read-create double_response m v =
      rw ((float_rule 4 8 m.value (create double_response m) v refl refl).0) refl

  -- Over a library that obeys its rules, for each table whose fields hold
  -- values of their types: what `Create…` builds passes `Verify`,
  -- and the accessors return every field as it was given, absent strings and vectors and default
  -- values included, but for a floating-point minus zero, which is read as zero.
  pub built_table_read_back :
      (s : Schema) (m : Message s)
      → IsTyped s m
      → let t = lib.build (create s m) in (verify lib s t ≡ true) × (read lib s t ≡ settled s m)
  unfolding verify
  built_table_read_back s m v = (
    rw (start_rule (create s m), verify_fields-create lib rules s m v, end_rule (create s m)) refl,
    read-create s m v,
  )
