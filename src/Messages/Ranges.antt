-- ===== src/Messages/Ranges.antt =====
-- The C++ types of the fields of a table, and the values that they can hold.
use grpc_jni_client.Prelude.{
  ℕ, ◌*◌, ◌-◌, ◌<◌, ◌^◌, ℤ, pos, negsuc, List, [], ◌∷◌, Option, none, some,
}
use grpc_jni_client.Messages.{
  Float, Schema, bt_rfcomm_data, carplay_availability, hostapd_info, string_request, bytes_request,
  int64_request, void_request, void_response, bool_request, int_request, bool_response,
  int_response, int64_response, string_response, bytes_response, rpc_message, float_request,
  double_request, float_response, double_response, Message,
}

pub data Scalar : Type 0 where
  uint8 int8 int32 uint32 int64 : Scalar

-- `sizeof`
abbrev pub width : Scalar → ℕ
width uint8 = 1
width int8 = 1
width int32 = 4
width uint32 = 4
width int64 = 8

abbrev pub InRange : Scalar → ℤ → Type 0
InRange uint8 (pos n) = n < 2 ^ 8
InRange uint8 (negsuc n) = ⊥
InRange int8 (pos n) = n < 2 ^ 7
InRange int8 (negsuc n) = n < 2 ^ 7
InRange int32 (pos n) = n < 2 ^ 31
InRange int32 (negsuc n) = n < 2 ^ 31
InRange uint32 (pos n) = n < 2 ^ 32
InRange uint32 (negsuc n) = ⊥
InRange int64 (pos n) = n < 2 ^ 63
InRange int64 (negsuc n) = n < 2 ^ 63

-- The bits besides the sign of a floating-point value of so many bytes.
abbrev pub FloatFits : ℕ → Float → Type 0
FloatFits size v = v.magnitude < 2 ^ (8 * size - 1)

abbrev pub AreBytes : List ℕ → Type 0
AreBytes [] = Unit
AreBytes (b ∷ bs) = (b < 2 ^ 8) × AreBytes bs

-- A vector of `uint8_t`, or none.
abbrev pub IsByteVector : Option (List ℕ) → Type 0
IsByteVector none = Unit
IsByteVector (some bytes) = AreBytes bytes

-- Each field holds a value of its type.
abbrev pub IsTyped : (s : Schema) → Message s → Type 0
IsTyped bt_rfcomm_data m = IsByteVector m.payload × InRange int32 m.length
IsTyped hostapd_info m = InRange int32 m.hostapd_channel × InRange int32 m.hostapd_security_type
IsTyped rpc_message m = InRange int8 m.message_type × InRange uint32 m.id × IsByteVector m.payload
IsTyped bytes_request m = IsByteVector m.value
IsTyped bytes_response m = IsByteVector m.value
IsTyped int64_request m = InRange int64 m.value
IsTyped int64_response m = InRange int64 m.value
IsTyped int_request m = InRange int32 m.value
IsTyped int_response m = InRange int32 m.value
IsTyped float_request m = FloatFits 4 m.value
IsTyped float_response m = FloatFits 4 m.value
IsTyped double_request m = FloatFits 8 m.value
IsTyped double_response m = FloatFits 8 m.value
IsTyped carplay_availability m = Unit
IsTyped string_request m = Unit
IsTyped string_response m = Unit
IsTyped bool_request m = Unit
IsTyped bool_response m = Unit
IsTyped void_request m = Unit
IsTyped void_response m = Unit
