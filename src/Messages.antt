-- ===== src/Messages.antt =====
-- The tables of the FlatBuffers schemas: wifi_generated.h, bluetooth_generated.h, carplay_generated.h
-- (app/src/main/cpp/rpc/source/include) and request_param_generated.h, response_param_generated.h and
-- rpc_generated.h (app/src/main/cpp/rpc/include). A table is a record of what its accessors return; a
-- string or vector that the sender left out is `none`, for a null pointer, which `Verify` accepts. The
-- byte format is a parameter (`Flatbuffers`); `Messages.Tables` has the generated functions that build
-- a table, `Messages.Accessors` those that read and verify one.
pub mod Ranges
pub mod Library
pub mod Tables
pub mod Accessors
pub mod Verified
pub mod RoundTrip
pub mod Buffers
pub mod Wire
mod Examples
use grpc_jni_client.Prelude.{ℕ, ℤ, String, Bool, Option, List}

pub record BtRfcommData : Type 0 where
  pub payload : Option (List ℕ)
  pub length : ℤ

pub record CarplayAvailability : Type 0 where
  pub wired_available : Bool
  pub usb_transport_identifier : Option String
  pub wireless_available : Bool
  pub bluetooth_transport_identifier : Option String

pub record HostapdInfo : Type 0 where
  pub hostapd_ssid : Option String
  pub hostapd_passphrase : Option String
  pub hostapd_channel : ℤ
  pub hostapd_ip_address_v6 : Option String
  pub hostapd_security_type : ℤ

pub record StringRequest : Type 0 where
  pub value : Option String

pub record BytesRequest : Type 0 where
  pub value : Option (List ℕ)

pub record Int64Request : Type 0 where
  pub value : ℤ

pub record BoolRequest : Type 0 where
  pub value : Bool

pub record IntRequest : Type 0 where
  pub value : ℤ

-- A `float` or a `double`: its sign, and the bits of its exponent and its significand.
pub record Float : Type 0 where
  pub negative : Bool
  pub magnitude : ℕ

pub record FloatRequest : Type 0 where
  pub value : Float

pub record DoubleRequest : Type 0 where
  pub value : Float

-- The envelope of the transport; the type is 0 for a request and 1 for a response.
pub record RpcMessage : Type 0 where
  pub message_type : ℤ
  pub id : ℤ
  pub method : Option String
  pub payload : Option (List ℕ)

pub record VoidRequest : Type 0 where

pub record VoidResponse : Type 0 where

pub record BoolResponse : Type 0 where
  pub value : Bool

pub record IntResponse : Type 0 where
  pub value : ℤ

pub record Int64Response : Type 0 where
  pub value : ℤ

pub record StringResponse : Type 0 where
  pub value : Option String

pub record BytesResponse : Type 0 where
  pub value : Option (List ℕ)

pub record FloatResponse : Type 0 where
  pub value : Float

pub record DoubleResponse : Type 0 where
  pub value : Float

pub data Schema : Type 0 where
  bt_rfcomm_data carplay_availability hostapd_info : Schema
  string_request bytes_request int64_request void_request void_response : Schema
  bool_request int_request rpc_message : Schema
  bool_response int_response int64_response string_response bytes_response : Schema
  float_request double_request float_response double_response : Schema

abbrev pub Message : Schema → Type 0
Message bt_rfcomm_data = BtRfcommData
Message carplay_availability = CarplayAvailability
Message hostapd_info = HostapdInfo
Message string_request = StringRequest
Message bytes_request = BytesRequest
Message int64_request = Int64Request
Message void_request = VoidRequest
Message void_response = VoidResponse
Message bool_request = BoolRequest
Message int_request = IntRequest
Message bool_response = BoolResponse
Message int_response = IntResponse
Message int64_response = Int64Response
Message string_response = StringResponse
Message bytes_response = BytesResponse
Message rpc_message = RpcMessage
Message float_request = FloatRequest
Message double_request = DoubleRequest
Message float_response = FloatResponse
Message double_response = DoubleResponse

-- `Verifier::VerifyBuffer<T>`, `GetRoot<T>`, and the bytes of a builder after `Finish`.
pub record Flatbuffers : Type 0 where
  pub verify_buffer : Schema → List ℕ → Bool
  pub get_root : (s : Schema) → List ℕ → Message s
  pub finish : (s : Schema) → Message s → List ℕ
