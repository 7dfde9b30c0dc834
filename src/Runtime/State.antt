-- ===== src/Runtime/State.antt =====
-- The class `CarplayRpcRuntime` (include/CarplayRpcRuntime.h): its members, as one record that all
-- its methods pass on, and the handlers that it registers.
use grpc_jni_client.Prelude.{ℕ, ℤ, pos, Bool, false}
use grpc_jni_client.Platform.{
  Io, Action, Trace, Platform, ask, tell, pipe_id, rpc, new_global_ref, jni,
}
use grpc_jni_client.Jni.{JniHelper}
use grpc_jni_client.Messages.{
  Schema, bt_rfcomm_data, carplay_availability, string_request, bytes_request, void_request,
  void_response,
}
use grpc_jni_client.Dial.{Dial, PipeEvent, new_dial}
use grpc_jni_client.Renderer.{OesRenderer, new_renderer}

pub data MediaCodecStatus : Type 0 where
  idle started available stopped : MediaCodecStatus

-- The underlying `int`, by which the code compares.
abbrev pub status_code : MediaCodecStatus → ℕ
status_code idle = 0
status_code started = 1
status_code available = 2
status_code stopped = 3

-- The functions that the program registers as remote methods.
pub data Handler : Type 0 where
  handle_send_iap2_detect_packet handle_carplay_available_packet : Handler
  handle_disable_bluetooth : Handler
  handle_screen_stream_start handle_screen_stream_stop : Handler
  handle_screen_stream_configuration : Handler

-- The request table that each handler is registered for.
abbrev pub request : Handler → Schema
request handle_send_iap2_detect_packet = bt_rfcomm_data
request handle_carplay_available_packet = carplay_availability
request handle_disable_bluetooth = string_request
request handle_screen_stream_start = void_request
request handle_screen_stream_stop = void_request
request handle_screen_stream_configuration = bytes_request

abbrev pub response : Handler → Schema
response h = void_response

-- `pull_listener` tells whether the unique pointer holds a listener. `frame_available` stands for
-- `gFrameAvailable`, `attached_window` for `mAttachNativeWindow`, and so on.
pub record Runtime : Type 0 where
  pub java : JniHelper
  pub java_object : ℤ
  pub dial : Dial Handler
  pub dial_started : Bool
  pub media_codec : ℤ
  pub media_codec_status : MediaCodecStatus
  pub pull_listener : Bool
  pub frame_available : Bool
  pub render_quit : Bool
  pub attached_window : ℤ
  pub attached_window_width : ℤ
  pub attached_window_height : ℤ
  pub attached_surface : ℤ
  pub attached_window_updated : Bool
  pub oes_texture : ℤ
  pub display : ℤ
  pub surface : ℤ
  pub context : ℤ
  pub config : ℤ
  pub g_window : ℤ
  pub surface_texture : ℤ
  pub oes_renderer : OesRenderer
  pub trace : Trace

-- A method of the class.
abbrev pub Method : Type 0 → Type 0
Method A = Io Runtime A

abbrev pub on_trace : {A : Type 0} → Action A → Method A
on_trace m p r = let (a, tr) = m p r.trace in (a, record r { trace = tr })

-- What `new` finds in the members that have no initialiser.
pub record Garbage : Type 0 where
  pub media_codec : ℤ
  pub attached_window : ℤ
  pub attached_window_width : ℤ
  pub attached_window_height : ℤ
  pub config : ℤ
  pub g_window : ℤ
  pub surface_texture : ℤ

unfoldable pub new_runtime : Garbage → JniHelper → ℤ → Platform → Trace → Runtime
unfolding new_dial new_renderer
new_runtime junk java thiz p tr =
    let (object, tr') = ask (jni (new_global_ref thiz)) p tr in
    record {
      java = java;
      java_object = object;
      dial = new_dial Handler;
      dial_started = false;
      media_codec = junk.media_codec;
      media_codec_status = idle;
      pull_listener = false;
      frame_available = false;
      render_quit = false;
      attached_window = junk.attached_window;
      attached_window_width = junk.attached_window_width;
      attached_window_height = junk.attached_window_height;
      attached_surface = pos 0;
      attached_window_updated = false;
      oes_texture = pos 0;
      display = pos 0;
      surface = pos 0;
      context = pos 0;
      config = junk.config;
      g_window = junk.g_window;
      surface_texture = junk.surface_texture;
      oes_renderer = new_renderer;
      trace = tr';
    }

-- `default_pipe_handler` only logs the pipe's number.
unfoldable pub default_pipe_handler : ℕ → PipeEvent → Action (Unit {0})
default_pipe_handler pipe ev = tell (rpc (pipe_id pipe))
