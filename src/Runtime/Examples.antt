-- ===== src/Runtime/Examples.antt =====
-- The theorems on the decoder, the listener and the remote methods at concrete inputs.
use grpc_jni_client.Prelude.{◌≡◌, ◌⊎◌, refl, arith, pos, false, some, [], ◌∷◌, ◌≤◌}
use grpc_jni_client.Platform.{
  Platform, faulted, returned, jni, codec, attach_current_thread, CodecCall, write_input_buffer,
  get_input_buffer_size, get_input_buffer, dequeue_input_buffer,
}
use grpc_jni_client.Platform.Sample.{sample}
use grpc_jni_client.Jni.{call_static_object_method, load_class}
use grpc_jni_client.Dial.{handler_func}
use grpc_jni_client.Runtime.State.{
  handle_screen_stream_configuration, handle_carplay_available_packet, request, response, idle,
  available, Runtime,
}
use grpc_jni_client.Runtime.Sample.{format, streaming_runtime, fresh_runtime}
use grpc_jni_client.Runtime.Codec.{queue_input_buffer, init_media_codec}
use grpc_jni_client.Runtime.Codec.Input.{held, queue_input_buffer_accepted}
use grpc_jni_client.Runtime.Codec.Lifecycle.{Running, init_media_codec-post}
use grpc_jni_client.Runtime.Codec.Live.{CodecHeld}
use grpc_jni_client.Runtime.Codec.Restart.{GivesWindow, Loses, init_media_codec-Loses}
use grpc_jni_client.Platform.{create_decoder}
use grpc_jni_client.Runtime.Handlers.{run_handler, void}
use grpc_jni_client.Runtime.Handlers.Faults.{handler_func_faults}
use grpc_jni_client.Runtime.Handlers.Waiting.{configuration_returns}

queue_input_buffer_accepted_example :
    let r' = (queue_input_buffer (5 ∷ 6 ∷ []) 40 1 sample streaming_runtime).1 in
    (false ≡ false)
    × (1 ≤ 1)
    × (r'.trace
        ≡ codec (CodecCall.queue_input_buffer (pos 7) (pos 7) 2 40 1)
          ∷ codec (write_input_buffer (pos 7) (5 ∷ 6 ∷ []))
          ∷ codec (get_input_buffer_size (pos 7) (pos 7))
          ∷ codec (get_input_buffer (pos 7) (pos 7))
          ∷ codec (dequeue_input_buffer (pos 7) 33000)
          ∷ [])
    × (held sample r'.trace ≡ 0)
unfolding queue_input_buffer
queue_input_buffer_accepted_example =
    queue_input_buffer_accepted sample streaming_runtime (5 ∷ 6 ∷ []) 40 1 refl

init_media_codec-post_example :
    let (ok, r') = init_media_codec sample fresh_runtime in
    (ok ≡ false) × ((r'.media_codec_status ≡ idle) ⊎ Running r')
init_media_codec-post_example = init_media_codec-post sample fresh_runtime refl

abbrev sevens : Platform
sevens = record { answer = λ tr c. pos 7 }

abbrev on_attached_thread : Runtime
on_attached_thread = record fresh_runtime { trace = jni attach_current_thread ∷ [] }

handler_func_faults_example :
    (handler_func format request response
      (run_handler 1)
      handle_carplay_available_packet
      (8 ∷ [])
      []
      sample
      on_attached_thread).0
    ≡ faulted
handler_func_faults_example =
    handler_func_faults sample format 1 handle_carplay_available_packet (8 ∷ []) []
      on_attached_thread refl refl (λ c. c.1)

abbrev tiny : Platform
tiny = record { answer = λ tr c. pos 2 }

configuration_returns_example :
    let (ended, r') =
      run_handler 3 handle_screen_stream_configuration
        (record { value = some (9 ∷ []) })
        sample
        streaming_runtime in
    (ended ≡ returned void) × (r'.media_codec_status ≡ available)
unfolding queue_input_buffer
configuration_returns_example =
    configuration_returns sample (9 ∷ []) 3 0 streaming_runtime (omega arith) refl

abbrev made_runtime : Runtime
made_runtime = record streaming_runtime { trace = codec (create_decoder "video/avc") ∷ [] }

made_runtime-CodecHeld : CodecHeld sample made_runtime
made_runtime-CodecHeld = (refl, (tt, tt))

sample-GivesWindow : GivesWindow sample made_runtime.java made_runtime.oes_texture
unfolding call_static_object_method load_class
sample-GivesWindow = record {
  attaches = λ tr. refl;
  has_object = λ tr. refl;
  has_texture = λ object tr. refl;
  has_window = λ texture tr. refl;
}

init_media_codec-Loses_example : Loses sample 0 0 (init_media_codec sample made_runtime).1
init_media_codec-Loses_example =
    init_media_codec-Loses sample made_runtime made_runtime-CodecHeld refl sample-GivesWindow
