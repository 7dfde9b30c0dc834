-- ===== src/Runtime/Handlers/Waiting.antt =====
-- When the loops that offer bytes to the decoder end: `handleScreenStreamConfiguration` and the
-- callback of the video stream.
use grpc_jni_client.Prelude.{
  ℕ, ℤ, ◌<◌, ◌≤◌, ◌≡◌, refl, List, Bool, true, false, some, is_zero, arith, pos_part, length, inl,
}
use grpc_jni_client.Platform.{returned, looping, get_input_buffer_size, codec, Platform, Trace}
use grpc_jni_client.Messages.{BytesRequest}
use grpc_jni_client.Runtime.State.{available, handle_screen_stream_configuration, Runtime}
use grpc_jni_client.Runtime.Codec.{queue_input_buffer, stop_media_codec}
use grpc_jni_client.Runtime.Codec.Input.{queue_input_buffer_guarded}
use grpc_jni_client.Runtime.Codec.Lifecycle.{stop_media_codec_final}
use grpc_jni_client.Runtime.Listener.{retry, receive_frame}
use grpc_jni_client.Runtime.Listener.Retry.{tries, retry_returns, retry_blocks}
use grpc_jni_client.Runtime.Handlers.{run_handler, codec_config_flag, finish_configuration, void}

module _ (p : Platform) (bytes : List ℕ) where
  -- Without a decoder each attempt fails, and leaves the runtime alone.
  no_decoder_blocks :
      (rounds pause flags : ℕ) (r : Runtime)
      → is_zero r.media_codec ≡ true
      → (retry rounds pause (queue_input_buffer bytes 0 flags) p r).0 ≡ looping
  no_decoder_blocks rounds pause flags r z =
      retry_blocks p pause (queue_input_buffer bytes 0 flags) (λ s. is_zero s.media_codec ≡ true)
        (λ s y. rw (queue_input_buffer_guarded p s bytes 0 flags (inl y)) (refl, y)) (λ s y. y)
        rounds r z

  -- The decoder's input buffers are all too small.
  abbrev pub TooSmall : Type 0
  TooSmall =
      (m i : ℤ) (tr : Trace)
      → pos_part (p.answer tr (codec (get_input_buffer_size m i))) < length bytes

  pub too_small_refused :
      (flags : ℕ) (r : Runtime) → TooSmall → (queue_input_buffer bytes 0 flags p r).0 ≡ false
  unfolding queue_input_buffer
  too_small_refused flags r small = grind (arith)

  pub long_frame :
      (rounds : ℕ) (r : Runtime)
      → 5 ≤ length bytes
      → receive_frame rounds bytes p r ≡ retry rounds 5 (queue_input_buffer bytes 0 0) p r
  unfolding receive_frame
  long_frame rounds r h = ground arith

  -- A frame of at least five bytes that arrives after `stopMediaCodec` is offered for ever, as long as
  -- no decoder is made: the callback of the video stream does not return.
  pub receive_frame-stop_media_codec :
      (rounds : ℕ) (r : Runtime)
      → 5 ≤ length bytes
      → (receive_frame rounds bytes p (stop_media_codec p r).1).0 ≡ looping
  receive_frame-stop_media_codec rounds r h = rw (long_frame rounds (stop_media_codec p r).1 h) (
      no_decoder_blocks rounds 5 0 (stop_media_codec p r).1
        (stop_media_codec_final p r bytes 0 0).0)

  -- A frame of at least five bytes that is longer than every input buffer is offered for ever.
  pub receive_frame_too_small :
      (rounds : ℕ) (r : Runtime)
      → 5 ≤ length bytes
      → TooSmall
      → (receive_frame rounds bytes p r).0 ≡ looping
  receive_frame_too_small rounds r h small = rw (long_frame rounds r h) (
      retry_blocks p 5 (queue_input_buffer bytes 0 0) (λ s. Unit {0})
        (λ s y. (too_small_refused 0 s small, tt)) (λ s y. y) rounds r tt)

  abbrev configuration : BytesRequest
  configuration = record { value = some bytes }

  -- The configuration handler waits for ever while there is no decoder.
  pub configuration_waits :
      (rounds : ℕ) (r : Runtime)
      → is_zero r.media_codec ≡ true
      → (run_handler rounds handle_screen_stream_configuration configuration p r).0 ≡ looping
  unfolding run_handler
  configuration_waits rounds r z =
      rw (no_decoder_blocks rounds 20 codec_config_flag r z, finish_configuration) refl

  abbrev offer_at : ℕ → Runtime → Bool
  offer_at k r =
      (queue_input_buffer bytes 0 codec_config_flag p
        (tries p 20 (queue_input_buffer bytes 0 codec_config_flag) k r)).0

  -- If the decoder would accept the parameter sets at attempt number `k`, then within `k + 1` rounds
  -- the handler answers, and the decoder is marked as available.
  pub configuration_returns :
      (rounds k : ℕ) (r : Runtime)
      → k < rounds
      → offer_at k r ≡ true
      → let (ended, r') = run_handler rounds handle_screen_stream_configuration configuration p r in
        (ended ≡ returned void) × (r'.media_codec_status ≡ available)
  unfolding run_handler
  configuration_returns rounds k r h e =
      let done = retry_returns p 20 (queue_input_buffer bytes 0 codec_config_flag) rounds k r h e in
      (rw (done, finish_configuration) refl, rw (done, finish_configuration) refl)
