-- ===== src/Runtime/Codec/Live.antt =====
-- Which decoder object is alive in a history, and whether the calls go to it. The terms of the NDK
-- documentation: a codec is alive from `AMediaCodec_createDecoderByType` to `AMediaCodec_delete`, and
-- every other function wants one that is.
use grpc_jni_client.Prelude.{ℕ, ℤ, pos, ◌≡◌, false, List, [], ◌∷◌, is_zero, arith}
use grpc_jni_client.Platform.{
  create_decoder, configure, start, stop, delete, dequeue_input_buffer, dequeue_output_buffer,
  get_input_buffer, get_input_buffer_size, write_input_buffer, release_output_buffer,
  get_output_format, output_buffer_flags, CodecCall, codec, Platform, Trace, JniCall, jni,
}
use grpc_jni_client.Runtime.State.{Runtime}
use grpc_jni_client.Runtime.Codec.{queue_input_buffer, stop_media_codec}

-- The decoder that was made last, until it is deleted; null before that and after.
abbrev pub live_step : CodecCall → ℤ → ℤ → ℤ
live_step (create_decoder _) made l = made
live_step (delete _) made l = pos 0
live_step _ made l = l

abbrev pub live : Platform → Trace → ℤ
live p [] = pos 0
live p (codec c ∷ tr) = live_step c (p.answer tr (codec c)) (live p tr)
live p (_ ∷ tr) = live p tr

abbrev pub Same : ℤ → ℤ → Type 0
Same m l = (m ≡ l) × (is_zero m ≡ false)

-- The call goes to the live decoder, which is not null.
abbrev pub GoesTo : ℤ → CodecCall → Type 0
GoesTo l (create_decoder _) = Unit
GoesTo l (write_input_buffer _ _) = Unit
GoesTo l (configure m _ _ _) = Same m l
GoesTo l (start m) = Same m l
GoesTo l (stop m) = Same m l
GoesTo l (delete m) = Same m l
GoesTo l (dequeue_input_buffer m _) = Same m l
GoesTo l (dequeue_output_buffer m _) = Same m l
GoesTo l (get_input_buffer m _) = Same m l
GoesTo l (get_input_buffer_size m _) = Same m l
GoesTo l (CodecCall.queue_input_buffer m _ _ _ _) = Same m l
GoesTo l (release_output_buffer m _) = Same m l
GoesTo l (get_output_format m) = Same m l
GoesTo l (output_buffer_flags m) = Same m l

abbrev pub UsesLive : Platform → Trace → Type 0
UsesLive p [] = Unit
UsesLive p (codec c ∷ tr) = GoesTo (live p tr) c × UsesLive p tr
UsesLive p (_ ∷ tr) = UsesLive p tr

-- The pointer `m` is the live decoder or null with none alive, and all calls went to a live one.
abbrev pub HeldAt : Platform → ℤ → Trace → Type 0
HeldAt p m tr = (m ≡ live p tr) × UsesLive p tr

-- The runtime's pointer is the live decoder or null with none alive, and all calls went to a live one.
abbrev pub CodecHeld : Platform → Runtime → Type 0
CodecHeld p r = HeldAt p r.media_codec r.trace

module _ (p : Platform) where
  pub HeldAt-jni : (m : ℤ) (c : JniCall) (tr : Trace) → HeldAt p m tr → HeldAt p m (jni c ∷ tr)
  HeldAt-jni m c tr v = v

  pub queue_input_buffer-CodecHeld :
      (bytes : List ℕ) (pts flags : ℕ) (r : Runtime)
      → CodecHeld p r
      → CodecHeld p (queue_input_buffer bytes pts flags p r).1
  unfolding queue_input_buffer
  queue_input_buffer-CodecHeld bytes pts flags r v = ground arith

  pub stop_media_codec-CodecHeld :
      (r : Runtime) → CodecHeld p r → CodecHeld p (stop_media_codec p r).1
  unfolding stop_media_codec
  stop_media_codec-CodecHeld r v = ground arith
