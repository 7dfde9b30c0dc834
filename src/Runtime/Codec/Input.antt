-- ===== src/Runtime/Codec/Input.antt =====
-- `queueInputBuffer`: what it does to the decoder's input buffers and to memory.
use grpc_jni_client.Prelude.{
  ℕ, ℤ, suc, ◌-◌, ◌≤◌, ◌≡◌, ◌⊎◌, Bool, true, false, List, [], ◌∷◌, is_zero, is_nonneg, pos_part,
  arith, length, if◌then◌else◌, ltb,
}
use grpc_jni_client.Platform.{
  dequeue_input_buffer, get_input_buffer, get_input_buffer_size, write_input_buffer, CodecCall,
  Call, codec, Trace, Platform,
}
use grpc_jni_client.Runtime.State.{Runtime, started, status_code}
use grpc_jni_client.Runtime.Codec.{queue_input_buffer}

-- The size of the input buffer that the client asked about last.
abbrev pub capacity : Platform → Trace → ℕ
capacity p [] = 0
capacity p (codec (get_input_buffer_size m i) ∷ tr) =
    pos_part (p.answer tr (codec (get_input_buffer_size m i)))
capacity p (c ∷ tr) = capacity p tr

abbrev pub Fits : Call → ℕ → Type 0
Fits (codec (write_input_buffer _ bytes)) n = length bytes ≤ n
Fits _ n = Unit {0}

-- Each write into an input buffer is no longer than the size that was asked for last.
abbrev pub WritesFit : Platform → Trace → Type 0
WritesFit p [] = Unit
WritesFit p (c ∷ tr) = Fits c (capacity p tr) × WritesFit p tr

-- How many input buffers the client holds: those that it dequeued and has not handed back.
abbrev pub held_step : Call → Bool → Bool → ℕ → ℕ
held_step (codec (dequeue_input_buffer _ _)) taken done n = if taken then suc n else n
held_step (codec (CodecCall.queue_input_buffer _ _ _ _ _)) taken done n = if done then n - 1 else n
held_step _ taken done n = n

abbrev pub held : Platform → Trace → ℕ
held p [] = 0
held p (c ∷ tr) = held_step c (is_nonneg (p.answer tr c)) (is_zero (p.answer tr c)) (held p tr)

-- The input buffer that a call dequeues.
abbrev pub taken_index : Platform → Runtime → ℤ
taken_index p r = p.answer r.trace (codec (dequeue_input_buffer r.media_codec 33000))

abbrev pub taken_buffer : Platform → Runtime → ℤ
taken_buffer p r =
    p.answer (codec (dequeue_input_buffer r.media_codec 33000) ∷ r.trace)
      (codec (get_input_buffer r.media_codec (taken_index p r)))

module _ (p : Platform) (r : Runtime) (bytes : List ℕ) (pts flags : ℕ) where
  -- No call writes beyond the end of an input buffer.
  pub queue_input_buffer-WritesFit :
      WritesFit p r.trace → WritesFit p (queue_input_buffer bytes pts flags p r).1.trace
  unfolding queue_input_buffer
  queue_input_buffer-WritesFit fits = ground arith

  -- Only the trace changes.
  pub queue_input_buffer_frame :
      let r' = (queue_input_buffer bytes pts flags p r).1 in r' ≡ record r { trace = r'.trace }
  unfolding queue_input_buffer
  queue_input_buffer_frame = ground arith

  -- With no codec, or before it is started, nothing is asked of the decoder and the answer is no.
  pub queue_input_buffer_guarded :
      (is_zero r.media_codec ≡ true)
        ⊎ (ltb (status_code r.media_codec_status) (status_code started) ≡ true)
      → queue_input_buffer bytes pts flags p r ≡ (false, r)
  unfolding queue_input_buffer
  queue_input_buffer_guarded h = ground arith

  -- An accepted buffer goes to a codec that exists, into the input buffer that was dequeued for it,
  -- with exactly the given bytes, length, time and flags; the client then holds as many input
  -- buffers as before.
  pub queue_input_buffer_accepted :
      (queue_input_buffer bytes pts flags p r).0 ≡ true
      → let r' = (queue_input_buffer bytes pts flags p r).1 in
        (is_zero r.media_codec ≡ false)
        × (status_code started ≤ status_code r.media_codec_status)
        × (r'.trace
            ≡ codec (
                CodecCall.queue_input_buffer r.media_codec
                  (taken_index p r)
                  (length bytes)
                  pts
                  flags)
              ∷ codec (write_input_buffer (taken_buffer p r) bytes)
              ∷ codec (get_input_buffer_size r.media_codec (taken_index p r))
              ∷ codec (get_input_buffer r.media_codec (taken_index p r))
              ∷ codec (dequeue_input_buffer r.media_codec 33000)
              ∷ r.trace)
        × (held p r'.trace ≡ held p r.trace)
  unfolding queue_input_buffer
  queue_input_buffer_accepted h = ground arith

  -- A refused one may leave a buffer behind: the client then holds one that is never handed back.
  pub queue_input_buffer_refused :
      (queue_input_buffer bytes pts flags p r).0 ≡ false
      → let r' = (queue_input_buffer bytes pts flags p r).1 in
        (held p r'.trace ≡ held p r.trace) ⊎ (held p r'.trace ≡ suc (held p r.trace))
  unfolding queue_input_buffer
  queue_input_buffer_refused h = ground arith
