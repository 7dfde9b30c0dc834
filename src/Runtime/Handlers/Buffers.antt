-- ===== src/Runtime/Handlers/Buffers.antt =====
-- The decoder's input buffers that the loops over `queueInputBuffer` take and do not hand back.
use grpc_jni_client.Prelude.{
  ℕ, ℤ, zero, suc, ◌+◌, ◌≤◌, ◌≡◌, List, true, is_nonneg, arith, length, ltb, Bool-cases, inl, inr,
}
use grpc_jni_client.Platform.{dequeue_input_buffer, codec, Platform, Trace}
use grpc_jni_client.Runtime.State.{Runtime}
use grpc_jni_client.Runtime.Codec.{queue_input_buffer}
use grpc_jni_client.Runtime.Codec.Input.{
  held, queue_input_buffer_accepted, queue_input_buffer_refused,
}
use grpc_jni_client.Runtime.Listener.{retry, receive_frame}
use grpc_jni_client.Runtime.Listener.Retry.{asleep}

-- The decoder has a free input buffer whenever it is asked.
abbrev pub AlwaysFree : Platform → Type 0
AlwaysFree p =
    (m : ℤ) (tr : Trace) → is_nonneg (p.answer tr (codec (dequeue_input_buffer m 33000))) ≡ true

module _ (p : Platform) (bytes : List ℕ) where
  queue_input_buffer-held :
      (flags : ℕ) (r : Runtime)
      → held p (queue_input_buffer bytes 0 flags p r).1.trace ≤ suc (held p r.trace)
  queue_input_buffer-held flags r = elim (Bool-cases (queue_input_buffer bytes 0 flags p r).0) [
    | inl e ↦ omega (arith, (queue_input_buffer_accepted p r bytes 0 flags e).3)
    | inr e ↦ omega (arith, queue_input_buffer_refused p r bytes 0 flags e)
  ]

  retry-held :
      (rounds pause flags : ℕ) (r : Runtime)
      → held p (retry rounds pause (queue_input_buffer bytes 0 flags) p r).1.trace
        ≤ held p r.trace + rounds
  unfolding retry
  retry-held zero pause flags r = omega arith
  retry-held (suc rounds) pause flags r =
      let one = queue_input_buffer-held flags r in
      elim (Bool-cases (queue_input_buffer bytes 0 flags p r).0) [
        | inl e ↦ rw e (omega (arith, one))
        | inr e ↦ rw e (
            omega (
              arith,
              one,
              retry-held rounds pause flags (asleep pause (queue_input_buffer bytes 0 flags p r).1),
            ))
      ]

  -- However the decoder answers, the callback of the video stream keeps at most one more input buffer
  -- for each round that it makes.
  receive_frame-held :
      (rounds : ℕ) (r : Runtime)
      → held p (receive_frame rounds bytes p r).1.trace ≤ held p r.trace + rounds
  unfolding receive_frame
  receive_frame-held zero r = elim (Bool-cases (ltb (length bytes) 5)) [
    | inl e ↦ rw e (omega arith)
    | inr e ↦ rw e (retry-held zero 5 0 r)
  ]
  receive_frame-held (suc rounds) r = elim (Bool-cases (ltb (length bytes) 5)) [
    | inl e ↦ rw e (omega (arith, queue_input_buffer-held 0 r))
    | inr e ↦ rw e (retry-held (suc rounds) 5 0 r)
  ]
