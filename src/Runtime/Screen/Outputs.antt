-- ===== src/Runtime/Screen/Outputs.antt =====
-- `outputLoop`: what becomes of the decoder's output buffers.
use grpc_jni_client.Prelude.{
  ℕ, zero, suc, ◌+◌, ℤ, pos, negsuc, ◌≡◌, refl, [], ◌∷◌, is_nonneg, is_zero, arith, if◌then◌else◌,
  Bool-cases, inl, inr,
}
use grpc_jni_client.Platform.{dequeue_output_buffer, codec, Trace, Platform, JniCall, jni}
use grpc_jni_client.Jni.Rules.{with_env-Preserves, call_void_method-Preserves}
use grpc_jni_client.Runtime.State.{Runtime, started}
use grpc_jni_client.Runtime.Codec.{at_least, notify_screen_available}
use grpc_jni_client.Runtime.Codec.OutputThread.{taken_out, given_back}
use grpc_jni_client.Runtime.Screen.{handle_output, output_loop}

-- The counts of a history.
record Counts (p : Platform) (taken given : ℕ) (tr : Trace) : Type 0 where
  pub out : taken_out p tr ≡ taken
  pub back : given_back tr ≡ given

module _ (p : Platform) where
  Counts-jni :
      (taken given : ℕ) (c : JniCall) (tr : Trace)
      → Counts p taken given tr
      → Counts p taken given (jni c ∷ tr)
  Counts-jni taken given c tr v = record { out = v.out; back = v.back }

  notified-Counts :
      (taken given : ℕ) (r : Runtime)
      → Counts p taken given r.trace
      → Counts p taken given (notify_screen_available p r).1.trace
  unfolding notify_screen_available
  notified-Counts taken given r v =
      with_env-Preserves p (Counts p taken given) (Counts-jni taken given) _
        (call_void_method-Preserves p (Counts p taken given) (Counts-jni taken given) r.java_object
          "mediaCodecFormatChanged" "()V" [])
        _ v

  handle_output-Counts :
      (index : ℤ) (r : Runtime)
      → Counts p
          (taken_out p r.trace)
          (if is_nonneg index then suc (given_back r.trace) else given_back r.trace)
          (handle_output index p r).1.trace
  unfolding handle_output
  handle_output-Counts (pos n) r = record { out = ground arith; back = ground arith }
  handle_output-Counts (negsuc zero) r = record { out = refl; back = refl }
  handle_output-Counts (negsuc (suc zero)) r =
      notified-Counts _ _ _ (record { out = refl; back = refl })
  handle_output-Counts (negsuc (suc (suc n))) r = record { out = refl; back = refl }

  -- However the decoder answers, and for any number of rounds: the output loop releases as many output
  -- buffers as it dequeues, whether the release succeeds or not.
  pub output_loop_balanced :
      (rounds : ℕ) (r : Runtime)
      → let tr = (output_loop rounds p r).1.trace in
        taken_out p tr + given_back r.trace ≡ taken_out p r.trace + given_back tr
  unfolding output_loop
  output_loop_balanced zero r = omega arith
  output_loop_balanced (suc rounds) r = elim (Bool-cases (at_least r.media_codec_status started)) [
    | inr e ↦ rw e (omega arith)
    | inl e ↦ elim (Bool-cases (is_zero r.media_codec)) [
      | inl f ↦ rw (e, f) (omega arith)
      | inr f ↦
          let call = codec (dequeue_output_buffer r.media_codec 33000) in
          let asked : Runtime = record r { trace = call ∷ r.trace } in
          let counted = handle_output-Counts (p.answer r.trace call) asked in
          rw (e, f)
            (ground (
              arith,
              counted.out,
              counted.back,
              output_loop_balanced rounds (handle_output (p.answer r.trace call) p asked).1,
            ))
    ]
  ]
