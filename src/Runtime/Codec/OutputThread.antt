-- ===== src/Runtime/Codec/OutputThread.antt =====
-- `outputThreadFunc` of CarplayRpcRuntime.cpp, an output loop that takes the decoder as its argument and
-- ends with the stream; nothing starts it any more.
use grpc_jni_client.Prelude.{
  ℕ, zero, suc, ◌/◌, ◌%◌, ◌+◌, ℤ, pos, negsuc, ◌≡◌, refl, Bool, false, [], ◌∷◌, is_nonneg, arith,
  if◌then◌else◌, ◌==◌, pos_part,
}
use grpc_jni_client.Platform.{
  dequeue_output_buffer, release_output_buffer, output_buffer_flags, get_output_format, codec,
  Trace, Platform, Outcome, returned, looping, Action, pure, ask, tell, ◌>>=◌, ◌>>◌,
}

-- `AMEDIACODEC_BUFFER_FLAG_END_OF_STREAM` is the third bit.
abbrev pub ends_stream : ℤ → Bool
ends_stream flags = (pos_part flags / 4) % 2 == 1

unfoldable pub show_output : ℤ → ℤ → Action Bool
show_output media_codec (pos index) = do
  flags ← ask (codec (output_buffer_flags media_codec))
  tell (codec (release_output_buffer media_codec (pos index)))
  pure (ends_stream flags)
show_output media_codec (negsuc zero) = pure false
show_output media_codec (negsuc (suc zero)) = do
  tell (codec (get_output_format media_codec))
  pure false
show_output media_codec (negsuc (suc (suc _))) = pure false

unfoldable pub output_thread_func : ℤ → ℕ → Action (Outcome (Unit {0}))
unfolding show_output
output_thread_func media_codec zero = pure looping
output_thread_func media_codec (suc rounds) = do
  let rest = output_thread_func media_codec rounds
  index ← ask (codec (dequeue_output_buffer media_codec 1_000_000))
  ended ← show_output media_codec index
  if ended then pure (returned tt) else rest

-- How many output buffers were dequeued, and how many released.
abbrev pub taken_out : Platform → Trace → ℕ
taken_out p [] = 0
taken_out p (codec (dequeue_output_buffer m t) ∷ tr) =
    if is_nonneg (p.answer tr (codec (dequeue_output_buffer m t)))
    then suc (taken_out p tr)
    else taken_out p tr
taken_out p (_ ∷ tr) = taken_out p tr

abbrev pub given_back : Trace → ℕ
given_back [] = 0
given_back (codec (release_output_buffer _ _) ∷ tr) = suc (given_back tr)
given_back (_ ∷ tr) = given_back tr

module _ (p : Platform) (media_codec : ℤ) where
  -- After one index: what was taken has been given back, and the loop ends with a stream's last buffer.
  record Shown (index : ℤ) (tr : Trace) : Type 0 where
    pub balanced :
        given_back (show_output media_codec index p tr).1
        ≡ (if is_nonneg index then suc (given_back tr) else given_back tr)
    pub taken : taken_out p (show_output media_codec index p tr).1 ≡ taken_out p tr

  show_output-Shown : (index : ℤ) (tr : Trace) → Shown index tr
  unfolding show_output
  show_output-Shown (pos index) tr = record { balanced = refl; taken = refl }
  show_output-Shown (negsuc zero) tr = record { balanced = refl; taken = refl }
  show_output-Shown (negsuc (suc zero)) tr = record { balanced = refl; taken = refl }
  show_output-Shown (negsuc (suc (suc n))) tr = record { balanced = refl; taken = refl }

  -- However the decoder answers, and for any number of rounds: as many output buffers are released as
  -- are dequeued.
  output_thread_func_balanced :
      (rounds : ℕ) (tr : Trace)
      → let tr' = (output_thread_func media_codec rounds p tr).1 in
        taken_out p tr' + given_back tr ≡ taken_out p tr + given_back tr'
  unfolding output_thread_func
  output_thread_func_balanced zero tr = omega arith
  output_thread_func_balanced (suc rounds) tr =
      let asked = codec (dequeue_output_buffer media_codec 1_000_000) ∷ tr in
      let index = p.answer tr (codec (dequeue_output_buffer media_codec 1_000_000)) in
      let shown = show_output-Shown index asked in
      ground (
        arith,
        shown.balanced,
        shown.taken,
        output_thread_func_balanced rounds (show_output media_codec index p asked).1,
      )

  goes_on :
      (index : ℤ) (tr : Trace)
      → ((later : Trace)
          → ends_stream (p.answer later (codec (output_buffer_flags media_codec))) ≡ false)
      → (show_output media_codec index p tr).0 ≡ false
  unfolding show_output
  goes_on (pos index) tr never = never tr
  goes_on (negsuc zero) tr never = refl
  goes_on (negsuc (suc zero)) tr never = refl
  goes_on (negsuc (suc (suc n))) tr never = refl

  -- A decoder whose buffers never carry the flag of the end of the stream keeps the thread in its loop
  -- for any number of rounds.
  output_thread_func_endless :
      (rounds : ℕ) (tr : Trace)
      → ((later : Trace)
          → ends_stream (p.answer later (codec (output_buffer_flags media_codec))) ≡ false)
      → (output_thread_func media_codec rounds p tr).0 ≡ looping
  unfolding output_thread_func
  output_thread_func_endless zero tr never = refl
  output_thread_func_endless (suc rounds) tr never =
      let asked = codec (dequeue_output_buffer media_codec 1_000_000) ∷ tr in
      let index = p.answer tr (codec (dequeue_output_buffer media_codec 1_000_000)) in
      ground (
        arith,
        goes_on index asked never,
        output_thread_func_endless rounds (show_output media_codec index p asked).1 never,
      )
