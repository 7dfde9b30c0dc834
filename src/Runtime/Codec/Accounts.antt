-- ===== src/Runtime/Codec/Accounts.antt =====
-- How many decoders have been made, deleted and lost in a history.
use grpc_jni_client.Prelude.{ℕ, suc, ◌+◌, ℤ, ◌≡◌, refl, [], ◌∷◌, is_zero, if◌then◌else◌, arith}
use grpc_jni_client.Platform.{
  create_decoder, configure, start, stop, delete, dequeue_input_buffer, dequeue_output_buffer,
  get_input_buffer, get_input_buffer_size, write_input_buffer, release_output_buffer,
  get_output_format, output_buffer_flags, CodecCall, codec, Platform, Trace, jni, gl, egl, window,
  os, rpc,
}
use grpc_jni_client.Runtime.Codec.Live.{live_step, live, GoesTo, UsesLive}

-- A decoder is made by a creation that gives one.
abbrev pub made_step : CodecCall → ℤ → ℕ → ℕ
made_step (create_decoder _) given n = if is_zero given then n else suc n
made_step _ given n = n

abbrev pub deleted_step : CodecCall → ℕ → ℕ
deleted_step (delete _) n = suc n
deleted_step _ n = n

-- A decoder is lost when another one is asked for while it is alive.
abbrev pub lost_step : CodecCall → ℤ → ℕ → ℕ
lost_step (create_decoder _) l n = if is_zero l then n else suc n
lost_step _ l n = n

abbrev pub made : Platform → Trace → ℕ
made p [] = 0
made p (codec c ∷ tr) = made_step c (p.answer tr (codec c)) (made p tr)
made p (_ ∷ tr) = made p tr

abbrev pub deleted : Trace → ℕ
deleted [] = 0
deleted (codec c ∷ tr) = deleted_step c (deleted tr)
deleted (_ ∷ tr) = deleted tr

abbrev pub lost : Platform → Trace → ℕ
lost p [] = 0
lost p (codec c ∷ tr) = lost_step c (live p tr) (lost p tr)
lost p (_ ∷ tr) = lost p tr

abbrev pub one_unless_null : ℤ → ℕ
one_unless_null m = if is_zero m then 0 else 1

call_accounted :
    (c : CodecCall) (given l : ℤ) (m d n : ℕ)
    → GoesTo l c
    → m ≡ d + n + one_unless_null l
    → made_step c given m
      ≡ deleted_step c d + lost_step c l n + one_unless_null (live_step c given l)
call_accounted (create_decoder _) given l m d n g e = ground arith
call_accounted (delete _) given l m d n g e = ground arith
call_accounted (configure _ _ _ _) given l m d n g e = e
call_accounted (start _) given l m d n g e = e
call_accounted (stop _) given l m d n g e = e
call_accounted (dequeue_input_buffer _ _) given l m d n g e = e
call_accounted (dequeue_output_buffer _ _) given l m d n g e = e
call_accounted (get_input_buffer _ _) given l m d n g e = e
call_accounted (get_input_buffer_size _ _) given l m d n g e = e
call_accounted (write_input_buffer _ _) given l m d n g e = e
call_accounted (CodecCall.queue_input_buffer _ _ _ _ _) given l m d n g e = e
call_accounted (release_output_buffer _ _) given l m d n g e = e
call_accounted (get_output_format _) given l m d n g e = e
call_accounted (output_buffer_flags _) given l m d n g e = e

-- Where every call goes to the live decoder, each decoder that was made has been deleted or lost, or
-- is the live one.
pub decoders_accounted :
    (p : Platform) (tr : Trace)
    → UsesLive p tr
    → made p tr ≡ deleted tr + lost p tr + one_unless_null (live p tr)
decoders_accounted p [] v = refl
decoders_accounted p (codec c ∷ tr) v = call_accounted c _ _ _ _ _ v.0 (decoders_accounted p tr v.1)
decoders_accounted p (jni _ ∷ tr) v = decoders_accounted p tr v
decoders_accounted p (gl _ ∷ tr) v = decoders_accounted p tr v
decoders_accounted p (egl _ ∷ tr) v = decoders_accounted p tr v
decoders_accounted p (window _ ∷ tr) v = decoders_accounted p tr v
decoders_accounted p (os _ ∷ tr) v = decoders_accounted p tr v
decoders_accounted p (rpc _ ∷ tr) v = decoders_accounted p tr v
