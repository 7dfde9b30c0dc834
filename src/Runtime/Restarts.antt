-- ===== src/Runtime/Restarts.antt =====
-- The output threads over several streams: each successful `initMediaCodec` starts one more `outputLoop`,
-- `stopMediaCodec` deletes the decoder, and the threads that are in their loop go on by themselves. A start
-- and a stop are one step each; a thread's step is one access to a shared member, one call of the decoder or
-- what it does with the index.
pub mod Ending
mod Examples
use grpc_jni_client.Prelude.{ℕ, zero, suc, ℤ, pos, ◌≡◌, true, false, List, [], ◌∷◌, is_zero}
use grpc_jni_client.Runtime.State.{MediaCodecStatus, idle, started, available, stopped}
use grpc_jni_client.Runtime.Codec.{at_least}
use grpc_jni_client.Runtime.Teardown.{OutputPc, loop_head, null_test, dequeuing, handling, left}

-- A step of one output thread, which looks at the shared pointer and the shared status. A call of the decoder
-- through the null pointer is undefined behaviour and no step; an index that asks for no call needs none.
pub data ThreadStep (media_codec : ℤ) (status : MediaCodecStatus)
    : OutputPc → OutputPc → Type 0 where
  go_on : at_least status started ≡ true → ThreadStep media_codec status loop_head null_test
  status_out : at_least status started ≡ false → ThreadStep media_codec status loop_head left
  null_out : is_zero media_codec ≡ true → ThreadStep media_codec status null_test left
  not_null : is_zero media_codec ≡ false → ThreadStep media_codec status null_test dequeuing
  dequeue : is_zero media_codec ≡ false → ThreadStep media_codec status dequeuing handling
  handle : is_zero media_codec ≡ false → ThreadStep media_codec status handling loop_head
  no_more_use : ThreadStep media_codec status handling loop_head

-- A step of one of several.
pub data Turn (media_codec : ℤ) (status : MediaCodecStatus)
    : List OutputPc → List OutputPc → Type 0 where
  this :
      {x y : OutputPc} {xs : List OutputPc}
      → ThreadStep media_codec status x y
      → Turn media_codec status (x ∷ xs) (y ∷ xs)
  other :
      {x : OutputPc} {xs ys : List OutputPc}
      → Turn media_codec status xs ys
      → Turn media_codec status (x ∷ xs) (x ∷ ys)

pub record Streams : Type 0 where
  pub media_codec : ℤ
  pub status : MediaCodecStatus
  pub loops : List OutputPc

pub data StreamStep (t : Streams) : Streams → Type 0 where
  start :
      (decoder : ℤ)
      → is_zero decoder ≡ false
      → StreamStep t
          (record { media_codec = decoder; status = started; loops = loop_head ∷ t.loops })
  configure : is_zero t.media_codec ≡ false → StreamStep t (record t { status = available })
  stop : StreamStep t (record t { media_codec = pos 0; status = stopped })
  turn :
      {loops : List OutputPc}
      → Turn t.media_codec t.status t.loops loops
      → StreamStep t (record t { loops = loops })

pub data StreamReach (s : Streams) : Streams → Type 0 where
  here : StreamReach s s
  next : {t u : Streams} → StreamReach s t → StreamStep t u → StreamReach s u

-- Before the first stream.
abbrev pub no_stream : Streams
no_stream = record { media_codec = pos 0; status = idle; loops = [] }

-- `n` threads that have an index in hand.
abbrev pub handling_threads : ℕ → List OutputPc
handling_threads zero = []
handling_threads (suc n) = handling ∷ handling_threads n

-- A number of steps of the threads, with no start or stop in between.
pub data Turns (media_codec : ℤ) (status : MediaCodecStatus)
    : ℕ → List OutputPc → List OutputPc → Type 0 where
  none_left : {xs : List OutputPc} → Turns media_codec status 0 xs xs
  one_more :
      {n : ℕ} {xs ys zs : List OutputPc}
      → Turn media_codec status xs ys
      → Turns media_codec status n ys zs
      → Turns media_codec status (suc n) xs zs
