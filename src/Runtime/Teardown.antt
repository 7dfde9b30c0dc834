-- ===== src/Runtime/Teardown.antt =====
-- `outputLoop` and `stopMediaCodec` as the two threads that they run on, interleaved: the output
-- thread is started by `initMediaCodec`, and the stop comes in on an RPC worker. A step is one access
-- to a shared member or one call of the decoder. The answers of the decoder are left open.
pub mod Safety
pub mod Simulation
mod Stopping
mod Examples
use grpc_jni_client.Prelude.{
  ℕ, suc, List, [], ◌∷◌, ℕ, ℤ, pos, ◌≡◌, Bool, true, false, ◌||◌, is_zero,
}
use grpc_jni_client.Runtime.State.{MediaCodecStatus, started, stopped}
use grpc_jni_client.Runtime.Codec.{at_least}

-- Where the output thread stands in `outputLoop`.
pub data OutputPc : Type 0 where
  loop_head : OutputPc  -- the test of the status
  null_test : OutputPc  -- `if (kScreenStreamMediaCodec == nullptr) break;`
  dequeuing : OutputPc  -- before `AMediaCodec_dequeueOutputBuffer`
  handling : OutputPc  -- the branches on the index; two of them use the decoder again
  left : OutputPc

-- Where the stopping thread stands in `stopMediaCodec`.
pub data StopPc : Type 0 where
  entry : StopPc  -- before the status is stored
  codec_test : StopPc  -- `if (kScreenStreamMediaCodec)`
  stopping : StopPc  -- before `AMediaCodec_stop`
  deleting : StopPc  -- before `AMediaCodec_delete`
  clearing : StopPc  -- before the pointer is set to null
  finished : StopPc

-- A call of the decoder by the output thread: for output, or for what it does with the index.
pub data Use : Type 0 where
  asked handled : Use

-- `rounds` counts the rounds of `outputLoop`, and `calls` lists its calls of the decoder, the newest first.
-- `deleted` tells whether the decoder object is gone, `misused` whether a decoder function has been
-- called through a null pointer or on the deleted object.
pub record Threads : Type 0 where
  pub media_codec : ℤ
  pub status : MediaCodecStatus
  pub deleted : Bool
  pub misused : Bool
  pub rounds : ℕ
  pub calls : List Use
  pub output : OutputPc
  pub stop : StopPc

-- A call of the decoder by the output thread, which reads the pointer once more.
abbrev pub use_codec : Threads → Use → OutputPc → Threads
use_codec t use_made next = record t {
  calls = use_made ∷ t.calls;
  misused = t.misused || is_zero t.media_codec || t.deleted;
  output = next;
}

pub data Step (t : Threads) : Threads → Type 0 where
  go_on :
      t.output ≡ loop_head
      → at_least t.status started ≡ true
      → Step t (record t { rounds = suc t.rounds; output = null_test })
  status_out :
      t.output ≡ loop_head → at_least t.status started ≡ false → Step t (record t { output = left })
  null_out :
      t.output ≡ null_test → is_zero t.media_codec ≡ true → Step t (record t { output = left })
  not_null :
      t.output ≡ null_test
      → is_zero t.media_codec ≡ false
      → Step t (record t { output = dequeuing })
  dequeue : t.output ≡ dequeuing → Step t (use_codec t asked handling)
  use_again : t.output ≡ handling → Step t (use_codec t handled loop_head)
  no_more_use : t.output ≡ handling → Step t (record t { output = loop_head })
  store_status : t.stop ≡ entry → Step t (record t { status = stopped; stop = codec_test })
  no_codec :
      t.stop ≡ codec_test → is_zero t.media_codec ≡ true → Step t (record t { stop = finished })
  has_codec :
      t.stop ≡ codec_test → is_zero t.media_codec ≡ false → Step t (record t { stop = stopping })
  stop_codec : t.stop ≡ stopping → Step t (record t { stop = deleting })
  delete_codec : t.stop ≡ deleting → Step t (record t { deleted = true; stop = clearing })
  clear_pointer : t.stop ≡ clearing → Step t (record t { media_codec = pos 0; stop = finished })

pub data Reach (s : Threads) : Threads → Type 0 where
  here : Reach s s
  next : {t u : Threads} → Reach s t → Step t u → Reach s u

-- A running decoder, the output thread at the head of its loop, and a stop about to begin.
abbrev pub streaming : ℤ → MediaCodecStatus → Threads
streaming media_codec status = record {
  media_codec = media_codec;
  status = status;
  deleted = false;
  misused = false;
  rounds = 0;
  calls = [];
  output = loop_head;
  stop = entry;
}
