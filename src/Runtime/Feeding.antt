-- ===== src/Runtime/Feeding.antt =====
-- The callback of the video stream and `stopMediaCodec` as the two threads that they run on, interleaved:
-- the callback runs `queueInputBuffer` on the thread of the pull listener, and the stop comes in on an RPC
-- worker. A step is one access to a shared member, one call of the decoder or one copy. The answers of the
-- decoder are left open.
pub mod Safety
pub mod Simulation
pub mod Callback
mod Examples
use grpc_jni_client.Prelude.{
  List, [], ◌∷◌, ℕ, zero, suc, ◌+◌, ℤ, pos, ◌≡◌, Bool, true, false, ◌||◌, if◌then◌else◌, is_zero,
}
use grpc_jni_client.Runtime.State.{MediaCodecStatus, started, stopped}
use grpc_jni_client.Runtime.Codec.{at_least}
use grpc_jni_client.Runtime.Teardown.{
  StopPc, entry, codec_test, stopping, deleting, clearing, finished,
}

-- Where the listener's thread stands with a frame.
pub data FeedPc : Type 0 where
  null_test : FeedPc  -- `if (!kScreenStreamMediaCodec)`
  status_test : FeedPc  -- the comparison of the status
  dequeuing : FeedPc  -- before `AMediaCodec_dequeueInputBuffer`
  fetching : FeedPc  -- before `AMediaCodec_getInputBuffer`
  copying : FeedPc  -- before `memcpy` into the buffer
  queueing : FeedPc  -- before `AMediaCodec_queueInputBuffer`
  asleep : FeedPc  -- the five milliseconds before the next attempt
  delivered : FeedPc

-- What the listener's thread does with the decoder and its buffers.
pub data FeedUse : Type 0 where
  took fetched copied queued : FeedUse

-- `sleeps` counts the attempts that failed, and `uses` lists what was done with the decoder, the newest first.
-- `deleted` tells whether the decoder object is gone, `misused` counts the decoder functions that have been
-- called through a null pointer or on the deleted object, and `stray` the copies into a buffer of it.
pub record Feed : Type 0 where
  pub media_codec : ℤ
  pub status : MediaCodecStatus
  pub deleted : Bool
  pub misused : ℕ
  pub stray : ℕ
  pub sleeps : ℕ
  pub uses : List FeedUse
  pub feed : FeedPc
  pub stop : StopPc

abbrev pub one_if : Bool → ℕ
one_if true = 1
one_if false = 0

-- A call of the decoder by the listener's thread, which reads the pointer once more.
abbrev pub call_codec : Feed → FeedUse → FeedPc → Feed
call_codec t made next = record t {
  uses = made ∷ t.uses;
  misused = t.misused + one_if (is_zero t.media_codec || t.deleted);
  feed = next;
}

pub data FeedStep (t : Feed) : Feed → Type 0 where
  no_decoder :
      t.feed ≡ null_test → is_zero t.media_codec ≡ true → FeedStep t (record t { feed = asleep })
  decoder :
      t.feed ≡ null_test
      → is_zero t.media_codec ≡ false
      → FeedStep t (record t { feed = status_test })
  not_started :
      t.feed ≡ status_test
      → at_least t.status started ≡ false
      → FeedStep t (record t { feed = asleep })
  is_started :
      t.feed ≡ status_test
      → at_least t.status started ≡ true
      → FeedStep t (record t { feed = dequeuing })
  no_index : t.feed ≡ dequeuing → FeedStep t (call_codec t took asleep)
  index : t.feed ≡ dequeuing → FeedStep t (call_codec t took fetching)
  no_room : t.feed ≡ fetching → FeedStep t (call_codec t fetched asleep)
  room : t.feed ≡ fetching → FeedStep t (call_codec t fetched copying)
  copy :
      t.feed ≡ copying
      → FeedStep t
          (record t { stray = t.stray + one_if t.deleted; uses = copied ∷ t.uses; feed = queueing })
  refused : t.feed ≡ queueing → FeedStep t (call_codec t queued asleep)
  accepted : t.feed ≡ queueing → FeedStep t (call_codec t queued delivered)
  wake : t.feed ≡ asleep → FeedStep t (record t { sleeps = suc t.sleeps; feed = null_test })
  next_frame : t.feed ≡ delivered → FeedStep t (record t { feed = null_test })
  store_status : t.stop ≡ entry → FeedStep t (record t { status = stopped; stop = codec_test })
  no_codec :
      t.stop ≡ codec_test → is_zero t.media_codec ≡ true → FeedStep t (record t { stop = finished })
  has_codec :
      t.stop ≡ codec_test
      → is_zero t.media_codec ≡ false
      → FeedStep t (record t { stop = stopping })
  stop_codec : t.stop ≡ stopping → FeedStep t (record t { stop = deleting })
  delete_codec : t.stop ≡ deleting → FeedStep t (record t { deleted = true; stop = clearing })
  clear_pointer : t.stop ≡ clearing → FeedStep t (record t { media_codec = pos 0; stop = finished })

pub data FeedReach (s : Feed) : Feed → Type 0 where
  here : FeedReach s s
  next : {t u : Feed} → FeedReach s t → FeedStep t u → FeedReach s u

-- A running decoder, a frame that has just come in, and a stop about to begin.
abbrev pub fed : ℤ → MediaCodecStatus → Feed
fed media_codec status = record {
  media_codec = media_codec;
  status = status;
  deleted = false;
  misused = 0;
  stray = 0;
  sleeps = 0;
  uses = [];
  feed = null_test;
  stop = entry;
}
