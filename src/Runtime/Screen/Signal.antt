-- ===== src/Runtime/Screen/Signal.antt =====
-- How `outputLoop` tells `screenLooper` of a frame, as the two threads that they run on. A step is one
-- access to a shared member, or one operation on the mutex `gFrameMutex` or the condition variable
-- `gFrameCond`. The status and the quit flag, which end the loops, stay as they are.
pub mod Safety
pub mod Simulation
pub mod Rounds
pub mod Alternation
mod Examples
use grpc_jni_client.Prelude.{◌≡◌, Bool, true, false}

pub data Holder : Type 0 where
  nobody output_side video_side : Holder

-- Where the output thread stands in a round of `outputLoop`.
pub data OutputPc : Type 0 where
  dequeuing : OutputPc  -- up to `AMediaCodec_releaseOutputBuffer`
  locking : OutputPc
  flagging : OutputPc  -- before `gFrameAvailable = true`
  unlocking : OutputPc
  notifying : OutputPc  -- before `notify_one`

-- Where the video thread stands in a round of `screenLooper`.
pub data VideoPc : Type 0 where
  round_head : VideoPc  -- before the lock is taken
  testing : VideoPc  -- the predicate of `wait_for`, before any wait
  sleeping : VideoPc  -- within `wait_for`, the lock given up
  waking : VideoPc  -- woken within `wait_for`, before the lock is taken again
  timed_out : VideoPc  -- the same after 33 ms
  clearing : VideoPc  -- before `gFrameAvailable = false`
  releasing : VideoPc
  updating : VideoPc  -- up to `ASurfaceTexture_updateTexImage`

-- `pending` tells whether a frame has been released to the surface texture and not taken out of it,
-- `refused` whether the video thread has come to take it in vain since: there was no surface texture, or
-- `ASurfaceTexture_updateTexImage` failed.
pub record Signal : Type 0 where
  pub mutex : Holder
  pub frame_available : Bool
  pub pending : Bool
  pub refused : Bool
  pub output : OutputPc
  pub video : VideoPc

pub data OutputStep (t : Signal) : Signal → Type 0 where
  release_frame :
      t.output ≡ dequeuing
      → OutputStep t (record t { pending = true; refused = false; output = locking })
  lock :
      t.output ≡ locking
      → t.mutex ≡ nobody
      → OutputStep t (record t { mutex = output_side; output = flagging })
  set_flag :
      t.output ≡ flagging → OutputStep t (record t { frame_available = true; output = unlocking })
  unlock : t.output ≡ unlocking → OutputStep t (record t { mutex = nobody; output = notifying })
  notify :
      t.output ≡ notifying
      → t.video ≡ sleeping
      → OutputStep t (record t { output = dequeuing; video = waking })
  notify_nobody :
      t.output ≡ notifying
      → (t.video ≡ sleeping → ⊥)
      → OutputStep t (record t { output = dequeuing })

-- A test of the predicate that fails gives up the mutex and goes to sleep in one step.
pub data VideoStep (t : Signal) : Signal → Type 0 where
  take_lock :
      t.video ≡ round_head
      → t.mutex ≡ nobody
      → VideoStep t (record t { mutex = video_side; video = testing })
  available :
      t.video ≡ testing → t.frame_available ≡ true → VideoStep t (record t { video = clearing })
  sleep :
      t.video ≡ testing
      → t.frame_available ≡ false
      → VideoStep t (record t { mutex = nobody; video = sleeping })
  wake_of_itself : t.video ≡ sleeping → VideoStep t (record t { video = waking })
  time_out : t.video ≡ sleeping → VideoStep t (record t { video = timed_out })
  test_again :
      t.video ≡ waking
      → t.mutex ≡ nobody
      → VideoStep t (record t { mutex = video_side; video = testing })
  go_on_anyway :
      t.video ≡ timed_out
      → t.mutex ≡ nobody
      → VideoStep t (record t { mutex = video_side; video = clearing })
  clear_flag :
      t.video ≡ clearing → VideoStep t (record t { frame_available = false; video = releasing })
  release : t.video ≡ releasing → VideoStep t (record t { mutex = nobody; video = updating })
  update :
      t.video ≡ updating
      → VideoStep t (record t { pending = false; refused = false; video = round_head })
  update_in_vain :
      t.video ≡ updating → VideoStep t (record t { refused = true; video = round_head })

pub data SignalRun (s : Signal) : Signal → Type 0 where
  start : SignalRun s s
  by_output : {t u : Signal} → SignalRun s t → OutputStep t u → SignalRun s u
  by_video : {t u : Signal} → SignalRun s t → VideoStep t u → SignalRun s u

-- No frame yet, and both threads at the start of a round.
abbrev pub quiet : Signal
quiet = record {
  mutex = nobody;
  frame_available = false;
  pending = false;
  refused = false;
  output = dequeuing;
  video = round_head;
}
