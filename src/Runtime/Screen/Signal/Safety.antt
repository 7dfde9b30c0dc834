-- ===== src/Runtime/Screen/Signal/Safety.antt =====
-- No frame is left waiting: what the mutex and the flag are for.
use grpc_jni_client.Prelude.{◌≡◌, Bool, true, false, arith, not, ◌&&◌, ◌||◌}
use grpc_jni_client.Runtime.Screen.Signal.{
  output_side, video_side, OutputPc, dequeuing, locking, flagging, unlocking, notifying, VideoPc,
  round_head, testing, sleeping, clearing, releasing, updating, Signal, OutputStep, release_frame,
  lock, set_flag, unlock, notify, notify_nobody, VideoStep, take_lock, available, sleep,
  wake_of_itself, time_out, test_again, go_on_anyway, clear_flag, release, update, update_in_vain,
  SignalRun, start, by_output, by_video, quiet,
}

abbrev output_holds : OutputPc → Bool
output_holds flagging = true
output_holds unlocking = true
output_holds _ = false

abbrev video_holds : VideoPc → Bool
video_holds testing = true
video_holds clearing = true
video_holds releasing = true
video_holds _ = false

-- The output thread has released a frame and has not set the flag.
abbrev to_flag : OutputPc → Bool
to_flag locking = true
to_flag flagging = true
to_flag _ = false

-- The video thread has cleared the flag and has not taken the frame.
abbrev to_take : VideoPc → Bool
to_take clearing = true
to_take releasing = true
to_take updating = true
to_take _ = false

-- The output thread has still to notify.
abbrev to_notify : OutputPc → Bool
to_notify unlocking = true
to_notify notifying = true
to_notify _ = false

record Inv (t : Signal) : Type 0 where
  pub output_owns : output_holds t.output ≡ true → t.mutex ≡ output_side
  pub video_owns : video_holds t.video ≡ true → t.mutex ≡ video_side
  pub announced :
      t.pending ≡ true
      → (t.frame_available || to_flag t.output || to_take t.video || t.refused) ≡ true
  pub awake : t.video ≡ sleeping → t.frame_available ≡ true → to_notify t.output ≡ true

OutputStep-Inv : {t u : Signal} → OutputStep t u → Inv t → Inv u
OutputStep-Inv (release_frame a) v = ground arith
OutputStep-Inv (lock a b) v = ground arith
OutputStep-Inv (set_flag a) v = ground arith
OutputStep-Inv (unlock a) v = ground arith
OutputStep-Inv (notify a b) v = ground arith
OutputStep-Inv (notify_nobody a b) v = ground arith

VideoStep-Inv : {t u : Signal} → VideoStep t u → Inv t → Inv u
VideoStep-Inv (take_lock a b) v = ground arith
VideoStep-Inv (available a b) v = ground arith
VideoStep-Inv (sleep a b) v = ground arith
VideoStep-Inv (wake_of_itself a) v = ground arith
VideoStep-Inv (time_out a) v = ground arith
VideoStep-Inv (test_again a b) v = ground arith
VideoStep-Inv (go_on_anyway a b) v = ground arith
VideoStep-Inv (clear_flag a) v = ground arith
VideoStep-Inv (release a) v = ground arith
VideoStep-Inv (update a) v = ground arith
VideoStep-Inv (update_in_vain a) v = ground arith

run-Inv : {s t : Signal} → Inv s → SignalRun s t → Inv t
run-Inv v start = v
run-Inv v (by_output r st) = OutputStep-Inv st (run-Inv v r)
run-Inv v (by_video r st) = VideoStep-Inv st (run-Inv v r)

quiet-Inv : Inv quiet
quiet-Inv = record {
  output_owns = λ e. cc;
  video_owns = λ e. cc;
  announced = λ e. cc;
  awake = λ e f. cc;
}

-- Whatever the two threads have done, and however often the video thread has woken of itself or timed
-- out: while it sleeps and the output thread is done with its last frame, the flag is clear, and a frame
-- that has not been taken is one that the video thread has come to take in vain since it was released. So
-- no wake-up has been lost.
pub no_lost_wakeup :
    {t : Signal}
    → SignalRun quiet t
    → t.video ≡ sleeping
    → t.output ≡ dequeuing
    → (t.frame_available ≡ false) × ((t.pending && not t.refused) ≡ false)
no_lost_wakeup r e f = let v = run-Inv quiet-Inv r in (ground (arith, v), ground (arith, v))

-- Between two rounds of both, a frame that nobody has come to take has its flag set.
pub waiting_announced :
    {t : Signal}
    → SignalRun quiet t
    → t.output ≡ dequeuing
    → t.video ≡ round_head
    → (t.pending && not t.refused) ≡ true
    → t.frame_available ≡ true
waiting_announced r e f g = let v = run-Inv quiet-Inv r in ground (arith, v)
