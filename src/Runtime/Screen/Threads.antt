-- ===== src/Runtime/Screen/Threads.antt =====
-- `surfaceAvailable` on a thread of the Java side and the part of `screenLooper` that shows a frame, as
-- two threads. A step is one access to a shared member, or one operation on the mutex
-- `mAttachNativeWindowMutex`. A window stands for itself, for its width, for its height and for the
-- surface made of it: each member holds the window that it was set from, 0 for null.
pub mod Safety
pub mod Paths
pub mod Simulation
pub mod Rounds
pub mod Alternation
mod Examples
use grpc_jni_client.Prelude.{ℤ, pos, ◌≡◌, Bool, true, false, is_zero}

pub data Owner : Type 0 where
  free java_side video_side : Owner

-- Where the Java side stands in `surfaceAvailable`.
pub data JavaPc : Type 0 where
  outside : JavaPc
  locked : JavaPc  -- before `if (surface)`
  sizing : JavaPc  -- before `ANativeWindow_getWidth`
  measuring : JavaPc  -- before `ANativeWindow_getHeight`
  announcing : JavaPc  -- before the flag is set
  unlocking : JavaPc

-- Where the video thread stands in a round of `screenLooper`.
pub data VideoPc : Type 0 where
  flag_test : VideoPc  -- `if (mAttachedNativeWindowUpdated)`
  acquiring : VideoPc
  making : VideoPc  -- before `eglCreateWindowSurface`
  clearing : VideoPc  -- before the flag is cleared
  releasing : VideoPc
  null_test : VideoPc  -- `if (mAttachNativeWindow != EGL_NO_SURFACE)`
  reading_width : VideoPc  -- the third argument of `draw`
  reading_height : VideoPc  -- the fourth
  drawing : VideoPc

pub record Exchange : Type 0 where
  pub mutex : Owner
  pub window : ℤ
  pub width : ℤ
  pub height : ℤ
  pub updated : Bool
  pub surface : ℤ
  pub draw_width : ℤ
  pub draw_height : ℤ
  pub java : JavaPc
  pub video : VideoPc

-- `no_surface` is also the way of a `withEnv` that runs nothing.
pub data JavaStep (t : Exchange) : Exchange → Type 0 where
  lock :
      t.java ≡ outside → t.mutex ≡ free → JavaStep t (record t { mutex = java_side; java = locked })
  no_surface : t.java ≡ locked → JavaStep t (record t { java = announcing })
  set_window : (w : ℤ) → t.java ≡ locked → JavaStep t (record t { window = w; java = sizing })
  set_width : t.java ≡ sizing → JavaStep t (record t { width = t.window; java = measuring })
  set_height : t.java ≡ measuring → JavaStep t (record t { height = t.window; java = announcing })
  set_flag : t.java ≡ announcing → JavaStep t (record t { updated = true; java = unlocking })
  unlock : t.java ≡ unlocking → JavaStep t (record t { mutex = free; java = outside })

-- The flag and the window are tested, and the size is read, without the mutex.
pub data VideoStep (t : Exchange) : Exchange → Type 0 where
  flag_set : t.video ≡ flag_test → t.updated ≡ true → VideoStep t (record t { video = acquiring })
  flag_clear :
      t.video ≡ flag_test → t.updated ≡ false → VideoStep t (record t { video = null_test })
  acquire :
      t.video ≡ acquiring
      → t.mutex ≡ free
      → VideoStep t (record t { mutex = video_side; video = making })
  make_surface : t.video ≡ making → VideoStep t (record t { surface = t.window; video = clearing })
  clear_flag : t.video ≡ clearing → VideoStep t (record t { updated = false; video = releasing })
  release : t.video ≡ releasing → VideoStep t (record t { mutex = free; video = null_test })
  no_window :
      t.video ≡ null_test → is_zero t.window ≡ true → VideoStep t (record t { video = flag_test })
  has_window :
      t.video ≡ null_test
      → is_zero t.window ≡ false
      → VideoStep t (record t { video = reading_width })
  read_width :
      t.video ≡ reading_width
      → VideoStep t (record t { draw_width = t.width; video = reading_height })
  read_height :
      t.video ≡ reading_height → VideoStep t (record t { draw_height = t.height; video = drawing })
  draw_and_swap : t.video ≡ drawing → VideoStep t (record t { video = flag_test })

pub data ExchangeRun (s : Exchange) : Exchange → Type 0 where
  start : ExchangeRun s s
  by_java : {t u : Exchange} → ExchangeRun s t → JavaStep t u → ExchangeRun s u
  by_video : {t u : Exchange} → ExchangeRun s t → VideoStep t u → ExchangeRun s u

-- A window that has been attached, or none, with both threads outside.
abbrev pub showing : ℤ → Exchange
showing w = record {
  mutex = free;
  window = w;
  width = w;
  height = w;
  updated = false;
  surface = w;
  draw_width = w;
  draw_height = w;
  java = outside;
  video = flag_test;
}
