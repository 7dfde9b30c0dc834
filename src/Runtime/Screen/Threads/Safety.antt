-- ===== src/Runtime/Screen/Threads/Safety.antt =====
-- What reaches the screen when windows are exchanged while frames are shown.
use grpc_jni_client.Prelude.{ℤ, ◌≡◌, ◌⊎◌, inl, refl, ◌∙◌, Bool, true, false, is_zero, arith}
use grpc_jni_client.Runtime.Screen.Threads.{
  free, java_side, video_side, JavaPc, outside, locked, sizing, measuring, unlocking, VideoPc,
  flag_test, making, clearing, releasing, drawing, Exchange, JavaStep, lock, no_surface, set_window,
  set_width, set_height, set_flag, unlock, VideoStep, flag_set, flag_clear, acquire, make_surface,
  clear_flag, release, no_window, has_window, read_width, read_height, draw_and_swap, ExchangeRun,
  start, by_java, by_video, showing,
}

-- Where a thread holds the mutex.
abbrev java_holds : JavaPc → Bool
java_holds outside = false
java_holds _ = true

abbrev video_holds : VideoPc → Bool
video_holds making = true
video_holds clearing = true
video_holds releasing = true
video_holds _ = false

-- The members that the Java side has not come to yet are from an earlier window.
abbrev sized : JavaPc → Bool
sized sizing = false
sized measuring = false
sized _ = true

record Inv (t : Exchange) : Type 0 where
  pub java_owns : java_holds t.java ≡ true → t.mutex ≡ java_side
  pub video_owns : video_holds t.video ≡ true → t.mutex ≡ video_side
  pub unowned : java_holds t.java ≡ false → video_holds t.video ≡ false → t.mutex ≡ free
  pub size : sized t.java ≡ true → (t.width ≡ t.window) × (t.height ≡ t.window)
  pub half : t.java ≡ measuring → t.width ≡ t.window
  pub made : t.video ≡ clearing → t.surface ≡ t.window
  pub shown :
      t.updated ≡ false
      → (t.java ≡ outside) ⊎ ((t.java ≡ locked) ⊎ (t.java ≡ unlocking))
      → t.surface ≡ t.window
  pub set : t.java ≡ unlocking → t.updated ≡ true

JavaStep-Inv : {t u : Exchange} → JavaStep t u → Inv t → Inv u
JavaStep-Inv (lock a b) v = ground arith
JavaStep-Inv (no_surface a) v = ground arith
JavaStep-Inv (set_window w a) v = ground arith
JavaStep-Inv (set_width a) v = ground arith
JavaStep-Inv (set_height a) v = ground arith
JavaStep-Inv (set_flag a) v = ground arith
JavaStep-Inv (unlock a) v = ground arith

VideoStep-Inv : {t u : Exchange} → VideoStep t u → Inv t → Inv u
VideoStep-Inv (flag_set a b) v = ground arith
VideoStep-Inv (flag_clear a b) v = ground arith
VideoStep-Inv (acquire a b) v = ground arith
VideoStep-Inv (make_surface a) v = ground arith
VideoStep-Inv (clear_flag a) v = ground arith
VideoStep-Inv (release a) v = ground arith
VideoStep-Inv (no_window a b) v = ground arith
VideoStep-Inv (has_window a b) v = ground arith
VideoStep-Inv (read_width a) v = ground arith
VideoStep-Inv (read_height a) v = ground arith
VideoStep-Inv (draw_and_swap a) v = ground arith

run-Inv : {s t : Exchange} → Inv s → ExchangeRun s t → Inv t
run-Inv v start = v
run-Inv v (by_java r st) = JavaStep-Inv st (run-Inv v r)
run-Inv v (by_video r st) = VideoStep-Inv st (run-Inv v r)

showing-Inv : (w : ℤ) → Inv (showing w)
showing-Inv w = record {
  java_owns = λ e. cc;
  video_owns = λ e. cc;
  unowned = λ e f. refl;
  size = λ e. (refl, refl);
  half = λ e. refl;
  made = λ e. refl;
  shown = λ e f. refl;
  set = λ e. cc;
}

-- Between two calls of `surfaceAvailable`, and unless a window waits to be attached, the video thread's
-- surface and the recorded size are those of the window that was handed over last, whatever the two
-- threads have done before.
pub current_window_shown :
    {w : ℤ} {t : Exchange}
    → ExchangeRun (showing w) t
    → t.java ≡ outside
    → t.updated ≡ false
    → (t.surface ≡ t.window) × (t.width ≡ t.window) × (t.height ≡ t.window)
current_window_shown {w} {t} r e f =
    let v = run-Inv (showing-Inv w) r in
    let (g, h) = v.size (ground (arith, e)) in (v.shown f (inl e), g, h)

-- Steps of the video thread by itself.
pub data Alone (s : Exchange) : Exchange → Type 0 where
  begin : Alone s s
  onward : {t u : Exchange} → Alone s t → VideoStep t u → Alone s u

-- The steps of a round that attaches the window.
attach_round :
    (t : Exchange)
    → t.video ≡ flag_test
    → t.updated ≡ true
    → t.mutex ≡ free
    → is_zero t.window ≡ false
    → (u : Exchange) × Alone t u
      × (u.video ≡ drawing)
      × (u.updated ≡ false)
      × (u.window ≡ t.window)
      × (u.surface ≡ t.window)
      × (u.draw_width ≡ t.width)
      × (u.draw_height ≡ t.height)
attach_round t a b c d = (
  _,
  onward
      (onward
        (onward
          (onward
            (onward
              (onward (onward (onward begin (flag_set a b)) (acquire refl c)) (make_surface refl))
              (clear_flag refl))
            (release refl))
          (has_window refl d))
        (read_width refl))
      (read_height refl),
  refl,
  refl,
  refl,
  refl,
  refl,
  refl,
)

-- Whatever the two threads have done before: when the Java side has handed a window over, the window is
-- not null, and the video thread starts a round, that round by itself attaches the window and draws
-- into a surface of it, at its own width and height.
pub window_reaches_screen :
    {w : ℤ} {t : Exchange}
    → ExchangeRun (showing w) t
    → t.java ≡ outside
    → t.video ≡ flag_test
    → t.updated ≡ true
    → is_zero t.window ≡ false
    → (u : Exchange) × Alone t u
      × (u.video ≡ drawing)
      × (u.updated ≡ false)
      × (u.surface ≡ t.window)
      × (u.draw_width ≡ t.window)
      × (u.draw_height ≡ t.window)
window_reaches_screen {w} {t} r a b c d =
    let v = run-Inv (showing-Inv w) r in
    let unowned : t.mutex ≡ free = v.unowned (ground (arith, a)) (ground (arith, b)) in
    let (g, h) = v.size (ground (arith, a)) in
    let (u, alone, at, cleared, same, made, x, y) = attach_round t b c unowned d in
    (u, alone, at, cleared, made, x ∙ g, y ∙ h)

-- While one window that is not null is shown and another one is handed over, a frame can be drawn into
-- the surface of the first with the width of the first and the height of the second.
pub torn_size :
    (shown handed : ℤ)
    → is_zero shown ≡ false
    → (t : Exchange) × ExchangeRun (showing shown) t
      × (t.video ≡ drawing)
      × (t.surface ≡ shown)
      × (t.draw_width ≡ shown)
      × (t.draw_height ≡ handed)
torn_size shown handed z =
    let reading =
      by_video (by_video (by_video start (flag_clear refl refl)) (has_window refl z))
        (read_width refl) in
    let sizes = by_java (by_java reading (lock refl refl)) (set_window handed refl) in
    let measured = by_java (by_java sizes (set_width refl)) (set_height refl) in
    let handed_over = by_java (by_java measured (set_flag refl)) (unlock refl) in
    (_, by_video handed_over (read_height refl), refl, refl, refl, refl)
