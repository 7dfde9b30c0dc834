-- ===== src/Runtime/Screen/Threads/Paths.antt =====
-- What `surfaceAvailable` and `screenLooper` share, in the runtime and in the two threads, and paths that
-- lead from a pause of both to another one.
use grpc_jni_client.Prelude.{ℤ, ◌≡◌, refl, sym, subst, ◌∙◌, Bool}
use grpc_jni_client.Platform.{
  Platform, Trace, Call, window_get_width, window_get_height, window, create_window_surface, egl,
}
use grpc_jni_client.Runtime.State.{Runtime}
use grpc_jni_client.Runtime.Screen.Threads.{
  free, VideoPc, Exchange, ExchangeRun, start, by_java, by_video,
}

-- A value that the platform has answered to a call, at some time.
abbrev pub Answered : Platform → Call → ℤ → Type 0
Answered p call v = (tr : Trace) × (v ≡ p.answer tr call)

abbrev pub MadeOf : Platform → ℤ → ℤ → Type 0
MadeOf p native v =
    (display config : ℤ) × Answered p (egl (create_window_surface display config native)) v

-- The width, the height and the surface of the runtime are those of the windows that the two threads have
-- for them.
pub record Views (p : Platform) (t : Exchange) (r : Runtime) : Type 0 where
  pub native : t.window ≡ r.attached_window
  pub updated : t.updated ≡ r.attached_window_updated
  pub width : Answered p (window (window_get_width t.width)) r.attached_window_width
  pub height : Answered p (window (window_get_height t.height)) r.attached_window_height
  pub surface : MadeOf p t.surface r.attached_surface

-- The thread that runs is back where it was, the mutex free and the other thread where it was.
pub record Returns (p : Platform) (t : Exchange) (r : Runtime) : Type 0 where
  pub arrived : Exchange
  pub path : ExchangeRun t arrived
  pub mutex : arrived.mutex ≡ free
  pub java : arrived.java ≡ t.java
  pub video : arrived.video ≡ t.video
  pub views : Views p arrived r

-- The members that are exchanged are the same.
pub record Shares (r s : Runtime) : Type 0 where
  pub native : s.attached_window ≡ r.attached_window
  pub width : s.attached_window_width ≡ r.attached_window_width
  pub height : s.attached_window_height ≡ r.attached_window_height
  pub updated : s.attached_window_updated ≡ r.attached_window_updated
  pub surface : s.attached_surface ≡ r.attached_surface

pub shares :
    (r : Runtime) (frame : Bool) (tr : Trace)
    → Shares r (record r { frame_available = frame; trace = tr })
shares r frame tr = record {
  native = refl;
  width = refl;
  height = refl;
  updated = refl;
  surface = refl;
}

pub Shares-Views :
    {p : Platform} {t : Exchange} {r s : Runtime} → Shares r s → Views p t r → Views p t s
Shares-Views {p} {t} h v = record {
  native = v.native ∙ sym h.native;
  updated = v.updated ∙ sym h.updated;
  width = subst (Answered p (window (window_get_width t.width))) (sym h.width) v.width;
  height = subst (Answered p (window (window_get_height t.height))) (sym h.height) v.height;
  surface = subst (MadeOf p t.surface) (sym h.surface) v.surface;
}

ExchangeRun-trans : {s t u : Exchange} → ExchangeRun s t → ExchangeRun t u → ExchangeRun s u
ExchangeRun-trans a start = a
ExchangeRun-trans a (by_java b st) = by_java (ExchangeRun-trans a b) st
ExchangeRun-trans a (by_video b st) = by_video (ExchangeRun-trans a b) st

pub rests :
    {p : Platform} (t : Exchange) (r : Runtime) → t.mutex ≡ free → Views p t r → Returns p t r
rests t r f v = record {
  arrived = t;
  path = start;
  mutex = f;
  java = refl;
  video = refl;
  views = v;
}

-- Where the video thread stands, and what it read for itself, is not looked at.
pub Views-moved :
    {p : Platform} {t : Exchange} {r : Runtime} (video : VideoPc) (width height : ℤ)
    → Views p t r
    → Views p (record t { video = video; draw_width = width; draw_height = height }) r
Views-moved video width height v = record {
  native = v.native;
  updated = v.updated;
  width = v.width;
  height = v.height;
  surface = v.surface;
}

-- A path that goes on from where another one has returned.
pub Returns-trans :
    {p : Platform} {t : Exchange} {q r : Runtime} (a : Returns p t q)
    → Returns p a.arrived r
    → Returns p t r
Returns-trans a b = record {
  arrived = b.arrived;
  path = ExchangeRun-trans a.path b.path;
  mutex = b.mutex;
  java = b.java ∙ a.java;
  video = b.video ∙ a.video;
  views = b.views;
}
