-- ===== src/Runtime/Screen/Frames.antt =====
-- What the video thread keeps from frame to frame.
use grpc_jni_client.Prelude.{
  ℕ, ℤ, zero, suc, ◌+◌, ◌-◌, ◌≡◌, ◌∙◌, refl, Option, none, some, Bool, true, false, [], ◌∷◌,
  is_zero, arith, Bool-cases, inl, inr, if◌then◌else◌,
}
use grpc_jni_client.Platform.{
  create_window_surface, destroy_surface, make_current, create_context, initialize_display,
  choose_config, get_display, egl, os, wait_frame_ms, Call, Trace, Platform, returned, looping,
}
use grpc_jni_client.Renderer
use grpc_jni_client.Runtime.State.{Runtime, Method}
use grpc_jni_client.Runtime.Codec.{stop_media_codec}
use grpc_jni_client.Runtime.Screen.{
  make_surface, make_context, open_display, init_egl, update_image, attach_window, draw_frame,
  render_frame, render_loop, output_loop,
}

-- The window surfaces made and not destroyed.
abbrev pub surface_step : Call → ℤ → ℕ → ℕ
surface_step (egl (create_window_surface _ _ _)) r n = if is_zero r then n else n + 1
surface_step (egl (destroy_surface _ _)) r n = n - 1
surface_step _ r n = n

abbrev pub surfaces : Platform → Trace → ℕ
surfaces p [] = 0
surfaces p (c ∷ tr) = surface_step c (p.answer tr c) (surfaces p tr)

-- The runtime's surface is the only one alive.
abbrev pub OneSurface : Platform → Runtime → Type 0
OneSurface p r = surfaces p r.trace ≡ (if is_zero r.attached_surface then 0 else 1)

abbrev context_answer : Platform → ℤ → ℤ → Runtime → ℤ
context_answer p display config r = p.answer r.trace (egl (create_context display config))

abbrev newest : Trace → Option Call
newest [] = none
newest (c ∷ tr) = some c

abbrev pub waited : Runtime → Runtime
waited r = record r { trace = os (wait_frame_ms 33) ∷ r.trace }

module _ (p : Platform) where
  make_surface_ready :
      (display config context : ℤ) (r : Runtime)
      → let (ok, r') = make_surface display config context p r in
        (ok ≡ true
          → (is_zero r'.surface ≡ false)
            × (newest r'.trace ≡ some (egl (make_current display r'.surface context))))
        × (r'.display ≡ r.display)
        × (r'.context ≡ r.context)
  unfolding make_surface
  make_surface_ready display config context r = ground arith

  -- A display, a context and a surface, just made current.
  abbrev pub Current : Runtime → Type 0
  Current r' =
      (is_zero r'.display ≡ false)
      × (is_zero r'.context ≡ false)
      × (is_zero r'.surface ≡ false)
      × (newest r'.trace ≡ some (egl (make_current r'.display r'.surface r'.context)))

  abbrev Ready : Bool × Runtime → Type 0
  Ready (ok, r') = ok ≡ true → Current r'

  make_context-Ready :
      (display config : ℤ) (r : Runtime)
      → is_zero display ≡ false
      → r.display ≡ display
      → Ready (make_context display config p r)
  unfolding make_context
  make_context-Ready display config r z d =
      elim (Bool-cases (is_zero (context_answer p display config r))) [
        | inl e ↦ rw e (λ h. cc)
        | inr e ↦ rw e (λ h.
            let made =
              make_surface_ready display config (context_answer p display config r) (record r {
                config = config;
                context = context_answer p display config r;
                trace = egl (create_context display config) ∷ r.trace;
              }) in
            (rw (made.1 ∙ d) z, rw made.2 e, (made.0 h).0, rw (made.1 ∙ d, made.2) (made.0 h).1))
      ]

  open_display-Ready :
      (display : ℤ) (r : Runtime)
      → is_zero display ≡ false
      → r.display ≡ display
      → Ready (open_display display p r)
  unfolding open_display
  open_display-Ready display r z d =
      elim (Bool-cases (is_zero (p.answer r.trace (egl (initialize_display display))))) [
        | inl e ↦ rw e (λ h. cc)
        | inr e ↦
            rw e
              (elim (Bool-cases (
                is_zero (
                  p.answer (egl (initialize_display display) ∷ r.trace)
                    (egl (choose_config display))))) [
                      | inl f ↦ rw f (λ h. cc)
                      | inr f ↦ rw f (make_context-Ready display _ _ z d)
                    ])
      ]

  -- `initEGL` reports success only with a display, a context and a pbuffer surface, and then the last
  -- thing that it did was to make them current.
  init_egl-Current : (r : Runtime) → (init_egl p r).0 ≡ true → Current (init_egl p r).1
  unfolding init_egl
  init_egl-Current r = elim (Bool-cases (is_zero (p.answer r.trace (egl get_display)))) [
    | inl e ↦ rw e (λ h. cc)
    | inr e ↦ rw e (open_display-Ready _ _ e refl)
  ]

  update_image-OneSurface : (r : Runtime) → OneSurface p r → OneSurface p (update_image p r).1
  unfolding update_image
  update_image-OneSurface r v = ground arith

  attach_window-OneSurface : (r : Runtime) → OneSurface p r → OneSurface p (attach_window p r).1
  unfolding attach_window
  attach_window-OneSurface r v = ground arith

  draw_frame-OneSurface : (r : Runtime) → OneSurface p r → OneSurface p (draw_frame p r).1
  unfolding draw_frame Renderer.draw
  draw_frame-OneSurface r v = ground arith

  -- A frame neither leaks a window surface nor destroys one twice: the runtime's surface stays the
  -- only one alive, also when a new window replaces it.
  pub render_frame-OneSurface : (r : Runtime) → OneSurface p r → OneSurface p (render_frame p r).1
  unfolding render_frame
  render_frame-OneSurface r v =
      draw_frame-OneSurface _ (attach_window-OneSurface _ (update_image-OneSurface _ v))

  if-keeps :
      {A : Type 0} (P : Runtime → Type 0) (b : Bool) (m n : Method A) (r : Runtime)
      → P (m p r).1
      → P (n p r).1
      → P ((if b then m else n) p r).1
  if-keeps P true m n r v w = v
  if-keeps P false m n r v w = w

  -- What each wait and each frame keep, the loop keeps.
  pub render_loop-keeps :
      (P : Runtime → Type 0)
      → ((r : Runtime) → P r → P (waited r))
      → ((r : Runtime) → P r → P (render_frame p r).1)
      → (rounds : ℕ) (r : Runtime) → P r
      → P (render_loop rounds p r).1
  unfolding render_loop
  render_loop-keeps P slept framed zero r v = v
  render_loop-keeps P slept framed (suc rounds) r v = if-keeps P r.render_quit _ _ r v (
      if-keeps P r.render_quit _ _ (waited r) (slept r v)
        (render_loop-keeps P slept framed rounds _ (framed _ (slept r v))))

  quit-update_image : (r : Runtime) → (update_image p r).1.render_quit ≡ r.render_quit
  unfolding update_image
  quit-update_image r = ground arith

  quit-attach_window : (r : Runtime) → (attach_window p r).1.render_quit ≡ r.render_quit
  unfolding attach_window
  quit-attach_window r = ground arith

  quit-draw_frame : (r : Runtime) → (draw_frame p r).1.render_quit ≡ r.render_quit
  unfolding draw_frame
  quit-draw_frame r = ground arith

  quit-render_frame : (r : Runtime) → (render_frame p r).1.render_quit ≡ r.render_quit
  unfolding render_frame
  quit-render_frame r = quit-draw_frame _ ∙ quit-attach_window _ ∙ quit-update_image _

  -- The video thread does not end by itself: while the quit flag is unset, the loop goes on for
  -- any number of rounds.
  render_loop_endless :
      (rounds : ℕ) (r : Runtime) → r.render_quit ≡ false → (render_loop rounds p r).0 ≡ looping
  unfolding render_loop
  render_loop_endless zero r q = refl
  render_loop_endless (suc rounds) r q = ground (
    arith,
    quit-render_frame (waited r),
    render_loop_endless rounds (render_frame p (waited r)).1,
  )

  -- Once `stopMediaCodec` is over, the output thread's next round ends its loop, and asks nothing more
  -- of the decoder.
  pub output_loop-stop_media_codec :
      (rounds : ℕ) (r : Runtime)
      → let r' = (stop_media_codec p r).1 in output_loop (suc rounds) p r' ≡ (returned tt, r')
  unfolding output_loop stop_media_codec
  output_loop-stop_media_codec rounds r = ground arith
