-- ===== src/Runtime/Screen.antt =====
-- The video thread of CarplayRpcRuntime.cpp: `initEGL`, `createOESTexture`, `screenLooper`, the
-- hand-over of a window by `surfaceAvailable`, and `outputLoop` on the decoder's side. `rounds` bounds
-- the loops. `chosen_config` is what `eglChooseConfig` writes.
pub mod Frames
pub mod Outputs
pub mod Loop
pub mod Threads
pub mod Signal
pub mod Handover
mod Examples
use grpc_jni_client.Prelude.{
  ℕ, ℤ, zero, suc, pos, negsuc, Bool, true, false, is_zero, if◌then◌else◌,
}
use grpc_jni_client.Platform.{
  Outcome, returned, looping, get_display, initialize_display, choose_config, chosen_config,
  create_context, create_pbuffer_surface, create_window_surface, make_current, destroy_surface,
  swap_buffers, egl, gen_textures, bind_texture, tex_parameteri, gl, wait_frame_ms, notify_frame,
  sleep_ms, os, update_tex_image, get_transform_matrix, window_from_surface, window_get_width,
  window_get_height, window_acquire, window, dequeue_output_buffer, release_output_buffer,
  get_output_format, codec, pure, ask, tell, ◌>>=◌, ◌>>◌, gets, modify,
}
use grpc_jni_client.Jni.{with_env_over}
use grpc_jni_client.Renderer
use grpc_jni_client.Renderer.{OesRenderer}
use grpc_jni_client.Runtime.State.{started, Runtime, Method, on_trace}
use grpc_jni_client.Runtime.Codec.{at_least, init_media_codec, notify_screen_available}

unfoldable pub make_surface : ℤ → ℤ → ℤ → Method Bool
make_surface display config context = do
  surface ← on_trace (ask (egl (create_pbuffer_surface display config)))
  modify (λ r. record r { surface = surface })
  if is_zero surface then pure false else do
    current ← on_trace (ask (egl (make_current display surface context)))
    if is_zero current then pure false else pure true

unfoldable pub make_context : ℤ → ℤ → Method Bool
make_context display config = do
  modify (λ r. record r { config = config })
  context ← on_trace (ask (egl (create_context display config)))
  modify (λ r. record r { context = context })
  if is_zero context then pure false else make_surface display config context

unfoldable pub open_display : ℤ → Method Bool
open_display display = do
  initialized ← on_trace (ask (egl (initialize_display display)))
  if is_zero initialized then pure false else do
    chosen ← on_trace (ask (egl (choose_config display)))
    config ← on_trace (ask (egl (chosen_config display)))
    if is_zero chosen then pure false else make_context display config

unfoldable pub init_egl : Method Bool
init_egl = do
  display ← on_trace (ask (egl get_display))
  modify (λ r. record r { display = display })
  if is_zero display then pure false else open_display display

unfoldable pub create_oes_texture : Method (Unit {0})
create_oes_texture = do
  texture ← on_trace (ask (gl gen_textures))
  modify (λ r. record r { oes_texture = texture })
  on_trace (tell (gl (bind_texture texture)))
  on_trace (tell (gl (tex_parameteri texture)))
  on_trace (tell (gl (tex_parameteri texture)))
  on_trace (tell (gl (tex_parameteri texture)))
  on_trace (tell (gl (tex_parameteri texture)))

-- The newest image of the decoder, if there is a surface texture.
unfoldable pub update_image : Method (Unit {0})
update_image = do
  surface_texture ← gets (λ r. r.surface_texture)
  if is_zero surface_texture then pure tt else do
    updated ← on_trace (ask (window (update_tex_image surface_texture)))
    if is_zero updated
        then on_trace (tell (window (get_transform_matrix surface_texture)))
        else pure tt

drop_surface : Method (Unit {0})
drop_surface = do
  display ← gets (λ r. r.display)
  attached_surface ← gets (λ r. r.attached_surface)
  if is_zero attached_surface
      then pure tt
      else on_trace (tell (egl (destroy_surface display attached_surface)))

-- A window that was handed over replaces the surface.
unfoldable pub attach_window : Method (Unit {0})
unfolding drop_surface
attach_window = do
  updated ← gets (λ r. r.attached_window_updated)
  if updated
      then (do
        drop_surface
        display ← gets (λ r. r.display)
        config ← gets (λ r. r.config)
        context ← gets (λ r. r.context)
        native ← gets (λ r. r.attached_window)
        surface ← on_trace (ask (egl (create_window_surface display config native)))
        modify (λ r. record r { attached_surface = surface })
        on_trace (tell (egl (make_current display surface context)))
        modify (λ r. record r { attached_window_updated = false }))
      else pure tt

unfoldable pub draw_frame : Method (Unit {0})
draw_frame = do
  native ← gets (λ r. r.attached_window)
  if is_zero native then pure tt else do
    renderer ← gets (λ r. r.oes_renderer)
    texture ← gets (λ r. r.oes_texture)
    width ← gets (λ r. r.attached_window_width)
    height ← gets (λ r. r.attached_window_height)
    on_trace (Renderer.draw renderer texture width height)
    display ← gets (λ r. r.display)
    attached_surface ← gets (λ r. r.attached_surface)
    on_trace (tell (egl (swap_buffers display attached_surface)))

-- One round of `screenLooper`, from the wait on. The wait ends by a frame or after 33 ms, and the
-- code goes on in both cases.
unfoldable pub render_frame : Method (Unit {0})
render_frame = do
  modify (λ r. record r { frame_available = false })
  update_image
  attach_window
  draw_frame

unfoldable pub render_loop : ℕ → Method (Outcome (Unit {0}))
render_loop zero = pure looping
render_loop (suc rounds) = do
  quit ← gets (λ r. r.render_quit)
  let rest = (do render_frame; render_loop rounds)
  if quit then pure (returned tt) else do
    on_trace (tell (os (wait_frame_ms 33)))
    quit_now ← gets (λ r. r.render_quit)
    if quit_now then pure (returned tt) else rest

unfoldable pub init_renderer : Method (Unit {0})
init_renderer p r =
    let ((ok, renderer), tr) = Renderer.init r.oes_renderer p r.trace in
    (tt, record r { oes_renderer = renderer; trace = tr })

-- What `screenLooper` does in front of its loop. None of the results is looked at.
unfoldable pub prepare_screen : Method (Unit {0})
unfolding init_renderer
prepare_screen = do
  init_egl
  create_oes_texture
  init_renderer
  init_media_codec
  modify (λ r. record r { render_quit = false })

unfoldable pub screen_looper : ℕ → Method (Outcome (Unit {0}))
screen_looper rounds = do prepare_screen; render_loop rounds

unfoldable pub hand_over : ℤ → Method (Unit {0})
hand_over surface = if is_zero surface then pure tt else do
  native ← on_trace (ask (window (window_from_surface surface)))
  width ← on_trace (ask (window (window_get_width native)))
  height ← on_trace (ask (window (window_get_height native)))
  on_trace (tell (window (window_acquire native)))
  modify (λ r. record r {
    attached_window = native;
    attached_window_width = width;
    attached_window_height = height;
  })

unfoldable pub surface_available : ℤ → Method (Unit {0})
unfolding hand_over
surface_available surface = do
  with_env_over on_trace (hand_over surface)
  modify (λ r. record r { attached_window_updated = true })

-- The branches of `outputLoop` on the index that the decoder answers: a buffer, a changed format
-- (-2), or nothing yet (-1).
unfoldable pub handle_output : ℤ → Method (Unit {0})
handle_output (pos index) = do
  media_codec ← gets (λ r. r.media_codec)
  released ← on_trace (ask (codec (release_output_buffer media_codec (pos index))))
  if is_zero released
      then (do modify (λ r. record r { frame_available = true }); on_trace (tell (os notify_frame)))
      else pure tt
handle_output (negsuc zero) = on_trace (tell (os (sleep_ms 5)))
handle_output (negsuc (suc zero)) = do
  media_codec ← gets (λ r. r.media_codec)
  on_trace (tell (codec (get_output_format media_codec)))
  notify_screen_available
handle_output (negsuc (suc (suc n))) = pure tt

unfoldable pub output_loop : ℕ → Method (Outcome (Unit {0}))
output_loop zero = pure looping
output_loop (suc rounds) = do
  status ← gets (λ r. r.media_codec_status)
  media_codec ← gets (λ r. r.media_codec)
  let rest = (do
    index ← on_trace (ask (codec (dequeue_output_buffer media_codec 33000)))
    handle_output index
    output_loop rounds)
  if at_least status started
      then (if is_zero media_codec then pure (returned tt) else rest)
      else pure (returned tt)
