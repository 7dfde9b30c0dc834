-- ===== src/Platform.antt =====
-- What the code asks of the libraries that it is linked against: JNI, EGL, GLES, the media codec,
-- the native window, netlink sockets and the RPC transport. None of that code is here, so its
-- answers are a parameter (`Platform`), which may depend on all the calls made before. A piece of
-- the program is an action that adds its calls to a trace, newest first.
pub mod Sample
use grpc_jni_client.Prelude.{ℕ, ℤ, String, List, ◌∷◌}

-- JNIEnv and JavaVM functions.
pub data JniCall : Type 0 where
  get_env attach_current_thread detach_current_thread : JniCall
  find_class : String → JniCall
  get_object_class : ℤ → JniCall
  get_static_method_id get_method_id get_static_field_id get_field_id :
      ℤ → String → String → JniCall
  call_static_object_method call_object_method call_void_method call_static_void_method :
      ℤ → ℤ → List ℤ → JniCall
  get_static_object_field get_object_field : ℤ → ℤ → JniCall
  set_object_field : ℤ → ℤ → ℤ → JniCall
  new_global_ref delete_global_ref delete_local_ref : ℤ → JniCall
  new_string_utf : String → JniCall
  new_direct_byte_buffer : List ℕ → JniCall
  get_string_utf_chars release_string_utf_chars : ℤ → JniCall
  get_byte_array_elements release_byte_array_elements : ℤ → JniCall

-- GLES functions.
pub data GlCall : Type 0 where
  create_shader : ℕ → GlCall
  shader_source compile_shader get_compile_status delete_shader : ℤ → GlCall
  get_shader_info_log : ℤ → GlCall
  create_program : GlCall
  attach_shader : ℤ → ℤ → GlCall
  link_program get_link_status get_program_info_log delete_program use_program : ℤ → GlCall
  get_attrib_location get_uniform_location : ℤ → String → GlCall
  viewport : ℤ → ℤ → GlCall
  vertex_attrib_pointer enable_vertex_attrib_array disable_vertex_attrib_array : ℤ → GlCall
  uniform_matrix4fv uniform1i : ℤ → GlCall
  active_texture : GlCall
  gen_textures : GlCall
  bind_texture tex_parameteri : ℤ → GlCall
  draw_arrays : ℕ → GlCall

-- EGL functions.
pub data EglCall : Type 0 where
  get_display : EglCall
  initialize_display choose_config chosen_config : ℤ → EglCall
  create_context create_pbuffer_surface : ℤ → ℤ → EglCall
  create_window_surface : ℤ → ℤ → ℤ → EglCall
  make_current : ℤ → ℤ → ℤ → EglCall
  destroy_surface swap_buffers : ℤ → ℤ → EglCall
  get_current_context : EglCall

-- AMediaCodec and AMediaFormat functions.
pub data CodecCall : Type 0 where
  create_decoder : String → CodecCall
  configure : ℤ → ℕ → ℕ → ℤ → CodecCall
  start stop delete : ℤ → CodecCall
  dequeue_input_buffer dequeue_output_buffer : ℤ → ℕ → CodecCall
  get_input_buffer get_input_buffer_size : ℤ → ℤ → CodecCall
  write_input_buffer : ℤ → List ℕ → CodecCall
  queue_input_buffer : ℤ → ℤ → ℕ → ℕ → ℕ → CodecCall
  release_output_buffer : ℤ → ℤ → CodecCall
  get_output_format output_buffer_flags : ℤ → CodecCall

-- ASurfaceTexture and ANativeWindow functions.
pub data WindowCall : Type 0 where
  from_surface_texture detach_from_gl_context : ℤ → WindowCall
  attach_to_gl_context : ℤ → ℤ → WindowCall
  acquire_native_window window_acquire : ℤ → WindowCall
  window_from_surface window_get_width window_get_height : ℤ → WindowCall
  update_tex_image get_transform_matrix : ℤ → WindowCall

-- Sockets, threads and waits.
pub data OsCall : Type 0 where
  open_netlink_socket : OsCall
  bind_socket shutdown_socket close_socket recv_socket : ℤ → OsCall
  spawn_thread join_thread : OsCall
  sleep_ms wait_frame_ms : ℕ → OsCall
  notify_frame : OsCall

-- The RPC transport, which comes as a static library.
pub data RpcCall : Type 0 where
  dial_start : RpcCall
  pipe_id internal_pipe_event : ℕ → RpcCall
  call_remote : String → List ℕ → RpcCall
  pull_init : String → RpcCall
  pull_start_recv_loop pull_close : RpcCall

pub data Call : Type 0 where
  jni : JniCall → Call
  gl : GlCall → Call
  egl : EglCall → Call
  codec : CodecCall → Call
  window : WindowCall → Call
  os : OsCall → Call
  rpc : RpcCall → Call

abbrev pub Trace : Type 0
Trace = List Call

-- How the platform answers a call after a history: a number, a handle (0 is null) or a status.
pub record Platform : Type 0 where
  pub answer : Trace → Call → ℤ

-- How a piece of the program ends: it returns, it runs into undefined behaviour, as through a null
-- pointer, or it is still in its loop when the given number of rounds is over.
pub data Outcome (A : Type 0) : Type 0 where
  returned : A → Outcome A
  faulted looping : Outcome A

abbrev pub outcome_map : {A B : Type 0} → (A → B) → Outcome A → Outcome B
outcome_map f (returned a) = returned (f a)
outcome_map f faulted = faulted
outcome_map f looping = looping

-- An action over a state `S`.
abbrev pub Io : Type 0 → Type 0 → Type 0
Io S A = Platform → S → A × S

abbrev pub Action : Type 0 → Type 0
Action A = Io Trace A

abbrev pub pure : {S A : Type 0} → A → Io S A
pure a p s = (a, s)

infixl 5 ◌>>=◌ ◌>>◌
abbrev pub ◌>>=◌ : {S A B : Type 0} → Io S A → (A → Io S B) → Io S B
◌>>=◌ m f p s = let (a, s') = m p s in f a p s'

abbrev pub ◌>>◌ : {S A B : Type 0} → Io S A → Io S B → Io S B
m >> k = m >>= λ _. k

abbrev pub ask : Call → Action ℤ
ask c p tr = (p.answer tr c, c ∷ tr)

-- A call whose answer is not looked at.
abbrev pub tell : Call → Action (Unit {0})
tell c p tr = (tt, c ∷ tr)

abbrev pub gets : {S A : Type 0} → (S → A) → Io S A
gets f p s = (f s, s)

abbrev pub modify : {S : Type 0} → (S → S) → Io S (Unit {0})
modify f p s = (tt, f s)
