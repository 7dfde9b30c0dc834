-- ===== src/Renderer.antt =====
-- app/src/main/cpp/rpc/source/OesRenderer.cpp and include/OesRenderer.h: the GLES program that draws
-- the decoder's external texture. Log texts and the shader sources are left out; a GL name is a
-- handle, 0 when there is none.
pub mod Objects
pub mod Drawing
mod Examples
use grpc_jni_client.Prelude.{
  ℕ, ℤ, pos, negsuc, String, Bool, true, false, is_zero, ◌||◌, ◌∷◌, if◌then◌else◌,
}
use grpc_jni_client.Platform.{
  GlCall, create_shader, shader_source, get_compile_status, delete_shader, get_shader_info_log,
  create_program, attach_shader, link_program, get_link_status, get_program_info_log,
  delete_program, use_program, get_attrib_location, get_uniform_location, viewport,
  vertex_attrib_pointer, enable_vertex_attrib_array, disable_vertex_attrib_array, uniform_matrix4fv,
  uniform1i, active_texture, bind_texture, draw_arrays, gl, Action, pure, ask, tell, ◌>>=◌, ◌>>◌,
}

pub record OesRenderer : Type 0 where
  pub program : ℤ
  pub a_pos : ℤ
  pub a_tex : ℤ
  pub u_tex_matrix : ℤ
  pub u_sampler : ℤ

unfoldable pub new_renderer : OesRenderer
new_renderer = record {
  program = pos 0;
  a_pos = negsuc 0;
  a_tex = negsuc 0;
  u_tex_matrix = negsuc 0;
  u_sampler = negsuc 0;
}

abbrev pub gl_vertex_shader : ℕ
gl_vertex_shader = 0x8B31

abbrev pub gl_fragment_shader : ℕ
gl_fragment_shader = 0x8B30

unfoldable pub compile_shader : ℕ → Action ℤ
compile_shader type = do
  shader ← ask (gl (create_shader type))
  tell (gl (shader_source shader))
  tell (gl (GlCall.compile_shader shader))
  compiled ← ask (gl (get_compile_status shader))
  if is_zero compiled
      then (do
        tell (gl (get_shader_info_log shader))
        tell (gl (delete_shader shader))
        pure (pos 0))
      else pure shader

unfoldable pub init_shader : OesRenderer → Action (Bool × OesRenderer)
init_shader self = do
  vs ← compile_shader gl_vertex_shader
  fs ← compile_shader gl_fragment_shader
  if is_zero vs || is_zero fs then pure (false, self) else do
    program ← ask (gl create_program)
    tell (gl (attach_shader program vs))
    tell (gl (attach_shader program fs))
    tell (gl (link_program program))
    linked ← ask (gl (get_link_status program))
    if is_zero linked
        then (do
          tell (gl (get_program_info_log program))
          tell (gl (delete_program program))
          pure (false, record self { program = pos 0 }))
        else do
          tell (gl (delete_shader vs))
          tell (gl (delete_shader fs))
          a_pos ← ask (gl (get_attrib_location program "aPosition"))
          a_tex ← ask (gl (get_attrib_location program "aTexCoord"))
          u_tex_matrix ← ask (gl (get_uniform_location program "uTexMatrix"))
          u_sampler ← ask (gl (get_uniform_location program "sTexture"))
          pure (
            true,
            record {
              program = program;
              a_pos = a_pos;
              a_tex = a_tex;
              u_tex_matrix = u_tex_matrix;
              u_sampler = u_sampler;
            },
          )

unfoldable pub init : OesRenderer → Action (Bool × OesRenderer)
init self = init_shader self

unfoldable pub destroy : OesRenderer → Action OesRenderer
destroy self =
    if is_zero self.program
    then pure self
    else do tell (gl (delete_program self.program)); pure (record self { program = pos 0 })

unfoldable pub draw : OesRenderer → ℤ → ℤ → ℤ → Action (Unit {0})
draw self oes_tex_id width height = if is_zero self.program then pure tt else do
  tell (gl (viewport width height))
  tell (gl (use_program self.program))
  tell (gl (vertex_attrib_pointer self.a_pos))
  tell (gl (enable_vertex_attrib_array self.a_pos))
  tell (gl (vertex_attrib_pointer self.a_tex))
  tell (gl (enable_vertex_attrib_array self.a_tex))
  tell (gl (uniform_matrix4fv self.u_tex_matrix))
  tell (gl active_texture)
  tell (gl (bind_texture oes_tex_id))
  tell (gl (uniform1i self.u_sampler))
  tell (gl (draw_arrays 4))
  tell (gl (disable_vertex_attrib_array self.a_pos))
  tell (gl (disable_vertex_attrib_array self.a_tex))
  tell (gl (bind_texture (pos 0)))
