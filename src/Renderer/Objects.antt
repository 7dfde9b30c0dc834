-- ===== src/Renderer/Objects.antt =====
-- Which GL objects `OesRenderer` still owes a deletion after a history.
use grpc_jni_client.Prelude.{
  ℕ, ◌+◌, ◌-◌, ◌≡◌, ◌⊎◌, true, false, [], ◌∷◌, ℤ, pos, is_zero, arith, if◌then◌else◌,
}
use grpc_jni_client.Platform.{
  create_shader, delete_shader, create_program, delete_program, Call, gl, Trace, Platform,
}
use grpc_jni_client.Renderer.{
  OesRenderer, gl_vertex_shader, gl_fragment_shader, compile_shader, init_shader,
}

pub record Owned : Type 0 where
  pub shaders : ℕ
  pub programs : ℕ

abbrev pub one_more : ℤ → ℕ → ℕ
one_more r n = if is_zero r then n else n + 1

abbrev pub one_less : ℤ → ℕ → ℕ
one_less r n = if is_zero r then n else n - 1

abbrev pub own : Call → ℤ → Owned → Owned
own (gl (create_shader _)) r o = record o { shaders = one_more r o.shaders }
own (gl (delete_shader x)) r o = record o { shaders = one_less x o.shaders }
own (gl create_program) r o = record o { programs = one_more r o.programs }
own (gl (delete_program x)) r o = record o { programs = one_less x o.programs }
own _ r o = o

abbrev pub owned : Platform → Trace → Owned
owned p [] = record { shaders = 0; programs = 0 }
owned p (c ∷ tr) = own c (p.answer tr c) (owned p tr)

module _ (p : Platform) where
  -- A compilation owes a deletion exactly if it returns a shader.
  pub owned-compile_shader :
      (type : ℕ) (tr : Trace)
      → let (shader, tr') = compile_shader type p tr in
        owned p tr' ≡ record (owned p tr) { shaders = one_more shader (owned p tr).shaders }
  unfolding compile_shader
  owned-compile_shader type tr = ground arith

  module _ (self : OesRenderer) (tr : Trace) where
    -- A successful `init` owes one deletion, that of the program which it stores, and none of a
    -- shader.
    pub owned-init_shader :
        (init_shader self p tr).0.0 ≡ true
        → let ((ok, r), tr') = init_shader self p tr in
          owned p tr' ≡ record (owned p tr) { programs = one_more r.program (owned p tr).programs }
    unfolding init_shader
    owned-init_shader h =
        let (vs, tr₁) = compile_shader gl_vertex_shader p tr in
        ground (
          arith,
          owned-compile_shader gl_vertex_shader tr,
          owned-compile_shader gl_fragment_shader tr₁,
        )

    -- A failed `init` owes no deletion of a program, and the program that it stores is the old one or
    -- none.
    pub owned-init_shader_failed :
        (init_shader self p tr).0.0 ≡ false
        → let ((ok, r), tr') = init_shader self p tr in
          ((owned p tr').programs ≡ (owned p tr).programs)
          × ((r.program ≡ self.program) ⊎ (r.program ≡ pos 0))
    unfolding init_shader
    owned-init_shader_failed h =
        let (vs, tr₁) = compile_shader gl_vertex_shader p tr in
        ground (
          arith,
          owned-compile_shader gl_vertex_shader tr,
          owned-compile_shader gl_fragment_shader tr₁,
        )
