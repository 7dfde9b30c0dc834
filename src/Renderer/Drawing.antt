-- ===== src/Renderer/Drawing.antt =====
-- What one `draw` leaves in the GL context.
use grpc_jni_client.Prelude.{
  ◌≡◌, Bool, false, not, ◌&&◌, ◌||◌, int_eq, List, [], ◌∷◌, ℤ, pos, is_zero, arith, if◌then◌else◌,
}
use grpc_jni_client.Platform.{
  enable_vertex_attrib_array, disable_vertex_attrib_array, vertex_attrib_pointer, bind_texture,
  draw_arrays, use_program, viewport, uniform_matrix4fv, active_texture, uniform1i, Call, gl, Trace,
  Platform,
}
use grpc_jni_client.Renderer.{OesRenderer, draw}

-- What a draw call finds: the program, the external texture, the viewport, and whether the array that is
-- watched is enabled.
pub record Picture : Type 0 where
  pub program : ℤ
  pub texture : ℤ
  pub view : ℤ × ℤ
  pub enabled : Bool

-- The same between two calls, with the pictures drawn so far, the newest first.
pub record Context : Type 0 where
  pub now : Picture
  pub drawn : List Picture

-- `watched` is the index of one vertex array.
module _ (watched : ℤ) where
  abbrev pub context_step : Call → Context → Context
  context_step (gl (enable_vertex_attrib_array j)) c = record c {
    now = record c.now { enabled = int_eq watched j || c.now.enabled };
  }
  context_step (gl (disable_vertex_attrib_array j)) c = record c {
    now = record c.now { enabled = not (int_eq watched j) && c.now.enabled };
  }
  context_step (gl (bind_texture t)) c = record c { now = record c.now { texture = t } }
  context_step (gl (use_program x)) c = record c { now = record c.now { program = x } }
  context_step (gl (viewport w h)) c = record c { now = record c.now { view = (w, h) } }
  context_step (gl (draw_arrays _)) c = record c { drawn = c.now ∷ c.drawn }
  context_step _ c = c

  abbrev pub context : Context → Trace → Context
  context start [] = start
  context start (c ∷ tr) = context_step c (context start tr)

  -- Without a program `draw` leaves the context alone. With one it draws exactly once, with its program,
  -- from the given texture, at the given size and with both of its arrays enabled, and afterwards both are
  -- disabled, no external texture is bound, and every other array, whichever one watches, is as it was.
  pub context-draw :
      (self : OesRenderer) (tex width height : ℤ) (start : Context) (p : Platform) (tr : Trace)
      → let before = context start tr in
        context start (draw self tex width height p tr).1 ≡ (
          if is_zero self.program then before else record {
            now = record {
              program = self.program;
              texture = pos 0;
              view = (width, height);
              enabled =
                  if int_eq watched self.a_pos || int_eq watched self.a_tex
                  then false
                  else before.now.enabled;
            };
            drawn =
                record {
                  program = self.program;
                  texture = tex;
                  view = (width, height);
                  enabled =
                      int_eq watched self.a_pos || int_eq watched self.a_tex || before.now.enabled;
                }
                ∷ before.drawn;
          })
  unfolding draw
  context-draw self tex width height start p tr = ground arith

-- The calls of one `draw` with a program, the newest first.
abbrev pub draw_calls : OesRenderer → ℤ → ℤ → ℤ → Trace → Trace
draw_calls self tex width height tr =
    gl (bind_texture (pos 0))
    ∷ gl (disable_vertex_attrib_array self.a_tex)
    ∷ gl (disable_vertex_attrib_array self.a_pos)
    ∷ gl (draw_arrays 4)
    ∷ gl (uniform1i self.u_sampler)
    ∷ gl (bind_texture tex)
    ∷ gl active_texture
    ∷ gl (uniform_matrix4fv self.u_tex_matrix)
    ∷ gl (enable_vertex_attrib_array self.a_tex)
    ∷ gl (vertex_attrib_pointer self.a_tex)
    ∷ gl (enable_vertex_attrib_array self.a_pos)
    ∷ gl (vertex_attrib_pointer self.a_pos)
    ∷ gl (use_program self.program)
    ∷ gl (viewport width height)
    ∷ tr

-- With a program `draw` makes these calls.
pub draw_makes_calls :
    (self : OesRenderer) (tex width height : ℤ) (p : Platform) (tr : Trace)
    → is_zero self.program ≡ false
    → draw self tex width height p tr ≡ (tt, draw_calls self tex width height tr)
unfolding draw
draw_makes_calls self tex width height p tr z = simp z
