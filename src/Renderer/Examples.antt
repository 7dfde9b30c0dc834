-- ===== src/Renderer/Examples.antt =====
-- The theorems on `OesRenderer` at concrete inputs.
use grpc_jni_client.Prelude.{◌≡◌, refl, true, false, int_eq, pos, [], ◌∷◌}
use grpc_jni_client.Platform.{Platform}
use grpc_jni_client.Platform.Sample.{sample}
use grpc_jni_client.Renderer.{new_renderer, compile_shader, init_shader, draw, OesRenderer}
use grpc_jni_client.Renderer.Objects.{owned, owned-init_shader}
use grpc_jni_client.Renderer.Drawing.{Context, context, context-draw}

owned-init_shader_example :
    owned sample (init_shader new_renderer sample []).1 ≡ record { shaders = 0; programs = 1 }
unfolding init_shader compile_shader
owned-init_shader_example = owned-init_shader sample new_renderer [] refl

-- On a platform that answers 0 to every call no shader compiles.
abbrev nothing : Platform
nothing = record { answer = λ tr c. pos 0 }

abbrev blank : Context
blank = record {
  now = record { program = pos 0; texture = pos 0; view = (pos 0, pos 0); enabled = false };
  drawn = [];
}

abbrev ready : OesRenderer
ready = record {
  program = pos 7;
  a_pos = pos 0;
  a_tex = pos 1;
  u_tex_matrix = pos 2;
  u_sampler = pos 3;
}

-- The second array is watched.
context-draw_example :
    context (pos 1) blank (draw ready (pos 5) (pos 1872) (pos 756) sample []).1 ≡ record {
      now = record {
        program = pos 7;
        texture = pos 0;
        view = (pos 1872, pos 756);
        enabled = false;
      };
      drawn =
          record { program = pos 7; texture = pos 5; view = (pos 1872, pos 756); enabled = true }
          ∷ [];
    }
unfolding int_eq
context-draw_example = context-draw (pos 1) ready (pos 5) (pos 1872) (pos 756) blank sample []
