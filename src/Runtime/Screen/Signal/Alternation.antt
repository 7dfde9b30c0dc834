-- ===== src/Runtime/Screen/Signal/Alternation.antt =====
-- Rounds of `outputLoop` and of `screenLooper` by turns: what the mutex and the flag are for, for the
-- functions.
use grpc_jni_client.Prelude.{ℕ, ◌≡◌, refl, sym, ◌∙◌, true, false, List, [], ◌∷◌, is_zero}
use grpc_jni_client.Platform.{Platform}
use grpc_jni_client.Runtime.State.{Runtime}
use grpc_jni_client.Runtime.Screen.{output_loop, render_loop}
use grpc_jni_client.Runtime.Screen.Signal.{Signal, quiet}
use grpc_jni_client.Runtime.Screen.Signal.Safety.{waiting_announced}
use grpc_jni_client.Runtime.Screen.Signal.Simulation.{
  frame_waits, Views, Rests, Returns, stays, Returns-trans, output_loop-Returns,
}
use grpc_jni_client.Runtime.Screen.Signal.Rounds.{render_loop-Returns}

-- What a thread does while the other one stands still.
pub data Rounds : Type 0 where
  of_output : ℕ → Rounds
  of_video : ℕ → Rounds

abbrev pub run_rounds : Rounds → Platform → Runtime → Runtime
run_rounds (of_output n) p r = (output_loop n p r).1
run_rounds (of_video n) p r = (render_loop n p r).1

unfoldable pub run_all : List Rounds → Platform → Runtime → Runtime
run_all [] p r = r
run_all (rounds ∷ rest) p r = run_all rest p (run_rounds rounds p r)

module _ (p : Platform) where
  run_rounds-Returns :
      (rounds : Rounds) (r : Runtime) (t : Signal)
      → Rests t
      → Views p t r
      → Returns p t (run_rounds rounds p r)
  run_rounds-Returns (of_output n) r t h v = output_loop-Returns p n r t h v
  run_rounds-Returns (of_video n) r t h v = render_loop-Returns p n r t h v

  run_all-Returns :
      (all : List Rounds) (r : Runtime) (t : Signal)
      → Rests t
      → Views p t r
      → Returns p t (run_all all p r)
  unfolding run_all
  run_all-Returns [] r t h v = stays t r h v
  run_all-Returns (rounds ∷ rest) r t h v =
      let one = run_rounds-Returns rounds r t h v in
      Returns-trans one
        (run_all-Returns rest (run_rounds rounds p r) one.arrived one.rest one.views)

  -- From a runtime with a surface texture and no frame on its way: after any rounds of `outputLoop` and of
  -- `screenLooper`, whatever the decoder answers, a frame that has been released to the surface texture and
  -- not been asked for since has its flag set, so that the next round does not wait before it takes it.
  pub run_all-announced :
      (all : List Rounds) (r : Runtime)
      → is_zero r.surface_texture ≡ false
      → r.frame_available ≡ false
      → frame_waits p r.trace ≡ false
      → frame_waits p (run_all all p r).trace ≡ true
      → (run_all all p r).frame_available ≡ true
  run_all-announced all r z flag none_waits waits =
      let quiet_view : Views p quiet r = record {
        flag = sym flag;
        pending = sym none_waits;
        texture = z;
      } in
      let between : Rests quiet = record { output = refl; video = refl; mutex = refl } in
      let after = run_all-Returns all r quiet between quiet_view in
      sym after.views.flag
      ∙ waiting_announced after.path after.rest.output after.rest.video
          (after.views.pending ∙ waits)
