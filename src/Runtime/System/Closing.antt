-- ===== src/Runtime/System/Closing.antt =====
-- What the destructor of the runtime leaves behind, after whatever has happened before.
use grpc_jni_client.Prelude.{
  ℤ, ◌∙◌, ap, refl, ◌≡◌, arith, Bool, if◌then◌else◌, List, Bool-cases, inl, inr, is_zero, false,
}
use grpc_jni_client.Platform.{Platform}
use grpc_jni_client.Messages.{Flatbuffers}
use grpc_jni_client.Jni.Rules.{with_env-Preserves}
use grpc_jni_client.Runtime.Codec.Live.{HeldAt, HeldAt-jni}
use grpc_jni_client.Runtime.State.{Runtime, Garbage}
use grpc_jni_client.Runtime.Listener.{shutdown_pull_listener}
use grpc_jni_client.Runtime.Listener.Lifecycle.{listeners}
use grpc_jni_client.Runtime.Screen.Frames.{OneSurface, surfaces}
use grpc_jni_client.Runtime.Session.{destroy_runtime}
use grpc_jni_client.Runtime.System.{Event, run, boot}
use grpc_jni_client.Runtime.System.Quiet.{Quiet, QuietTrace, Quiet-refl, QuietTrace-refl}
use grpc_jni_client.Runtime.System.Invariant.{Accounts, Quiet-Accounts, run-boot_consistent}

module _ (p : Platform) where
  shutdown_pull_listener-Accounts :
      (r : Runtime)
      → Accounts p r
      → let closed = (shutdown_pull_listener p r).1 in
        Accounts p closed × (closed.pull_listener ≡ false)
  unfolding shutdown_pull_listener
  shutdown_pull_listener-Accounts r v = ground arith

  delete-Quiet : (r : Runtime) → Quiet p (shutdown_pull_listener p r).1 (destroy_runtime p r).1
  unfolding destroy_runtime
  delete-Quiet r =
      let closed = (shutdown_pull_listener p r).1 in
      elim (Bool-cases (is_zero closed.java_object)) [
        | inl e ↦ rw e (Quiet-refl p closed)
        | inr e ↦ rw e (record {
          dial = refl;
          listener = refl;
          surface = refl;
          history =
              with_env-Preserves p (QuietTrace p closed.trace) (λ c h q. ground arith) _
                (λ h q. ground arith) _ (QuietTrace-refl p closed.trace);
          decoder =
              with_env-Preserves p (HeldAt p closed.media_codec) (HeldAt-jni p closed.media_codec) _
                (λ h q. q) _;
        })
      ]

  shutdown_pull_listener-surface :
      (r : Runtime) → (shutdown_pull_listener p r).1.attached_surface ≡ r.attached_surface
  unfolding shutdown_pull_listener
  shutdown_pull_listener-surface r = ground arith

  destroy_runtime-closes :
      (r : Runtime)
      → Accounts p r
      → let destroyed = (destroy_runtime p r).1 in
        (listeners p destroyed.trace ≡ 0)
        × OneSurface p destroyed
        × (destroyed.attached_surface ≡ r.attached_surface)
  destroy_runtime-closes r v =
      let (w, e) = shutdown_pull_listener-Accounts r v in
      let q = delete-Quiet r in
      let same = q.surface ∙ shutdown_pull_listener-surface r in
      (
        q.history.opened ∙ w.one_listener ∙ ap (λ (b : Bool). if b then 1 else 0) e,
        (Quiet-Accounts p q w).one_surface,
        same,
      )

  -- Whatever has happened since the load of the library, the destructor of the runtime closes the
  -- listener of the video stream, so that none is open; the window's surface, if the runtime has one,
  -- stays open.
  pub run-destroy_runtime :
      (fb : Flatbuffers) (junk : Garbage) (jvm thiz : ℤ) (es : List Event)
      → let r = (run fb es p (boot junk jvm thiz p)).1 in
        let destroyed = (destroy_runtime p r).1 in
        (listeners p destroyed.trace ≡ 0)
        × (surfaces p destroyed.trace ≡ (if is_zero r.attached_surface then 0 else 1))
  run-destroy_runtime fb junk jvm thiz es =
      let r = (run fb es p (boot junk jvm thiz p)).1 in
      let (none_open, one, same) =
        destroy_runtime-closes r (run-boot_consistent p fb junk jvm thiz es).0 in
      (none_open, one ∙ ap (λ (s : ℤ). if is_zero s then 0 else 1) same)
