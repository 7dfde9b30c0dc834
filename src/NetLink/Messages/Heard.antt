-- ===== src/NetLink/Messages/Heard.antt =====
-- What the Java side hears of a monitor, read off the history of calls.
use mathlib.Core.List.{append_assoc, append-nil}
use grpc_jni_client.Prelude.{
  ℕ, suc, ℤ, ◌≡◌, ◌∙◌, refl, sym, ap, true, ◌&&◌, String, str_eq, int_eq, int_eq_refl, is_zero, pos,
  List, [], ◌∷◌, ◌++◌, arith, Bool-cases, inl, inr, if◌then◌else◌,
}
use grpc_jni_client.Platform.{
  Platform, Trace, Call, JniCall, new_string_utf, get_method_id, get_env, attach_current_thread,
  jni, recv_socket, os,
}
use grpc_jni_client.Jni.{with_env, with_env_over, call_void_method}
use grpc_jni_client.NetLink.Messages.{report, pass_address}
use grpc_jni_client.NetLink.Messages.Delivery.{Announcement, deliver}

-- The strings that were made with their handles, and the method id that was looked up with its name, the
-- newest first, and what the object `obj` has been told by `onIpv6Ready`, the first first.
pub record Ear : Type 0 where
  pub strings : List (String × ℤ)
  pub method : String
  pub method_id : ℤ
  pub heard : List Announcement

-- The two strings that were made last, if the arguments are their handles.
abbrev two_strings : List (String × ℤ) → List ℤ → List Announcement
two_strings ((addr, h) ∷ (iface, g) ∷ _) (a ∷ b ∷ []) =
    if int_eq a g && int_eq b h then (iface, addr) ∷ [] else []
two_strings _ _ = []

abbrev ear_step : ℤ → Call → ℤ → Ear → Ear
ear_step obj (jni (new_string_utf s)) given e = record e { strings = (s, given) ∷ e.strings }
ear_step obj (jni (get_method_id _ name _)) given e = record e { method = name; method_id = given }
ear_step obj (jni (JniCall.call_void_method o m args)) given e = record e {
  heard =
      if int_eq o obj && int_eq m e.method_id && str_eq e.method "onIpv6Ready"
      then e.heard ++ two_strings e.strings args
      else e.heard;
}
ear_step obj _ given e = e

abbrev ear : ℤ → Platform → Trace → Ear
ear obj p [] = record { strings = []; method = ""; method_id = pos 0; heard = [] }
ear obj p (c ∷ tr) = ear_step obj c (p.answer tr c) (ear obj p tr)

-- What the object has been told.
abbrev pub heard : ℤ → Platform → Trace → List Announcement
heard obj p tr = (ear obj p tr).heard

-- How often `recv` was called.
abbrev pub receives : Trace → ℕ
receives [] = 0
receives (os (recv_socket _) ∷ tr) = suc (receives tr)
receives (_ ∷ tr) = receives tr

-- A thread that is not attached can be.
abbrev pub Attaches : Platform → Type 0
Attaches p = (tr : Trace) → is_zero (p.answer tr (jni attach_current_thread)) ≡ true

module _ (obj : ℤ) (p : Platform) (attaches : Attaches p) where
  report-heard :
      (iface addr : String) (tr : Trace)
      → heard obj p (report obj iface addr p tr).1 ≡ heard obj p tr ++ (iface, addr) ∷ []
  unfolding report pass_address with_env with_env_over call_void_method
  report-heard iface addr tr = elim (Bool-cases (is_zero (p.answer tr (jni get_env)))) [
    | inl z ↦ rw (z, int_eq_refl, int_eq_refl, int_eq_refl, int_eq_refl) refl
    | inr z ↦
        rw (z, attaches (jni get_env ∷ tr), int_eq_refl, int_eq_refl, int_eq_refl, int_eq_refl) refl
  ]

  report-receives :
      (iface addr : String) (tr : Trace) → receives (report obj iface addr p tr).1 ≡ receives tr
  unfolding report pass_address with_env with_env_over call_void_method
  report-receives iface addr tr = ground arith

  pub deliver-heard :
      (xs : List Announcement) (tr : Trace)
      → heard obj p (deliver obj xs p tr).1 ≡ heard obj p tr ++ xs
  unfolding deliver
  deliver-heard [] tr = sym (append-nil (heard obj p tr))
  deliver-heard ((iface, addr) ∷ xs) tr =
      deliver-heard xs _
      ∙ ap (λ l. l ++ xs) (report-heard iface addr tr)
      ∙ append_assoc (heard obj p tr) ((iface, addr) ∷ []) xs

  pub deliver-receives :
      (xs : List Announcement) (tr : Trace) → receives (deliver obj xs p tr).1 ≡ receives tr
  unfolding deliver
  deliver-receives [] tr = refl
  deliver-receives ((iface, addr) ∷ xs) tr = deliver-receives xs _ ∙ report-receives iface addr tr
