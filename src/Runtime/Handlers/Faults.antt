-- ===== src/Runtime/Handlers/Faults.antt =====
-- Which requests make a handler dereference a null pointer.
use grpc_jni_client.Prelude.{
  subst, ℕ, ℤ, ◌≡◌, ◌≢◌, refl, List, [], ◌∷◌, Bool, true, Option, none, some, is_zero, arith, inl,
  inr, Bool-cases, Option-cases, zero, suc,
}
use grpc_jni_client.Platform.{
  Outcome, returned, faulted, looping, outcome_map, get_env, attach_current_thread, jni, Platform,
  Trace, Action,
}
use grpc_jni_client.Jni.{with_env_fallible, leave_env}
use grpc_jni_client.Messages.{Flatbuffers, Message, CarplayAvailability, StringRequest}
use grpc_jni_client.Dial.{handler_func}
use grpc_jni_client.Runtime.State.{
  Handler, handle_send_iap2_detect_packet, handle_carplay_available_packet,
  handle_disable_bluetooth, handle_screen_stream_start, handle_screen_stream_stop,
  handle_screen_stream_configuration, request, response, Runtime, Method,
}
use grpc_jni_client.Runtime.Codec.{queue_input_buffer}
use grpc_jni_client.Runtime.Listener.{retry}
use grpc_jni_client.Runtime.Handlers.{
  run_handler, codec_config_flag, pass_availability, pass_address, send_payload,
  finish_configuration, send_iap2_detect_packet, screen_stream_configuration,
}

abbrev Present : {A : Type 0} → Option A → Type 0
Present none = ⊥
Present (some a) = Unit

-- The fields that a handler reads are in the table.
abbrev pub Complete : (h : Handler) → Message (request h) → Type 0
Complete handle_send_iap2_detect_packet req = Present req.payload
Complete handle_carplay_available_packet req =
    Present req.usb_transport_identifier × Present req.bluetooth_transport_identifier
Complete handle_disable_bluetooth req = Present req.value
Complete handle_screen_stream_start req = Unit
Complete handle_screen_stream_stop req = Unit
Complete handle_screen_stream_configuration req = Present req.value

abbrev Sound : {A : Type 0} → Outcome A → Type 0
Sound faulted = ⊥
Sound (returned a) = Unit
Sound looping = Unit

module _ (p : Platform) where
  leave-Sound :
      (ended : Outcome (Unit {0})) (tr : Trace) → Sound ended → Sound (leave_env ended p tr).0
  unfolding leave_env
  leave-Sound (returned _) tr s = tt
  leave-Sound faulted tr s = s
  leave-Sound looping tr s = tt

  with_env_fallible-Sound :
      (fn : Action (Outcome (Unit {0})))
      → ((tr : Trace) → Sound (fn p tr).0)
      → (tr : Trace) → Sound (with_env_fallible fn p tr).0
  unfolding with_env_fallible
  with_env_fallible-Sound fn s tr = elim (Bool-cases (is_zero (p.answer tr (jni get_env)))) [
    | inl z ↦ rw z (s _)
    | inr z ↦
        rw z
          (elim (Bool-cases (is_zero (p.answer (jni get_env ∷ tr) (jni attach_current_thread)))) [
            | inl y ↦ rw y (leave-Sound _ _ (s _))
            | inr y ↦ rw y tt
          ])
  ]

  map-Sound : {A B : Type 0} (f : A → B) (o : Outcome A) → Sound o → Sound (outcome_map f o)
  map-Sound f (returned a) s = tt
  map-Sound f faulted s = s
  map-Sound f looping s = tt

  retry-Sound :
      (rounds pause : ℕ) (attempt : Method Bool) (r : Runtime)
      → Sound (retry rounds pause attempt p r).0
  unfolding retry
  retry-Sound zero pause attempt r = tt
  retry-Sound (suc rounds) pause attempt r = elim (Bool-cases (attempt p r).0) [
    | inl e ↦ rw e tt
    | inr e ↦ rw e (retry-Sound rounds pause attempt _)
  ]

  finish-Sound :
      (ended : Outcome (Unit {0})) (r : Runtime)
      → Sound ended
      → Sound (finish_configuration ended p r).0
  unfolding finish_configuration
  finish-Sound (returned _) r s = tt
  finish-Sound faulted r s = s
  finish-Sound looping r s = tt

  pass_address-Sound :
      (obj : ℤ) (req : StringRequest) (tr : Trace)
      → Present req.value
      → Sound (pass_address obj req p tr).0
  unfolding pass_address
  pass_address-Sound obj req tr c = ground arith

  pass_availability-Sound :
      (obj : ℤ) (req : CarplayAvailability) (tr : Trace)
      → Present req.usb_transport_identifier
      → Present req.bluetooth_transport_identifier
      → Sound (pass_availability obj req p tr).0
  unfolding pass_availability
  pass_availability-Sound obj req tr c d = ground arith

  send_payload-Sound : (payload : List ℕ) (r : Runtime) → Sound (send_payload payload p r).0
  unfolding send_payload
  send_payload-Sound [] r = tt
  send_payload-Sound (b ∷ bs) r = tt

  handlers-Sound :
      (rounds : ℕ) (h : Handler) (req : Message (request h)) (r : Runtime)
      → Complete h req
      → Sound (run_handler rounds h req p r).0
  unfolding run_handler
  handlers-Sound rounds handle_send_iap2_detect_packet req r c = elim (Option-cases req.payload) [
    | inl e ↦ absurd (subst Present e c)
    | inr (payload, e) ↦ rw (e, run_handler, send_iap2_detect_packet) (send_payload-Sound payload r)
  ]
  handlers-Sound rounds handle_carplay_available_packet req r c = map-Sound _ _ (
      with_env_fallible-Sound _ (λ tr. pass_availability-Sound r.java_object req tr c.0 c.1)
        r.trace)
  handlers-Sound rounds handle_disable_bluetooth req r c =
      map-Sound _ _
        (with_env_fallible-Sound _ (λ tr. pass_address-Sound r.java_object req tr c) r.trace)
  handlers-Sound rounds handle_screen_stream_start req r c = tt
  handlers-Sound rounds handle_screen_stream_stop req r c = tt
  handlers-Sound rounds handle_screen_stream_configuration req r c = elim (Option-cases req.value) [
    | inl e ↦ absurd (subst Present e c)
    | inr (bytes, e) ↦
        rw (e, run_handler, screen_stream_configuration)
          (finish-Sound _ _
            (retry-Sound rounds 20 (queue_input_buffer bytes 0 codec_config_flag) r))
  ]

  -- With the fields that a handler reads in its table, it dereferences no null pointer of the table.
  run_handler-Sound :
      (rounds : ℕ) (h : Handler) (req : Message (request h)) (r : Runtime)
      → Complete h req
      → (run_handler rounds h req p r).0 ≢ faulted
  run_handler-Sound rounds h req r c e = subst Sound e (handlers-Sound rounds h req r c)

  faults_cases :
      (rounds : ℕ) (h : Handler) (req : Message (request h)) (r : Runtime)
      → is_zero (p.answer r.trace (jni get_env)) ≡ true
      → ¬ (Complete h req)
      → (run_handler rounds h req p r).0 ≡ faulted
  unfolding run_handler with_env_fallible
  faults_cases rounds handle_send_iap2_detect_packet req r z n = elim (Option-cases req.payload) [
    | inl e ↦ rw (e, run_handler, send_iap2_detect_packet) refl
    | inr (payload, e) ↦ absurd (n (rw e tt))
  ]
  faults_cases rounds handle_carplay_available_packet req r z n =
      elim (Option-cases req.usb_transport_identifier) [
        | inl e ↦ rw (z, e, pass_availability) refl
        | inr (usb, e) ↦ elim (Option-cases req.bluetooth_transport_identifier) [
          | inl f ↦ rw (z, e, f, pass_availability) refl
          | inr (bt, f) ↦ absurd (n (rw e tt, rw f tt))
        ]
      ]
  faults_cases rounds handle_disable_bluetooth req r z n = elim (Option-cases req.value) [
    | inl e ↦ rw (z, e, pass_address) refl
    | inr (address, e) ↦ absurd (n (rw e tt))
  ]
  faults_cases rounds handle_screen_stream_start req r z n = absurd (n tt)
  faults_cases rounds handle_screen_stream_stop req r z n = absurd (n tt)
  faults_cases rounds handle_screen_stream_configuration req r z n = elim (Option-cases req.value) [
    | inl e ↦ rw (e, run_handler, screen_stream_configuration) refl
    | inr (bytes, e) ↦ absurd (n (rw e tt))
  ]

  -- On a thread that is attached to the VM, a request that the verifier accepts but that lacks a
  -- string or vector which its handler reads makes the handler dereference a null pointer.
  pub handler_func_faults :
      (fb : Flatbuffers) (rounds : ℕ) (h : Handler) (req resp : List ℕ) (r : Runtime)
      → is_zero (p.answer r.trace (jni get_env)) ≡ true
      → fb.verify_buffer (request h) req ≡ true
      → ¬ (Complete h (fb.get_root (request h) req))
      → (handler_func fb request response (run_handler rounds) h req resp p r).0 ≡ faulted
  unfolding handler_func
  handler_func_faults fb rounds h req resp r z v n =
      rw (v, faults_cases rounds h (fb.get_root (request h) req) r z n) refl
