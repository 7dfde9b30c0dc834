-- ===== src/Runtime/System/Service.antt =====
-- What a request of the peer comes to, from its bytes to its handler.
use grpc_jni_client.Prelude.{
  Bool-cases, inl, inr, String, Option, true, ℕ, ℤ, ◌≡◌, refl, ◌∙◌, String, false, none, some, List,
  [], ap,
}
use grpc_jni_client.Platform.{Platform, Outcome, returned, faulted, looping, outcome_map}
use grpc_jni_client.Messages.{Message, Flatbuffers}
use grpc_jni_client.Messages.Buffers.{IsLawful}
use grpc_jni_client.Messages.Ranges.{IsTyped}
use grpc_jni_client.Messages.RoundTrip.{settled}
use grpc_jni_client.Dial.{registered}
use grpc_jni_client.Dial.Methods.{handler_func-finish}
use grpc_jni_client.Runtime.State.{
  Handler, handle_send_iap2_detect_packet, handle_carplay_available_packet,
  handle_disable_bluetooth, handle_screen_stream_start, handle_screen_stream_stop,
  handle_screen_stream_configuration, request, response, Runtime, Garbage,
}
use grpc_jni_client.Runtime.Handlers.{run_handler}
use grpc_jni_client.Runtime.Session.Table.{
  receiver, streamer, registered-init_carplay_rpc, registered-start_carplay_session,
}
use grpc_jni_client.Runtime.Session.{JString, on_load, start_carplay_session}
use grpc_jni_client.Jni.Loading.{unset}
use grpc_jni_client.Runtime.System.{
  Event, start_session, remote_request, step, serve, run_wrapper, run, boot,
}
use grpc_jni_client.Runtime.System.Client.{
  Client, Change, offer_receivers, listen, offer_stream, Changes, none_yet, one_more, method_name,
  of_stream,
}
use grpc_jni_client.Runtime.System.Refinement.{step-Changes, run_refines}

-- A method that is offered stays offered.
Change-offered :
    {c d : Client} (h : Handler)
    → Change c d
    → c.methods (method_name h) ≡ some h
    → d.methods (method_name h) ≡ some h
Change-offered handle_send_iap2_detect_packet offer_receivers e = refl
Change-offered handle_send_iap2_detect_packet listen e = e
Change-offered handle_send_iap2_detect_packet (offer_stream l) e = e
Change-offered handle_carplay_available_packet offer_receivers e = refl
Change-offered handle_carplay_available_packet listen e = e
Change-offered handle_carplay_available_packet (offer_stream l) e = e
Change-offered handle_disable_bluetooth offer_receivers e = refl
Change-offered handle_disable_bluetooth listen e = e
Change-offered handle_disable_bluetooth (offer_stream l) e = e
Change-offered handle_screen_stream_start offer_receivers e = e
Change-offered handle_screen_stream_start listen e = e
Change-offered handle_screen_stream_start (offer_stream l) e = refl
Change-offered handle_screen_stream_stop offer_receivers e = e
Change-offered handle_screen_stream_stop listen e = e
Change-offered handle_screen_stream_stop (offer_stream l) e = refl
Change-offered handle_screen_stream_configuration offer_receivers e = e
Change-offered handle_screen_stream_configuration listen e = e
Change-offered handle_screen_stream_configuration (offer_stream l) e = refl

Changes-offered :
    {c d : Client} (h : Handler)
    → Changes c d
    → c.methods (method_name h) ≡ some h
    → d.methods (method_name h) ≡ some h
Changes-offered h none_yet e = e
Changes-offered h (one_more xs x) e = Change-offered h x (Changes-offered h xs e)

streamer_offers :
    (others : String → Option Handler) (h : Handler)
    → of_stream h ≡ true
    → streamer others (method_name h) ≡ some h
streamer_offers others handle_send_iap2_detect_packet z = cc
streamer_offers others handle_carplay_available_packet z = cc
streamer_offers others handle_disable_bluetooth z = cc
streamer_offers others handle_screen_stream_start z = refl
streamer_offers others handle_screen_stream_stop z = refl
streamer_offers others handle_screen_stream_configuration z = refl

receiver_offers :
    (h : Handler) → of_stream h ≡ false → receiver (λ _. none) (method_name h) ≡ some h
receiver_offers handle_send_iap2_detect_packet z = refl
receiver_offers handle_carplay_available_packet z = refl
receiver_offers handle_disable_bluetooth z = refl
receiver_offers handle_screen_stream_start z = cc
receiver_offers handle_screen_stream_stop z = cc
receiver_offers handle_screen_stream_configuration z = cc

-- No request of the six methods has a floating-point field.
request-settled : (h : Handler) (m : Message (request h)) → settled (request h) m ≡ m
request-settled handle_send_iap2_detect_packet m = refl
request-settled handle_carplay_available_packet m = refl
request-settled handle_disable_bluetooth m = refl
request-settled handle_screen_stream_start m = refl
request-settled handle_screen_stream_stop m = refl
request-settled handle_screen_stream_configuration m = refl

-- The response is dropped.
outcome_map_twice :
    {A B : Type 0} (f : A → B) (o : Outcome A)
    → outcome_map (λ _. tt) (outcome_map f o) ≡ outcome_map {B = Unit {0}} (λ _. tt) o
outcome_map_twice f (returned a) = refl
outcome_map_twice f faulted = refl
outcome_map_twice f looping = refl

module _ (p : Platform) (fb : Flatbuffers) where
  step-served :
      (lawful : IsLawful fb) (rounds : ℕ) (name : String) (h : Handler) (m : Message (request h))
      (r : Runtime)
      → IsTyped (request h) m
      → registered name r.dial ≡ some h
      → step fb (remote_request rounds name (fb.finish (request h) m)) p r
        ≡ (let (o, r') = run_handler rounds h m p r in (outcome_map (λ _. tt) o, r'))
  unfolding step serve run_wrapper
  step-served lawful rounds name h m r v e =
      let (o, r') = run_handler rounds h m p r in
      rw
        (
          e,
          handler_func-finish fb request response (run_handler rounds) lawful h m [] p r v,
          request-settled h m,
        )
        (ap (λ (w : Outcome (Unit {0})). (w, r')) (outcome_map_twice (fb.finish (response h)) o))

  boot-offered :
      (junk : Garbage) (jvm thiz : ℤ) (h : Handler)
      → of_stream h ≡ false
      → registered (method_name h) (boot junk jvm thiz p).dial ≡ some h
  unfolding boot
  boot-offered junk jvm thiz h z =
      let (_, java, tr) = on_load unset jvm p [] in
      registered-init_carplay_rpc p (method_name h) junk java thiz tr ∙ receiver_offers h z

  -- If the byte format reads back what was built: from the load of the library on, and after any
  -- sequence of JNI entries, requests, frames and rounds of the threads, a request that the peer
  -- builds of values of the fields' types for one of the three receivers, under the receiver's name,
  -- runs the receiver on the very message that the peer built.
  pub request_served :
      (junk : Garbage) (jvm thiz : ℤ) (es : List Event) (rounds : ℕ) (h : Handler)
      (m : Message (request h))
      → IsLawful fb
      → IsTyped (request h) m
      → of_stream h ≡ false
      → let r = (run fb es p (boot junk jvm thiz p)).1 in
        step fb (remote_request rounds (method_name h) (fb.finish (request h) m)) p r
        ≡ (let (o, r') = run_handler rounds h m p r in (outcome_map (λ _. tt) o, r'))
  request_served junk jvm thiz es rounds h m lawful v z =
      step-served lawful rounds (method_name h) h m _ v
        (Changes-offered h (run_refines p fb es _) (boot-offered junk jvm thiz h z))

  -- A session that reports success offers all six methods.
  session-offered :
      (ssid pwd v6 : JString) (channel security : ℤ) (h : Handler) (r : Runtime)
      → (start_carplay_session fb ssid pwd channel v6 security p r).0 ≡ returned true
      → (of_stream h ≡ false → registered (method_name h) r.dial ≡ some h)
      → registered
          (method_name h)
          (start_carplay_session fb ssid pwd channel v6 security p r).1.dial
        ≡ some h
  unfolding step
  session-offered ssid pwd v6 channel security h r e before = elim (Bool-cases (of_stream h)) [
    | inl z ↦
        registered-start_carplay_session p fb ssid pwd v6 channel security (method_name h) r e
        ∙ streamer_offers (λ x. registered x r.dial) h z
    | inr z ↦
        Changes-offered h (step-Changes p fb (start_session ssid pwd channel v6 security) r)
          (before z)
  ]

  -- If the byte format reads back what was built: once `startCarplaySession` has reported success, at
  -- any time after the load of the library, and after any further sequence of JNI entries, requests,
  -- frames and rounds of the threads, a request that the peer builds of values of the fields' types
  -- for one of the six methods, under the method's name, runs its handler on the very message that the
  -- peer built.
  pub session_request_served :
      (junk : Garbage) (jvm thiz : ℤ) (earlier later : List Event) (ssid pwd v6 : JString)
      (channel security : ℤ) (rounds : ℕ) (h : Handler) (m : Message (request h))
      → IsLawful fb
      → IsTyped (request h) m
      → (start_carplay_session fb ssid pwd channel v6 security p
          (run fb earlier p (boot junk jvm thiz p)).1).0
        ≡ returned true
      → let started =
          (start_carplay_session fb ssid pwd channel v6 security p
            (run fb earlier p (boot junk jvm thiz p)).1).1 in
        let r = (run fb later p started).1 in
        step fb (remote_request rounds (method_name h) (fb.finish (request h) m)) p r
        ≡ (let (o, r') = run_handler rounds h m p r in (outcome_map (λ _. tt) o, r'))
  session_request_served junk jvm thiz earlier later ssid pwd v6 channel security rounds h m lawful
        v e =
      step-served lawful rounds (method_name h) h m _ v (
        Changes-offered h (run_refines p fb later _) (
          session-offered ssid pwd v6 channel security h _ e
            (λ z. Changes-offered h (run_refines p fb earlier _) (boot-offered junk jvm thiz h z))))
