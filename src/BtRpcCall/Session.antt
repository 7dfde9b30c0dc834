-- ===== src/BtRpcCall/Session.antt =====
-- What the session entry of CarplayBtRpcCall.cpp leaves undone.
use grpc_jni_client.Prelude.{
  ℕ, ℤ, ◌+◌, ◌-◌, ◌≡◌, ◌⊎◌, inl, inr, Bool-cases, [], ◌∷◌, Bool, true, false, ◌||◌, is_zero, arith,
  if◌then◌else◌,
}
use grpc_jni_client.Platform.{
  returned, faulted, get_string_utf_chars, release_string_utf_chars, jni, rpc, Call, Trace,
  Platform,
}
use grpc_jni_client.Messages.{Flatbuffers}
use grpc_jni_client.Runtime.Session.{JString}
use grpc_jni_client.BtRpcCall.{start_carplay_session}

-- The strings that a history has obtained and not released, and the calls that it has made of the
-- transport.
abbrev pub string_step : Call → ℤ → ℕ → ℕ
string_step (jni (get_string_utf_chars _)) r n = if is_zero r then n else n + 1
string_step (jni (release_string_utf_chars _)) r n = n - 1
string_step _ r n = n

abbrev pub strings : Platform → Trace → ℕ
strings p [] = 0
strings p (c ∷ tr) = string_step c (p.answer tr c) (strings p tr)

abbrev pub transport_step : Call → ℕ → ℕ
transport_step (rpc _) n = n + 1
transport_step _ n = n

abbrev pub transport_calls : Trace → ℕ
transport_calls [] = 0
transport_calls (c ∷ tr) = transport_step c (transport_calls tr)

-- Whether one of the three strings of a session cannot be had, after a history.
abbrev pub null_string : Platform → JString → JString → JString → Trace → Bool
null_string p ssid pwd v6 tr =
    let first = jni (get_string_utf_chars ssid.ref) in
    let second = jni (get_string_utf_chars pwd.ref) in
    let third = jni (get_string_utf_chars v6.ref) in
    is_zero (p.answer tr first)
    || is_zero (p.answer (first ∷ tr) second)
    || is_zero (p.answer (second ∷ first ∷ tr) third)

module _ (fb : Flatbuffers) (p : Platform) (ssid pwd v6 : JString) (channel security : ℤ) where
  -- Whatever the VM answers, the entry makes no call of the transport, so the peer hears nothing of
  -- the session, and it never reports failure. It faults if one of the three strings cannot be had;
  -- otherwise it reports success, with every string that it obtained released.
  pub start_carplay_session_unsent :
      (tr : Trace)
      → let (ended, tr') = start_carplay_session fb ssid pwd channel v6 security p tr in
        (transport_calls tr' ≡ transport_calls tr)
        × (((null_string p ssid pwd v6 tr ≡ true) × (ended ≡ faulted))
            ⊎ ((null_string p ssid pwd v6 tr ≡ false)
                × (ended ≡ returned true)
                × (strings p tr' ≡ strings p tr)))
  unfolding start_carplay_session
  start_carplay_session_unsent tr = (
    ground arith,
    elim (Bool-cases (null_string p ssid pwd v6 tr)) [
      | inl e ↦ inl (e, ground arith)
      | inr e ↦ inr (e, ground arith, ground arith)
    ],
  )
