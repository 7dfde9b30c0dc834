-- ===== src/NetLink/Messages.antt =====
-- `threadLoop` of NetLinkMonitor.h on one received buffer (the loop over the buffers is NetLink/Loop):
-- the walk over the messages and, in each message about a new IPv6 address, over its attributes. The
-- macros that step through the buffer (`NLMSG_OK`, `NLMSG_NEXT`, `RTA_OK`, `RTA_NEXT` and the
-- accessors) are those of the kernel headers.
pub mod Delivery
pub mod Heard
use grpc_jni_client.Prelude.{
  true, ℕ, ◌<◌, ◌≤◌, ◌≡◌, ℤ, zero, suc, ◌==◌, Bool, String, ◌&&◌, [], ◌∷◌, if◌then◌else◌,
}
use grpc_jni_client.Platform.{
  Outcome, returned, looping, new_string_utf, delete_local_ref, jni, Action, pure, ask, tell, ◌>>=◌,
  ◌>>◌,
}
use grpc_jni_client.Jni.{with_env, call_void_method}

-- A position in the messages of a buffer (`Message`) or in the attributes of a message (`Attribute`),
-- with the length that is left. `if_name` is what `if_indextoname` writes for the message's interface,
-- and `address` what `inet_ntop` writes for the attribute's data.
pub record Netlink : Type 1 where
  pub Message : Type 0
  pub Attribute : Type 0
  pub nlmsg_ok : Message → Bool
  pub nlmsg_next : Message → Message
  pub nlmsg_type : Message → ℕ
  pub ifa_family : Message → ℕ
  pub if_name : Message → String
  pub ifa_rta : Message → Attribute
  pub rta_ok : Attribute → Bool
  pub rta_next : Attribute → Attribute
  pub rta_type : Attribute → ℕ
  pub address : Attribute → String

abbrev pub rtm_newaddr : ℕ
rtm_newaddr = 20

abbrev pub af_inet6 : ℕ
af_inet6 = 10

abbrev pub ifa_address : ℕ
ifa_address = 1

unfoldable pub pass_address : ℤ → String → String → Action (Unit {0})
pass_address callback_obj iface addr = do
  j_iface ← ask (jni (new_string_utf iface))
  j_addr ← ask (jni (new_string_utf addr))
  call_void_method callback_obj "onIpv6Ready" "(Ljava/lang/String;Ljava/lang/String;)V"
      (j_iface ∷ j_addr ∷ [])
  tell (jni (delete_local_ref j_iface))
  tell (jni (delete_local_ref j_addr))

unfoldable pub report : ℤ → String → String → Action (Unit {0})
report callback_obj iface addr = with_env (pass_address callback_obj iface addr)

module _ (n : Netlink) (callback_obj : ℤ) where
  open n use {
    Message, Attribute, nlmsg_ok, nlmsg_next, nlmsg_type, ifa_family, if_name, ifa_rta, rta_ok,
    rta_next, rta_type, address,
  }

  -- The inner `for`; the number bounds its rounds.
  unfoldable pub walk_attributes : ℕ → String → Attribute → Action (Outcome (Unit {0}))
  walk_attributes zero iface a = pure looping
  walk_attributes (suc rounds) iface a =
      let rest = walk_attributes rounds iface (rta_next a) in
      if rta_ok a
      then (if rta_type a == ifa_address
          then (do report callback_obj iface (address a); rest)
          else rest)
      else pure (returned tt)

  -- After the attributes of a message, the walk goes on only if that loop has ended.
  unfoldable pub after_attributes :
      Outcome (Unit {0}) → Action (Outcome (Unit {0})) → Action (Outcome (Unit {0}))
  after_attributes (returned _) rest = rest
  after_attributes other rest = pure other

  -- The outer `for`, with its two `continue`s; `inner` bounds the rounds of each inner loop.
  unfoldable pub walk_messages : ℕ → ℕ → Message → Action (Outcome (Unit {0}))
  unfolding after_attributes
  walk_messages inner zero m = pure looping
  walk_messages inner (suc rounds) m =
      let rest = walk_messages inner rounds (nlmsg_next m) in
      if nlmsg_ok m
      then (if (nlmsg_type m == rtm_newaddr) && (ifa_family m == af_inet6)
          then (do
            ended ← walk_attributes inner (if_name m) (ifa_rta m)
            after_attributes ended rest)
          else rest)
      else pure (returned tt)

-- What the kernel headers document: each step of an iteration shortens what is left, and a message's
-- attributes lie within the message.
pub record NetlinkRules (n : Netlink) : Type 0 where
  pub room : n.Message → ℕ
  pub attribute_room : n.Attribute → ℕ
  pub next_shrinks : (m : n.Message) → n.nlmsg_ok m ≡ true → room (n.nlmsg_next m) < room m
  pub rta_next_shrinks :
      (a : n.Attribute) → n.rta_ok a ≡ true → attribute_room (n.rta_next a) < attribute_room a
  pub attributes_within : (m : n.Message) → attribute_room (n.ifa_rta m) ≤ room m
