-- ===== src/NetLink/Messages/Delivery.antt =====
-- The walk over a received buffer against a list description of what it should report.
use grpc_jni_client.Prelude.{
  ◌∙◌, ap, sym, ℕ, ℤ, zero, suc, ◌<◌, ◌≡◌, ◌==◌, refl, Bool, String, ◌&&◌, List, [], ◌∷◌, ◌++◌,
  arith, Bool-cases, inl, inr, if◌then◌else◌,
}
use grpc_jni_client.Platform.{returned, Action, Platform, Trace, pure, ◌>>◌}
use grpc_jni_client.NetLink.Messages.{
  Netlink, NetlinkRules, rtm_newaddr, af_inet6, ifa_address, report, walk_attributes,
  after_attributes, walk_messages,
}

abbrev pub Announcement : Type 0
Announcement = String × String

-- Each announcement in turn.
unfoldable pub deliver : ℤ → List Announcement → Action (Unit {0})
deliver obj [] = pure tt
deliver obj ((iface, addr) ∷ rest) = do report obj iface addr; deliver obj rest

deliver-append :
    (obj : ℤ) (p : Platform) (xs ys : List Announcement) (tr : Trace)
    → (deliver obj (xs ++ ys) p tr).1 ≡ (deliver obj ys p (deliver obj xs p tr).1).1
unfolding deliver
deliver-append obj p [] ys tr = refl
deliver-append obj p ((iface, addr) ∷ xs) ys tr =
    deliver-append obj p xs ys (report obj iface addr p tr).1

module _ (n : Netlink) where
  open n use {
    Message, Attribute, nlmsg_ok, nlmsg_next, nlmsg_type, ifa_family, if_name, ifa_rta, rta_ok,
    rta_next, rta_type, address,
  }

  -- The attributes, and the messages, that the iteration passes.
  unfoldable pub attributes : ℕ → Attribute → List Attribute
  attributes zero a = []
  attributes (suc k) a = let rest = attributes k (rta_next a) in if rta_ok a then a ∷ rest else []

  unfoldable pub messages : ℕ → Message → List Message
  messages zero m = []
  messages (suc k) m = let rest = messages k (nlmsg_next m) in if nlmsg_ok m then m ∷ rest else []

  -- The addresses among the attributes of one message.
  unfoldable pub addresses : String → List Attribute → List Announcement
  addresses iface [] = []
  addresses iface (a ∷ as') =
      if rta_type a == ifa_address
      then (iface, address a) ∷ addresses iface as'
      else addresses iface as'

  abbrev is_new_v6 : Message → Bool
  is_new_v6 m = (nlmsg_type m == rtm_newaddr) && (ifa_family m == af_inet6)

  -- The addresses in the messages about new IPv6 addresses.
  unfoldable pub announcements : ℕ → List Message → List Announcement
  announcements inner [] = []
  announcements inner (m ∷ ms) =
      let rest = announcements inner ms in
      if is_new_v6 m then addresses (if_name m) (attributes inner (ifa_rta m)) ++ rest else rest

  module _ (rules : NetlinkRules n) (obj : ℤ) (p : Platform) where
    walk_attributes_delivers :
        (rounds : ℕ) (iface : String) (a : Attribute) (tr : Trace)
        → rules.attribute_room a < rounds
        → walk_attributes n obj rounds iface a p tr
          ≡ (returned tt, (deliver obj (addresses iface (attributes rounds a)) p tr).1)
    unfolding walk_attributes attributes addresses deliver
    walk_attributes_delivers zero iface a tr h = absurd (omega arith)
    walk_attributes_delivers (suc rounds) iface a tr h = elim (Bool-cases (rta_ok a)) [
      | inr e ↦ rw e refl
      | inl e ↦ elim (Bool-cases (rta_type a == ifa_address)) [
        | inl f ↦
            rw (e, f)
              (walk_attributes_delivers rounds iface (rta_next a) _
                (omega (arith, rules.rta_next_shrinks a e)))
        | inr f ↦
            rw (e, f)
              (walk_attributes_delivers rounds iface (rta_next a) tr
                (omega (arith, rules.rta_next_shrinks a e)))
      ]
    ]

    -- If the iteration obeys the rules of the kernel headers, and both bounds exceed the bytes
    -- that are left, then the walk ends, and has called `onIpv6Ready` once for each address
    -- attribute of each message about a new IPv6 address, in the order of the buffer, and for
    -- nothing else.
    pub walk_messages_delivers :
        (inner rounds : ℕ) (m : Message) (tr : Trace)
        → rules.room m < inner
        → rules.room m < rounds
        → walk_messages n obj inner rounds m p tr
          ≡ (returned tt, (deliver obj (announcements inner (messages rounds m)) p tr).1)
    unfolding walk_messages messages announcements
    walk_messages_delivers inner zero m tr g h = absurd (omega arith)
    walk_messages_delivers inner (suc rounds) m tr g h = elim (Bool-cases (nlmsg_ok m)) [
      | inr e ↦ rw e (unfold deliver in refl)
      | inl e ↦ elim (Bool-cases (is_new_v6 m)) [
        | inr f ↦
            rw (e, f)
              (walk_messages_delivers inner rounds (nlmsg_next m) tr
                (omega (arith, rules.next_shrinks m e)) (omega (arith, rules.next_shrinks m e)))
        | inl f ↦
            rw
              (
                e,
                f,
                walk_attributes_delivers inner (if_name m) (ifa_rta m) tr
                    (omega (arith, rules.attributes_within m)),
                after_attributes,
              )
              (walk_messages_delivers inner rounds (nlmsg_next m) _
                  (omega (arith, rules.next_shrinks m e)) (omega (arith, rules.next_shrinks m e))
                ∙ ap (λ t. (returned tt, t)) (sym (deliver-append obj p _ _ tr)))
      ]
    ]
