-- ===== src/Packet/Replies.antt =====
-- The two directions of a connection.
use iftopcolor.Shared.{
  ℕ, suc, ◌+◌, ◌*◌, ◌≡◌, refl, ap, Bool, true, false, not, ◌&&◌, ◌||◌, List, Option, none, some,
  arith, ◌==◌, Bool-cases, inl, inr, ◌⊎◌, get_or,
}
use iftopcolor.AddrHash.{AddrPair}
use iftopcolor.Packet.Headers.{
  Memory, bytes_at, ntohs_at, ip_v, ip_hl, ip_p, ip_src, ip_dst, ip6_nxt, ip6_src, ip6_dst,
  assign_addr_pair, directed, Config, in_filter_net, in_filter6_net, link_local_at,
}
use iftopcolor.Packet.Defs.{
  HwDir, incoming, outgoing, Charged, without_filter, by_filter, by_netfilter, is_link_local,
  classify, with_protocol,
}

-- A packet that answers another one: its source and its destination are exchanged.
pub record Answers4 (p q : Memory) : Type 0 where
  pub src : ip_src q ≡ ip_dst p
  pub dst : ip_dst q ≡ ip_src p
  pub proto : ip_p q ≡ ip_p p
  pub sport : ntohs_at q (ip_hl q * 4) ≡ ntohs_at p (ip_hl p * 4 + 2)
  pub dport : ntohs_at q (ip_hl q * 4 + 2) ≡ ntohs_at p (ip_hl p * 4)

pub record Answers6 (p q : Memory) : Type 0 where
  pub src : ip6_src q ≡ ip6_dst p
  pub dst : ip6_dst q ≡ ip6_src p
  pub proto : ip6_nxt q ≡ ip6_nxt p
  pub sport : ntohs_at q 40 ≡ ntohs_at p 42
  pub dport : ntohs_at q 42 ≡ ntohs_at p 40

pub record Answers (p q : Memory) : Type 0 where
  pub known : (ip_v p ≡ 4) ⊎ (ip_v p ≡ 6)
  pub version : ip_v q ≡ ip_v p
  pub v4 : ip_v p ≡ 4 → Answers4 p q
  pub v6 : ip_v p ≡ 6 → Answers6 p q

directed-flipped :
    (flip : Bool) (af : ℕ) (src dst : List ℕ) (sport dport : ℕ)
    → directed (not flip) af dst dport src sport ≡ directed flip af src sport dst dport
unfolding directed
directed-flipped true af src dst sport dport = refl
directed-flipped false af src dst sport dport = refl

assign_addr_pair-reply :
    (p q : Memory) (flip : Bool)
    → Answers p q
    → assign_addr_pair q (not flip) ≡ assign_addr_pair p flip
unfolding assign_addr_pair
assign_addr_pair-reply p q flip a = elim (Bool-cases (ip_v p == 4)) [
  | inl e ↦
      let r = a.v4 (ground (arith, e)) in
      rw (assign_addr_pair, a.version, e, r.src, r.dst, r.proto, r.sport, r.dport)
        (directed-flipped flip 2 _ _ _ _)
  | inr e ↦ elim (Bool-cases (ip_v p == 6)) [
    | inl f ↦
        let r = a.v6 (ground (arith, f)) in
        rw (assign_addr_pair, a.version, e, f, r.src, r.dst, r.proto, r.sport, r.dport)
          (directed-flipped flip 10 _ _ _ _)
    | inr f ↦ rw (assign_addr_pair, a.version, e, f) refl
  ]
]

with_protocol-reply :
    (p q : Memory) (ap : AddrPair) → Answers p q → with_protocol q ap ≡ with_protocol p ap
unfolding with_protocol
with_protocol-reply p q ap a = elim (Bool-cases (ip_v p == 4)) [
  | inl e ↦ let r = a.v4 (ground (arith, e)) in rw (with_protocol, a.version, e, r.proto) refl
  | inr e ↦ elim (Bool-cases (ip_v p == 6)) [
    | inl f ↦ let r = a.v6 (ground (arith, f)) in rw (with_protocol, a.version, e, f, r.proto) refl
    | inr f ↦ rw (with_protocol, a.version, e, f) refl
  ]
]

-- The other direction, and the charge in the other direction.
abbrev pub hw_dir_of : Bool → HwDir
hw_dir_of true = outgoing
hw_dir_of false = incoming

abbrev pub turned : Option Charged → Option Charged
turned none = none
turned (some (ap, direction)) = some (ap, not direction)

-- The key that the packet is charged to, with its protocol, and the direction.
abbrev pub charged_to : Config → Memory → HwDir → Option Charged
charged_to cfg p dir = elim (classify cfg p dir) [
  | none ↦ none
  | some (ap, direction) ↦ some (with_protocol p ap, direction)
]

without_filter-reply :
    (cfg : Config) (p q : Memory) (out : Bool)
    → Answers p q
    → without_filter cfg q (hw_dir_of (not out)) ≡ turned (without_filter cfg p (hw_dir_of out))
unfolding without_filter
without_filter-reply cfg p q true a = rw (assign_addr_pair-reply p q false a) refl
without_filter-reply cfg p q false a = rw (assign_addr_pair-reply p q true a) refl

by_filter-reply :
    (p q : Memory) (src_in dst_in : Bool)
    → Answers p q
    → by_filter q dst_in src_in ≡ turned (by_filter p src_in dst_in)
unfolding by_filter
by_filter-reply p q true true a = refl
by_filter-reply p q true false a = rw (assign_addr_pair-reply p q false a) refl
by_filter-reply p q false true a = rw (assign_addr_pair-reply p q true a) refl
by_filter-reply p q false false a = refl

-- The two bytes of an IPv6 address that tell a link-local one.
link_local-bytes :
    (p q : Memory) (i j : ℕ)
    → bytes_at q i 16 ≡ bytes_at p j 16
    → link_local_at q i ≡ link_local_at p j
unfolding bytes_at
link_local-bytes p q i j e =
    let first_byte : q i ≡ p j = ap (λ l. get_or l 0 0) e in
    let second_byte : q (suc i) ≡ p (suc j) = ap (λ l. get_or l 1 0) e in
    let next : (n : ℕ) → n + 1 ≡ suc n = λ n. omega arith in
    rw (first_byte, next i, next j, second_byte) refl

is_link_local-reply :
    (cfg : Config) (p q : Memory) → Answers p q → is_link_local cfg q ≡ is_link_local cfg p
unfolding is_link_local
is_link_local-reply cfg p q a = elim (Bool-cases (ip_v p == 6)) [
  | inl f ↦
      let r = a.v6 (ground (arith, f)) in
      rw
        (
          is_link_local,
          a.version,
          f,
          link_local-bytes p q 24 8 r.dst,
          link_local-bytes p q 8 24 r.src,
        )
        (or_comm cfg.link_local (link_local_at p 8) (link_local_at p 24))
  | inr f ↦ rw (is_link_local, a.version, f) refl
]
  where
    or_comm : (l a b : Bool) → not l && (a || b) ≡ not l && (b || a)
    or_comm l a b = ground arith

by_netfilter-reply :
    (cfg : Config) (p q : Memory) (out : Bool)
    → Answers p q
    → by_netfilter cfg q (hw_dir_of (not out)) ≡ turned (by_netfilter cfg p (hw_dir_of out))
unfolding by_netfilter
by_netfilter-reply cfg p q out a = elim (Bool-cases (ip_v p == 4)) [
  | inl e ↦
      let r = a.v4 (ground (arith, e)) in
      elim (Bool-cases cfg.netfilter) [
        | inl n ↦
            simp (by_netfilter, a.version, e, n, r.src, r.dst)
              (by_filter-reply p q (in_filter_net cfg (ip_src p)) (in_filter_net cfg (ip_dst p)) a)
        | inr n ↦ simp (by_netfilter, a.version, e, n) (without_filter-reply cfg p q out a)
      ]
  | inr e ↦ elim (Bool-cases (ip_v p == 6)) [
    | inl f ↦
        let r = a.v6 (ground (arith, f)) in
        elim (Bool-cases cfg.netfilter6) [
          | inl n ↦
              simp (by_netfilter, a.version, e, f, n, r.src, r.dst)
                (by_filter-reply p q (in_filter6_net cfg (ip6_src p))
                  (in_filter6_net cfg (ip6_dst p)) a)
          | inr n ↦ simp (by_netfilter, a.version, e, f, n) (without_filter-reply cfg p q out a)
        ]
    | inr f ↦ absurd (ground (arith, e, f, a.known))
  ]
]

classify-reply :
    (cfg : Config) (p q : Memory) (out : Bool)
    → Answers p q
    → classify cfg q (hw_dir_of (not out)) ≡ turned (classify cfg p (hw_dir_of out))
unfolding classify
classify-reply cfg p q out a = elim (Bool-cases (is_link_local cfg p)) [
  | inl l ↦ rw (classify, is_link_local-reply cfg p q a, l) refl
  | inr l ↦ rw (classify, is_link_local-reply cfg p q a, l) (by_netfilter-reply cfg p q out a)
]

protocol-turned :
    (p q : Memory) (a : Answers p q) (c : Option Charged)
    → (elim (turned c) [
      | none ↦ none
      | some (ap, direction) ↦ some (with_protocol q ap, direction)
    ])
      ≡ turned
          (elim c [ none ↦ none | some (ap, direction) ↦ some (with_protocol p ap, direction) ])
protocol-turned p q a none = refl
protocol-turned p q a (some (ap, direction)) = rw (with_protocol-reply p q ap a) refl

-- An IPv4 or IPv6 packet and its answer, with the source and the destination and their ports
-- exchanged and the opposite direction given by the hardware, are both dropped or charged to one
-- key, protocol included, in opposite directions, with the net filters on or off.
pub charged_to-reply :
    (cfg : Config) (p q : Memory) (out : Bool)
    → Answers p q
    → charged_to cfg q (hw_dir_of (not out)) ≡ turned (charged_to cfg p (hw_dir_of out))
charged_to-reply cfg p q out a =
    rw (charged_to, classify-reply cfg p q out a)
      (protocol-turned p q a (classify cfg p (hw_dir_of out)))
