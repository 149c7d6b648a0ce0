-- ===== src/Packet/Headers.antt =====
-- The IP headers of src/entry/iftop.c: `assign_addr_pair` and the tests on addresses. A packet is the
-- memory from its first byte on: the handlers do not look at how much of it was captured.
use Prim.Native.Nat.{bit_and}
use iftopcolor.Shared.{
  ℕ, zero, suc, ◌+◌, ◌*◌, ◌/◌, ◌%◌, Bool, true, false, ◌&&◌, ◌||◌, List, [], ◌∷◌, ◌++◌, ◌==◌,
  if◌then◌else◌, replicate,
}
use iftopcolor.AddrHash.{AddrPair, af_inet, af_inet6, bytes_eq}

abbrev pub Memory : Type 0
Memory = ℕ → ℕ

-- The packet from an offset on.
abbrev pub skip : ℕ → Memory → Memory
skip n p i = p (n + i)

unfoldable pub bytes_at : Memory → ℕ → ℕ → List ℕ
bytes_at p i zero = []
bytes_at p i (suc n) = p i ∷ bytes_at p (suc i) n

-- ntohs of the two bytes at an offset, EXTRACT_16BITS
abbrev pub ntohs_at : Memory → ℕ → ℕ
ntohs_at p i = p i * 256 + p (i + 1)

-- IP_V and IP_HL
abbrev pub ip_v : Memory → ℕ
ip_v p = p 0 / 16

abbrev pub ip_hl : Memory → ℕ
ip_hl p = p 0 % 16

-- The fields of `struct ip` and of `struct ip6_hdr`.
abbrev pub ip_p : Memory → ℕ
ip_p p = p 9

abbrev pub ip_src : Memory → List ℕ
ip_src p = bytes_at p 12 4

abbrev pub ip_dst : Memory → List ℕ
ip_dst p = bytes_at p 16 4

abbrev pub ip6_nxt : Memory → ℕ
ip6_nxt p = p 6

abbrev pub ip6_src : Memory → List ℕ
ip6_src p = bytes_at p 8 16

abbrev pub ip6_dst : Memory → List ℕ
ip6_dst p = bytes_at p 24 16

-- The protocols with ports: IPPROTO_TCP and IPPROTO_UDP
abbrev pub has_ports : ℕ → Bool
has_ports proto = proto == 6 || proto == 17

-- memset(ap, 0, sizeof *ap)
abbrev pub zero_pair : AddrPair
zero_pair = record {
  address_family = 0;
  protocol = 0;
  src_port = 0;
  src = replicate 16 0;
  dst_port = 0;
  dst = replicate 16 0;
}

-- The pair with its fields in the order of the header, or flipped.
unfoldable pub directed : Bool → ℕ → List ℕ → ℕ → List ℕ → ℕ → AddrPair
directed false af src sport dst dport = record {
  address_family = af;
  protocol = 0;
  src_port = sport;
  src = src;
  dst_port = dport;
  dst = dst;
}
directed true af src sport dst dport = record {
  address_family = af;
  protocol = 0;
  src_port = dport;
  src = dst;
  dst_port = sport;
  dst = src;
}

-- An IPv4 address in the union of the pair, whose other bytes are zero.
abbrev pub widened : List ℕ → List ℕ
widened a = a ++ replicate 12 0

unfoldable pub assign_addr_pair : Memory → Bool → AddrPair
assign_addr_pair p flip =
    if ip_v p == 4
    then (let ports = has_ports (ip_p p) in
        directed flip af_inet (widened (ip_src p)) (if ports then ntohs_at p (ip_hl p * 4) else 0)
          (widened (ip_dst p)) (if ports then ntohs_at p (ip_hl p * 4 + 2) else 0))
    else if ip_v p == 6
    then (let ports = has_ports (ip6_nxt p) in
        directed flip af_inet6 (ip6_src p) (if ports then ntohs_at p 40 else 0) (ip6_dst p)
          (if ports then ntohs_at p 42 else 0))
    else zero_pair

-- The options and the addresses of the interface that the handlers read.
pub record Config : Type 0 where
  pub netfilter : Bool
  pub netfilternet : List ℕ
  pub netfiltermask : List ℕ
  pub netfilter6 : Bool
  pub netfilter6net : List ℕ
  pub netfilter6mask : List ℕ
  pub promiscuous_but_choosy : Bool
  pub link_local : Bool
  pub dnsresolution : Bool
  pub show_processes : Bool
  pub have_hw_addr : Bool
  pub if_hw_addr : List ℕ
  pub have_ip_addr : Bool
  pub if_ip_addr : List ℕ
  pub have_ip6_addr : Bool
  pub if_ip6_addr : List ℕ

unfoldable pub masked : List ℕ → List ℕ → List ℕ
masked [] m = []
masked (a ∷ bytes) [] = []
masked (a ∷ bytes) (b ∷ m) = bit_and a b ∷ masked bytes m

unfoldable pub in_filter_net : Config → List ℕ → Bool
in_filter_net cfg addr = bytes_eq (masked addr cfg.netfiltermask) cfg.netfilternet

-- The same test by the loop over the 16 bytes of an IPv6 address.
unfoldable pub in_filter6_net : Config → List ℕ → Bool
in_filter6_net cfg addr = bytes_eq (masked addr cfg.netfilter6mask) cfg.netfilter6net

unfoldable pub ip_addr_match : Config → List ℕ → Bool
ip_addr_match cfg addr = bytes_eq addr cfg.if_ip_addr

unfoldable pub ip6_addr_match : Config → List ℕ → Bool
ip6_addr_match cfg addr = bytes_eq addr cfg.if_ip6_addr

-- IN6_IS_ADDR_LINKLOCAL, fe80::/10, at an offset
abbrev pub link_local_at : Memory → ℕ → Bool
link_local_at p i = p i == 254 && bit_and (p (i + 1)) 192 == 128
