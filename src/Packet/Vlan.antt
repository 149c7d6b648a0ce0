-- ===== src/Packet/Vlan.antt =====
-- Ethernet frames with and without an 802.1Q tag.
use iftopcolor.Shared.{ℕ, ◌+◌, ◌≡◌, ◌≢◌, refl, true, false, arith, ◌==◌}
use iftopcolor.Packet.Headers.{Memory, skip, bytes_at, ntohs_at, Config}
use iftopcolor.Packet.Links.{handle_eth_packet, by_hw_addr}

-- `q` is the frame `p` with a tag behind its addresses.
pub record Tags (p q : Memory) : Type 0 where
  pub dhost : bytes_at q 0 6 ≡ bytes_at p 0 6
  pub shost : bytes_at q 6 6 ≡ bytes_at p 6 6
  pub tag : ntohs_at q 12 ≡ 0x8100
  pub ether_type : ntohs_at q 16 ≡ ntohs_at p 12
  pub untagged : ntohs_at p 12 ≢ 0x8100
  pub payload : (i : ℕ) → q (18 + i) ≡ p (14 + i)

by_hw_addr-tagged :
    (cfg : Config) (p q : Memory)
    → Tags p q
    → by_hw_addr cfg.have_hw_addr cfg.if_hw_addr q 6 0
      ≡ by_hw_addr cfg.have_hw_addr cfg.if_hw_addr p 6 0
unfolding by_hw_addr
by_hw_addr-tagged cfg p q t = rw (by_hw_addr, t.dhost, t.shost) refl

same_payload : (p q : Memory) → Tags p q → skip 18 q ≡ skip 14 p
same_payload p q t i n = t.payload n i

-- handle_eth_packet hands the same IP packet with the same direction to handle_ip_packet for a
-- frame and for that frame with an 802.1Q tag behind its addresses, if the frame had no tag.
pub handle_eth_packet-tagged :
    (cfg : Config) (p q : Memory) → Tags p q → handle_eth_packet cfg q ≡ handle_eth_packet cfg p
unfolding handle_eth_packet
handle_eth_packet-tagged cfg p q t =
    rw
      (
        handle_eth_packet,
        tagged,
        plain,
        t.ether_type,
        by_hw_addr-tagged cfg p q t,
        same_payload p q t,
      )
      refl
  where
    tagged : ntohs_at q 12 == 0x8100 ≡ true
    tagged = rw t.tag refl

    plain : ntohs_at p 12 == 0x8100 ≡ false
    plain = ground (arith, t.untagged)
