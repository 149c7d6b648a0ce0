-- ===== src/Tests/Frames.antt =====
-- The Ethernet handler at a frame with an IPv4 packet, plain and tagged.
use iftopcolor.Shared.{
  ℕ, ◌+◌, ◌-◌, ◌≡◌, refl, [], ◌∷◌, arith, false, ltb, ◌==◌, if◌then◌else◌, get_or,
}
use iftopcolor.Packet.{Memory, handle_eth_packet, bytes_at}
use iftopcolor.Packet.Vlan.{Tags, handle_eth_packet-tagged}
use iftopcolor.Tests.Packets.{plain}

abbrev frame : Memory
frame i = get_or (1 ∷ 1 ∷ 1 ∷ 1 ∷ 1 ∷ 1 ∷ 2 ∷ 2 ∷ 2 ∷ 2 ∷ 2 ∷ 2 ∷ 8 ∷ 0 ∷ 69 ∷ 0 ∷ 0 ∷ 60 ∷ []) i 0

-- A frame with the tag of network 7.
with_tag : Memory → Memory
with_tag p i =
    if ltb i 12
    then p i
    else if i == 12
    then 129
    else if i == 13
    then 0
    else if i == 14
    then 0
    else if i == 15
    then 7
    else p (i - 4)

with_tag-payload : (p : Memory) (i : ℕ) → with_tag p (18 + i) ≡ p (14 + i)
unfolding with_tag
with_tag-payload p i =
    let back : 18 + i - 4 ≡ 14 + i = omega arith in
    let a : ltb (18 + i) 12 ≡ false = ground arith in
    let b : 18 + i == 12 ≡ false = ground arith in
    let c : 18 + i == 13 ≡ false = ground arith in
    let d : 18 + i == 14 ≡ false = ground arith in
    let e : 18 + i == 15 ≡ false = ground arith in rw (with_tag, a, b, c, d, e, back) refl

frame-Tags : Tags frame (with_tag frame)
unfolding bytes_at with_tag
frame-Tags = record {
  dhost = refl;
  shost = refl;
  tag = refl;
  ether_type = refl;
  untagged = λ e. absurd (omega (arith, e));
  payload = with_tag-payload frame;
}

handle_eth_packet-tagged_example :
    handle_eth_packet plain (with_tag frame) ≡ handle_eth_packet plain frame
handle_eth_packet-tagged_example = handle_eth_packet-tagged plain frame (with_tag frame) frame-Tags
