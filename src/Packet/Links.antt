-- ===== src/Packet/Links.antt =====
-- The link layers of src/entry/iftop.c: where each handler finds the IP header, and the direction
-- that it reads off the hardware addresses.
use Prim.Native.Nat.{bit_and}
use iftopcolor.Shared.{
  ℕ, ◌+◌, ◌*◌, ◌/◌, Bool, true, ◌&&◌, ◌||◌, List, Option, none, some, ◌==◌, ltb, if◌then◌else◌,
  replicate,
}
use iftopcolor.AddrHash.{bytes_eq}
use iftopcolor.Packet.Headers.{Memory, skip, bytes_at, ntohs_at, Config}
use iftopcolor.Packet.Defs.{HwDir, unknown, incoming, outgoing}

-- The call of `handle_ip_packet` that a handler makes, if it makes one.
abbrev pub IpCall : Type 0
IpCall = Option (Memory × HwDir)

unfoldable pub handle_raw_packet : Memory → IpCall
handle_raw_packet p = some (p, unknown)

-- BPF_WORDALIGN is a macro of libpcap.
unfoldable pub handle_pflog_packet : (bpf_wordalign : ℕ → ℕ) → Memory → IpCall
handle_pflog_packet bpf_wordalign p = some (skip (bpf_wordalign (p 0)) p, unknown)

unfoldable pub handle_null_packet : Memory → IpCall
handle_null_packet p = some (skip 4 p, unknown)

-- EXTRACT_24BITS
abbrev pub extract_24bits : Memory → ℕ → ℕ
extract_24bits p i = p i * 65536 + p (i + 1) * 256 + p (i + 2)

-- OUI_ENCAP_ETHER, OUI_CISCO_90, OUI_APPLETALK, ETHERTYPE_ATALK, LLCSAP_SNAP, LLC_UI
unfoldable pub handle_llc_packet : Memory → HwDir → IpCall
handle_llc_packet llc dir =
    let orgcode = extract_24bits llc 3 in
    if llc 1 == 0xaa && llc 0 == 0xaa && llc 2 == 3
    then if orgcode == 0 || orgcode == 0xf8
      then some (skip 8 llc, dir)
      else if orgcode == 0x080007 && ntohs_at llc 6 == 0x809b
      then some (skip 8 llc, dir)
      else none
    else none

abbrev pub broadcast : List ℕ
broadcast = replicate 6 255

-- The direction by two hardware addresses at their offsets.
unfoldable pub by_hw_addr : Bool → List ℕ → Memory → ℕ → ℕ → HwDir
by_hw_addr have if_hw_addr p shost dhost =
    if have && bytes_eq (bytes_at p shost 6) if_hw_addr
    then outgoing
    else if (have && bytes_eq (bytes_at p dhost 6) if_hw_addr)
        || bytes_eq broadcast (bytes_at p dhost 6)
    then incoming
    else unknown

-- A source-routed frame has RIF_LENGTH more bytes. The token ring handler does not ask for
-- `have_hw_addr`.
unfoldable pub handle_tokenring_packet : Config → Memory → IpCall
handle_tokenring_packet cfg p =
    let rif : ℕ = if ltb (bit_and (p 8) 0x80) 1 then 0 else bit_and (ntohs_at p 14) 0x1f00 / 256 in
    if bit_and (p 1) 0xc0 / 64 == 1
    then handle_llc_packet (skip (rif + 14) p) (by_hw_addr true cfg.if_hw_addr p 8 2)
    else none

-- PPP_ADDRESS, PPP_IP, ETHERTYPE_IP, ETHERTYPE_IPV6
unfoldable pub handle_ppp_packet : ℕ → Memory → IpCall
handle_ppp_packet caplen p =
    let proto = ntohs_at p 2 in
    if ltb caplen 2
    then none
    else if p 0 == 0xff
    then if ltb caplen 4
      then none
      else if proto == 0x21 || proto == 0x800 || proto == 0x86dd
      then some (skip 4 p, unknown)
      else none
    else none

-- LINUX_SLL_HOST and LINUX_SLL_OUTGOING
unfoldable pub handle_cooked_packet : Memory → IpCall
handle_cooked_packet p =
    let pkttype = ntohs_at p 0 in
    some (skip 16 p, if pkttype == 0 then incoming else if pkttype == 4 then outgoing else unknown)

-- The handler behind its `tick(0)`.
unfoldable pub handle_eth_packet : Config → Memory → IpCall
handle_eth_packet cfg p =
    let vlan : Bool = ntohs_at p 12 == 0x8100 in
    let ether_type : ℕ = if vlan then ntohs_at p 16 else ntohs_at p 12 in
    let payload : ℕ = if vlan then 18 else 14 in
    if ether_type == 0x800 || ether_type == 0x86dd
    then some (skip payload p, by_hw_addr cfg.have_hw_addr cfg.if_hw_addr p 6 0)
    else none

-- `it_len` is read in the byte order of the host, which is taken to be little-endian.
unfoldable pub handle_radiotap_packet : Memory → IpCall
handle_radiotap_packet p = some (skip (p 2 + 256 * p 3 + 34) p, unknown)
