-- ===== src/Packet/Charges.antt =====
-- The bytes that a packet adds to a record, and the record's process, apart from the code.
use iftopcolor.Shared.{
  ℕ, zero, suc, ◌+◌, ◌%◌, ◌^◌, ◌≡◌, refl, ap, Bool, true, false, ◌&&◌, ◌==◌, List, [], ◌∷◌, Option,
  none, some, arith, if◌then◌else◌, take,
}
use iftopcolor.AddrHash.{AddrPair, bytes_eq}
use iftopcolor.History.{History}
use iftopcolor.ProcInfo.{ProcEntry}
use iftopcolor.Packet.Headers.{Memory, ntohs_at, ip_v, ip_src, ip6_src}
use iftopcolor.Packet.Defs.{label, charge, add_at, sent_by_src, packet_len}

-- A record with a process, if there is one, and the first 63 bytes of its name.
abbrev pub labelled : Option ProcEntry → History → History
labelled none h = h
labelled (some pe) h = record h {
  proc_resolved = true;
  proc_pid = pe.pid;
  proc_name = take 63 pe.name;
}

pub label_lem : (o : Option ProcEntry) (h : History) → label o h ≡ labelled o h
unfolding label
label_lem none h = refl
label_lem (some pe) h = refl

-- A number added in one place of a list.
abbrev pub add_in_slot : ℕ → ℕ → List ℕ → List ℕ
add_in_slot i n [] = []
add_in_slot zero n (x ∷ xs) = (x + n) ∷ xs
add_in_slot (suc i) n (x ∷ xs) = x ∷ add_in_slot i n xs

add_at-add_in_slot : (l : List ℕ) (i n : ℕ) → add_at l i n ≡ add_in_slot i n l
add_at-add_in_slot [] zero n = refl
add_at-add_in_slot [] (suc i) n = refl
add_at-add_in_slot (x ∷ xs) zero n = refl
add_at-add_in_slot (x ∷ xs) (suc i) n = ap (◌∷◌ x) (add_at-add_in_slot xs i n)

-- Some bytes more in one slot of a record and in its total, sent or received.
abbrev pub counted : ℕ → Bool → ℕ → History → History
counted pos sent len h = record h {
  sent = if sent then add_in_slot pos len h.sent else h.sent;
  total_sent = if sent then (h.total_sent + len) % 2 ^ 64 else h.total_sent;
  recv = if sent then h.recv else add_in_slot pos len h.recv;
  total_recv = if sent then h.total_recv else (h.total_recv + len) % 2 ^ 64;
}

pub charge-counted :
    (pos : ℕ) (sent : Bool) (len : ℕ) (h : History) → charge pos sent len h ≡ counted pos sent len h
unfolding charge
charge-counted pos true len h = rw (add_at-add_in_slot h.sent pos len) refl
charge-counted pos false len h = rw (add_at-add_in_slot h.recv pos len) refl

-- The packet's source is the source of the pair.
abbrev pub comes_from_src : Memory → AddrPair → Bool
comes_from_src p ap =
    if ip_v p == 4
    then bytes_eq (ip_src p) (take 4 ap.src)
    else ip_v p == 6 && bytes_eq (ip6_src p) ap.src

pub sent_by_src_lem : (p : Memory) (ap : AddrPair) → sent_by_src p ap ≡ comes_from_src p ap
unfolding sent_by_src
sent_by_src_lem p ap = ground arith

-- The packet's length: the total length of IPv4, or the payload's and the header's of IPv6.
abbrev pub length_of : Memory → ℕ
length_of p = if ip_v p == 4 then ntohs_at p 2 else 40 + ntohs_at p 4

pub packet_len_lem : (p : Memory) → packet_len p ≡ length_of p
unfolding packet_len
packet_len_lem p = ground arith
