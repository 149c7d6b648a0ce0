-- ===== src/ServHash/Defs.antt =====
-- The operations of src/data/map/serv_hash.c.
use iftopcolor.Shared.{
  ℕ, ◌+◌, ◌-◌, ◌*◌, ◌%◌, ◌<◌, ◌≡◌, Bool, true, false, ◌&&◌, Option, none, some, arith, ◌==◌, leb,
  if◌then◌else◌,
}
use iftopcolor.Hash.{HashFns, Buckets, hash_find, hash_insert, hash_delete, hash_initialise}
use iftopcolor.Stringmap.{Text}

pub record IpService : Type 0 where
  pub port : ℕ
  pub protocol : ℕ

abbrev pub other_hash_size : ℕ
other_hash_size = 127

-- SERV_NUM_PORTS
abbrev pub serv_num_ports : ℕ
serv_num_ports = 65536

unfoldable pub other_compare : IpService → IpService → Bool
other_compare a b = a.port == b.port && a.protocol == b.protocol

-- The sum is cast to `unsigned` before the remainder.
unfoldable pub other_hash : IpService → ℕ
other_hash s = (s.port * 31 + s.protocol) % 4294967296 % 127

pub other_compare_refl : (a : IpService) → other_compare a a ≡ true
unfolding other_compare
other_compare_refl a = ground arith

pub other_compare_symm : (a b : IpService) → other_compare a b ≡ other_compare b a
unfolding other_compare
other_compare_symm a b = ground arith

pub other_compare_trans :
    (a b c : IpService)
    → other_compare a b ≡ true
    → other_compare b c ≡ true
    → other_compare a c ≡ true
unfolding other_compare
other_compare_trans a b c h k = ground arith

pub other_hash-compare : (a b : IpService) → other_compare a b ≡ true → other_hash a ≡ other_hash b
unfolding other_compare other_hash
other_hash-compare a b h = ground arith

pub other_hash-lt : (a : IpService) → other_hash a < other_hash_size
unfolding other_hash
other_hash-lt a = omega arith

-- What `other_hash_create` sets in the `hash_type`.
instance abbrev pub other_fns : HashFns IpService
other_fns = record {
  compare = other_compare;
  hash = other_hash;
  size = other_hash_size;
  compare_refl = other_compare_refl;
  compare_symm = other_compare_symm;
  compare_trans = other_compare_trans;
  hash-compare = other_hash-compare;
  hash-lt-size = other_hash-lt;
}

-- The arrays are functions of the port, which `serv_slot` keeps below SERV_NUM_PORTS.
pub record ServTable : Type 0 where
  pub tcp : ℕ → Option Text
  pub udp : ℕ → Option Text
  pub other : Buckets IpService Text
  pub count : ℕ

-- The array and the place that `serv_slot` points to.
pub data Slot : Type 0 where
  tcp_slot : ℕ → Slot
  udp_slot : ℕ → Slot

unfoldable pub serv_slot : ℕ → ℕ → Option Slot
serv_slot port protocol =
    if leb serv_num_ports port
    then none
    else if protocol == 6
    then some (tcp_slot port)
    else if protocol == 17
    then some (udp_slot port)
    else none

unfoldable pub read_slot : ServTable → Slot → Option Text
read_slot t (tcp_slot p) = t.tcp p
read_slot t (udp_slot p) = t.udp p

abbrev pub update : (ℕ → Option Text) → ℕ → Option Text → ℕ → Option Text
update f p v q = if p == q then v else f q

unfoldable pub write_slot : ServTable → Slot → Option Text → ServTable
write_slot t (tcp_slot p) v = record t { tcp = update t.tcp p v }
write_slot t (udp_slot p) v = record t { udp = update t.udp p v }

unfoldable pub serv_table_create : ServTable
unfolding hash_initialise
serv_table_create = record { tcp = λ _. none; udp = λ _. none; other = hash_initialise; count = 0 }

-- The service of a port and a protocol, as a key.
abbrev pub service : ℕ → ℕ → IpService
service port protocol = record { port = port; protocol = protocol }

-- An insertion takes the address of the node that the table may need.
unfoldable pub serv_table_insert : ServTable → ℕ → ℕ → ℕ → Text → ServTable
unfolding serv_slot write_slot hash_find hash_delete hash_insert
serv_table_insert t addr port protocol name = elim (serv_slot port protocol) [
  | some slot ↦
      let u : ServTable = write_slot t slot (some name) in record u { count = t.count + 1 }
  | none ↦
      let key = service port protocol in
      let cleared : Buckets IpService Text = elim (hash_find t.other key) [
        | some existing ↦ (hash_delete t.other key).1
        | none ↦ t.other
      ] in
      record t { other = (hash_insert cleared addr key name).1; count = t.count + 1 }
]

unfoldable pub serv_table_lookup : ServTable → ℕ → ℕ → Option Text
unfolding serv_slot read_slot hash_find
serv_table_lookup t port protocol = elim (serv_slot port protocol) [
  | some slot ↦ read_slot t slot
  | none ↦ hash_find t.other (service port protocol)
]

-- The `int` that is returned says whether there was a name.
unfoldable pub serv_table_delete : ServTable → ℕ → ℕ → ServTable × Bool
unfolding serv_slot read_slot write_slot hash_find hash_delete
serv_table_delete t port protocol = elim (serv_slot port protocol) [
  | some slot ↦ elim (read_slot t slot) [
    | none ↦ (t, false)
    | some name ↦
        let u : ServTable = write_slot t slot none in (record u { count = t.count - 1 }, true)
  ]
  | none ↦ elim (hash_find t.other (service port protocol)) [
    | none ↦ (t, false)
    | some existing ↦ (
      record t { other = (hash_delete t.other (service port protocol)).1; count = t.count - 1 },
      true,
    )
  ]
]
