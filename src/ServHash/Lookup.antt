-- ===== src/ServHash/Lookup.antt =====
-- The table as a dictionary of services.
use iftopcolor.Shared.{
  ℕ, ◌+◌, ◌-◌, ◌≡◌, refl, ◌∙◌, Bool, true, false, Option, none, some, arith, if◌then◌else◌,
  Option-cases, inl, inr, ◌⊎◌,
}
use iftopcolor.Hash.{Buckets, hash_find, hash_insert, hash_delete}
use iftopcolor.Hash.Replace.{
  IsMap, without, without-IsMap, hash_find-without, hash_find-without_self, hash_insert-IsMap,
  hash_find-hash_insert, hash_initialise-IsMap,
}
use iftopcolor.Stringmap.{Text}
use iftopcolor.ServHash.Defs.{
  IpService, other_fns, other_compare, ServTable, serv_slot, Slot, tcp_slot, udp_slot, read_slot,
  write_slot, serv_table_create, serv_table_insert, serv_table_lookup, serv_table_delete, service,
}

pub serv_table_create-IsMap : IsMap serv_table_create.other
unfolding serv_table_create
serv_table_create-IsMap = hash_initialise-IsMap

abbrev pub is_found : Option Text → Bool
is_found none = false
is_found (some x) = true

-- Two services have one slot exactly if they are the same.
slot_same :
    (t : ServTable) (p pr q qr : ℕ) (s r : Slot) (v : Option Text)
    → serv_slot p pr ≡ some s
    → serv_slot q qr ≡ some r
    → read_slot (write_slot t s v) r
      ≡ (if other_compare (service p pr) (service q qr) then v else read_slot t r)
unfolding serv_slot read_slot write_slot other_compare
slot_same t p pr q qr s r v e f = ground arith

slot_apart :
    (p pr q qr : ℕ) (s : Slot)
    → ((serv_slot p pr ≡ some s) × (serv_slot q qr ≡ none))
      ⊎ ((serv_slot p pr ≡ none) × (serv_slot q qr ≡ some s))
    → other_compare (service p pr) (service q qr) ≡ false
unfolding serv_slot other_compare
slot_apart p pr q qr s h = ground arith

-- `serv_table_lookup` reads one array or the hash table.
write_slot-other : (t : ServTable) (s : Slot) (v : Option Text) → (write_slot t s v).other ≡ t.other
unfolding write_slot
write_slot-other t (tcp_slot p) v = refl
write_slot-other t (udp_slot p) v = refl

read_slot_other :
    (t : ServTable) (o : Buckets IpService Text) (n : ℕ) (r : Slot)
    → read_slot (record t { other = o; count = n }) r ≡ read_slot t r
unfolding read_slot
read_slot_other t o n (tcp_slot p) = refl
read_slot_other t o n (udp_slot p) = refl

read_slot_count :
    (t : ServTable) (n : ℕ) (r : Slot) → read_slot (record t { count = n }) r ≡ read_slot t r
unfolding read_slot
read_slot_count t n (tcp_slot p) = refl
read_slot_count t n (udp_slot p) = refl

-- A lookup in a table that differs from `t` in one slot or in its hash part.
module _ (t : ServTable) (p pr q qr : ℕ) (v : Option Text) where
  abbrev same : Bool
  same = other_compare (service p pr) (service q qr)

  lookup-write_slot :
      (s : Slot) (n : ℕ)
      → serv_slot p pr ≡ some s
      → serv_table_lookup (record (write_slot t s v) { count = n }) q qr
        ≡ (if same then v else serv_table_lookup t q qr)
  unfolding serv_table_lookup
  lookup-write_slot s n e = elim (Option-cases (serv_slot q qr)) [
    | inl f ↦ rw (serv_table_lookup, f, write_slot-other t s v, slot_apart p pr q qr s (inl (e, f)))
    | inr (r, f) ↦
        rw (serv_table_lookup, f, read_slot_count (write_slot t s v) n r)
          (slot_same t p pr q qr s r v e f)
  ]

  lookup-other :
      (o : Buckets IpService Text) (n : ℕ)
      → serv_slot p pr ≡ none
      → hash_find o (service q qr) ≡ (if same then v else hash_find t.other (service q qr))
      → serv_table_lookup (record t { other = o; count = n }) q qr
        ≡ (if same then v else serv_table_lookup t q qr)
  unfolding serv_table_lookup
  lookup-other o n e found = elim (Option-cases (serv_slot q qr)) [
    | inl f ↦ rw (serv_table_lookup, f) found
    | inr (r, f) ↦
        rw (serv_table_lookup, f, read_slot_other t o n r, slot_apart p pr q qr r (inr (e, f)))
  ]

lookup_same :
    (t : ServTable) (p pr q qr : ℕ)
    → other_compare (service p pr) (service q qr) ≡ true
    → serv_table_lookup t q qr ≡ serv_table_lookup t p pr
unfolding other_compare
lookup_same t p pr q qr e = ground arith

-- What a lookup does with the two parts of the table.
lookup_slot :
    (t : ServTable) (p pr : ℕ) (s : Slot)
    → serv_slot p pr ≡ some s
    → serv_table_lookup t p pr ≡ read_slot t s
unfolding serv_table_lookup
lookup_slot t p pr s e = rw (serv_table_lookup, e)

lookup_hash :
    (t : ServTable) (p pr : ℕ)
    → serv_slot p pr ≡ none
    → serv_table_lookup t p pr ≡ hash_find t.other (service p pr)
unfolding serv_table_lookup
lookup_hash t p pr e = rw (serv_table_lookup, e)

-- After serv_table_insert of a name for a port and a protocol, a lookup of that service finds the
-- name and a lookup of any other service what it found before, through the arrays and the hash
-- part alike, and the hash part keeps at most one record per key, if it did.
pub serv_table_insert-lookup :
    (t : ServTable) (addr p pr q qr : ℕ) (name : Text)
    → IsMap t.other
    → IsMap (serv_table_insert t addr p pr name).other
      × (serv_table_lookup (serv_table_insert t addr p pr name) q qr ≡ (
          if other_compare (service p pr) (service q qr)
          then some name
          else serv_table_lookup t q qr))
unfolding serv_table_insert
serv_table_insert-lookup t addr p pr q qr name v = elim (Option-cases (serv_slot p pr)) [
  | inr (s, e) ↦
      rw (serv_table_insert, e)
        (
          rw (write_slot-other t s (some name)) v,
          lookup-write_slot t p pr q qr (some name) s (t.count + 1) e,
        )
  | inl e ↦
      let k = service p pr in
      let w = without t.other k in
      let vw = without-IsMap t.other k v in
      let gone = hash_find-without_self t.other k v in
      rw (serv_table_insert, e)
        (
          hash_insert-IsMap w vw k gone addr name,
          lookup-other t p pr q qr (some name) (hash_insert w addr k name).1 (t.count + 1) e (
              hash_find-hash_insert w vw k gone addr name (service q qr)
              ∙ rw (hash_find-without t.other v k (service q qr)) (ground arith)),
        )
]

-- serv_table_delete says whether the service had a name; afterwards a lookup of it finds nothing
-- and a lookup of any other service what it found before, and the hash part keeps at most one
-- record per key, if it did.
pub serv_table_delete-lookup :
    (t : ServTable) (p pr q qr : ℕ)
    → IsMap t.other
    → let r = serv_table_delete t p pr in
      IsMap r.0.other
      × (r.1 ≡ is_found (serv_table_lookup t p pr))
      × (serv_table_lookup r.0 q qr ≡ (
          if other_compare (service p pr) (service q qr) then none else serv_table_lookup t q qr))
unfolding serv_table_delete
serv_table_delete-lookup t p pr q qr v = elim (Option-cases (serv_slot p pr)) [
  | inr (s, e) ↦ elim (Option-cases (read_slot t s)) [
    | inl f ↦
        let missing = lookup_slot t p pr s e ∙ f in
        rw (serv_table_delete, e, f) (v, rw missing, absent missing)
    | inr (x, f) ↦
        rw (serv_table_delete, e, f)
          (
            rw (write_slot-other t s none) v,
            rw (lookup_slot t p pr s e, f),
            lookup-write_slot t p pr q qr none s (t.count - 1) e,
          )
  ]
  | inl e ↦ elim (Option-cases (hash_find t.other (service p pr))) [
    | inl f ↦
        let missing = lookup_hash t p pr e ∙ f in
        rw (serv_table_delete, e, f) (v, rw missing, absent missing)
    | inr (x, f) ↦
        rw (serv_table_delete, e, f)
          (
            taken x f v,
            rw (lookup_hash t p pr e, f),
            lookup-other t p pr q qr none (hash_delete t.other (service p pr)).1 (t.count - 1) e
                (gone x f),
          )
  ]
]
  where
    absent :
        serv_table_lookup t p pr ≡ none
        → serv_table_lookup t q qr
          ≡ (if other_compare (service p pr) (service q qr) then none else serv_table_lookup t q qr)
    absent missing = ground (arith, lookup_same t p pr q qr)

    taken :
        (x : Text)
        → hash_find t.other (service p pr) ≡ some x
        → IsMap t.other
        → IsMap (hash_delete t.other (service p pr)).1
    taken x f w = rw (without, f) at (without-IsMap t.other (service p pr) w)

    gone :
        (x : Text)
        → hash_find t.other (service p pr) ≡ some x
        → hash_find (hash_delete t.other (service p pr)).1 (service q qr) ≡ (
            if other_compare (service p pr) (service q qr)
            then none
            else hash_find t.other (service q qr))
    gone x f = rw (without, f) at (hash_find-without t.other v (service p pr) (service q qr))
