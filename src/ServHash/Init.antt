-- ===== src/ServHash/Init.antt =====
-- serv_table_init and serv_table_destroy of src/data/map/serv_hash.c: the table is filled from the
-- entries that `getservent` gives one after the other, until it gives NULL. `getprotobyname` and
-- `ntohs` are the system's.
use iftopcolor.Shared.{
  ℕ, suc, zero, ◌+◌, ◌≡◌, refl, ◌∙◌, Bool, true, false, Option, none, some, List, [], ◌∷◌, ◌++◌,
  if◌then◌else◌, Option-cases, inl, inr,
}
use iftopcolor.Hash.{hash_delete_all_free}
use iftopcolor.Hash.Replace.{IsMap}
use iftopcolor.Stringmap.{Text}
use iftopcolor.ServHash.Defs.{
  ServTable, other_fns, other_compare, service, serv_num_ports, serv_table_insert,
  serv_table_lookup,
}
use iftopcolor.ServHash.Lookup.{serv_table_insert-lookup}

-- The fields of a `struct servent` that are read.
pub record Servent : Type 0 where
  pub s_name : Text
  pub s_port : ℕ
  pub s_proto : Text

-- What `free` is given: NULL is not freed.
unfoldable pub free_name : Option Text → List Text → List Text
free_name none names = names
free_name (some name) names = name ∷ names

-- The loop over the ports: the names of `n` ports from `i` on, in the order of the calls.
unfoldable pub free_slots : ℕ → ServTable → ℕ → List Text
unfolding free_name
free_slots zero t i = []
free_slots (suc n) t i = free_name (t.tcp i) (free_name (t.udp i) (free_slots n t (i + 1)))

-- The names that are freed, and the addresses of the nodes that are.
unfoldable pub serv_table_destroy : ServTable → List Text × List ℕ
unfolding free_slots hash_delete_all_free
serv_table_destroy t =
    let (others, nodes, names) = hash_delete_all_free t.other in
    (free_slots serv_num_ports t 0 ++ names, nodes)

module _ (getprotobyname : Text → Option ℕ) (ntohs : ℕ → ℕ) where
  -- The body of the loop. An insertion takes the address of the node that the table may need.
  unfoldable pub init_entry : Servent → ServTable → ℕ → ServTable
  unfolding serv_table_insert
  init_entry ent t addr = elim (getprotobyname ent.s_proto) [
    | none ↦ t
    | some proto ↦ serv_table_insert t addr (ntohs ent.s_port) proto ent.s_name
  ]

  -- Each round has an address of its own.
  unfoldable pub serv_table_init : List Servent → ServTable → ℕ → ServTable
  unfolding init_entry
  serv_table_init [] t addr = t
  serv_table_init (ent ∷ ents) t addr = serv_table_init ents (init_entry ent t addr) (addr + 1)

unfoldable pub or_name : Option Text → Option Text → Option Text
or_name none old = old
or_name (some name) old = some name

or_name_assoc : (a b c : Option Text) → or_name a (or_name b c) ≡ or_name (or_name a b) c
unfolding or_name
or_name_assoc none b c = refl
or_name_assoc (some x) b c = refl

chosen :
    (b : Bool) (name : Text) (old : Option Text)
    → (if b then some name else old) ≡ or_name (if b then some name else none) old
unfolding or_name
chosen true name old = refl
chosen false name old = refl

module _ (getprotobyname : Text → Option ℕ) (ntohs : ℕ → ℕ) where
  -- The name that an entry gives to a service.
  unfoldable pub names_it : Servent → ℕ → ℕ → Option Text
  names_it ent q qr = elim (getprotobyname ent.s_proto) [
    | none ↦ none
    | some proto ↦
        if other_compare (service (ntohs ent.s_port) proto) (service q qr)
        then some ent.s_name
        else none
  ]

  -- The name that the last of the entries for a service gives to it.
  unfoldable pub last_name : List Servent → ℕ → ℕ → Option Text
  unfolding or_name names_it
  last_name [] q qr = none
  last_name (ent ∷ ents) q qr = or_name (last_name ents q qr) (names_it ent q qr)

  init_entry-lookup :
      (ent : Servent) (t : ServTable) (addr q qr : ℕ)
      → IsMap t.other
      → let u = init_entry getprotobyname ntohs ent t addr in
        IsMap u.other
        × (serv_table_lookup u q qr ≡ or_name (names_it ent q qr) (serv_table_lookup t q qr))
  unfolding init_entry names_it or_name
  init_entry-lookup ent t addr q qr v = elim (Option-cases (getprotobyname ent.s_proto)) [
    | inl e ↦ rw (init_entry, names_it, e) (v, refl)
    | inr (proto, e) ↦
        let port = ntohs ent.s_port in
        let (w, f) = serv_table_insert-lookup t addr port proto q qr ent.s_name v in
        rw (init_entry, names_it, e)
          (
            w,
            f
                ∙ chosen (other_compare (service port proto) (service q qr)) ent.s_name
                    (serv_table_lookup t q qr),
          )
  ]

  -- In a table whose hash part has at most one record per key: after serv_table_init, a lookup of
  -- a port and a protocol finds the name of the last entry that getservent gave for them, in host
  -- order and with a protocol that is known, and if there is none, what it found before, through
  -- the arrays and the hash part alike. The hash part still has at most one record per key.
  pub serv_table_init-lookup :
      (ents : List Servent) (t : ServTable) (addr q qr : ℕ)
      → IsMap t.other
      → let u = serv_table_init getprotobyname ntohs ents t addr in
        IsMap u.other
        × (serv_table_lookup u q qr ≡ or_name (last_name ents q qr) (serv_table_lookup t q qr))
  unfolding serv_table_init last_name or_name
  serv_table_init-lookup [] t addr q qr v = (v, refl)
  serv_table_init-lookup (ent ∷ ents) t addr q qr v =
      let (w, f) = init_entry-lookup ent t addr q qr v in
      let u = init_entry getprotobyname ntohs ent t addr in
      let (x, g) = serv_table_init-lookup ents u (addr + 1) q qr w in
      (
        x,
        g
            ∙ rw f (
                or_name_assoc (last_name ents q qr) (names_it ent q qr) (serv_table_lookup t q qr)),
      )
