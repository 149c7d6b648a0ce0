-- ===== src/ProcInfo/Publish.antt =====
-- What a refresh publishes.
use iftopcolor.Shared.{
  ℕ, ◌≡◌, refl, ◌∙◌, true, List, [], ◌∷◌, ◌++◌, Option, none, some, arith, ◌==◌, if◌then◌else◌,
  take, drop, replicate, Bool, false, ◌&&◌, ◌||◌, Bool-cases, inl, inr,
}
use iftopcolor.AddrHash.{af_inet6, word, bytes_eq}
use iftopcolor.ProcInfo.Defs.{
  v4mapped_prefix, SockEntry, SockTable, ProcInfo, ProcEntry, table_create, table_add, append_entry,
  same_endpoint, find_entry, table_find, table_publish, procinfo_lookup, clipped,
}

-- A socket as a refresh reports it, and the calls that a refresh makes.
pub record Found : Type 0 where
  pub af : ℕ
  pub protocol : ℕ
  pub port : ℕ
  pub addr : List ℕ
  pub pid : ℕ
  pub name : List ℕ

unfoldable pub add_all : SockTable → List Found → SockTable
unfolding table_add
add_all t [] = t
add_all t (f ∷ l) = add_all (table_add true t f.af f.protocol f.port f.addr f.pid f.name) l

-- procinfo_refresh, once the sockets are known
unfoldable pub refreshed : ProcInfo → List Found → ProcInfo
unfolding table_publish table_create add_all
refreshed p l = table_publish (record p { staging = some (add_all table_create l) })

abbrev pub entry_of : Found → SockEntry
entry_of f = record {
  af = f.af;
  protocol = f.protocol;
  port = f.port;
  addr =
      if f.af == 2
      then take 4 f.addr ++ (0 ∷ 0 ∷ 0 ∷ 0 ∷ 0 ∷ 0 ∷ 0 ∷ 0 ∷ 0 ∷ 0 ∷ 0 ∷ 0 ∷ [])
      else take 16 f.addr;
  pid = f.pid;
  name = take 63 f.name;
}

-- An entry's address is an IPv4 address, or any: of IPv4, or mapped into IPv6.
abbrev pub is_at_v4 : List ℕ → SockEntry → Bool
is_at_v4 addr e =
    (e.af == 2 && (bytes_eq (take 4 e.addr) (take 4 addr) || word e.addr 0 == 0))
    || (e.af == af_inet6
        && (bytes_eq (take 12 e.addr) v4mapped_prefix
            && bytes_eq (take 4 (drop 12 e.addr)) (take 4 addr)))

-- It is an IPv6 address, or any.
abbrev pub is_at_v6 : List ℕ → SockEntry → Bool
is_at_v6 addr e = e.af == af_inet6 && (bytes_eq e.addr addr || bytes_eq e.addr (replicate 16 0))

-- An entry is of an endpoint, by its protocol, its port and its address.
abbrev pub is_of : ℕ → List ℕ → ℕ → ℕ → SockEntry → Bool
is_of af addr port protocol e =
    e.protocol == protocol
    && (e.port == port && (if af == 2 then is_at_v4 addr e else af == af_inet6 && is_at_v6 addr e))

is_of-same_endpoint :
    (af : ℕ) (addr : List ℕ) (port protocol : ℕ) (e : SockEntry)
    → same_endpoint af addr port protocol e ≡ is_of af addr port protocol e
unfolding same_endpoint
is_of-same_endpoint af addr port protocol e = ground arith

-- The first socket that has the endpoint.
abbrev pub first_owner : ℕ → List ℕ → ℕ → ℕ → List Found → Option ProcEntry
first_owner af addr port protocol [] = none
first_owner af addr port protocol (f ∷ l) =
    if is_of af addr port protocol (entry_of f)
    then some (record { pid = f.pid; name = take 63 f.name })
    else first_owner af addr port protocol l

module _ (af : ℕ) (addr : List ℕ) (port protocol : ℕ) where
  or_first : Option ProcEntry → Option ProcEntry → Option ProcEntry
  or_first none q = q
  or_first (some p) q = some p

  find_entry-append :
      (l r : List SockEntry)
      → find_entry af addr port protocol (l ++ r)
        ≡ or_first (find_entry af addr port protocol l) (find_entry af addr port protocol r)
  unfolding find_entry or_first
  find_entry-append [] r = refl
  find_entry-append (e ∷ l) r = elim (Bool-cases (same_endpoint af addr port protocol e)) [
    | inl h ↦ rw h refl
    | inr h ↦ rw h (find_entry-append l r)
  ]

  or_first-none : (a : Option ProcEntry) → or_first a none ≡ a
  unfolding or_first
  or_first-none none = refl
  or_first-none (some p) = refl

  find_entry-one :
      (f : Found) (q : Option ProcEntry)
      → or_first (find_entry af addr port protocol (entry_of f ∷ [])) q ≡ (
          if is_of af addr port protocol (entry_of f)
          then some (record { pid = f.pid; name = take 63 f.name })
          else q)
  unfolding find_entry or_first
  find_entry-one f q =
      rw⁻¹ (is_of-same_endpoint af addr port protocol (entry_of f))
        (split (same_endpoint af addr port protocol (entry_of f)))
    where
      split :
          (b : Bool)
          → or_first (if b then some (record { pid = f.pid; name = take 63 f.name }) else none) q
            ≡ (if b then some (record { pid = f.pid; name = take 63 f.name }) else q)
      split true = refl
      split false = refl

  or_first_assoc :
      (a b c : Option ProcEntry) → or_first (or_first a b) c ≡ or_first a (or_first b c)
  unfolding or_first
  or_first_assoc none b c = refl
  or_first_assoc (some p) b c = refl

  table_add-entries :
      (t : SockTable) (f : Found)
      → (table_add true t f.af f.protocol f.port f.addr f.pid f.name).entries
        ≡ t.entries ++ entry_of f ∷ []
  unfolding table_add append_entry clipped
  table_add-entries t f = ground arith

  find_entry-add_all :
      (t : SockTable) (l : List Found)
      → find_entry af addr port protocol (add_all t l).entries
        ≡ or_first
            (find_entry af addr port protocol t.entries)
            (first_owner af addr port protocol l)
  unfolding add_all
  find_entry-add_all t [] = rw (or_first-none (find_entry af addr port protocol t.entries)) refl
  find_entry-add_all t (f ∷ l) =
      find_entry-add_all (table_add true t f.af f.protocol f.port f.addr f.pid f.name) l
      ∙ rw
          (
            table_add-entries t f,
            find_entry-append t.entries (entry_of f ∷ []),
            or_first_assoc (find_entry af addr port protocol t.entries)
                (find_entry af addr port protocol (entry_of f ∷ []))
                (first_owner af addr port protocol l),
            find_entry-one f (first_owner af addr port protocol l),
          )
          refl

  -- After a refresh whose allocations succeed, a lookup of an endpoint answers with the process
  -- and the clipped name of the first socket found that matches it by protocol, port and address,
  -- whatever was published before.
  pub procinfo_lookup-refreshed :
      (p : ProcInfo) (l : List Found)
      → procinfo_lookup (refreshed p l) af addr port protocol ≡ first_owner af addr port protocol l
  unfolding procinfo_lookup refreshed table_publish table_find table_create find_entry or_first
  procinfo_lookup-refreshed p l = find_entry-add_all table_create l
