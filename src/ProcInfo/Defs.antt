-- ===== src/ProcInfo/Defs.antt =====
-- The tables of src/util/procinfo.c. Reading /proc is not part of them: a refresh is the sequence of
-- `table_add` calls that it makes.
use iftopcolor.Shared.{
  ℕ, ◌*◌, Bool, false, ◌&&◌, ◌||◌, not, List, [], ◌∷◌, ◌++◌, Option, none, some, ◌==◌, leb,
  if◌then◌else◌, take, drop, length, replicate,
}
use iftopcolor.AddrHash.{af_inet, af_inet6, word, bytes_eq}

-- PROCINFO_NAME_MAX
abbrev pub proc_name_max : ℕ
proc_name_max = 64

-- `sock_entry`. An address has 16 bytes, of which AF_INET uses the first 4.
pub record SockEntry : Type 0 where
  pub af : ℕ
  pub protocol : ℕ
  pub port : ℕ
  pub addr : List ℕ
  pub pid : ℕ
  pub name : List ℕ

-- `count` is the length of the entries.
pub record SockTable : Type 0 where
  pub entries : List SockEntry
  pub cap : ℕ

-- `live_table` and `staging_table`; `none` is NULL.
pub record ProcInfo : Type 0 where
  pub live : Option SockTable
  pub staging : Option SockTable

pub record ProcEntry : Type 0 where
  pub pid : ℕ
  pub name : List ℕ

unfoldable pub table_create : SockTable
table_create = record { entries = []; cap = 0 }

-- strncpy of a name and the terminating 0 behind it
unfoldable pub clipped : List ℕ → List ℕ
clipped name = take 63 name

unfoldable pub append_entry : SockTable → ℕ → ℕ → ℕ → List ℕ → ℕ → List ℕ → SockTable
unfolding clipped
append_entry t af protocol port addr pid name =
    let e : SockEntry = record {
      af = af;
      protocol = protocol;
      port = port;
      addr = if af == af_inet then take 4 addr ++ replicate 12 0 else take 16 addr;
      pid = pid;
      name = clipped name;
    } in
    record t { entries = t.entries ++ e ∷ [] }

-- table_add; `got` says whether `realloc` returns memory.
unfoldable pub table_add : Bool → SockTable → ℕ → ℕ → ℕ → List ℕ → ℕ → List ℕ → SockTable
unfolding append_entry
table_add got t af protocol port addr pid name =
    if leb t.cap (length t.entries)
    then if got
      then append_entry (record t { cap = if t.cap == 0 then 512 else t.cap * 2 }) af protocol port
          addr pid name
      else record { entries = []; cap = 0 }
    else append_entry t af protocol port addr pid name

-- `v4mapped_prefix`
abbrev pub v4mapped_prefix : List ℕ
v4mapped_prefix = replicate 10 0 ++ 255 ∷ 255 ∷ []

-- The three tests on an entry, for an address that the caller holds in 16 bytes.
unfoldable pub same_endpoint : ℕ → List ℕ → ℕ → ℕ → SockEntry → Bool
unfolding word bytes_eq
same_endpoint af addr port protocol e =
    if not (e.port == port) || not (e.protocol == protocol)
    then false
    else (e.af == af
        && (if af == af_inet
            then bytes_eq (take 4 e.addr) (take 4 addr) || word e.addr 0 == 0
            else af == af_inet6 && (bytes_eq e.addr addr || bytes_eq e.addr (replicate 16 0))))
      || (af == af_inet
          && e.af == af_inet6
          && bytes_eq (take 12 e.addr) v4mapped_prefix
          && bytes_eq (take 4 (drop 12 e.addr)) (take 4 addr))

unfoldable pub find_entry : ℕ → List ℕ → ℕ → ℕ → List SockEntry → Option ProcEntry
unfolding same_endpoint
find_entry af addr port protocol [] = none
find_entry af addr port protocol (e ∷ l) =
    if same_endpoint af addr port protocol e
    then some (record { pid = e.pid; name = e.name })
    else find_entry af addr port protocol l

unfoldable pub table_find : Option SockTable → ℕ → List ℕ → ℕ → ℕ → Option ProcEntry
unfolding find_entry
table_find none af addr port protocol = none
table_find (some t) af addr port protocol = find_entry af addr port protocol t.entries

-- table_publish: the staging table becomes the live one; the old live table is freed.
unfoldable pub table_publish : ProcInfo → ProcInfo
table_publish p = record { live = p.staging; staging = none }

unfoldable pub procinfo_lookup : ProcInfo → ℕ → List ℕ → ℕ → ℕ → Option ProcEntry
unfolding table_find
procinfo_lookup p af addr port protocol = table_find p.live af addr port protocol

unfoldable pub procinfo_destroy : ProcInfo → ProcInfo
procinfo_destroy p = record { live = none; staging = none }
