-- ===== src/ProcInfo/Linux.antt =====
-- The refresh on Linux: the sockets of /proc/net by their inodes, and the descriptors of the
-- processes. What `sscanf` reads of a line and `readlink` of a link is the input, in the order in
-- which the files and directories list it; `realloc` and `malloc` succeed.
use iftopcolor.Shared.{
  ℕ, ◌*◌, ◌/◌, ◌%◌, ◌^◌, true, ◌||◌, List, [], ◌∷◌, ◌++◌, Option, none, some, ◌==◌, ltb, leb,
  if◌then◌else◌, length,
}
use iftopcolor.AddrHash.{af_inet, af_inet6}
use iftopcolor.ProcInfo.Defs.{SockTable, ProcInfo, table_create, table_add, table_publish}

-- `inode_entry`, with the bytes of the address.
pub record InodeEntry : Type 0 where
  pub inode : ℕ
  pub af : ℕ
  pub protocol : ℕ
  pub port : ℕ
  pub addr : List ℕ

-- `inode_table`, of `inode_count` entries, and `inode_cap`.
pub record InodeTable : Type 0 where
  pub entries : List InodeEntry
  pub cap : ℕ

-- inode_table_clear
unfoldable pub inode_table_clear : InodeTable → InodeTable
inode_table_clear t = record t { entries = [] }

unfoldable pub inode_table_add : InodeTable → InodeEntry → InodeTable
inode_table_add t e = record {
  entries = t.entries ++ e ∷ [];
  cap = if leb t.cap (length t.entries) then (if t.cap == 0 then 1024 else t.cap * 2) else t.cap;
}

unfoldable pub inode_table_find : List InodeEntry → ℕ → Option InodeEntry
inode_table_find [] inode = none
inode_table_find (e ∷ l) inode = if e.inode == inode then some e else inode_table_find l inode

-- A line of /proc/net: how many fields `sscanf` has read, and the address in words, one for IPv4 and
-- four for IPv6.
pub record SocketLine : Type 0 where
  pub matched : ℕ
  pub words : List ℕ
  pub local_port : ℕ
  pub inode : ℕ

-- A word in memory, on a little-endian machine.
abbrev pub little_endian : ℕ → List ℕ
little_endian w = w % 256 ∷ w / 2 ^ 8 % 256 ∷ w / 2 ^ 16 % 256 ∷ w / 2 ^ 24 % 256 ∷ []

unfoldable pub word_bytes : List ℕ → List ℕ
word_bytes [] = []
word_bytes (w ∷ l) = little_endian w ++ word_bytes l

-- The loop over the lines, below the first one.
unfoldable pub parse_lines : ℕ → ℕ → List SocketLine → InodeTable → InodeTable
parse_lines af protocol [] t = t
parse_lines af protocol (l ∷ lines) t = parse_lines af protocol lines (
    if ltb l.matched 6 || l.inode == 0
    then t
    else inode_table_add t (record {
      inode = l.inode;
      af = af;
      protocol = protocol;
      port = l.local_port % 2 ^ 16;
      addr = word_bytes l.words;
    }))

-- `none` is a file that cannot be opened or has no first line.
unfoldable pub parse_proc_net : ℕ → ℕ → Option (List SocketLine) → InodeTable → InodeTable
parse_proc_net af protocol none t = t
parse_proc_net af protocol (some lines) t = parse_lines af protocol lines t

-- A directory of /proc whose name is a positive number and whose descriptors can be listed: the name
-- that get_proc_name finds, and, for each descriptor, the inode if it is a socket.
pub record Process : Type 0 where
  pub pid : ℕ
  pub name : List ℕ
  pub fds : List (Option ℕ)

-- The files that a refresh reads; `none` for a directory that cannot be opened.
pub record ProcFs : Type 0 where
  pub tcp : Option (List SocketLine)
  pub tcp6 : Option (List SocketLine)
  pub udp : Option (List SocketLine)
  pub udp6 : Option (List SocketLine)
  pub processes : Option (List Process)

-- The inner loop, over the descriptors of a process.
unfoldable pub add_fds : List InodeEntry → Process → List (Option ℕ) → SockTable → SockTable
add_fds inodes p [] t = t
add_fds inodes p (none ∷ fds) t = add_fds inodes p fds t
add_fds inodes p (some inode ∷ fds) t = elim (inode_table_find inodes inode) [
  | none ↦ add_fds inodes p fds t
  | some e ↦ add_fds inodes p fds (table_add true t e.af e.protocol e.port e.addr p.pid p.name)
]

-- The outer loop.
unfoldable pub add_processes : List InodeEntry → List Process → SockTable → SockTable
add_processes inodes [] t = t
add_processes inodes (p ∷ l) t = add_processes inodes l (add_fds inodes p p.fds t)

-- The four files: protocols 6 and 17.
unfoldable pub parse_all : ProcFs → InodeTable → InodeTable
parse_all fs t = parse_proc_net af_inet6 17 fs.udp6 (
    parse_proc_net af_inet 17 fs.udp
      (parse_proc_net af_inet6 6 fs.tcp6 (parse_proc_net af_inet 6 fs.tcp (inode_table_clear t))))

unfoldable pub procinfo_refresh : ProcFs → InodeTable → ProcInfo → ProcInfo × InodeTable
procinfo_refresh fs t p =
    let p' : ProcInfo = record p { staging = some table_create } in
    let t' = parse_all fs t in
    if length t'.entries == 0 then (table_publish p', t') else elim fs.processes [
      | none ↦ (table_publish p', t')
      | some l ↦ (
        table_publish (record p { staging = some (add_processes t'.entries l table_create) }),
        t',
      )
    ]
