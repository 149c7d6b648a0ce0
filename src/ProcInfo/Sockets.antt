-- ===== src/ProcInfo/Sockets.antt =====
-- What a refresh publishes, from what it reads.
use iftopcolor.Shared.{
  ℕ, suc, ◌/◌, ◌%◌, ◌&&◌, ◌||◌, not, ltb, leb, first, append-nil, append_assoc, Bool-cases, ◌≡◌,
  refl, sym, ap, ◌∙◌, true, false, List, [], ◌∷◌, ◌++◌, Option, none, some, ◌==◌, if◌then◌else◌,
  length, Option-cases, inl, inr, arith,
}
use iftopcolor.ProcInfo.Defs.{SockTable, ProcInfo, table_create, table_add, table_publish}
use iftopcolor.ProcInfo.Publish.{Found, add_all, refreshed}
use iftopcolor.ProcInfo.Linux.{
  SocketLine, word_bytes, parse_lines, parse_proc_net, inode_table_add, inode_table_clear,
  inode_table_find, add_fds, add_processes, parse_all, procinfo_refresh, InodeEntry, InodeTable,
  Process, ProcFs,
}

-- The four bytes of each word, the lowest first.
abbrev pub bytes_of : List ℕ → List ℕ
bytes_of [] = []
bytes_of (w ∷ l) = w % 256 ∷ w / 256 % 256 ∷ w / 65536 % 256 ∷ w / 16777216 % 256 ∷ bytes_of l

-- The sockets that a file lists: its lines with all fields and an inode.
abbrev pub sockets_in : ℕ → ℕ → List SocketLine → List InodeEntry
sockets_in af protocol [] = []
sockets_in af protocol (l ∷ lines) =
    if leb 6 l.matched && not (l.inode == 0)
    then record {
      inode = l.inode;
      af = af;
      protocol = protocol;
      port = l.local_port % 65536;
      addr = bytes_of l.words;
    }
      ∷ sockets_in af protocol lines
    else sockets_in af protocol lines

abbrev pub sockets_of_file : ℕ → ℕ → Option (List SocketLine) → List InodeEntry
sockets_of_file af protocol none = []
sockets_of_file af protocol (some lines) = sockets_in af protocol lines

-- The sockets of the four files: TCP of IPv4 and of IPv6, then UDP of both.
abbrev pub listed : ProcFs → List InodeEntry
listed fs =
    sockets_of_file 2 6 fs.tcp
    ++ (sockets_of_file 10 6 fs.tcp6
        ++ (sockets_of_file 2 17 fs.udp ++ sockets_of_file 10 17 fs.udp6))

-- The entries of an inode.
abbrev pub of_inode : List InodeEntry → ℕ → List InodeEntry
of_inode [] inode = []
of_inode (e ∷ l) inode = if e.inode == inode then e ∷ of_inode l inode else of_inode l inode

inode_table_find-first :
    (l : List InodeEntry) (inode : ℕ) → inode_table_find l inode ≡ first (of_inode l inode)
unfolding inode_table_find
inode_table_find-first [] inode = refl
inode_table_find-first (e ∷ l) inode = elim (Bool-cases (e.inode == inode)) [
  | inl h ↦ rw h refl
  | inr h ↦ rw h (inode_table_find-first l inode)
]

word_bytes-bytes_of : (l : List ℕ) → word_bytes l ≡ bytes_of l
unfolding word_bytes
word_bytes-bytes_of [] = refl
word_bytes-bytes_of (w ∷ l) = rw (word_bytes-bytes_of l) refl

parse_lines-listed :
    (af protocol : ℕ) (lines : List SocketLine) (t : InodeTable)
    → (parse_lines af protocol lines t).entries ≡ t.entries ++ sockets_in af protocol lines
unfolding parse_lines inode_table_add
parse_lines-listed af protocol [] t = sym (append-nil t.entries)
parse_lines-listed af protocol (l ∷ lines) t =
    elim (Bool-cases (leb 6 l.matched && not (l.inode == 0))) [
      | inr h ↦
          let skip : ltb l.matched 6 || l.inode == 0 ≡ true = ground arith in
          rw (parse_lines, h, skip) (parse_lines-listed af protocol lines t)
      | inl h ↦
          let keep : ltb l.matched 6 || l.inode == 0 ≡ false = ground arith in
          rw (parse_lines, h, keep, word_bytes-bytes_of l.words)
            (parse_lines-listed af protocol lines _
              ∙ append_assoc t.entries _ (sockets_in af protocol lines))
    ]

parse_proc_net-listed :
    (af protocol : ℕ) (file : Option (List SocketLine)) (t : InodeTable)
    → (parse_proc_net af protocol file t).entries ≡ t.entries ++ sockets_of_file af protocol file
unfolding parse_proc_net
parse_proc_net-listed af protocol none t = sym (append-nil t.entries)
parse_proc_net-listed af protocol (some lines) t = parse_lines-listed af protocol lines t

parse_all-listed : (fs : ProcFs) (t : InodeTable) → (parse_all fs t).entries ≡ listed fs
unfolding parse_all inode_table_clear
parse_all-listed fs t =
    rw
      (
        parse_proc_net-listed 10 17 fs.udp6,
        parse_proc_net-listed 2 17 fs.udp,
        parse_proc_net-listed 10 6 fs.tcp6,
        parse_proc_net-listed 2 6 fs.tcp,
        append_assoc (sockets_of_file 2 6 fs.tcp) (sockets_of_file 10 6 fs.tcp6)
            (sockets_of_file 2 17 fs.udp),
        append_assoc (sockets_of_file 2 6 fs.tcp)
            (sockets_of_file 10 6 fs.tcp6 ++ sockets_of_file 2 17 fs.udp)
            (sockets_of_file 10 17 fs.udp6),
        append_assoc (sockets_of_file 10 6 fs.tcp6) (sockets_of_file 2 17 fs.udp)
            (sockets_of_file 10 17 fs.udp6),
      )
      refl

-- The sockets of a process, and of all processes, by the inodes.
abbrev pub found_in : List InodeEntry → Process → List (Option ℕ) → List Found
found_in inodes p [] = []
found_in inodes p (none ∷ fds) = found_in inodes p fds
found_in inodes p (some inode ∷ fds) = elim (first (of_inode inodes inode)) [
  | none ↦ found_in inodes p fds
  | some e ↦
      record {
        af = e.af;
        protocol = e.protocol;
        port = e.port;
        addr = e.addr;
        pid = p.pid;
        name = p.name;
      }
      ∷ found_in inodes p fds
]

abbrev pub all_found : List InodeEntry → List Process → List Found
all_found inodes [] = []
all_found inodes (p ∷ l) = found_in inodes p p.fds ++ all_found inodes l

-- The sockets that a refresh reports.
abbrev pub sockets_of : ProcFs → List Found
sockets_of fs = elim fs.processes [ none ↦ [] | some l ↦ all_found (listed fs) l ]

add_all-append : (t : SockTable) (l k : List Found) → add_all t (l ++ k) ≡ add_all (add_all t l) k
unfolding add_all
add_all-append t [] k = refl
add_all-append t (f ∷ l) k =
    add_all-append (table_add true t f.af f.protocol f.port f.addr f.pid f.name) l k

add_fds-found :
    (inodes : List InodeEntry) (p : Process) (fds : List (Option ℕ)) (t : SockTable)
    → add_fds inodes p fds t ≡ add_all t (found_in inodes p fds)
unfolding add_fds add_all
add_fds-found inodes p [] t = refl
add_fds-found inodes p (none ∷ fds) t = add_fds-found inodes p fds t
add_fds-found inodes p (some inode ∷ fds) t = elim (Option-cases (first (of_inode inodes inode))) [
  | inl e ↦
      rw (add_fds, found_in, inode_table_find-first inodes inode, e) (add_fds-found inodes p fds t)
  | inr (ie, e) ↦
      rw (add_fds, found_in, inode_table_find-first inodes inode, e)
        (add_fds-found inodes p fds
          (table_add true t ie.af ie.protocol ie.port ie.addr p.pid p.name))
]

add_processes-found :
    (inodes : List InodeEntry) (l : List Process) (t : SockTable)
    → add_processes inodes l t ≡ add_all t (all_found inodes l)
unfolding add_processes add_all
add_processes-found inodes [] t = refl
add_processes-found inodes (p ∷ l) t =
    add_processes-found inodes l (add_fds inodes p p.fds t)
    ∙ ap (λ u. add_all u (all_found inodes l)) (add_fds-found inodes p p.fds t)
    ∙ sym (add_all-append t (found_in inodes p p.fds) (all_found inodes l))

found_in-none : (p : Process) (fds : List (Option ℕ)) → found_in [] p fds ≡ []
found_in-none p [] = refl
found_in-none p (none ∷ fds) = found_in-none p fds
found_in-none p (some inode ∷ fds) = found_in-none p fds

all_found-none : (l : List Process) → all_found [] l ≡ []
all_found-none [] = refl
all_found-none (p ∷ l) = rw (found_in-none p p.fds) (all_found-none l)

-- A refresh publishes exactly the sockets that the four files of /proc/net list, TCP and TCP6
-- before UDP and UDP6, in lines with all fields and an inode other than 0, and that a process
-- holds by that inode, by the first line of an inode, in the order in which the processes and
-- their descriptors are listed, and none if there are no sockets or no processes to be read. What
-- an earlier refresh has left in the inode table or in the tables plays no part.
pub procinfo_refresh-refreshed :
    (fs : ProcFs) (t : InodeTable) (p : ProcInfo)
    → (procinfo_refresh fs t p).0 ≡ refreshed p (sockets_of fs)
unfolding procinfo_refresh refreshed add_all
procinfo_refresh-refreshed fs t p =
    go (parse_all fs t).entries fs.processes
    ∙ ap
        (λ es.
          refreshed p
            (elim fs.processes as (λ x. List Found) [ none ↦ [] | some l ↦ all_found es l ]))
        (parse_all-listed fs t)
  where
    go :
        (inodes : List InodeEntry) (o : Option (List Process))
        → (if length inodes == 0
            then (table_publish (record p { staging = some table_create }), parse_all fs t)
            else elim o as (λ x. ProcInfo × InodeTable) [
              | none ↦ (table_publish (record p { staging = some table_create }), parse_all fs t)
              | some l ↦ (
                table_publish (record p { staging = some (add_processes inodes l table_create) }),
                parse_all fs t,
              )
            ]).0
          ≡ table_publish (record p {
            staging = some (
                add_all table_create
                  (elim o as (λ x. List Found) [ none ↦ [] | some l ↦ all_found inodes l ]));
          })
    go [] none = refl
    go [] (some l) = rw (all_found-none l) refl
    go (e ∷ inodes) none = let ne : suc (length inodes) == 0 ≡ false = ground arith in rw ne refl
    go (e ∷ inodes) (some l) =
        let ne : suc (length inodes) == 0 ≡ false = ground arith in
        rw (ne, add_processes-found (e ∷ inodes) l table_create) refl
