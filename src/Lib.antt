-- ===== src/Lib.antt =====
-- iftopcolor: a network monitor that captures packets, charges them to flows and shows the
-- bandwidth of each flow.
--
-- The program's parts. The capture thread (src/entry/iftop.c) reads packets, finds the IP header
-- behind the link layer's, and charges the packet to a flow. The flows stand in a hash table
-- (src/data/map/addr_hash.c, a specialisation of src/data/map/hash.c) whose nodes come from a pool,
-- as do the flow records. Once a second the history is rotated: the flows that have been silent for
-- the whole history are freed. Every tick that is due sums the
-- flows up into lines of the screen (src/ui/ui.c), whose table takes its nodes from the pool of the
-- flows' table. The display looks service names up (src/data/map/serv_hash.c), sorts
-- its lines (src/data/sorted_list.c) and keeps vectors (src/data/vector.c); the configuration stands
-- in a string map (src/data/map/stringmap.c). The owner of a flow's socket is looked up in a table
-- that a refresh publishes (src/util/procinfo.c).
--
-- Files, with the source that each is about:
--   Shared: the names and lemmas on lists, counting and tests that the others use
--   Pool: pool_alloc and pool_free, history_create and history_free; an item is known by its number
--   Vector, SortedList, Stringmap: src/data/vector.c, src/data/sorted_list.c, src/data/map/stringmap.c
--   Hash: src/data/map/hash.c over keys with a comparison, a hash and a size (the record `HashFns`,
--     the function pointers of a `hash_type`, with the laws that its clients keep). A table is a list
--     of chains, a node has an address, and a pointer to a node is its address
--   AddrHash: src/data/map/addr_hash.c
--   ServHash: src/data/map/serv_hash.c
--   History: `history_type`, the globals of the flows, and `history_rotate` of src/entry/iftop.c. The
--     records that two places point to are known by their items; a write through a pointer changes
--     the record where it stands
--   Packet: the handlers of src/entry/iftop.c from the link layers to `handle_ip_packet`
--   Resolver: src/data/map/ns_hash.c and the queue of src/util/resolver.c, step by step under its mutex;
--     Resolver/Workers has the two workers and the callers of `resolve` as a step relation, whose state
--     also records the requests that went into the ring and out of it
--   ProcInfo: the tables of src/util/procinfo.c, and its refresh on Linux from what /proc lists
--   ConfigFile: src/config/cfgfile.c
--   Options: `options_t` (src/include/options.h) and src/config/options.c, from the command line and the
--     configuration to the options
--   Screen: the lines of src/ui/ui.c, from `analyse_data` to the sorted list and the totals. A line is
--     known by its allocation, and the list holds such pointers; `long double` is a parameter, a type
--     with the operations that the code uses, so that sums stand in the order in which it adds
--   Tick: `tick` of src/entry/iftop.c, and the program as a step relation of packets and ticks,
--     each a whole step: that the capture thread does not take `tick_mutex` for its packets, so that
--     they may overlap with a tick, is not modelled
--   Edline: src/util/edline.c, by the keys of its switch
--   Ui: `ui_loop` of src/ui/ui.c and what its keys call, by the keys of its switch
--   Bars: the choice of the bars' scale in src/ui/ui.c
--   Colors: `getColors` of src/ui/ui.c and the arrays that it sets
--   Print: `ui_print` of src/ui/ui.c, as the list of its calls of curses and of `turnOnColor` and
--     `turnOffColor`
--   Export: src/ui/export.c, whose output is the list of its pieces
--   Tests: the theorems at concrete inputs
--
-- Numbers are natural numbers; 32-bit and 64-bit sums wrap where the source's do. The loop of
-- `history_rotate` runs on fuel, one more than the table has nodes; that this is enough is part of its
-- theorem. `malloc` succeeds, as the allocators abort otherwise, except in `table_add`, which goes on.
--
-- Not modelled: the floats of the marks on the bars' scale and the smoothing of the bars,
-- regular expressions, pcap and the resolver's back ends, which are
-- other programs' code or pure input and output.
pub mod Shared
pub mod Pool
pub mod Vector
pub mod SortedList
pub mod Stringmap
pub mod ServHash
pub mod Hash
pub mod AddrHash
pub mod History
pub mod ProcInfo
pub mod Packet
pub mod Resolver
pub mod ConfigFile
pub mod Options
pub mod Screen
pub mod Tick
pub mod Edline
pub mod Ui
pub mod Colors
pub mod Print
pub mod Bars
pub mod Export
pub mod Tests
