-- ===== src/Tests.antt =====
-- The theorems applied at concrete inputs.
mod Packets
mod Services
mod Workers
mod Palettes
mod Prints
mod Exports
mod Names
mod Configs
mod Frames
mod Screens
mod Inputs
mod Outputs
use iftopcolor.Shared.{
  ℕ, suc, ◌↔◌, replicate, ◌≡◌, refl, List, [], ◌∷◌, ◌++◌, flatten, none, some, arith, count,
  if◌then◌else◌, length, take, ltb, ◌-◌, true,
}
use mathlib.Core.List.{Perm}
use iftopcolor.Pool.{Pool, new_pool, pool_alloc, pool_free}
use iftopcolor.Pool.Owned.{IsOwned, new_pool-IsOwned, pool_alloc-IsOwned, pool_free-IsOwned}
use iftopcolor.Vector.{Vector, vector_new, vector_push_back, vector_pop_back, vector_remove}
use iftopcolor.Vector.Contents.{IsVector, contents, vector_new-IsVector, vector_push_back-contents}
use iftopcolor.Vector.Removal.{Removes, vector_remove-Removes, vector_pop_back-contents}
use iftopcolor.SortedList.{
  SortedList, sorted_list_insert, sorted_list_destroy, sorted_list_initialise,
}
use iftopcolor.SortedList.Sorted.{IsSorted, listed, sorted_list_insert-IsSorted}
use iftopcolor.SortedList.Blocks.{insert_all, allocated, sorted_list_destroy-inserted}
use iftopcolor.Stringmap.{
  Stringmap, stringmap_new, stringmap_insert, stringmap_find, stringmap_assign,
}
use iftopcolor.Stringmap.Dictionary
use iftopcolor.Stringmap.Dictionary.{
  stringmap_insert-find, stringmap_assign-find, text_eq, or_else, kept,
}
use iftopcolor.Hash.{
  Node, Buckets, hash_find, hash_insert, hash_delete, hash_delete_node, hash_next_item,
  hash_initialise, status_ok, find_in,
}
use iftopcolor.Hash.Place.{IsTable, hash_initialise-IsTable, hash_insert-IsTable}
use iftopcolor.Hash.Records.{records, records-hash_insert, Deletes, hash_delete-Deletes}
use iftopcolor.Hash.Iterate.{IsApart}
use iftopcolor.Hash.Walk.{walk, walk-flatten}
use iftopcolor.Hash.Unlink.{hash_delete_node-middle}
use iftopcolor.Hash.Replace
use iftopcolor.Hash.Replace.{
  hash_find-without, without, without-IsMap, hash_insert-IsMap, hash_find-hash_insert,
  hash_initialise-IsMap,
}
use iftopcolor.AddrHash.{
  AddrPair, addr_hash_insert, addr_hash_create, addr_hash_bucket, addr_compare,
  addr_hash_delete_node, addr_hash_find, free_nodes,
}
use iftopcolor.AddrHash.Keys.{addr_fns, addr_compare_iff}
use iftopcolor.AddrHash.Generic.{addr_hash_find-generic, addr_hash_delete_node-generic}
use iftopcolor.ServHash.{
  IpService, ServTable, other_fns, other_hash, other_compare, service, serv_table_create,
  serv_table_insert, serv_table_lookup, serv_table_delete,
}
use iftopcolor.ServHash.Lookup.{
  serv_table_create-IsMap, serv_table_insert-lookup, serv_table_delete-lookup, is_found,
}
use iftopcolor.History.{Flows, init_history, history_rotate}
use iftopcolor.History.Rotate.{IsRotation, history_rotate-IsRotation}
use iftopcolor.Tests.Packets.{
  after_request, after_request-IsLedger, after_request-IsWritten, after_request-pos,
}
use iftopcolor.History.Start.{init_history-IsFlows, init_history-flatten}
use iftopcolor.ProcInfo.{procinfo_lookup}
use iftopcolor.ProcInfo.Publish.{Found, refreshed, first_owner, procinfo_lookup-refreshed}
use iftopcolor.History.Expiry.{IsAged, rotate_times, rotate_times-IsAged}

one_out : IsOwned ((pool_alloc new_pool).0 ∷ []) (pool_alloc new_pool).1
one_out = pool_alloc-IsOwned [] new_pool new_pool-IsOwned

abbrev one_item : Vector
one_item = vector_push_back vector_new 7

one_item-IsVector : IsVector one_item
one_item-IsVector = (vector_push_back-contents vector_new 7 vector_new-IsVector.0).0

-- A vector with all its places used.
abbrev full_vector : Vector
full_vector = record { items = 1 ∷ 2 ∷ []; capacity = 2; n_used = 2 }

vector_remove-Removes_example : Removes full_vector 0 (vector_remove full_vector 0)
vector_remove-Removes_example =
    vector_remove-Removes full_vector 0
      (record { allocated = refl; fits = omega arith; room = omega arith })

abbrev two_names : Stringmap ℕ
two_names = (stringmap_insert (stringmap_insert stringmap_new (104 ∷ []) 1).0 (112 ∷ []) 2).0

two_names-IsMap : Dictionary.IsMap two_names
unfolding stringmap_new
two_names-IsMap =
    (stringmap_insert-find (stringmap_insert stringmap_new (104 ∷ []) 1).0 (112 ∷ []) (112 ∷ []) 2
      (stringmap_insert-find stringmap_new (104 ∷ []) (104 ∷ []) 1 tt).0).0

sorted_list_insert-IsSorted_example :
    let list : SortedList ℕ =
      sorted_list_insert ltb (sorted_list_insert ltb sorted_list_initialise 1 20) 2 10 in
    IsSorted ltb (listed (sorted_list_insert ltb list 3 30).nodes)
    × Perm (listed (sorted_list_insert ltb list 3 30).nodes) (30 ∷ listed list.nodes)
unfolding sorted_list_insert sorted_list_initialise
sorted_list_insert-IsSorted_example =
    sorted_list_insert-IsSorted ltb
      (sorted_list_insert ltb (sorted_list_insert ltb sorted_list_initialise 1 20) 2 10) 3 30
      (sorted_list_insert-IsSorted ltb (sorted_list_insert ltb sorted_list_initialise 1 20) 2 10
        (sorted_list_insert-IsSorted ltb sorted_list_initialise 1 20 tt).0).0

sorted_list_destroy-inserted_example :
    let r = sorted_list_destroy (insert_all ltb sorted_list_initialise ((1, 20) ∷ (2, 10) ∷ [])) in
    (r.0.nodes ≡ []) × (count 2 r.1 ≡ count 2 (allocated {A = ℕ} ((1, 20) ∷ (2, 10) ∷ [])))
sorted_list_destroy-inserted_example = sorted_list_destroy-inserted ltb ((1, 20) ∷ (2, 10) ∷ []) 2

abbrev a_service : IpService
a_service = service 7 132

abbrev another_service : IpService
another_service = service 134 132

abbrev empty_table : Buckets IpService ℕ
empty_table = hash_initialise

abbrev one_entry : Buckets IpService ℕ
one_entry = (hash_insert empty_table 11 a_service 1).1

abbrev two_entries : Buckets IpService ℕ
two_entries = (hash_insert one_entry 12 another_service 2).1

one_entry-IsTable : IsTable one_entry
one_entry-IsTable = hash_insert-IsTable empty_table 11 a_service 1 hash_initialise-IsTable

two_entries-IsTable : IsTable two_entries
two_entries-IsTable = hash_insert-IsTable one_entry 12 another_service 2 one_entry-IsTable

records-hash_insert_example : records (hash_insert two_entries 13 a_service 3).1 a_service ≡ (
    if other_compare a_service a_service
    then 3 ∷ records two_entries a_service
    else records two_entries a_service)
records-hash_insert_example =
    records-hash_insert two_entries two_entries-IsTable.wide a_service a_service 13 3

hash_delete-Deletes_example :
    Deletes two_entries two_entries-IsTable.wide a_service another_service
      (hash_delete two_entries a_service)
hash_delete-Deletes_example =
    hash_delete-Deletes two_entries two_entries-IsTable.wide a_service another_service

abbrev a_node : Node IpService ℕ
a_node = record { addr = 11; key = a_service; rec = 1; bucket = 95 }

abbrev another_node : Node IpService ℕ
another_node = record { addr = 12; key = another_service; rec = 2; bucket = 95 }

two_entries-flatten : flatten two_entries ≡ (another_node ∷ []) ++ a_node ∷ []
unfolding hash_insert hash_initialise flatten other_hash
two_entries-flatten = refl

two_entries-IsApart : IsApart (flatten two_entries)
two_entries-IsApart a = rw two_entries-flatten (ground arith)

walk-flatten_example :
    walk (suc (length (flatten two_entries))) two_entries (hash_next_item two_entries none)
    ≡ some (flatten two_entries)
walk-flatten_example = walk-flatten two_entries two_entries-IsTable two_entries-IsApart

one_entry-IsMap : Replace.IsMap one_entry
unfolding hash_find hash_initialise find_in other_hash
one_entry-IsMap = hash_insert-IsMap empty_table hash_initialise-IsMap a_service refl 11 1

abbrev one_name : ServTable
one_name = serv_table_insert serv_table_create 21 7 132 (101 ∷ [])

one_name-IsMap : Replace.IsMap one_name.other
one_name-IsMap =
    (serv_table_insert-lookup serv_table_create 21 7 132 7 132 (101 ∷ []) serv_table_create-IsMap).0

history_rotate-IsRotation_example :
    (s' : Flows) × (history_rotate after_request ≡ some s') × IsRotation [] after_request s'
history_rotate-IsRotation_example =
    history_rotate-IsRotation [] after_request after_request-IsLedger.flows

rotate_times-IsAged_example :
    (s' : Flows) × (rotate_times 3 after_request ≡ some s') × IsAged [] 3 after_request s'
rotate_times-IsAged_example =
    rotate_times-IsAged [] 3 after_request after_request-IsLedger.flows after_request-pos
      after_request-IsWritten

abbrev a_flow : AddrPair
a_flow = record {
  address_family = 2;
  protocol = 6;
  src_port = 1000;
  src = 10 ∷ 0 ∷ 0 ∷ 1 ∷ [];
  dst_port = 80;
  dst = 10 ∷ 0 ∷ 0 ∷ 2 ∷ [];
}

abbrev one_flow : Pool × Buckets AddrPair ℕ
one_flow = addr_hash_insert new_pool addr_hash_create a_flow 5

abbrev two_sockets : List Found
two_sockets =
    record { af = 2; protocol = 6; port = 80; addr = replicate 16 0; pid = 7; name = 104 ∷ [] }
    ∷ record {
      af = 2;
      protocol = 6;
      port = 1000;
      addr = 10 ∷ 0 ∷ 0 ∷ 1 ∷ [];
      pid = 8;
      name = 99 ∷ [];
    }
    ∷ []

procinfo_lookup-refreshed_example :
    procinfo_lookup
      (refreshed (record { live = none; staging = none }) two_sockets)
      2
      (10 ∷ 0 ∷ 0 ∷ 1 ∷ [])
      1000
      6
    ≡ first_owner 2 (10 ∷ 0 ∷ 0 ∷ 1 ∷ []) 1000 6 two_sockets
procinfo_lookup-refreshed_example =
    procinfo_lookup-refreshed 2 (10 ∷ 0 ∷ 0 ∷ 1 ∷ []) 1000 6
      (record { live = none; staging = none }) two_sockets
