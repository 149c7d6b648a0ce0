-- ===== src/Tests/Packets.antt =====
-- The packet handlers at a TCP packet and its answer.
use iftopcolor.Packet.{assign_addr_pair, directed, label, owner}
use iftopcolor.Pool.{pool_alloc, take_item, new_pool}
use iftopcolor.AddrHash.{addr_hash_bucket, bytes_eq}
use iftopcolor.Packet.{
  find_or_create, account, write_hist, charge, with_protocol, sent_by_src, packet_len, write_item,
}
use iftopcolor.History.{history_create}
use iftopcolor.AddrHash.{addr_hash_find, addr_hash_insert}
use iftopcolor.History.Expiry.{IsWritten}
use iftopcolor.Shared.{flatten, ◌<◌}
use iftopcolor.Shared.{
  List, some, ◌≡◌, refl, [], ◌∷◌, none, arith, true, false, not, inl, replicate, get_or,
}
use iftopcolor.Hash.{hash_initialise}
use iftopcolor.Hash.Replace.{hash_initialise-IsMap}
use iftopcolor.AddrHash.{addr_hash_create}
use iftopcolor.AddrHash.Keys.{addr_fns}
use iftopcolor.History.{Flows, init_history}
use iftopcolor.History.Start.{init_history-IsFlows}
use iftopcolor.ProcInfo.{ProcInfo}
use iftopcolor.Packet.{
  Memory, Config, outgoing, handle_ip_packet, classify, is_link_local, by_netfilter, without_filter,
  bytes_at,
}
use iftopcolor.Packet.Replies.{Answers, charged_to, turned, charged_to-reply, hw_dir_of}
use iftopcolor.Packet.Ledger.{Event, packet, rotation, run, run-IsLedger}
use iftopcolor.Packet.Accounts.{IsLedger, Outcome, handle_ip_packet-Outcome}

-- 10.0.0.1:1000 to 10.0.0.2:80, 60 bytes of TCP
abbrev pub request : Memory
request i =
    get_or
      (69 ∷ 0 ∷ 0 ∷ 60 ∷ 0 ∷ 0 ∷ 0 ∷ 0 ∷ 64 ∷ 6 ∷ 0 ∷ 0 ∷ 10 ∷ 0 ∷ 0 ∷ 1 ∷ 10 ∷ 0 ∷ 0 ∷ 2 ∷ 3 ∷ 232
        ∷ 0 ∷ 80 ∷ [])
      i 0

abbrev response : Memory
response i =
    get_or
      (69 ∷ 0 ∷ 0 ∷ 99 ∷ 0 ∷ 0 ∷ 0 ∷ 0 ∷ 64 ∷ 6 ∷ 0 ∷ 0 ∷ 10 ∷ 0 ∷ 0 ∷ 2 ∷ 10 ∷ 0 ∷ 0 ∷ 1 ∷ 0 ∷ 80
        ∷ 3 ∷ 232 ∷ [])
      i 0

abbrev pub plain : Config
plain = record {
  netfilter = false;
  netfilternet = replicate 4 0;
  netfiltermask = replicate 4 0;
  netfilter6 = false;
  netfilter6net = replicate 16 0;
  netfilter6mask = replicate 16 0;
  promiscuous_but_choosy = false;
  link_local = false;
  dnsresolution = true;
  show_processes = true;
  have_hw_addr = true;
  if_hw_addr = replicate 6 1;
  have_ip_addr = true;
  if_ip_addr = 10 ∷ 0 ∷ 0 ∷ 1 ∷ [];
  have_ip6_addr = false;
  if_ip6_addr = replicate 16 0;
}

abbrev pub no_procs : ProcInfo
no_procs = record { live = none; staging = none }

request-Answers : Answers request response
unfolding bytes_at
request-Answers = record {
  known = inl refl;
  version = refl;
  v4 = λ _. record { src = refl; dst = refl; proto = refl; sport = refl; dport = refl };
  v6 = λ e. absurd (omega (arith, e));
}

charged_to-reply_example :
    charged_to plain response (hw_dir_of (not true))
    ≡ turned (charged_to plain request (hw_dir_of true))
charged_to-reply_example = charged_to-reply plain request response true request-Answers

init_history-IsLedger : IsLedger [] init_history
unfolding init_history addr_hash_create hash_initialise
init_history-IsLedger = record { flows = init_history-IsFlows; once = hash_initialise-IsMap }

abbrev pub after_request : Flows
after_request = (handle_ip_packet plain no_procs request outgoing init_history).0

request-Outcome :
    Outcome [] plain no_procs request init_history after_request (charged_to plain request outgoing)
request-Outcome =
    handle_ip_packet-Outcome [] plain no_procs request outgoing init_history init_history-IsLedger

pub after_request-IsLedger : IsLedger [] after_request
unfolding classify is_link_local by_netfilter without_filter
after_request-IsLedger = request-Outcome.still

handle_ip_packet-Outcome_example :
    Outcome [] plain no_procs response after_request
      (handle_ip_packet plain no_procs response outgoing after_request).0
      (charged_to plain response outgoing)
handle_ip_packet-Outcome_example =
    handle_ip_packet-Outcome [] plain no_procs response outgoing after_request
      after_request-IsLedger

abbrev events : List Event
events =
    packet plain no_procs request outgoing
    ∷ rotation
    ∷ packet plain no_procs response outgoing
    ∷ rotation
    ∷ []

run-IsLedger_example : (s' : Flows) × (run events init_history ≡ some s') × IsLedger [] s'
run-IsLedger_example = run-IsLedger [] events init_history init_history-IsLedger

pub after_request-IsWritten : IsWritten (flatten after_request.history)
unfolding handle_ip_packet classify is_link_local by_netfilter without_filter find_or_create account
    write_hist charge init_history history_create with_protocol sent_by_src packet_len
    addr_hash_find addr_hash_insert write_item flatten addr_hash_bucket assign_addr_pair directed
    bytes_at pool_alloc take_item new_pool label owner addr_hash_create bytes_eq
after_request-IsWritten = (omega arith, tt)

pub after_request-pos : after_request.history_pos < 40
unfolding handle_ip_packet classify is_link_local by_netfilter without_filter find_or_create account
    write_hist charge init_history history_create with_protocol sent_by_src packet_len
    addr_hash_find addr_hash_insert write_item flatten addr_hash_bucket assign_addr_pair directed
    bytes_at pool_alloc take_item new_pool label owner addr_hash_create bytes_eq
after_request-pos = omega arith
