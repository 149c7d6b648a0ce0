-- ===== src/Export/Document.antt =====
-- The JSON output as a document.
use iftopcolor.Shared.{Bool, true, false, List, [], ◌∷◌, ◌++◌, if◌then◌else◌, codes}
use iftopcolor.Stringmap.{Text}
use iftopcolor.Options.{Options}
use iftopcolor.Screen.{HostPairLine, Rates}
use iftopcolor.Print.{print_decimal}
use iftopcolor.Export.Defs.{quote, json_escape_string}
use iftopcolor.Export.Output.{Conversions, Report, protocol_of, source, destination}

-- A document. A simple string is one that has nothing to escape.
mutual
  pub data Json : Type 0 where
    simple : Text → Json
    str : Text → Json
    num : Text → Json
    arr : Items → Json
    obj : Members → Json

  pub data Items : Type 0 where
    no_items : Items
    item : Json → Items → Items

  pub data Members : Type 0 where
    no_members : Members
    member : Text → Json → Members → Members

-- The document without white space, and what follows it.
unfoldable mutual
  pub compact : Json → Text → Text
  compact (simple s) k = quote ∷ (s ++ quote ∷ k)
  compact (str s) k = json_escape_string s ++ k
  compact (num s) k = s ++ k
  compact (arr items) k = b'[' ∷ compact_items true items (b']' ∷ k)
  compact (obj members) k = b'{' ∷ compact_members true members (b'}' ∷ k)

  pub compact_items : Bool → Items → Text → Text
  compact_items first no_items k = k
  compact_items true (item j items) k = compact j (compact_items false items k)
  compact_items false (item j items) k = b',' ∷ compact j (compact_items false items k)

  pub compact_members : Bool → Members → Text → Text
  compact_members first no_members k = k
  compact_members true (member name j members) k =
      quote ∷ (name ++ quote ∷ b':' ∷ compact j (compact_members false members k))
  compact_members false (member name j members) k =
      b',' ∷ quote ∷ (name ++ quote ∷ b':' ∷ compact j (compact_members false members k))

module _ {V : Type 0} (conv : Conversions V) (opts : Options) where
  -- The members for the six rates, before others.
  unfoldable pub rate_members : Rates V → Rates V → Members → Members
  rate_members sent recv others = member (codes "sent_2s") (num (conv.long_double sent.div0)) (
      member (codes "sent_10s") (num (conv.long_double sent.div1)) (
        member (codes "sent_40s") (num (conv.long_double sent.div2)) (
          member (codes "recv_2s") (num (conv.long_double recv.div0)) (
            member (codes "recv_10s") (num (conv.long_double recv.div1))
              (member (codes "recv_40s") (num (conv.long_double recv.div2)) others)))))

  unfoldable pub process_members : HostPairLine V → Members → Members
  process_members l others =
      if opts.show_processes
      then member (codes "pid") (num (conv.int l.pid))
          (member (codes "process_name") (str l.process_name) others)
      else others

  unfoldable pub flow_document : HostPairLine V → Json
  unfolding rate_members process_members
  flow_document l = obj (
      member (codes "source") (simple (source conv opts l)) (
        member (codes "source_port") (num (print_decimal l.ap.src_port)) (
          member (codes "destination") (simple (destination conv opts l)) (
            member (codes "destination_port") (num (print_decimal l.ap.dst_port)) (
              member (codes "protocol") (simple (protocol_of l)) (
                process_members l (
                  rate_members l.sent l.recv (
                    member (codes "total_sent") (num (print_decimal l.total_sent)) (
                      member (codes "total_recv") (num (print_decimal l.total_recv))
                        no_members)))))))))

  unfoldable pub flow_items : List (HostPairLine V) → Items
  unfolding flow_document
  flow_items [] = no_items
  flow_items (l ∷ lines) = item (flow_document l) (flow_items lines)

  unfoldable pub totals_document : Report V → Json
  unfolding rate_members
  totals_document r = obj (
      rate_members r.totals_sent r.totals_recv (
        member (codes "cumulative_sent") (num (print_decimal r.total_sent)) (
          member (codes "cumulative_recv") (num (print_decimal r.total_recv)) (
            member (codes "peak_sent") (num (conv.int r.peaksent))
              (member (codes "peak_recv") (num (conv.int r.peakrecv)) no_members)))))

  unfoldable pub document : Report V → Json
  unfolding flow_items totals_document
  document r = obj (
      member (codes "timestamp") (simple r.timebuf) (
        member (codes "interface") (str opts.interface) (
          member (codes "flows") (arr (flow_items r.lines))
            (member (codes "totals") (totals_document r) no_members))))
