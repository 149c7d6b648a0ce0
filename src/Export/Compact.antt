-- ===== src/Export/Compact.antt =====
-- The JSON output, piece by piece, against its document.
use iftopcolor.Shared.{
  ℕ, zero, suc, ◌+◌, ◌/◌, ◌%◌, ◌≡◌, refl, ap, ◌∙◌, Bool, true, false, ◌||◌, List, [], ◌∷◌, ◌++◌,
  arith, ◌==◌, if◌then◌else◌, Bool-cases, inl, inr, codes,
}
use iftopcolor.Stringmap.{Text}
use iftopcolor.Options.{Options}
use iftopcolor.Screen.{HostPairLine, Rates}
use iftopcolor.Print.{print_digits, print_decimal}
use iftopcolor.Export.Defs.{
  ProtocolName, tcp, udp, icmp, icmpv6, other_protocol, protocol_name, quote,
}
use iftopcolor.Export.Output.{
  Piece, lit, number, printed, Conversions, Report, protocol_text, json_head, json_process,
  json_rates, json_sums, json_line, json_lines, json_totals, export_print_json,
}
use iftopcolor.Export.Stripped.{
  outside, mode_after, stripped, is_white, IsSimple, IsBare, stripped_pieces, IsPlaced,
  stripped-printed,
}
use iftopcolor.Export.Document.{
  compact, compact_items, process_members, flow_document, flow_items, totals_document, document,
}

-- What the conversions print: numbers without quotation marks and white space, and addresses without
-- quotation marks and backslashes.
pub record IsPrinting {V : Type 0} (conv : Conversions V) : Type 0 where
  pub float_bare : (v : V) → IsBare (conv.long_double v)
  pub int_bare : (n : ℕ) → IsBare (conv.int n)
  pub addr_simple : (af : ℕ) (addr : List ℕ) → IsSimple (conv.inet_ntop af addr)

print_digits-IsBare : (fuel n : ℕ) (s : Text) → IsBare s → IsBare (print_digits fuel n s)
unfolding print_digits
print_digits-IsBare zero n s h = h
print_digits-IsBare (suc fuel) n s h =
    let here : (48 + n % 10 == quote || is_white (48 + n % 10)) ≡ false = ground arith in
    elim (Bool-cases (n / 10 == 0)) [
      | inl e ↦ rw e (here, h)
      | inr e ↦ rw e (print_digits-IsBare fuel (n / 10) ((48 + n % 10) ∷ s) (here, h))
    ]

protocol_text-IsSimple : (p : ProtocolName) → IsSimple (protocol_text p)
unfolding protocol_text
protocol_text-IsSimple tcp = ground arith
protocol_text-IsSimple udp = ground arith
protocol_text-IsSimple icmp = ground arith
protocol_text-IsSimple icmpv6 = ground arith
protocol_text-IsSimple other_protocol = ground arith

module _ {V : Type 0} (conv : Conversions V) (opts : Options) where
  line-compact :
      (l : HostPairLine V) (rest : List Piece)
      → stripped_pieces outside (json_line conv opts l rest)
        ≡ compact (flow_document conv opts l) (stripped_pieces outside rest)
  unfolding json_line json_head json_process json_rates json_sums stripped_pieces compact
      flow_document
  line-compact l rest = elim (Bool-cases opts.show_processes) [
    | inl e ↦ rw (json_line, process_members, e) refl
    | inr e ↦ rw (json_line, process_members, e) refl
  ]

  lines-compact :
      (first : Bool) (lines : List (HostPairLine V)) (rest : List Piece)
      → stripped_pieces outside (json_lines conv opts first lines rest)
        ≡ compact_items first (flow_items conv opts lines) (stripped_pieces outside rest)
  unfolding json_lines stripped_pieces compact flow_items
  lines-compact first [] rest = refl
  lines-compact true (l ∷ lines) rest =
      line-compact l (json_lines conv opts false lines rest)
      ∙ ap (compact (flow_document conv opts l)) (lines-compact false lines rest)
  lines-compact false (l ∷ lines) rest = ap (◌∷◌ b',') (
      line-compact l (json_lines conv opts false lines rest)
      ∙ ap (compact (flow_document conv opts l)) (lines-compact false lines rest))

  totals-compact :
      (r : Report V)
      → stripped_pieces outside (json_totals conv opts r)
        ≡ b']'
          ∷ b','
          ∷ quote
          ∷ (codes "totals" ++ quote ∷ b':' ∷ compact (totals_document conv opts r) (b'}' ∷ []))
  unfolding json_totals json_rates stripped_pieces compact totals_document
  totals-compact r = refl

  json-compact :
      (r : Report V)
      → stripped_pieces outside (export_print_json conv opts r) ≡ compact (document conv opts r) []
  unfolding export_print_json stripped_pieces compact document
  json-compact r = rw (lines-compact true r.lines (json_totals conv opts r), totals-compact r) refl

  module _ (v : IsPrinting conv) where
    number-IsPlaced :
        (blanks name s : Text) (rest : List Piece)
        → mode_after outside blanks ≡ outside
        → mode_after outside name ≡ outside
        → IsBare s
        → IsPlaced outside rest
        → IsPlaced outside (lit blanks ∷ lit name ∷ number s ∷ lit (codes ",\n") ∷ rest)
    unfolding IsPlaced mode_after
    number-IsPlaced blanks name s rest e f bare h = rw (e, f) (refl, (bare, h))

    rates-IsPlaced :
        (blanks : Text) (sent recv : Rates V) (rest : List Piece)
        → mode_after outside blanks ≡ outside
        → IsPlaced outside rest
        → IsPlaced outside (json_rates conv opts blanks sent recv ++ rest)
    unfolding json_rates mode_after
    rates-IsPlaced blanks sent recv rest e h =
        let f = v.float_bare in
        number-IsPlaced blanks _ _ _ e refl (f sent.div0) (
          number-IsPlaced blanks _ _ _ e refl (f sent.div1) (
            number-IsPlaced blanks _ _ _ e refl (f sent.div2) (
              number-IsPlaced blanks _ _ _ e refl (f recv.div0) (
                number-IsPlaced blanks _ _ _ e refl (f recv.div1)
                  (number-IsPlaced blanks _ _ _ e refl (f recv.div2) h)))))

    decimal-IsBare : (n : ℕ) → IsBare (print_decimal n)
    decimal-IsBare n = print_digits-IsBare 20 n [] tt

    process-IsPlaced :
        (l : HostPairLine V) (rest : List Piece)
        → IsPlaced outside rest
        → IsPlaced outside ((if opts.show_processes then json_process conv opts l else []) ++ rest)
    unfolding json_process IsPlaced mode_after
    process-IsPlaced l rest h = elim (Bool-cases opts.show_processes) [
      | inl e ↦ rw e (refl, (v.int_bare l.pid, (refl, h)))
      | inr e ↦ rw e h
    ]

    line-IsPlaced :
        (l : HostPairLine V) (rest : List Piece)
        → IsPlaced outside rest
        → IsPlaced outside (json_line conv opts l rest)
    unfolding json_line json_head json_sums IsPlaced mode_after
    line-IsPlaced l rest h =
        let sums : IsPlaced outside (json_sums conv opts l ++ rest) =
          (refl, (decimal-IsBare l.total_sent, (refl, (decimal-IsBare l.total_recv, h)))) in
        let rates =
          rates-IsPlaced (codes "      ") l.sent l.recv (json_sums conv opts l ++ rest) refl sums in
        (
          refl,
          (
            v.addr_simple l.ap.address_family l.ap.src,
            (
              refl,
              (
                decimal-IsBare l.ap.src_port,
                (
                  refl,
                  (
                    v.addr_simple l.ap.address_family l.ap.dst,
                    (
                      refl,
                      (
                        decimal-IsBare l.ap.dst_port,
                        (
                          refl,
                          (
                            protocol_text-IsSimple (protocol_name l.ap.protocol),
                            process-IsPlaced l _ rates,
                          ),
                        ),
                      ),
                    ),
                  ),
                ),
              ),
            ),
          ),
        )

    lines-IsPlaced :
        (first : Bool) (lines : List (HostPairLine V)) (rest : List Piece)
        → IsPlaced outside rest
        → IsPlaced outside (json_lines conv opts first lines rest)
    unfolding json_lines IsPlaced mode_after
    lines-IsPlaced first [] rest h = h
    lines-IsPlaced true (l ∷ lines) rest h = line-IsPlaced l _ (lines-IsPlaced false lines rest h)
    lines-IsPlaced false (l ∷ lines) rest h = line-IsPlaced l _ (lines-IsPlaced false lines rest h)

    totals-IsPlaced : (r : Report V) → IsPlaced outside (json_totals conv opts r)
    unfolding json_totals IsPlaced mode_after
    totals-IsPlaced r = rates-IsPlaced (codes "    ") r.totals_sent r.totals_recv _ refl (
      refl,
      (
        decimal-IsBare r.total_sent,
        (
          refl,
          (
            decimal-IsBare r.total_recv,
            (refl, (v.int_bare r.peaksent, (refl, (v.int_bare r.peakrecv, tt)))),
          ),
        ),
      ),
    )

    -- Where the conversions print numbers without quotation marks and white space, and the time
    -- and the addresses are printed without quotation marks and backslashes: what
    -- export_print_json writes is, but for white space outside of strings, the document of the
    -- report, with the time, the interface, an object for each line in its order, and the totals.
    -- This holds for any interface's and processes' names.
    pub export_print_json-compact :
        (r : Report V)
        → IsSimple r.timebuf
        → stripped outside (printed (export_print_json conv opts r))
          ≡ compact (document conv opts r) []
    unfolding export_print_json IsPlaced mode_after
    export_print_json-compact r simple_time =
        let placed : IsPlaced outside (export_print_json conv opts r) =
          (refl, (simple_time, (refl, lines-IsPlaced true r.lines _ (totals-IsPlaced r)))) in
        stripped-printed outside (export_print_json conv opts r) placed ∙ json-compact r
