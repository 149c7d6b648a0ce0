-- ===== src/Export/Columns.antt =====
-- The columns of the CSV output.
use iftopcolor.Shared.{
  ℕ, zero, suc, ◌+◌, ◌/◌, ◌%◌, ◌≡◌, refl, List, [], ◌∷◌, arith, ◌==◌, Bool-cases, inl, inr, count,
  count-append,
}
use iftopcolor.Stringmap.{Text}
use iftopcolor.Options.{Options}
use iftopcolor.Screen.{HostPairLine}
use iftopcolor.Print.{print_digits, print_decimal}
use iftopcolor.Export.Defs.{
  ProtocolName, tcp, udp, icmp, icmpv6, other_protocol, protocol_name, json_escape_string,
}
use iftopcolor.Export.Output.{
  Piece, lit, text, number, escape_string, text_of, printed, Conversions, protocol_text, csv_header,
  csv_rates, csv_line,
}

abbrev pub commas : Text → ℕ
commas s = count b',' s

-- The commas that the formats print, and the others, which are none.
unfoldable pub in_formats : List Piece → ℕ
in_formats [] = 0
in_formats (lit s ∷ pieces) = commas s + in_formats pieces
in_formats (text s ∷ pieces) = in_formats pieces
in_formats (number s ∷ pieces) = in_formats pieces
in_formats (escape_string s ∷ pieces) = in_formats pieces

unfoldable pub HasNoOther : List Piece → Type 0
HasNoOther [] = Unit {0}
HasNoOther (lit s ∷ pieces) = HasNoOther pieces
HasNoOther (text s ∷ pieces) = (commas s ≡ 0) × HasNoOther pieces
HasNoOther (number s ∷ pieces) = (commas s ≡ 0) × HasNoOther pieces
HasNoOther (escape_string s ∷ pieces) = (commas (json_escape_string s) ≡ 0) × HasNoOther pieces

commas-printed :
    (pieces : List Piece) → HasNoOther pieces → commas (printed pieces) ≡ in_formats pieces
unfolding printed text_of in_formats HasNoOther
commas-printed [] h = refl
commas-printed (lit s ∷ pieces) h =
    omega (arith, count-append b',' s (printed pieces), commas-printed pieces h)
commas-printed (text s ∷ pieces) h =
    omega (arith, count-append b',' s (printed pieces), commas-printed pieces h.1, h.0)
commas-printed (number s ∷ pieces) h =
    omega (arith, count-append b',' s (printed pieces), commas-printed pieces h.1, h.0)
commas-printed (escape_string s ∷ pieces) h = omega (
  arith,
  count-append b',' (json_escape_string s) (printed pieces),
  commas-printed pieces h.1,
  h.0,
)

-- Numbers and addresses are printed without commas.
pub record HasNoCommas {V : Type 0} (conv : Conversions V) : Type 0 where
  pub in_floats : (v : V) → commas (conv.long_double v) ≡ 0
  pub in_ints : (n : ℕ) → commas (conv.int n) ≡ 0
  pub in_addrs : (af : ℕ) (addr : List ℕ) → commas (conv.inet_ntop af addr) ≡ 0

commas-print_digits : (fuel n : ℕ) (s : Text) → commas s ≡ 0 → commas (print_digits fuel n s) ≡ 0
unfolding print_digits
commas-print_digits zero n s h = h
commas-print_digits (suc fuel) n s h =
    let here : commas ((48 + n % 10) ∷ s) ≡ 0 = ground (arith, h) in
    elim (Bool-cases (n / 10 == 0)) [
      | inl e ↦ rw e here
      | inr e ↦ rw e (commas-print_digits fuel (n / 10) ((48 + n % 10) ∷ s) here)
    ]

commas-protocol_text : (p : ProtocolName) → commas (protocol_text p) ≡ 0
unfolding protocol_text
commas-protocol_text tcp = refl
commas-protocol_text udp = refl
commas-protocol_text icmp = refl
commas-protocol_text icmpv6 = refl
commas-protocol_text other_protocol = refl

module _ {V : Type 0} (conv : Conversions V) (v : HasNoCommas conv) (opts : Options) where
  header-HasNoOther : HasNoOther (csv_header conv opts)
  unfolding csv_header HasNoOther
  header-HasNoOther = elim (Bool-cases opts.show_processes) [
    | inl e ↦ rw (csv_header, e) tt
    | inr e ↦ rw (csv_header, e) tt
  ]

  decimal-commas : (n : ℕ) → commas (print_decimal n) ≡ 0
  decimal-commas n = commas-print_digits 20 n [] refl

  rates-HasNoOther : (l : HostPairLine V) → HasNoOther (csv_rates conv opts l)
  unfolding csv_rates HasNoOther
  rates-HasNoOther l =
      let f = v.in_floats in
      (
        f l.sent.div0,
        (
          f l.sent.div1,
          (
            f l.sent.div2,
            (
              f l.recv.div0,
              (
                f l.recv.div1,
                (f l.recv.div2, (decimal-commas l.total_sent, (decimal-commas l.total_recv, tt))),
              ),
            ),
          ),
        ),
      )

  line-HasNoOther :
      (timebuf : Text) (l : HostPairLine V)
      → commas timebuf ≡ 0
      → commas l.process_name ≡ 0
      → HasNoOther (csv_line conv opts timebuf l)
  unfolding csv_line csv_rates HasNoOther
  line-HasNoOther timebuf l time name =
      let d = decimal-commas in
      let rates = rates-HasNoOther l in
      elim (Bool-cases opts.show_processes) [
        | inl e ↦
            rw (csv_line, e)
              (
                time,
                (
                  v.in_addrs _ _,
                  (
                    d l.ap.src_port,
                    (
                      v.in_addrs _ _,
                      (
                        d l.ap.dst_port,
                        (
                          commas-protocol_text (protocol_name l.ap.protocol),
                          (v.in_ints l.pid, (name, rates)),
                        ),
                      ),
                    ),
                  ),
                ),
              )
        | inr e ↦
            rw (csv_line, e)
              (
                time,
                (
                  v.in_addrs _ _,
                  (
                    d l.ap.src_port,
                    (
                      v.in_addrs _ _,
                      (
                        d l.ap.dst_port,
                        (commas-protocol_text (protocol_name l.ap.protocol), rates),
                      ),
                    ),
                  ),
                ),
              )
      ]

  same_commas :
      (timebuf : Text) (l : HostPairLine V)
      → in_formats (csv_line conv opts timebuf l) ≡ in_formats (csv_header conv opts)
  unfolding csv_line csv_rates csv_header in_formats
  same_commas timebuf l = elim (Bool-cases opts.show_processes) [
    | inl e ↦ rw (csv_line, csv_header, e) refl
    | inr e ↦ rw (csv_line, csv_header, e) refl
  ]

  -- Where the time, the numbers and the addresses are printed without commas: the line of a flow
  -- whose process's name has no comma has as many commas as the header, with the processes and
  -- without.
  pub csv_line-commas :
      (timebuf : Text) (l : HostPairLine V)
      → commas timebuf ≡ 0
      → commas l.process_name ≡ 0
      → commas (printed (csv_line conv opts timebuf l)) ≡ commas (printed (csv_header conv opts))
  csv_line-commas timebuf l time name = omega (
    arith,
    commas-printed (csv_line conv opts timebuf l) (line-HasNoOther timebuf l time name),
    commas-printed (csv_header conv opts) header-HasNoOther,
    same_commas timebuf l,
  )
