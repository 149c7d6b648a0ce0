-- ===== src/Screen/Compare.antt =====
-- The order of the lines: the compare functions of src/ui/ui.c.
use Prim.Native.Nat.{Ordering}
use iftopcolor.Shared.{ℕ, Bool, true, false, List, [], ◌∷◌, Option, none, some, if◌then◌else◌, drop}
use iftopcolor.Stringmap.{strcmp}
use iftopcolor.Options.{
  Options, two_line, one_line_both, one_line_recv, one_line_sent, sort_div1, sort_div2, sort_div3,
  sort_src, sort_dest,
}
use iftopcolor.Screen.Defs.{Num, Rates, HostPairLine}

module _ {V : Type 0} (num : Num V) where
  -- The divisions from one on.
  abbrev pub divisions : ℕ → Rates V → List V
  divisions start r = drop start (r.div0 ∷ r.div1 ∷ r.div2 ∷ [])

  -- A loop over two arrays: whether the first two numbers that differ ascend.
  unfoldable pub first_difference : List V → List V → Option Bool
  first_difference [] k = none
  first_difference (a ∷ l) [] = none
  first_difference (a ∷ l) (b ∷ k) =
      if num.equal a b then first_difference l k else some (num.below a b)

  abbrev pub both_ways : HostPairLine V → Rates V
  both_ways l = record {
    div0 = num.add l.recv.div0 l.sent.div0;
    div1 = num.add l.recv.div1 l.sent.div1;
    div2 = num.add l.recv.div2 l.sent.div2;
  }

  -- The `switch`.
  unfoldable pub displayed_difference : Options → HostPairLine V → HostPairLine V → ℕ → Option Bool
  displayed_difference opts aa bb start_div = elim opts.linedisplay [
    | one_line_sent ↦ first_difference (divisions start_div aa.sent) (divisions start_div bb.sent)
    | one_line_recv ↦ first_difference (divisions start_div aa.recv) (divisions start_div bb.recv)
    | two_line ↦ none
    | one_line_both ↦ none
  ]

  unfoldable pub screen_line_bandwidth_compare :
      Options → HostPairLine V → HostPairLine V → ℕ → Bool
  screen_line_bandwidth_compare opts aa bb start_div =
      elim (displayed_difference opts aa bb start_div) [
        | some r ↦ r
        | none ↦
            elim (first_difference (divisions start_div (both_ways aa))
              (divisions start_div (both_ways bb))) [ some r ↦ r | none ↦ true ]
      ]

  unfoldable pub screen_line_host_compare : Options → HostPairLine V → HostPairLine V → Bool
  screen_line_host_compare opts aa bb = elim (strcmp aa.cached_hostname bb.cached_hostname) [
    | Ordering.eq ↦ screen_line_bandwidth_compare opts aa bb 2
    | Ordering.gt ↦ true
    | Ordering.lt ↦ false
  ]

  unfoldable pub screen_line_compare : Options → HostPairLine V → HostPairLine V → Bool
  screen_line_compare opts aa bb = elim opts.sort [
    | sort_div1 ↦ screen_line_bandwidth_compare opts aa bb 0
    | sort_div2 ↦ screen_line_bandwidth_compare opts aa bb 1
    | sort_div3 ↦ screen_line_bandwidth_compare opts aa bb 2
    | sort_src ↦ screen_line_host_compare opts aa bb
    | sort_dest ↦ screen_line_host_compare opts aa bb
  ]
