-- ===== src/Print/Host.antt =====
-- The text of a host and its service.
use iftopcolor.Shared.{
  ℕ, zero, suc, ◌+◌, ◌-◌, ◌≤◌, ◌≡◌, refl, ap, ◌∙◌, List, [], ◌∷◌, ◌++◌, arith, length,
  length-append, length-take, length-replicate, take, drop, replicate,
}
use iftopcolor.Stringmap.{Text}
use iftopcolor.Options.{Options}
use iftopcolor.Print.Defs.{Names, padded, hostname, service, service_at, sprint_host}

abbrev pub blanks : ℕ → Text
blanks n = replicate n 32

length-padded : (width : ℕ) (s : Text) → length (padded width s) ≡ width
length-padded width s = omega (
  arith,
  length-take width (s ++ blanks width),
  length-append s (blanks width),
  length-replicate {A = ℕ} width 32,
)

take-append_left : (n : ℕ) (a b : Text) → n ≤ length a → take n (a ++ b) ≡ take n a
take-append_left zero a b le = refl
take-append_left (suc n) [] b le = absurd (omega arith)
take-append_left (suc n) (c ∷ a) b le = ap (◌∷◌ c) (take-append_left n a b (omega arith))

take-take : (n k : ℕ) (a : Text) → n ≤ k → take n (take k a) ≡ take n a
take-take zero k a le = refl
take-take (suc n) zero a le = absurd (omega arith)
take-take (suc n) (suc k) [] le = refl
take-take (suc n) (suc k) (c ∷ a) le = ap (◌∷◌ c) (take-take n k a (omega arith))

blanks-take : (k m : ℕ) → k ≤ m → take k (blanks m) ≡ blanks k
blanks-take zero m le = refl
blanks-take (suc k) zero le = absurd (omega arith)
blanks-take (suc k) (suc m) le = ap (◌∷◌ 32) (blanks-take k m (omega arith))

-- A text that fits is filled up.
padded_from :
    (n m k : ℕ) (a : Text)
    → length a ≤ n
    → n - length a ≡ k
    → k ≤ m
    → take n (a ++ blanks m) ≡ a ++ blanks k
padded_from n m k [] le e lt = let same : n ≡ k = omega (arith, e) in rw same (blanks-take k m lt)
padded_from zero m k (c ∷ a) le e lt = absurd (omega arith)
padded_from (suc n) m k (c ∷ a) le e lt =
    ap (◌∷◌ c) (padded_from n m k a (omega arith) (omega (arith, e)) lt)

drop-append : (n : ℕ) (a b : Text) → length a ≡ n → drop n (a ++ b) ≡ b
drop-append zero [] b e = refl
drop-append zero (c ∷ a) b e = absurd (omega (arith, e))
drop-append (suc n) [] b e = absurd (omega (arith, e))
drop-append (suc n) (c ∷ a) b e = drop-append n a b (omega (arith, e))

take-append : (n : ℕ) (a b : Text) → length a ≡ n → take n (a ++ b) ≡ a
take-append zero [] b e = refl
take-append zero (c ∷ a) b e = absurd (omega (arith, e))
take-append (suc n) [] b e = absurd (omega (arith, e))
take-append (suc n) (c ∷ a) b e = ap (◌∷◌ c) (take-append n a b (omega (arith, e)))

-- A line of `width` columns with a host from its left end on, as far as the service, which comes at
-- its end or right behind the host.
pub record Fitted (width : ℕ) (host serv line : Text) (left : ℕ) : Type 0 where
  pub exact : length line ≡ width
  pub begins : take left line ≡ take left host
  pub within : left ≤ length host
  pub goes_on : length serv ≤ width → drop left line ≡ serv ++ blanks (width - left - length serv)
  pub uncut : length host + length serv ≤ width → left ≡ length host

module _ (width : ℕ) (host serv : Text) where
  abbrev at : ℕ
  at = service_at width host serv

  at_bounds :
      (at ≤ width)
      × (at ≤ length host)
      × (length serv ≤ width → length serv ≤ width - at)
      × (length host + length serv ≤ width → at ≡ length host)
  unfolding service_at
  at_bounds = ground arith

  pub Fitted-service_at :
      Fitted width host serv (take at (padded width host) ++ padded (width - at) serv) at
  Fitted-service_at =
      let (le, within, room, uncut) = at_bounds in
      let front : take at (padded width host) ≡ take at host =
        take-take at width (host ++ blanks width) le
        ∙ take-append_left at host (blanks width) within in
      let front_length : length (take at (padded width host)) ≡ at =
        omega (arith, le, length-take at (padded width host), length-padded width host) in
      record {
        exact = omega (
          arith,
          le,
          front_length,
          length-padded (width - at) serv,
          length-append (take at (padded width host)) (padded (width - at) serv),
        );
        begins = take-append at _ _ front_length ∙ front;
        within = within;
        goes_on = λ h.
            drop-append at _ _ front_length
            ∙ padded_from (width - at) (width - at) (width - at - length serv) serv (room h) refl
                (omega arith);
        uncut = uncut;
      }

-- Whatever the host's name and the service are: the text of an endpoint has exactly the width
-- asked for. It begins with the host's name as far as the service, which stands whole, with
-- blanks behind it, if it fits into the width at all, and the host's name is whole if both fit.
pub sprint_host-Fitted :
    (names : Names) (opts : Options) (af : ℕ) (addr : List ℕ) (port protocol maxlen : ℕ)
    → let host = hostname names opts af addr maxlen in
      let serv = service names opts port protocol in
      Fitted maxlen host serv
        (sprint_host names opts af addr port protocol maxlen)
        (service_at maxlen host serv)
unfolding sprint_host
sprint_host-Fitted names opts af addr port protocol maxlen =
    Fitted-service_at maxlen (hostname names opts af addr maxlen) (service names opts port protocol)
