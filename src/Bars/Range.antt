-- ===== src/Bars/Range.antt =====
-- The index into the table of rates.
use iftopcolor.Shared.{
  ℕ, zero, suc, ◌/◌, ◌≤◌, ◌<◌, ◌≡◌, refl, Bool, true, false, List, [], ◌∷◌, some, ◌==◌, ltb,
  get_elem?, arith, Bool-cases, inl, inr, All, ltb→lt,
}
use iftopcolor.Options.{Options}
use iftopcolor.Bars.{
  scale, Scale, search_rate, note_rate, get_max_bandwidth, get_bar_length_eighths, get_bar_length,
  bigger_rate, draw_bars, place_marks, scale_marks, draw_frames,
}

-- The index is in the table, and has room for the step that is asked for.
pub record IsScaled (s : Scale) : Type 0 where
  pub inside : s.rateidx ≤ 6
  pub room : s.wantbiggerrate ≡ true → s.rateidx ≤ 5

-- An entry of the table, and what a rate of at most 10 Mbit/s that exceeds it tells of its place.
entry :
    (i rate : ℕ)
    → i ≤ 6
    → rate ≤ 10000000
    → (m : ℕ) × (get_elem? scale i ≡ some m) × (m < rate → i ≤ 3)
entry zero rate h k = (64000, refl, λ l. omega arith)
entry (suc zero) rate h k = (128000, refl, λ l. omega arith)
entry (suc (suc zero)) rate h k = (256000, refl, λ l. omega arith)
entry (suc (suc (suc zero))) rate h k = (1000000, refl, λ l. omega arith)
entry (suc (suc (suc (suc zero)))) rate h k = (10000000, refl, λ l. omega arith)
entry (suc (suc (suc (suc (suc zero))))) rate h k = (100000000, refl, λ l. omega arith)
entry (suc (suc (suc (suc (suc (suc zero)))))) rate h k = (1000000000, refl, λ l. omega arith)
entry (suc (suc (suc (suc (suc (suc (suc i))))))) rate h k = absurd (omega arith)

search_rate-small :
    (rate : ℕ) → rate ≤ 10000000 → (i : ℕ) × (search_rate rate scale 0 ≡ some i) × (i ≤ 5)
unfolding search_rate
search_rate-small rate k = elim (Bool-cases (ltb 64000 rate)) [
  | inr a ↦ (1, rw a refl, omega arith)
  | inl a ↦ elim (Bool-cases (ltb 128000 rate)) [
    | inr b ↦ (2, rw (a, b) refl, omega arith)
    | inl b ↦ elim (Bool-cases (ltb 256000 rate)) [
      | inr c ↦ (3, rw (a, b, c) refl, omega arith)
      | inl c ↦ elim (Bool-cases (ltb 1000000 rate)) [
        | inr d ↦ (4, rw (a, b, c, d) refl, omega arith)
        | inl d ↦
            let e : ltb 10000000 rate ≡ false = ground (arith, k) in
            (5, rw (a, b, c, d, e) refl, omega arith)
      ]
    ]
  ]
]

note_rate-IsScaled :
    (rate : ℕ) (s : Scale)
    → rate ≤ 10000000
    → IsScaled s
    → (s' : Scale) × (note_rate rate s ≡ some s') × IsScaled s'
unfolding note_rate
note_rate-IsScaled rate s k v =
    let (m, at, small) = entry s.rateidx rate v.inside k in
    elim (Bool-cases (rate == 0)) [
      | inl z ↦ (s, simp (note_rate, z) refl, v)
      | inr z ↦ elim (Bool-cases (ltb m rate)) [
        | inr l ↦ (s, simp (note_rate, z, at, l) refl, v)
        | inl l ↦ elim (Bool-cases (s.rateidx_init == 0)) [
          | inl i ↦
              let (j, found, le) = search_rate-small rate k in
              (
                record { rateidx = j; wantbiggerrate = true; rateidx_init = j },
                simp (note_rate, z, at, l, i, found) refl,
                record { inside = omega (arith, le); room = λ w. le },
              )
          | inr i ↦ (
            record s { wantbiggerrate = true },
            simp (note_rate, z, at, l, i) refl,
            record { inside = v.inside; room = λ w. omega (arith, small (ltb→lt m rate l)) },
          )
        ]
      ]
    ]

module _ (to_length : Bool → ℕ → ℕ → ℕ) (opts : Options) where
  get_max_bandwidth-some : (s : Scale) → IsScaled s → (m : ℕ) × (get_max_bandwidth opts s ≡ some m)
  unfolding get_max_bandwidth
  get_max_bandwidth-some s v = elim (Bool-cases (ltb 0 opts.max_bandwidth)) [
    | inl e ↦ (opts.max_bandwidth, simp (get_max_bandwidth, e) refl)
    | inr e ↦
        let (m, at, small) = entry s.rateidx 0 v.inside (omega arith) in
        (m, simp (get_max_bandwidth, e, at) refl)
  ]

  get_bar_length-IsScaled :
      (rate : ℕ) (s : Scale)
      → rate ≤ 10000000
      → IsScaled s
      → (length : ℕ) × (s' : Scale) × (get_bar_length to_length opts rate s ≡ some (length, s'))
        × IsScaled s'
  unfolding get_bar_length get_bar_length_eighths
  get_bar_length-IsScaled rate s k v = elim (Bool-cases (rate == 0)) [
    | inl z ↦ (0, s, simp (get_bar_length, get_bar_length_eighths, z) refl, v)
    | inr z ↦
        let (s', run, w) = note_rate-IsScaled rate s k v in
        let (m, top) = get_max_bandwidth-some s' w in
        (
          to_length opts.log_scale rate m / 8,
          s',
          simp (get_bar_length, get_bar_length_eighths, z, run, top) refl,
          w,
        )
  ]

  bigger_rate-IsScaled : (s : Scale) → IsScaled s → IsScaled (bigger_rate opts s)
  unfolding bigger_rate
  bigger_rate-IsScaled s v = elim (Bool-cases s.wantbiggerrate) [
    | inr e ↦ simp (bigger_rate, e) v
    | inl e ↦ elim (Bool-cases (opts.max_bandwidth == 0)) [
      | inr f ↦ simp (bigger_rate, e, f) v
      | inl f ↦
          simp (bigger_rate, e, f)
            (record { inside = omega (arith, v.room e); room = λ w. absurd cc })
    ]
  ]

  draw_bars-IsScaled :
      (rates : List ℕ) (s : Scale)
      → All (λ r. r ≤ 10000000) rates
      → IsScaled s
      → (s' : Scale) × (draw_bars to_length opts rates s ≡ some s') × IsScaled s'
  unfolding draw_bars
  draw_bars-IsScaled [] s small v = (bigger_rate opts s, refl, bigger_rate-IsScaled s v)
  draw_bars-IsScaled (rate ∷ rates) s (k, small) v =
      let (length, s₁, one, w) = get_bar_length-IsScaled rate s k v in
      let (s', run, x) = draw_bars-IsScaled rates s₁ small w in (s', rw (draw_bars, one) run, x)

  -- A mark within the scale changes nothing.
  note_rate-within :
      (rate m : ℕ) (s : Scale)
      → get_elem? scale s.rateidx ≡ some m
      → rate ≤ m
      → note_rate rate s ≡ some s
  unfolding note_rate
  note_rate-within rate m s at le = elim (Bool-cases (rate == 0)) [
    | inl z ↦ simp (note_rate, z) refl
    | inr z ↦ let l : ltb m rate ≡ false = ground (arith, le) in simp (note_rate, z, at, l) refl
  ]

  place_marks-small :
      (rates : List ℕ) (s : Scale)
      → All (λ r. r ≤ 10000000) rates
      → IsScaled s
      → (s' : Scale) × (place_marks to_length opts rates s ≡ some s') × IsScaled s'
  unfolding place_marks
  place_marks-small [] s small v = (s, refl, v)
  place_marks-small (rate ∷ rates) s (k, small) v =
      let (length, s₁, one, w) = get_bar_length-IsScaled rate s k v in
      let (s', run, x) = place_marks-small rates s₁ small w in (s', rw (place_marks, one) run, x)

  place_marks-within :
      (rates : List ℕ) (m : ℕ) (s : Scale)
      → ltb 0 opts.max_bandwidth ≡ false
      → get_elem? scale s.rateidx ≡ some m
      → All (λ r. r ≤ m) rates
      → place_marks to_length opts rates s ≡ some s
  unfolding place_marks get_bar_length get_bar_length_eighths get_max_bandwidth
  place_marks-within [] m s unset at le = refl
  place_marks-within (rate ∷ rates) m s unset at le = elim (Bool-cases (rate == 0)) [
    | inl z ↦
        simp (place_marks, get_bar_length, get_bar_length_eighths, z)
          (place_marks-within rates m s unset at le.1)
    | inr z ↦
        simp
          (
            place_marks,
            get_bar_length,
            get_bar_length_eighths,
            z,
            note_rate-within rate m s at le.0,
            get_max_bandwidth,
            unset,
            at,
          )
          (place_marks-within rates m s unset at le.1)
  ]

  All-weaker : (rates : List ℕ) (m n : ℕ) → m ≤ n → All (λ r. r ≤ m) rates → All (λ r. r ≤ n) rates
  All-weaker [] m n le h = tt
  All-weaker (rate ∷ rates) m n le h = (omega (arith, h.0), All-weaker rates m n le h.1)

  module _ (markers : Bool → ℕ → List ℕ) where
    scale_marks-IsScaled :
        (s : Scale)
        → ((log : Bool) (max : ℕ) → All (λ r. r ≤ max) (markers log max))
        → opts.max_bandwidth ≤ 10000000
        → IsScaled s
        → (s' : Scale) × (scale_marks to_length markers opts s ≡ some s') × IsScaled s'
    unfolding scale_marks get_max_bandwidth
    scale_marks-IsScaled s below fixed v = elim (Bool-cases opts.showbars) [
      | inr e ↦ let (m, top) = get_max_bandwidth-some s v in (s, simp (scale_marks, top, e) refl, v)
      | inl e ↦ elim (Bool-cases (ltb 0 opts.max_bandwidth)) [
        | inl f ↦
            let marks = markers opts.log_scale opts.max_bandwidth in
            let small =
              All-weaker marks opts.max_bandwidth 10000000 fixed
                (below opts.log_scale opts.max_bandwidth) in
            let (s', run, w) = place_marks-small marks s small v in
            (s', simp (scale_marks, get_max_bandwidth, f, e) run, w)
        | inr f ↦
            let (m, at, small) = entry s.rateidx 0 v.inside (omega arith) in
            let run =
              place_marks-within (markers opts.log_scale m) m s f at (below opts.log_scale m) in
            (s, simp (scale_marks, get_max_bandwidth, f, at, e) run, v)
      ]
    ]

    -- While no bar is of more than 10 Mbit/s, nor is the fixed bandwidth, if there is one,
    -- drawing the scale with its marks and the bars of any number of frames never reads behind
    -- the table of rates, in both scales, and the index stays in the table, if it was in it and
    -- had room for the step that is asked for. The floats of the marks are taken to be such that
    -- no mark is above the greatest rate, at which their loop stops.
    pub draw_frames-IsScaled :
        (frames : List (List ℕ)) (s : Scale)
        → ((log : Bool) (max : ℕ) → All (λ r. r ≤ max) (markers log max))
        → opts.max_bandwidth ≤ 10000000
        → All (All (λ r. r ≤ 10000000)) frames
        → IsScaled s
        → (s' : Scale) × (draw_frames to_length markers opts frames s ≡ some s') × IsScaled s'
    unfolding draw_frames
    draw_frames-IsScaled [] s below fixed small v = (s, refl, v)
    draw_frames-IsScaled (rates ∷ frames) s below fixed (k, small) v =
        let (s₀, marked, u) = scale_marks-IsScaled s below fixed v in
        let (s₁, one, w) = draw_bars-IsScaled rates s₀ k u in
        let (s', run, x) = draw_frames-IsScaled frames s₁ below fixed small w in
        (s', rw (draw_frames, marked, one) run, x)
