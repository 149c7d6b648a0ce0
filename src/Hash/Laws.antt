-- ===== src/Hash/Laws.antt =====
-- What the parts of the table's operations do to a chain.
use mathlib.Core.Option
use iftopcolor.Shared.{
  ◌≡◌, refl, ◌⊎◌, inl, inr, Bool, true, false, [], ◌∷◌, ◌++◌, none, some, Bool-cases, All, ap,
}
use iftopcolor.Hash.Defs.{Node, Chain, unlink}

module _ {K R : Type 0} (p : Node K R → Bool) where
  -- A chain split at the first node that passes the test.
  pub record Split (c : Chain K R) (n : Node K R) (c' : Chain K R) : Type 0 where
    pub before : Chain K R
    pub after : Chain K R
    pub whole : c ≡ before ++ n ∷ after
    pub left : c' ≡ before ++ after
    pub fails : All (λ m. p m ≡ false) before
    pub passes : p n ≡ true

  -- The search passes every node, or stops at the first one that it looks for.
  abbrev pub Searched : Chain K R → Type 0
  Searched c =
      ((unlink p c ≡ none) × All (λ m. p m ≡ false) c)
      ⊎ ((n : Node K R) × (c' : Chain K R) × (unlink p c ≡ some (n, c')) × Split c n c')

  pub unlink_cases : (c : Chain K R) → Searched c
  unfolding unlink
  unlink_cases [] = inl (refl, tt)
  unlink_cases (m ∷ c) = elim (Bool-cases (p m)) [
    | inl hit ↦ inr (
      m,
      c,
      rw hit,
      record { before = []; after = c; whole = refl; left = refl; fails = tt; passes = hit },
    )
    | inr miss ↦ elim (unlink_cases c) [
      | inl (e, h) ↦ inl (rw miss (rw (e, Option.map)), (miss, h))
      | inr (n, c', e, s) ↦ inr (
        n,
        m ∷ c',
        rw miss (rw (e, Option.map)),
        record {
          before = m ∷ s.before;
          after = s.after;
          whole = ap (◌∷◌ m) s.whole;
          left = ap (◌∷◌ m) s.left;
          fails = (miss, s.fails);
          passes = s.passes;
        },
      )
    ]
  ]
