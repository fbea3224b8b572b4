-- ===== src/Switch/Best.antt =====
-- The reference for a search for the least key: among the entries of a list that pass a test and
-- whose key lies below a bound, the first with the least key.
use mathlib.Core.Path.{subst}
use blk_switch.Common.{
  ℕ, Bool, Option, List, [], ◌∷◌, none, some, true, ◌≤◌, ◌<◌, ◌&&◌, ◌≡◌, ◌⊎◌, inl, inr, refl, sym,
  arith, ltb, In, Bool-cases, if◌then◌else◌,
}

module _ (el : ℕ → Bool) (key : ℕ → ℕ) where
  unfoldable pub best : List ℕ → Option ℕ → ℕ → Option ℕ
  best [] found bound = found
  best (c ∷ cs) found bound =
      best cs (if el c && ltb (key c) bound then some c else found)
        (if el c && ltb (key c) bound then key c else bound)

  -- `r` is one of the list's entries that pass and lie below the bound, with the least key; or
  -- there is none.
  abbrev pub IsBest : List ℕ → (found : Option ℕ) (bound : ℕ) → Option ℕ → Type 0
  IsBest cs found bound none = (found ≡ none) × ((d : ℕ) → In d cs → el d ≡ true → bound ≤ key d)
  IsBest cs found bound (some c) =
      ((some c ≡ found) × ((d : ℕ) → In d cs → el d ≡ true → bound ≤ key d))
      ⊎ (In c cs
          × (el c ≡ true)
          × (key c < bound)
          × ((d : ℕ) → In d cs → el d ≡ true → key c ≤ key d))

  -- A fact about every later entry, and about the first, is one about every entry.
  every :
      (c : ℕ) (cs : List ℕ) (low : ℕ)
      → (el c ≡ true → low ≤ key c)
      → ((d : ℕ) → In d cs → el d ≡ true → low ≤ key d)
      → (d : ℕ) → In d (c ∷ cs)
      → el d ≡ true
      → low ≤ key d
  every c cs low h t d (inl e) p = subst (λ x. el x ≡ true → low ≤ key x) (sym e) h p
  every c cs low h t d (inr m) p = t d m p

  -- The next entry is taken.
  taken :
      (c : ℕ) (cs : List ℕ) (found : Option ℕ) (bound : ℕ)
      → el c ≡ true
      → key c < bound
      → (r : Option ℕ) → IsBest cs (some c) (key c) r
      → IsBest (c ∷ cs) found bound r
  taken c cs found bound e lt none h = ground (arith, h.0)
  taken c cs found bound e lt (some d) (inl (p, h)) = inr (
    inl q,
    subst (λ x. el x ≡ true) (sym q) e,
    subst (λ x. key x < bound) (sym q) lt,
    every c cs (key d) (λ _. subst (λ x. key x ≤ key c) (sym q) (omega arith))
        (λ x m y. subst (λ z. key z ≤ key x) (sym q) (h x m y)),
  )
    where
      q : d ≡ c
      q = cc
  taken c cs found bound e lt (some d) (inr (m, q, l, h)) =
      inr (inr m, q, omega arith, every c cs (key d) (λ _. omega arith) h)

  passed :
      (c : ℕ) (cs : List ℕ) (found : Option ℕ) (bound : ℕ)
      → (el c ≡ true → bound ≤ key c)
      → (r : Option ℕ) → IsBest cs found bound r
      → IsBest (c ∷ cs) found bound r
  passed c cs found bound n none (p, h) = (p, every c cs bound n h)
  passed c cs found bound n (some d) (inl (p, h)) = inl (p, every c cs bound n h)
  passed c cs found bound n (some d) (inr (m, q, l, h)) =
      inr (inr m, q, l, every c cs (key d) (λ x. omega (arith, n x)) h)

  pub best-IsBest :
      (cs : List ℕ) (found : Option ℕ) (bound : ℕ) → IsBest cs found bound (best cs found bound)
  unfolding best
  best-IsBest [] none bound = (refl, λ d m. absurd m)
  best-IsBest [] (some c) bound = inl (refl, λ d m. absurd m)
  best-IsBest (c ∷ cs) found bound = elim (Bool-cases (el c && ltb (key c) bound)) [
    | inl t ↦
        rw t
          (taken c cs found bound (ground arith) (ground arith) _ (best-IsBest cs (some c) (key c)))
    | inr f ↦ rw f (passed c cs found bound (ground arith) _ (best-IsBest cs found bound))
  ]
