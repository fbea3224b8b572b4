-- ===== src/Switch/ReqScan/Keys.antt =====
-- The keys by which the scan compares cores, and what it does with one core.
use blk_switch.Common.{ℕ, ℤ, some, ◌+◌, ◌≤◌, ◌<◌, ◌≡◌, ◌⊎◌, arith, pos_part, neg_part}
use blk_switch.Switch.ReqScan.{Pick, consider}

-- `(a, x)` is at most `(b, y)`, first by the integers and then by the numbers.
abbrev pub AtMost : ℤ → ℕ → ℤ → ℕ → Type 0
AtMost a x b y =
    (pos_part a + neg_part b < pos_part b + neg_part a)
    ⊎ ((pos_part a + neg_part b ≡ pos_part b + neg_part a) × (x ≤ y))

pub AtMost-trans : (a b c : ℤ) (x y z : ℕ) → AtMost a x b y → AtMost b y c z → AtMost a x c z
AtMost-trans a b c x y z h k = ground arith

-- One core that is considered: it is taken, or passed, and the key is the lesser of the two.
pub consider_lem :
    (random : ℕ → ℕ) (cur cpu : ℕ) (nr : ℤ) (active : ℕ) (st : Pick)
    → let st' = consider random cur cpu nr active st in
      AtMost st'.min_nr st'.min_active nr active
      × AtMost st'.min_nr st'.min_active st.min_nr st.min_active
      × (((st'.target_cpu ≡ st.target_cpu)
            × (st'.min_nr ≡ st.min_nr)
            × (st'.min_active ≡ st.min_active))
          ⊎ ((st'.target_cpu ≡ some cpu) × AtMost nr active st'.min_nr st'.min_active))
unfolding consider
consider_lem random cur cpu nr active st = (ground arith, ground arith, ground arith)

-- `(a, x)` is less than `(b, y)`.
abbrev pub Below : ℤ → ℕ → ℤ → ℕ → Type 0
Below a x b y =
    (pos_part a + neg_part b < pos_part b + neg_part a)
    ⊎ ((pos_part a + neg_part b ≡ pos_part b + neg_part a) × (x < y))

-- A pick of the request's own core stays, or makes way for a core that is strictly better.
pub consider_local :
    (random : ℕ → ℕ) (cur cpu : ℕ) (nr nr' : ℤ) (active active' : ℕ) (st : Pick)
    → st.target_cpu ≡ some cur
    → AtMost nr' active' st.min_nr st.min_active
    → AtMost st.min_nr st.min_active nr' active'
    → let st' = consider random cur cpu nr active st in
      ((st'.target_cpu ≡ some cur)
        × AtMost nr' active' st'.min_nr st'.min_active
        × AtMost st'.min_nr st'.min_active nr' active')
      ⊎ Below st'.min_nr st'.min_active nr' active'
unfolding consider
consider_local random cur cpu nr nr' active active' st t a b = ground arith

-- The request's own core is taken unless the pick is strictly better.
pub consider_self :
    (random : ℕ → ℕ) (cur : ℕ) (nr : ℤ) (active : ℕ) (st : Pick)
    → let st' = consider random cur cur nr active st in
      ((st'.target_cpu ≡ some cur)
        × AtMost nr active st'.min_nr st'.min_active
        × AtMost st'.min_nr st'.min_active nr active)
      ⊎ Below st'.min_nr st'.min_active nr active
unfolding consider
consider_self random cur nr active st = ground arith

pub AtMost-Below : (a b c : ℤ) (x y z : ℕ) → AtMost a x b y → Below b y c z → Below a x c z
AtMost-Below a b c x y z h k = ground arith

pub Below-AtMost : (a b : ℤ) (x y : ℕ) → Below a x b y → ¬ AtMost b y a x
Below-AtMost a b x y h k = ground arith
