-- ===== src/Switch/AppTarget/Spec.antt =====
-- What the search for a steering target promises, stated by the loads of the cores alone.
use blk_switch.Common.{
  ℕ, List, Option, none, some, true, false, ◌≤◌, ◌<◌, ◌≡◌, ◌≢◌, ◌⊎◌, inl, inr, arith, ltb, In,
  Bool-cases,
}
use blk_switch.Switch.{Switch, l_app, thresh_l}
use blk_switch.Switch.Best.{IsBest}
use blk_switch.Switch.AppTarget.{total, is_skipped, is_l_better, find_target}
use blk_switch.Switch.AppTarget.Correct.{suits_l, find_target_l}

module _ (s : Switch) (cur_cpu : ℕ) where
  abbrev pub load : ℕ → ℕ
  load = total s false cur_cpu

  -- Another core that has L-apps, is not full of them, and a core of one's own with T-apps.
  abbrev pub SuitsL : ℕ → Type 0
  SuitsL d =
      (d ≢ cur_cpu) × (s.l_appstr d ≤ thresh_l) × (s.t_appstr cur_cpu ≢ 0) × (s.l_appstr d ≢ 0)

  -- Another core with less L-load.
  abbrev pub SuitsT : ℕ → Type 0
  SuitsT d = (d ≢ cur_cpu) × (s.l_appstr d ≤ thresh_l) × (s.l_appstr d < s.l_appstr cur_cpu)

  -- Another core with more L-load, which is not full.
  abbrev pub Pending : ℕ → Type 0
  Pending d = (d ≢ cur_cpu) × (s.l_appstr cur_cpu < s.l_appstr d) × (s.l_appstr d < thresh_l)

  abbrev pub IsLTarget : List ℕ → Option ℕ → Type 0
  IsLTarget cs none = (d : ℕ) → In d cs → SuitsL d → load cur_cpu ≤ load d
  IsLTarget cs (some c) =
      In c cs
      × SuitsL c
      × (load c < load cur_cpu)
      × ((d : ℕ) → In d cs → SuitsL d → load c ≤ load d)

  abbrev pub IsTTarget : List ℕ → Option ℕ → Type 0
  IsTTarget cs none =
      ((d : ℕ) × In d cs × Pending d) ⊎ ((d : ℕ) → In d cs → SuitsT d → 8388608 ≤ s.t_appstr d)
  IsTTarget cs (some c) =
      In c cs
      × SuitsT c
      × (s.t_appstr c < 8388608)
      × ((d : ℕ) → In d cs → SuitsT d → s.t_appstr c ≤ s.t_appstr d)
      × ((d : ℕ) → In d cs → ¬ Pending d)

  suits_l-SuitsL : (d : ℕ) → suits_l s cur_cpu d ≡ true → SuitsL d × (load d < load cur_cpu)
  unfolding is_skipped is_l_better
  suits_l-SuitsL d h = ground arith

  SuitsL-suits_l : (d : ℕ) → SuitsL d → load d < load cur_cpu → suits_l s cur_cpu d ≡ true
  unfolding is_skipped is_l_better
  SuitsL-suits_l d h lt = ground arith

  l_target :
      (cs : List ℕ) (r : Option ℕ)
      → IsBest (suits_l s cur_cpu) load cs none (load cur_cpu) r
      → IsLTarget cs r
  l_target cs none (e, h) = λ d m p. elim (Bool-cases (ltb (load d) (load cur_cpu))) [
    | inl t ↦ h d m (SuitsL-suits_l d p (ground arith))
    | inr f ↦ ground arith
  ]
  l_target cs (some c) (inl (e, h)) = absurd (cc)
  l_target cs (some c) (inr (m, q, lt, h)) = (
    m,
    (suits_l-SuitsL c q).0,
    lt,
    λ d n p. elim (Bool-cases (ltb (load d) (load cur_cpu))) [
      | inl t ↦ h d n (SuitsL-suits_l d p (ground arith))
      | inr f ↦ ground arith
    ],
  )

  -- In a round of L-apps the target of an L-app is a core of the list that suits it, with less load
  -- than its own and the least load of those that suit it; where no target is found, no core that
  -- suits it has less load than its own.
  pub find_target-IsLTarget :
      (cs : List ℕ) → s.appstr_app ≡ l_app → IsLTarget cs (find_target s false cur_cpu cs)
  find_target-IsLTarget cs e = l_target cs _ (find_target_l s cur_cpu cs e)
