-- ===== src/Switch/TwoChoices/Correct.antt =====
-- The two cores are of the node and differ, the less loaded one is taken, and the draws end as soon
-- as a byte stands for another core.
use blk_switch.Common.{
  ℕ, zero, suc, some, ◌+◌, ◌/◌, ◌%◌, ◌≤◌, ◌<◌, ◌≡◌, ◌≢◌, ◌⊎◌, inl, inr, refl, arith, In, leb, ◌==◌,
  Bool-cases, min,
}
use blk_switch.Switch.AppTarget.{node_cores}
use blk_switch.Switch.AppTarget.Cores.{In-node_cores}
use blk_switch.Switch.TwoChoices.{drawn_core, draw_other, two_choices}

module _ (random : ℕ → ℕ) (width nr_nodes node : ℕ) where
  abbrev core : ℕ → ℕ
  core = drawn_core random width nr_nodes node

  draw_other_total :
      (fuel first i j : ℕ)
      → i ≤ j
      → j < i + fuel
      → core j ≢ first
      → (k : ℕ) × (draw_other random width nr_nodes node fuel first i ≡ some (core k))
        × (core k ≢ first)
  unfolding draw_other
  draw_other_total zero first i j a b h = absurd (omega arith)
  draw_other_total (suc fuel) first i j a b h = elim (Bool-cases (first == core i)) [
    | inl t ↦ rw t (draw_other_total fuel first (i + 1) j (ground arith) (omega arith) h)
    | inr n ↦ (i, rw n, ground arith)
  ]

  -- If one of the next `fuel` bytes stands for another core than the first byte, two cores that
  -- differ are drawn, and the result is the one of them with fewer requests.
  pub two_choices_lem :
      (active : ℕ → ℕ) (fuel i j : ℕ)
      → i < j
      → j < i + 1 + fuel
      → core j ≢ core i
      → (k : ℕ) × (c : ℕ) × (two_choices random width nr_nodes node active fuel i ≡ some c)
        × (core k ≢ core i)
        × ((c ≡ core i) ⊎ (c ≡ core k))
        × (active c ≡ min (active (core i)) (active (core k)))
  unfolding two_choices
  two_choices_lem active fuel i j a b h =
      let (k, e, n) = draw_other_total fuel (core i) (i + 1) j (omega arith) (omega arith) h in
      elim (Bool-cases (leb (active (core i)) (active (core k)))) [
        | inl t ↦ (k, core i, rw (e, two_choices, t), n, inl refl, ground arith)
        | inr f ↦ (k, core k, rw (e, two_choices, f), n, inr refl, ground arith)
      ]

pub drawn_core-In :
    (random : ℕ → ℕ) (nr_cpus nr_nodes node i : ℕ)
    → 0 < nr_cpus / nr_nodes
    → In (drawn_core random (nr_cpus / nr_nodes) nr_nodes node i) (node_cores nr_cpus nr_nodes node)
unfolding drawn_core
drawn_core-In random nr_cpus nr_nodes node i h =
    In-node_cores nr_cpus nr_nodes node (random i % (nr_cpus / nr_nodes)) (omega arith)
