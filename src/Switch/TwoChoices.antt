-- ===== src/Switch/TwoChoices.antt =====
-- blk_mq_get_request (block/blk-mq.c): two cores at random, and the less loaded of them.
pub mod Correct
use blk_switch.Common.{ℕ, zero, suc, Option, none, some, ◌+◌, ◌*◌, ◌%◌, leb, ◌==◌, if◌then◌else◌}

module _ (random : ℕ → ℕ) (width nr_nodes node : ℕ) where
  -- The core for the random byte number `i`; `width` is `nr_cpus / nr_nodes`.
  unfoldable pub drawn_core : ℕ → ℕ
  drawn_core i = random i % width * nr_nodes + node

  -- `do … while (two_cpu[0] == two_cpu[1])`, with fuel; `i` is the number of the next byte.
  unfoldable pub draw_other : (fuel first i : ℕ) → Option ℕ
  draw_other zero first i = none
  draw_other (suc fuel) first i =
      let rest = draw_other fuel first (i + 1) in
      if first == drawn_core i then rest else some (drawn_core i)

  -- Power of two choices; `active` is `nr_active` of a core's queue.
  unfoldable pub two_choices : (active : ℕ → ℕ) (fuel i : ℕ) → Option ℕ
  two_choices active fuel i =
      let first = drawn_core i in
      elim (draw_other fuel first (i + 1)) [
        | none ↦ none
        | some second ↦ some (if leb (active first) (active second) then first else second)
      ]
