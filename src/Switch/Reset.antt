-- ===== src/Switch/Reset.antt =====
-- blk_mq_get_request (block/blk-mq.c): the number of cores in use, the reset after a second without
-- traffic, and the statistics that are printed then.
use blk_switch.Common.{
  ℕ, ◌+◌, ◌&&◌, ◌||◌, not, ltb, ◌==◌, if◌then◌else◌, u64, pos_part, is_nonzero, true, false, ◌≡◌,
  ◌≢◌, ◌⊎◌, ◌≤◌, ◌<◌, inl, inr, arith, Bool-cases,
}
use blk_switch.Common.Map.{update, fill}
use blk_switch.Switch.{Switch, Params, Kernel, t_app, reset_ms}

module _ (p : Params) (k : Kernel) where
  -- `nr_cpus`: the module parameter where it is positive and not above the cores online.
  unfoldable pub cores_in_use : ℕ
  cores_in_use =
      let n : ℕ = pos_part p.max_nr_cpus in
      if (n == 0) || ltb k.num_online_cpus n then k.num_online_cpus else n

-- The loop over the cores, and the two assignments behind it.
unfoldable pub clear_metrics : (nr_cpus : ℕ) → Switch → Switch
clear_metrics nr_cpus s = record s {
  t_bytes = fill s.t_bytes nr_cpus (λ _. 0);
  l_bytes = fill s.l_bytes nr_cpus (λ _. 0);
  t_metric = fill s.t_metric nr_cpus (λ _. 0);
  l_metric = fill s.l_metric nr_cpus (λ _. 0);
  t_appstr = fill s.t_appstr nr_cpus (λ _. 0);
  l_appstr = fill s.l_appstr nr_cpus (λ _. 0);
  stats_print = fill s.stats_print nr_cpus (λ _. 1);
  last_appstr = 0;
  appstr_app = t_app;
}

-- What the code does with the counters after it printed them.
unfoldable pub clear_stats : (cpu : ℕ) → Switch → Switch
clear_stats cpu s = record s {
  stats_gen = update s.stats_gen cpu 0;
  stats_str = update s.stats_str cpu 0;
  stats_prc = update s.stats_prc cpu 0;
  stats_print = update s.stats_print cpu 0;
}

module _ (p : Params) (k : Kernel) where
  -- `tested` and `set` are `jiffies` at its two reads; `cpu` is `current->cpu`.
  unfoldable pub refresh : (tested set cpu : ℕ) → Switch → Switch
  unfolding clear_metrics clear_stats
  refresh tested set cpu s =
      let cleared =
        if (s.reset_metrics == 0) || k.time_after tested s.reset_metrics
        then clear_metrics (cores_in_use p k) s
        else s in
      let armed = record cleared { reset_metrics = u64 (set + k.msecs_to_jiffies reset_ms) } in
      if is_nonzero p.debug && not (armed.reset_metrics == 0) && not (armed.stats_print cpu == 0)
      then clear_stats cpu armed
      else armed

module _ (p : Params) (k : Kernel) where
  -- There is always a core in use, and never more than are online.
  pub cores_in_use_bounds :
      0 < k.num_online_cpus → (0 < cores_in_use p k) × (cores_in_use p k ≤ k.num_online_cpus)
  unfolding cores_in_use
  cores_in_use_bounds h = ground arith

  -- The metrics of a core.
  abbrev pub Idle : Switch → ℕ → Type 0
  Idle s j =
      (s.t_bytes j ≡ 0)
      × (s.l_bytes j ≡ 0)
      × (s.t_metric j ≡ 0)
      × (s.l_metric j ≡ 0)
      × (s.t_appstr j ≡ 0)
      × (s.l_appstr j ≡ 0)

  abbrev pub Unchanged : Switch → Switch → ℕ → Type 0
  Unchanged s s' j =
      (s'.t_bytes j ≡ s.t_bytes j)
      × (s'.l_bytes j ≡ s.l_bytes j)
      × (s'.t_metric j ≡ s.t_metric j)
      × (s'.l_metric j ≡ s.l_metric j)
      × (s'.t_appstr j ≡ s.t_appstr j)
      × (s'.l_appstr j ≡ s.l_appstr j)

  -- If the last request is a second old, or there was none, the refresh leaves every core in use
  -- idle, the other cores unchanged, and the turn with the T-apps; else it changes no metric of any
  -- core.
  pub refresh_lem :
      (tested set cpu : ℕ) (s : Switch)
      → let s' = refresh p k tested set cpu s in
        ((((s.reset_metrics ≡ 0) ⊎ (k.time_after tested s.reset_metrics ≡ true))
            × ((j : ℕ) → j < cores_in_use p k → Idle s' j)
            × ((j : ℕ) → cores_in_use p k ≤ j → Unchanged s s' j)
            × (s'.appstr_app ≡ t_app))
          ⊎ ((s.reset_metrics ≢ 0)
              × (k.time_after tested s.reset_metrics ≡ false)
              × ((j : ℕ) → Unchanged s s' j)))
        × (s'.reset_metrics ≡ u64 (set + k.msecs_to_jiffies reset_ms))
  unfolding refresh
  refresh_lem tested set cpu s = (
    elim (Bool-cases ((s.reset_metrics == 0) || k.time_after tested s.reset_metrics)) [
      | inl t ↦ inl (ground arith, λ j b. ground arith, λ j b. ground arith, ground arith)
      | inr n ↦ inr (ground arith, ground arith, λ j. ground arith)
    ],
    ground arith,
  )
