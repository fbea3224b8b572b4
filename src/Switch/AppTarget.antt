-- ===== src/Switch/AppTarget.antt =====
-- blk_mq_get_request (block/blk-mq.c): the core that an application is steered to.
pub mod Correct
pub mod Spec
pub mod Cores
use blk_switch.Common.{
  ℕ, zero, suc, Bool, Option, List, [], ◌∷◌, none, some, not, ◌&&◌, ◌||◌, ◌+◌, ◌*◌, ◌/◌, ltb, ◌==◌,
  if◌then◌else◌, u64,
}
use blk_switch.Switch.{Switch, is_l_app, thresh_l}

-- `for (i = i₀; i < i₀ + rounds; i++)`, the cores `i * nr_nodes + node`
unfoldable pub cores_from : (nr_nodes node i rounds : ℕ) → List ℕ
cores_from nr_nodes node i zero = []
cores_from nr_nodes node i (suc rounds) =
    (i * nr_nodes + node) ∷ cores_from nr_nodes node (i + 1) rounds

-- The cores of the node of the request's queue, as every loop visits them.
unfoldable pub node_cores : (nr_cpus nr_nodes node : ℕ) → List ℕ
unfolding cores_from
node_cores nr_cpus nr_nodes node = cores_from nr_nodes node 0 (nr_cpus / nr_nodes)

-- The locals of the search; `target_cpu` is -1 where there is none.
pub record Search : Type 0 where
  pub target_cpu : Option ℕ
  pub min_metric : ℕ

-- What one round does: go on, or set the target to -1 and break.
pub data Round : Type 0 where
  next : Search → Round
  wait : Round

module _ (s : Switch) (thru : Bool) (cur_cpu : ℕ) where
  abbrev pub total : ℕ → ℕ
  total c = u64 (s.l_appstr c + s.t_appstr c)

  -- The core itself, and a core with too much L-traffic, are passed over.
  unfoldable pub is_skipped : ℕ → Bool
  is_skipped c = (c == cur_cpu) || ltb thresh_l (s.l_appstr c)

  -- The conditions for a target of an L-app, but for the comparison with `min_metric`.
  unfoldable pub is_l_better : ℕ → Bool
  is_l_better c =
      not (s.t_appstr cur_cpu == 0) && not (s.l_appstr c == 0) && ltb (total c) (total cur_cpu)

  -- A core to which some L-app should move first.
  unfoldable pub is_l_pending : ℕ → Bool
  is_l_pending c = ltb (s.l_appstr cur_cpu) (s.l_appstr c) && ltb (s.l_appstr c) thresh_l

  unfoldable pub visit : Search → ℕ → Round
  visit st c =
      if is_skipped c
      then next st
      else if is_l_app s.appstr_app && not thru
      then (if is_l_better c && ltb (total c) st.min_metric
          then next (record { target_cpu = some c; min_metric = total c })
          else next st)
      else if not (is_l_app s.appstr_app) && thru
      then (if is_l_pending c
          then wait
          else if ltb (s.l_appstr c) (s.l_appstr cur_cpu) && ltb (s.t_appstr c) st.min_metric
          then next (record { target_cpu = some c; min_metric = s.t_appstr c })
          else next st)
      else next st

  unfoldable pub search_from : Search → List ℕ → Option ℕ
  search_from st [] = st.target_cpu
  search_from st (c ∷ cs) = elim (visit st c) [ next st' ↦ search_from st' cs | wait ↦ none ]

  unfoldable pub find_target : List ℕ → Option ℕ
  find_target cs =
      search_from
        (record { target_cpu = none; min_metric = if not thru then total cur_cpu else 8388608 }) cs
