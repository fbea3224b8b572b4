-- ===== src/Switch/AppSteer.antt =====
-- blk_mq_get_request (block/blk-mq.c): application steering.
use blk_switch.Common.{
  ℕ, Bool, Option, none, some, true, false, not, ◌+◌, ◌&&◌, leb, ◌==◌, if◌then◌else◌, u64, ◌≡◌, ◌≢◌,
  ◌⊎◌, ◌<◌, inl, inr, refl, ap, arith, Bool-cases,
}
use blk_switch.Common.Map.{update, fill}
use blk_switch.Switch.{Switch, Kernel, App, t_app, l_app, appstr_ms}
use blk_switch.Switch.Metric.{update_metrics}
use blk_switch.Switch.AppTarget.{find_target, node_cores}
use blk_switch.Switch.Queue.{Queue, Flags, Place, map_queue}

abbrev pub other_app : App → App
other_app t_app = l_app
other_app l_app = t_app

module _ (k : Kernel) where
  -- Step 2: every 10 ms the metrics are copied and the turn goes to the other class.
  unfoldable pub take_turn : (nr_cpus tested set : ℕ) → Switch → Switch
  take_turn nr_cpus tested set s =
      if s.last_appstr == 0
      then record s { last_appstr = u64 (set + k.msecs_to_jiffies appstr_ms) }
      else if k.time_after tested s.last_appstr
      then record s {
        t_appstr = fill s.t_appstr nr_cpus s.t_metric;
        l_appstr = fill s.l_appstr nr_cpus s.l_metric;
        last_appstr = u64 (set + k.msecs_to_jiffies appstr_ms);
        appstr_app = other_app s.appstr_app;
      }
      else s

-- Step 3, the metrics: with one queue active, the core loses the load of the class that leaves.
unfoldable pub drop_metric : Bool → (active_queues cpu : ℕ) → Switch → Switch
drop_metric thru active_queues cpu s =
    if not thru && leb active_queues 1
    then record s { l_metric = update s.l_metric cpu 0 }
    else if thru && leb active_queues 1
    then record s { t_metric = update s.t_metric cpu 0 }
    else s

abbrev pub leave : Option ℕ → Bool → (active_queues cpu : ℕ) → Switch → Switch
leave none thru active_queues cpu s = s
leave (some target) thru active_queues cpu s = drop_metric thru active_queues cpu s

-- What application steering leaves behind.
pub record AppSteered : Type 0 where
  pub switch : Switch
  pub place : Place
  pub moved : Bool

module _ (k : Kernel) (q : Queue) (f : Flags) where
  -- `tested` and `set` are `jiffies` at its reads, and `cpu_after` is `current->cpu` behind the call
  -- of `sched_setaffinity` for the target, if there is one.
  unfoldable pub steer_app :
      (nr_cpus tested set : ℕ) (cpu_after : Option ℕ → ℕ)
      → Bool
      → (size : ℕ) → Place
      → Switch
      → AppSteered
  steer_app nr_cpus tested set cpu_after thru size place s =
      let cur_cpu = place.ctx in
      let h = q.hctx place.hctx in
      let turned = take_turn k nr_cpus tested set (update_metrics thru size cur_cpu s) in
      let target =
        find_target turned thru cur_cpu (node_cores nr_cpus k.num_online_nodes h.numa_node) in
      let left = leave target thru h.active_queues cur_cpu turned in
      let cpu = cpu_after target in
      if cpu == cur_cpu then record { switch = left; place = place; moved = false } else record {
        switch = left;
        place = record { ctx = cpu; hctx = map_queue q f cpu };
        moved = true;
      }

module _ (k : Kernel) where
  -- A turn that is taken gives both classes the current metrics of every core in use, and the other
  -- class the turn; no other call changes them.
  pub take_turn_lem :
      (nr_cpus tested set : ℕ) (s : Switch)
      → let s' = take_turn k nr_cpus tested set s in
        ((s'.appstr_app ≡ other_app s.appstr_app)
          × (s.last_appstr ≢ 0)
          × (k.time_after tested s.last_appstr ≡ true)
          × ((j : ℕ)
              → j < nr_cpus
              → (s'.t_appstr j ≡ s.t_metric j) × (s'.l_appstr j ≡ s.l_metric j)))
        ⊎ ((s'.appstr_app ≡ s.appstr_app)
            × ((j : ℕ) → (s'.t_appstr j ≡ s.t_appstr j) × (s'.l_appstr j ≡ s.l_appstr j)))
  unfolding take_turn
  take_turn_lem nr_cpus tested set s = elim (Bool-cases (s.last_appstr == 0)) [
    | inl z ↦ inr (ground arith, λ j. ground arith)
    | inr n ↦ elim (Bool-cases (k.time_after tested s.last_appstr)) [
      | inl t ↦ inl (ground arith, ground arith, t, λ j b. ground arith)
      | inr f ↦ inr (ground arith, λ j. ground arith)
    ]
  ]

  frame :
      (nr_cpus tested set : ℕ) (thru : Bool) (size active cpu : ℕ) (t : Option ℕ) (s : Switch)
      (j : ℕ)
      → j ≢ cpu
      → let s' =
          leave t thru active cpu
            (take_turn k nr_cpus tested set (update_metrics thru size cpu s)) in
        (s'.t_metric j ≡ s.t_metric j) × (s'.l_metric j ≡ s.l_metric j)
  unfolding take_turn drop_metric update_metrics
  frame nr_cpus tested set thru size active cpu none s j n = ground arith
  frame nr_cpus tested set thru size active cpu (some t) s j n = ground arith

  -- Application steering changes the metrics of the request's own core alone, and moves the request
  -- exactly if the task runs on another core behind the call for the target: to that core and the
  -- queue mapped there. The target is the one found with the metrics behind the update and the turn,
  -- among the cores of the queue's node; without one, the switch is left as these made it.
  pub steer_app_lem :
      (q : Queue) (f : Flags) (nr_cpus tested set : ℕ) (cpu_after : Option ℕ → ℕ) (thru : Bool)
      (size : ℕ) (place : Place) (s : Switch)
      → let a = steer_app k q f nr_cpus tested set cpu_after thru size place s in
        let turned = take_turn k nr_cpus tested set (update_metrics thru size place.ctx s) in
        let cores = node_cores nr_cpus k.num_online_nodes (q.hctx place.hctx).numa_node in
        let cpu = cpu_after (find_target turned thru place.ctx cores) in
        ((j : ℕ)
          → j ≢ place.ctx
          → (a.switch.t_metric j ≡ s.t_metric j) × (a.switch.l_metric j ≡ s.l_metric j))
        × (find_target turned thru place.ctx cores ≡ none → a.switch ≡ turned)
        × (((cpu ≡ place.ctx) × (a.moved ≡ false) × (a.place ≡ place))
            ⊎ ((cpu ≢ place.ctx)
                × (a.moved ≡ true)
                × (a.place.ctx ≡ cpu)
                × (a.place.hctx ≡ map_queue q f cpu)))
  unfolding steer_app
  steer_app_lem q f nr_cpus tested set cpu_after thru size place s =
      let h = q.hctx place.hctx in
      let turned = take_turn k nr_cpus tested set (update_metrics thru size place.ctx s) in
      let target =
        find_target turned thru place.ctx (node_cores nr_cpus k.num_online_nodes h.numa_node) in
      let own = λ (j : ℕ) (n : j ≢ place.ctx).
        frame nr_cpus tested set thru size h.active_queues place.ctx target s j n in
      let kept = λ (e : target ≡ none). ap (λ t. leave t thru h.active_queues place.ctx turned) e in
      elim (Bool-cases (cpu_after target == place.ctx)) [
        | inl t ↦ rw t (own, kept, inl (ground arith, refl, refl))
        | inr n ↦ rw n (own, kept, inr (ground arith, refl, refl, refl))
      ]
