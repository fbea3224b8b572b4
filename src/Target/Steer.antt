-- ===== src/Target/Steer.antt =====
-- drivers/nvme/target/tcp.c: nvmet_tcp_data_ready, with the steering of the
-- queue to a core of its node.
pub mod Least
pub mod Correct
use blk_switch.Common.{
  ℕ, zero, suc, Bool, true, false, Option, none, some, List, [], ◌∷◌, not, ◌+◌, ◌-◌, ◌*◌, ◌/◌, ◌^◌,
  ◌%◌, ◌&&◌, ◌||◌, ltb, leb, ◌==◌, if◌then◌else◌, u32, u64,
}
use blk_switch.Common.Map.{update}
use blk_switch.Lifecycle.{is_after_eq}

-- The fields of a queue of the target that the steering reads, with the bytes in its receive buffer
-- (`sk_rmem_alloc`).
pub record Lane : Type 0 where
  pub qid : ℕ
  pub idx : ℕ
  pub numa_node : ℕ
  pub cpu : ℕ
  pub orig_cpu : ℕ
  pub metric : ℕ
  pub rmem_alloc : ℕ
  pub is_lat : Bool

-- The numbers of online cores and nodes, `jiffies`, and `msecs_to_jiffies(200)`.
pub record Machine : Type 0 where
  pub nr_cpus : ℕ
  pub nr_nodes : ℕ
  pub jiffies : ℕ
  pub reset_after : ℕ
  pub steers : Bool  -- i10_target_steering

-- The list of the queues, as the queue that has data and the others, and the port of that queue.
pub record Lanes : Type 0 where
  pub own : Lane
  pub others : List Lane
  pub reset_metric : ℕ

-- `queue_work_on` with one of the two workqueues
pub record Queued : Type 0 where
  pub on_cpu : ℕ
  pub lat_queue : Bool

abbrev pub array_size : ℕ
array_size = 6

-- Two ints as bit patterns are compared by their rank.
abbrev pub rank : ℕ → ℕ
rank a = (a + 2 ^ 31) % 2 ^ 32

abbrev pub lt_int : ℕ → ℕ → Bool
lt_int a b = ltb (rank a) (rank b)

-- `metric` behind a sample
unfoldable pub next_lane_metric : (metric sample : ℕ) → ℕ
next_lane_metric metric sample =
    let m = if metric == 0 then sample else u32 (metric - metric / 8 + sample / 8) in
    if ltb m 10 then 0 else m

unfoldable pub reset_lane : Lane → Lane
reset_lane l = if l.qid == 0 then l else record l { metric = 0; cpu = l.orig_cpu }

abbrev pub map_lanes : (Lane → Lane) → List Lane → List Lane
map_lanes f [] = []
map_lanes f (l ∷ ls) = f l ∷ map_lanes f ls

-- The locals of the steering: the loads of the cores of the node, and the target.
pub record Loads : Type 0 where
  pub lat_metric : ℕ → ℕ
  pub thru_metric : ℕ → ℕ

pub record Pick : Type 0 where
  pub target : Option ℕ
  pub min_metric : ℕ

abbrev pub start_pick : Pick
start_pick = record { target = none; min_metric = 1000000 }

-- The loop over the cores of a node, from the core `i` on.
unfoldable pub pick_from : (suits : ℕ → Bool) (load : ℕ → ℕ) → (i rounds : ℕ) → Pick → Pick
pick_from suits load i zero p = p
pick_from suits load i (suc rounds) p = pick_from suits load (i + 1) rounds (
    if suits i && lt_int (load i) p.min_metric
    then record { target = some i; min_metric = load i }
    else p)

module _ (m : Machine) where
  -- The reset, 200 ms behind the last data of the port
  unfoldable pub is_reset_due : Lanes → Bool
  is_reset_due s =
      not (s.own.qid == 0) && (s.reset_metric == 0 || not (is_after_eq s.reset_metric m.jiffies))

  unfoldable pub reset_lanes : Lanes → Lanes
  reset_lanes s =
      let next = u64 (m.jiffies + m.reset_after) in
      if is_reset_due s
      then record {
        own = reset_lane s.own;
        others = map_lanes reset_lane s.others;
        reset_metric = next;
      }
      else record s { reset_metric = next }

  -- A queue of the node gets its metric,
  unfoldable pub update_lane : (node : ℕ) → Lane → Lane
  update_lane node l =
      if not (l.qid == 0) && l.numa_node == node
      then record l { metric = next_lane_metric l.metric l.rmem_alloc }
      else l

  -- and its core the load; `none` where the core is outside the entries that are set to 0: those
  -- behind them are not initialised, and the arrays have `array_size` entries.
  unfoldable pub add_load : (node : ℕ) → Lane → Loads → Option Loads
  add_load node l x =
      let c = l.cpu / m.nr_nodes in
      if l.qid == 0 || not (l.numa_node == node)
      then some x
      else if leb (m.nr_cpus / m.nr_nodes) c || leb array_size c
      then none
      else if ltb m.nr_cpus l.idx
      then some (record x { lat_metric = update x.lat_metric c (u32 (x.lat_metric c + l.metric)) })
      else some
          (record x { thru_metric = update x.thru_metric c (u32 (x.thru_metric c + l.metric)) })

  unfoldable pub add_loads : (node : ℕ) → List Lane → Loads → Option Loads
  add_loads node [] x = some x
  add_loads node (l ∷ ls) x = elim (add_load node l x) [
    | none ↦ none
    | some x' ↦ add_loads node ls x'
  ]

  abbrev pub sum_at : Loads → ℕ → ℕ
  sum_at x i = u32 (x.lat_metric i + x.thru_metric i)

  -- The conditions but for the comparison with `min_metric`, for a latency queue and another
  unfoldable pub suits_lat : Loads → (own i : ℕ) → Bool
  suits_lat x own i =
      not (i == own)
      && not (x.lat_metric i == 0)
      && not (x.thru_metric own == 0)
      && lt_int (sum_at x i) (sum_at x own)

  unfoldable pub suits_thru : Loads → (own i : ℕ) → Bool
  suits_thru x own i = not (i == own) && not (x.lat_metric own == 0)

  unfoldable pub pick_core : (is_lat : Bool) → Loads → (own : ℕ) → Option ℕ
  pick_core true x own =
      (pick_from (suits_lat x own) (sum_at x) 0 (m.nr_cpus / m.nr_nodes) start_pick).target
  pick_core false x own =
      (pick_from (suits_thru x own) x.lat_metric 0 (m.nr_cpus / m.nr_nodes) start_pick).target

  -- The core of the queue behind the steering
  unfoldable pub steer_lane : Option ℕ → Lane → Lane
  steer_lane none l = l
  steer_lane (some i) l = record l { cpu = i * m.nr_nodes + l.numa_node }

  -- Behind the sums of the loads, with the metrics updated
  unfoldable pub steer_own : (own_core : ℕ) → Lanes → Option Loads → Option (Lanes × Queued)
  steer_own own_core t none = none
  steer_own own_core t (some x) =
      let steered = steer_lane (pick_core t.own.is_lat x own_core) t.own in
      some (record t { own = steered }, record { on_cpu = steered.cpu; lat_queue = steered.is_lat })

  -- `nvmet_tcp_data_ready`, but for the debug output; `none` where the node has more cores than the
  -- arrays, or the queue or a queue of its node is on a core outside the entries that are set to 0,
  -- which are read before they are written. The index of the own core is taken before the reset.
  unfoldable pub data_ready : Lanes → Option (Lanes × Queued)
  data_ready s =
      if not m.steers
      then some (s, record { on_cpu = s.own.cpu; lat_queue = s.own.is_lat })
      else if ltb array_size (m.nr_cpus / m.nr_nodes)
          || leb (m.nr_cpus / m.nr_nodes) (s.own.cpu / m.nr_nodes)
      then none
      else let own_core = s.own.cpu / m.nr_nodes in
        let t = reset_lanes s in
        let node = t.own.numa_node in
        let own' = update_lane node t.own in
        let others' = map_lanes (update_lane node) t.others in
        let zero_loads : Loads = record { lat_metric = λ i. 0; thru_metric = λ i. 0 } in
        steer_own own_core (record t { own = own'; others = others' })
          (add_loads node (own' ∷ others') zero_loads)
