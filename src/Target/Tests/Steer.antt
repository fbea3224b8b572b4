-- ===== src/Target/Tests/Steer.antt =====
-- drivers/nvme/target/tcp.c: the steering of a queue in a node with six cores.
use blk_switch.Common.{
  ℕ, Option, none, some, [], ◌∷◌, true, false, ◌/◌, ◌≡◌, ◌≢◌, ◌<◌, refl, arith, if◌then◌else◌, ◌==◌,
}
use blk_switch.Target.Steer.{
  Lane, Machine, Lanes, Queued, Loads, rank, map_lanes, reset_lanes, is_reset_due, update_lane,
  add_load, add_loads, next_lane_metric, suits_thru, pick_core, pick_from, steer_lane, steer_own,
  data_ready,
}
use blk_switch.Target.Steer.Correct.{IsTarget, data_ready-IsTarget, pick_core-worse}

abbrev machine : Machine
machine = record { nr_cpus = 24; nr_nodes = 4; jiffies = 1000; reset_after = 50; steers = true }

-- The queue 1 of the core 0, with 80000 bytes in its buffer.
abbrev thru_lane : Lane
thru_lane = record {
  qid = 1;
  idx = 1;
  numa_node = 0;
  cpu = 0;
  orig_cpu = 0;
  metric = 0;
  rmem_alloc = 80000;
  is_lat = false;
}

-- A latency queue with metric 50 on the same core, and others with more on the other cores.
abbrev lat_lane : (cpu metric : ℕ) → Lane
lat_lane cpu metric = record {
  qid = 2;
  idx = 25;
  numa_node = 0;
  cpu = cpu;
  orig_cpu = cpu;
  metric = 0;
  rmem_alloc = metric;
  is_lat = true;
}

abbrev lanes : Lanes
lanes = record {
  own = thru_lane;
  others =
      lat_lane 0 50
      ∷ lat_lane 4 900
      ∷ lat_lane 8 700
      ∷ lat_lane 12 900
      ∷ lat_lane 16 900
      ∷ lat_lane 20 900
      ∷ [];
  reset_metric = 1040;
}

data_ready-IsTarget_example :
    let t = reset_lanes machine lanes in
    let node = t.own.numa_node in
    let own = update_lane machine node t.own in
    (x : Loads) × (target : Option ℕ) × (k : Lanes) × (q : Queued) × (add_loads machine node
        (own ∷ map_lanes (update_lane machine node) t.others)
        (record { lat_metric = λ i. 0; thru_metric = λ i. 0 })
      ≡ some x)
    × IsTarget machine false x 0 target
    × (data_ready machine lanes ≡ some (k, q))
    × (k.own ≡ steer_lane machine target own)
    × (q.on_cpu ≡ k.own.cpu)
    × (q.lat_queue ≡ false)
data_ready-IsTarget_example =
    data_ready-IsTarget machine lanes refl (omega arith) (omega arith, omega arith) (omega arith)

abbrev on_cpu : Option (Lanes × Queued) → ℕ
on_cpu none = 1000
on_cpu (some (s, q)) = q.on_cpu

-- The queue leaves its core, which has the least L-load of the node, for the core 8.
moves_to_more : on_cpu (data_ready machine lanes) ≡ 8
unfolding data_ready steer_own reset_lanes is_reset_due update_lane add_load add_loads
    next_lane_metric suits_thru pick_core pick_from steer_lane
moves_to_more = refl

abbrev loads : Loads
loads = record { lat_metric = λ c. if c == 0 then 50 else 700; thru_metric = λ c. 0 }

more_elsewhere :
    (c : ℕ) → c < 24 / 4 → c ≢ 0 → rank (loads.lat_metric 0) < rank (loads.lat_metric c)
more_elsewhere c b n = ground arith

pick_core-worse_example :
    (j : ℕ) × (pick_core machine false loads 0 ≡ some j)
    × (j ≢ 0)
    × (rank (loads.lat_metric 0) < rank (loads.lat_metric j))
pick_core-worse_example =
    pick_core-worse machine loads 0 1 (omega arith) (omega arith) (omega arith) (omega arith)
      more_elsewhere
