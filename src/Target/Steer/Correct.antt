-- ===== src/Target/Steer/Correct.antt =====
-- drivers/nvme/target/tcp.c: where the steering of nvmet_tcp_data_ready moves a queue.
use blk_switch.Common.{
  ℕ, Bool, Option, none, some, List, [], ◌∷◌, true, false, ◌/◌, ◌≡◌, ◌≢◌, ◌≤◌, ◌<◌, refl, arith,
  Bool-cases, Option-cases, inl, inr, ap, ◌∙◌, if◌then◌else◌, ltb, leb, ◌==◌, not, ◌&&◌, ◌||◌,
}
use mathlib.Core.Path.{subst}
use blk_switch.Target.Steer.{
  Lane, Machine, Lanes, Queued, Loads, array_size, rank, map_lanes, reset_lane, reset_lanes,
  update_lane, add_load, add_loads, sum_at, suits_lat, suits_thru, pick_core, steer_lane,
  is_reset_due, steer_own, data_ready,
}
use blk_switch.Target.Steer.Least.{IsLeast, pick_from-IsLeast}

abbrev pub AllLanes : (Lane → Type 0) → List Lane → Type 0
AllLanes P [] = Unit
AllLanes P (l ∷ ls) = P l × AllLanes P ls

module _ (m : Machine) where
  -- The core of a queue, now and behind a reset, is one whose entries are set to 0.
  abbrev pub IsInside : Lane → Type 0
  IsInside l =
      (l.cpu / m.nr_nodes < m.nr_cpus / m.nr_nodes)
      × (l.orig_cpu / m.nr_nodes < m.nr_cpus / m.nr_nodes)

  -- The target of the steering: a least loaded core of those that suit the queue.
  abbrev pub IsTarget : (is_lat : Bool) → Loads → (own : ℕ) → Option ℕ → Type 0
  IsTarget true x own t = IsLeast (suits_lat m x own) (sum_at m x) (m.nr_cpus / m.nr_nodes) t
  IsTarget false x own t = IsLeast (suits_thru m x own) x.lat_metric (m.nr_cpus / m.nr_nodes) t

  pick_core-IsTarget : (b : Bool) (x : Loads) (own : ℕ) → IsTarget b x own (pick_core m b x own)
  unfolding pick_core
  pick_core-IsTarget true x own =
      pick_from-IsLeast (suits_lat m x own) (sum_at m x) (m.nr_cpus / m.nr_nodes)
  pick_core-IsTarget false x own =
      pick_from-IsLeast (suits_thru m x own) x.lat_metric (m.nr_cpus / m.nr_nodes)

  reset_lane-IsInside : (l : Lane) → IsInside l → IsInside (reset_lane l)
  unfolding reset_lane
  reset_lane-IsInside l i = elim (Bool-cases (l.qid == 0)) [
    | inl e ↦ rw e i
    | inr e ↦ rw e (i.1, i.1)
  ]

  update_lane-IsInside : (node : ℕ) (l : Lane) → IsInside l → IsInside (update_lane m node l)
  unfolding update_lane
  update_lane-IsInside node l i = elim (Bool-cases (not (l.qid == 0) && l.numa_node == node)) [
    | inl e ↦ rw e i
    | inr e ↦ rw e i
  ]

  map-IsInside :
      (f : Lane → Lane)
      → ((l : Lane) → IsInside l → IsInside (f l))
      → (ls : List Lane) → AllLanes IsInside ls
      → AllLanes IsInside (map_lanes f ls)
  map-IsInside f g [] a = tt
  map-IsInside f g (l ∷ ls) (i, a) = (g l i, map-IsInside f g ls a)

  add_load-some :
      m.nr_cpus / m.nr_nodes ≤ array_size
      → (node : ℕ) (l : Lane) (x : Loads) → IsInside l
      → (y : Loads) × (add_load m node l x ≡ some y)
  unfolding add_load
  add_load-some n node l x i = elim (Option-cases (add_load m node l x)) [
    | inl e ↦ let (c, o) = i in absurd (ground arith)
    | inr (y, e) ↦ (y, e)
  ]

  add_loads-some :
      m.nr_cpus / m.nr_nodes ≤ array_size
      → (node : ℕ) (ls : List Lane) (x : Loads) → AllLanes IsInside ls
      → (y : Loads) × (add_loads m node ls x ≡ some y)
  unfolding add_loads
  add_loads-some n node [] x a = (x, refl)
  add_loads-some n node (l ∷ ls) x (i, a) =
      let (y, e) = add_load-some n node l x i in
      let (z, f) = add_loads-some n node ls y a in (z, rw (add_loads, e) f)

  reset-IsInside :
      (s : Lanes)
      → IsInside s.own
      → AllLanes IsInside s.others
      → IsInside (reset_lanes m s).own × AllLanes IsInside (reset_lanes m s).others
  unfolding reset_lanes
  reset-IsInside s i a = elim (Bool-cases (is_reset_due m s)) [
    | inl e ↦
        rw e (reset_lane-IsInside s.own i, map-IsInside reset_lane reset_lane-IsInside s.others a)
    | inr e ↦ rw e (i, a)
  ]

  update_lane-lat : (node : ℕ) (l : Lane) → (update_lane m node l).is_lat ≡ l.is_lat
  unfolding update_lane
  update_lane-lat node l = ground arith

  reset_lanes-lat : (s : Lanes) → (reset_lanes m s).own.is_lat ≡ s.own.is_lat
  unfolding reset_lanes reset_lane
  reset_lanes-lat s = ground arith

  steer_lane-lat : (t : Option ℕ) (l : Lane) → (steer_lane m t l).is_lat ≡ l.is_lat
  unfolding steer_lane
  steer_lane-lat none l = refl
  steer_lane-lat (some i) l = refl

  -- Steering on, a node with at most six cores, and all queues, now and behind a reset, on cores
  -- that the node has when the cores are shared out evenly, whose loads start at 0: a queue that has data is queued on a core, that is its own one, if no core is
  -- the target, and the target's one, if there is one; it stays on that core. The target is a core
  -- that suits the queue and has the least load of those, by the metrics that this call has
  -- updated; there is none exactly where no core suits or all that do have a load of a million or
  -- more.
  pub data_ready-IsTarget :
      (s : Lanes)
      → m.steers ≡ true
      → m.nr_cpus / m.nr_nodes ≤ array_size
      → IsInside s.own
      → AllLanes IsInside s.others
      → let t = reset_lanes m s in
        let node = t.own.numa_node in
        let own = update_lane m node t.own in
        (x : Loads) × (target : Option ℕ) × (k : Lanes) × (q : Queued) × (add_loads m node
            (own ∷ map_lanes (update_lane m node) t.others)
            (record { lat_metric = λ i. 0; thru_metric = λ i. 0 })
          ≡ some x)
        × IsTarget s.own.is_lat x (s.own.cpu / m.nr_nodes) target
        × (data_ready m s ≡ some (k, q))
        × (k.own ≡ steer_lane m target own)
        × (q.on_cpu ≡ k.own.cpu)
        × (q.lat_queue ≡ s.own.is_lat)
  unfolding data_ready steer_own
  data_ready-IsTarget s on n i a =
      let t = reset_lanes m s in
      let node = t.own.numa_node in
      let own = update_lane m node t.own in
      let (j, b) = reset-IsInside s i a in
      let (x, e) =
        add_loads-some n node (own ∷ map_lanes (update_lane m node) t.others)
          (record { lat_metric = λ c. 0; thru_metric = λ c. 0 })
          (
            update_lane-IsInside node t.own j,
            map-IsInside (update_lane m node) (update_lane-IsInside node) t.others b,
          ) in
      let own_core = s.own.cpu / m.nr_nodes in
      let target = pick_core m own.is_lat x own_core in
      let steered = steer_lane m target own in
      let lat : own.is_lat ≡ s.own.is_lat = update_lane-lat node t.own ∙ reset_lanes-lat s in
      let outside =
        ltb array_size (m.nr_cpus / m.nr_nodes) || leb (m.nr_cpus / m.nr_nodes) own_core in
      let inside : outside ≡ false = ground (arith, i.0) in
      let updated = record t { own = own; others = map_lanes (update_lane m node) t.others } in
      let stays : Option (Lanes × Queued) =
        some (s, record { on_cpu = s.own.cpu; lat_queue = s.own.is_lat }) in
      let goes = steer_own m own_core updated (
        add_loads m node (own ∷ map_lanes (update_lane m node) t.others)
          (record { lat_metric = λ c. 0; thru_metric = λ c. 0 })) in
      (
        x,
        target,
        record t { own = steered; others = map_lanes (update_lane m node) t.others },
        record { on_cpu = steered.cpu; lat_queue = steered.is_lat },
        e,
        subst (λ c. IsTarget c x own_core target) lat (pick_core-IsTarget own.is_lat x own_core),
        ap (λ c. if not c then stays else if outside then none else goes) on
            ∙ ap (λ c. if c then none else goes) inside
            ∙ ap (steer_own m own_core updated) e,
        refl,
        refl,
        steer_lane-lat target own ∙ lat,
      )

  -- For a queue that is not a latency queue, whose core has L-load, in a node where the other cores
  -- have more L-load than its own, one of them less than a million: the steering moves it to another
  -- core, which has more L-load than its own.
  pub pick_core-worse :
      (x : Loads) (own i : ℕ)
      → x.lat_metric own ≢ 0
      → i < m.nr_cpus / m.nr_nodes
      → i ≢ own
      → rank (x.lat_metric i) < rank 1000000
      → ((c : ℕ)
          → c < m.nr_cpus / m.nr_nodes
          → c ≢ own
          → rank (x.lat_metric own) < rank (x.lat_metric c))
      → (j : ℕ) × (pick_core m false x own ≡ some j)
        × (j ≢ own)
        × (rank (x.lat_metric own) < rank (x.lat_metric j))
  unfolding suits_thru
  pick_core-worse x own i l b n k more = elim (Option-cases (pick_core m false x own)) [
    | inl e ↦
        let h =
          subst (IsTarget false x own) e (pick_core-IsTarget false x own) i b (ground arith) in
        absurd (omega arith)
    | inr (j, e) ↦
        let ((c, s, u), h) = subst (IsTarget false x own) e (pick_core-IsTarget false x own) in
        let d : j ≢ own = λ f. ground arith in (j, e, d, more j c d)
  ]
