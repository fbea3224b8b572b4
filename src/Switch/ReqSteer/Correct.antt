-- ===== src/Switch/ReqSteer/Correct.antt =====
-- Request steering as a whole: it ends, it stays in range, and it keeps a request on its core while
-- the core has room.
use blk_switch.Common.{
  ℕ, some, false, ◌+◌, ◌/◌, ◌≤◌, ◌<◌, ◌≡◌, ◌≢◌, ◌⊎◌, inl, inr, refl, arith, In, List, Bool-cases,
  sym, Option-cases, u32,
}
use mathlib.Core.Path.{subst}
use blk_switch.Common.Map.{update}
use blk_switch.Switch.{Switch, Params, Kernel}
use blk_switch.Switch.AppTarget.{node_cores}
use blk_switch.Switch.AppTarget.Cores.{node_cores-lt}
use blk_switch.Switch.Queue.{fabric_of, Queue, Flags, Place}
use blk_switch.Switch.ReqScan.{Pick, first_pick, scan, default_hctx, req_thresh}
use blk_switch.Switch.ReqScan.Correct.{IsNearest, scan-IsNearest}
use blk_switch.Switch.TwoChoices.{drawn_core}
use blk_switch.Switch.TwoChoices.Correct.{two_choices_lem, drawn_core-In}
use blk_switch.Switch.ReqSteer.{ReqSteered, busy_target, has_room, place_at, steer_request}

module _ (p : Params) (k : Kernel) (q : Queue) (random : ℕ → ℕ) (nr_cpus : ℕ) where
  -- The node of a request's queue, and its cores.
  abbrev node_of : Place → ℕ
  node_of place = (q.hctx place.hctx).numa_node

  abbrev pub cores : Place → List ℕ
  cores place = node_cores nr_cpus k.num_online_nodes (node_of place)

  -- The pick of the scan for a request.
  abbrev pub pick_of : Place → Switch → Pick
  pick_of place s =
      scan q (fabric_of (q.hctx place.hctx).blk_switch) random s.l_metric place.ctx (first_pick 0)
        (cores place)

  -- The core for a random byte.
  abbrev pub core_of : Place → ℕ → ℕ
  core_of place =
      drawn_core random (nr_cpus / k.num_online_nodes) k.num_online_nodes (node_of place)

  -- Among the `fuel` bytes behind the one that follows the scan, one stands for another core.
  abbrev pub Differs : (fuel : ℕ) → Place → Switch → Type 0
  Differs fuel place s =
      let i = (pick_of place s).drawn in
      (j : ℕ) × (i < j) × (j < i + 1 + fuel) × (core_of place j ≢ core_of place i)

  of_draw :
      (place : Place) (c i j : ℕ)
      → 0 < nr_cpus / k.num_online_nodes
      → (c ≡ core_of place i) ⊎ (c ≡ core_of place j)
      → In c (cores place)
  of_draw place c i j w (inl e) =
      subst (λ x. In x (cores place)) (sym e)
        (drawn_core-In random nr_cpus k.num_online_nodes (node_of place) i w)
  of_draw place c i j w (inr e) =
      subst (λ x. In x (cores place)) (sym e)
        (drawn_core-In random nr_cpus k.num_online_nodes (node_of place) j w)

  busy_target_lem :
      (fuel : ℕ) (place : Place) (s : Switch)
      → 0 < nr_cpus / k.num_online_nodes
      → Differs fuel place s
      → (c : ℕ) × (busy_target p k q random nr_cpus fuel place s ≡ some c) × In c (cores place)
  unfolding busy_target
  busy_target_lem fuel place s w (j, a, b, n) = elim (Option-cases (pick_of place s).target_cpu) [
    | inl e ↦
        let (m, c, t, d, o, x) =
          two_choices_lem random (nr_cpus / k.num_online_nodes) k.num_online_nodes (node_of place)
            (λ c. (default_hctx q c).nr_active) fuel (pick_of place s).drawn j a b n in
        (c, rw (e, busy_target, t), of_draw place c (pick_of place s).drawn m w o)
    | inr (c, e) ↦ (
      c,
      rw (e, busy_target),
      (subst
          (IsNearest q (fabric_of (q.hctx place.hctx).blk_switch) random s.l_metric place.ctx
            (cores place))
          e
          (scan-IsNearest q (fabric_of (q.hctx place.hctx).blk_switch) random s.l_metric place.ctx
            (cores place) 0)).0,
    )
  ]

  -- The counter of a core that is found busy.
  abbrev pub count_busy : Place → Switch → Switch
  count_busy place s = record s {
    stats_str = update s.stats_str place.ctx (u32 (s.stats_str place.ctx + 1));
  }

  steer_request_at :
      (f : Flags) (fuel : ℕ) (place : Place) (s : Switch)
      → 0 < nr_cpus / k.num_online_nodes
      → Differs fuel place s
      → (c : ℕ) × (s' : Switch) × (steer_request p k q random nr_cpus f fuel place s
          ≡ some (place_at p k q random nr_cpus f c place s'))
        × ((c ≡ place.ctx) ⊎ In c (cores place))
  unfolding steer_request
  steer_request_at f fuel place s w d = elim (Bool-cases (has_room p k q random nr_cpus place)) [
    | inl t ↦ (place.ctx, s, rw t, inl refl)
    | inr n ↦
        let (c, e, m) = busy_target_lem fuel place (count_busy place s) w d in
        (c, count_busy place s, rw (n, e, steer_request), inr m)
  ]

  ctx-place_at :
      (f : Flags) (target : ℕ) (place : Place) (s : Switch)
      → (place_at p k q random nr_cpus f target place s).place.ctx ≡ target
  unfolding place_at
  ctx-place_at f target place s = ground arith

  -- A request whose core has room stays there.
  pub steer_request_local :
      (f : Flags) (fuel : ℕ) (place : Place) (s : Switch)
      → (default_hctx q place.ctx).nr_active
        ≤ req_thresh p (fabric_of (q.hctx place.hctx).blk_switch)
      → (r : ReqSteered) × (steer_request p k q random nr_cpus f fuel place s ≡ some r)
        × (r.place ≡ place)
        × (r.steered ≡ false)
  unfolding steer_request has_room place_at
  steer_request_local f fuel place s h =
      (place_at p k q random nr_cpus f place.ctx place s, ground arith, ground arith, ground arith)

  -- Request steering ends if some later random byte stands for another core, and the core that it
  -- chooses is in range.
  pub steer_request_total :
      (f : Flags) (fuel : ℕ) (place : Place) (s : Switch)
      → node_of place < k.num_online_nodes
      → k.num_online_nodes ≤ nr_cpus
      → place.ctx < nr_cpus
      → Differs fuel place s
      → (r : ReqSteered) × (steer_request p k q random nr_cpus f fuel place s ≡ some r)
        × (r.place.ctx < nr_cpus)
  steer_request_total f fuel place s n c h d =
      let (t, s', e, o) = steer_request_at f fuel place s (grind arith) d in
      (
        place_at p k q random nr_cpus f t place s',
        e,
        subst (λ x. x < nr_cpus) (sym (ctx-place_at f t place s'))
            (elim o [
              | inl same ↦ omega arith
              | inr m ↦ node_cores-lt nr_cpus k.num_online_nodes (node_of place) t n m
            ]),
      )
