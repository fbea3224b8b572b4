-- ===== src/Switch/ReqSteer.antt =====
-- blk_mq_get_request (block/blk-mq.c): request steering of T-requests.
pub mod Correct
use blk_switch.Common.{
  ℕ, Bool, Option, none, some, true, false, ◌+◌, ◌/◌, leb, ◌==◌, if◌then◌else◌, u32,
}
use blk_switch.Common.Map.{update}
use blk_switch.Switch.{Switch, Params, Kernel}
use blk_switch.Switch.AppTarget.{node_cores}
use blk_switch.Switch.Queue.{fabric_of, Queue, Flags, Place, map_queue}
use blk_switch.Switch.ReqScan.{first_pick, req_thresh, default_hctx, scan}
use blk_switch.Switch.TwoChoices.{two_choices}

-- What request steering leaves behind.
pub record ReqSteered : Type 0 where
  pub switch : Switch
  pub place : Place
  pub steered : Bool

module _ (p : Params) (k : Kernel) (q : Queue) (random : ℕ → ℕ) (nr_cpus : ℕ) where
  -- Steps 2 and 3, for a core whose own queue is busy: `none` if the fuel for the random draws runs
  -- out.
  unfoldable pub busy_target : (fuel : ℕ) → Place → Switch → Option ℕ
  busy_target fuel place s =
      let h = q.hctx place.hctx in
      let pick =
        scan q (fabric_of h.blk_switch) random s.l_metric place.ctx (first_pick 0)
          (node_cores nr_cpus k.num_online_nodes h.numa_node) in
      elim (pick.target_cpu) [
        | some c ↦ some c
        | none ↦
            two_choices random (nr_cpus / k.num_online_nodes) k.num_online_nodes h.numa_node
              (λ c. (default_hctx q c).nr_active) fuel pick.drawn
      ]

  -- `T_active <= req_thresh`
  unfoldable pub has_room : Place → Bool
  has_room place =
      leb (default_hctx q place.ctx).nr_active
        (req_thresh p (fabric_of (q.hctx place.hctx).blk_switch))

  -- What stands behind the label `req_steering`.
  unfoldable pub place_at : Flags → (target : ℕ) → Place → Switch → ReqSteered
  place_at f target place s =
      let counted = record s {
        stats_gen = update s.stats_gen place.ctx (u32 (s.stats_gen place.ctx + 1));
      } in
      if place.ctx == target
      then record { switch = counted; place = place; steered = false }
      else record {
        switch = record counted {
          stats_prc = update counted.stats_prc target (u32 (counted.stats_prc target + 1));
        };
        place = record { ctx = target; hctx = map_queue q f target };
        steered = true;
      }

  unfoldable pub steer_request : Flags → (fuel : ℕ) → Place → Switch → Option ReqSteered
  unfolding has_room
  steer_request f fuel place s =
      if has_room place
      then some (place_at f place.ctx place s)
      else let busy = record s {
        stats_str = update s.stats_str place.ctx (u32 (s.stats_str place.ctx + 1));
      } in
        elim (busy_target fuel place busy) [
          | none ↦ none
          | some target ↦ some (place_at f target place busy)
        ]
