-- ===== src/Switch/Tests.antt =====
-- Runs of the steering code, and the theorems about it at concrete inputs.
use blk_switch.Common.{
  ℕ, pos, Option, List, [], ◌∷◌, none, some, true, false, ◌+◌, ◌*◌, ◌<◌, ◌≤◌, ◌≡◌, ◌≢◌, ◌⊎◌, inl,
  inr, refl, arith, ltb, ◌==◌, if◌then◌else◌, min, u64,
}
use blk_switch.Switch.{
  Switch, Params, Kernel, App, t_app, l_app, tcp, reset_ms, is_thru_request, is_switch_request,
}
use blk_switch.Switch.Metric.{update_metrics}
use blk_switch.Switch.Reset.{cores_in_use, clear_metrics, refresh, Idle, Unchanged, refresh_lem}
use blk_switch.Switch.AppTarget.{
  find_target, search_from, visit, is_skipped, is_l_better, is_l_pending, node_cores, cores_from,
}
use blk_switch.Switch.AppTarget.Cores.{node_cores-lt}
use blk_switch.Switch.AppTarget.Spec.{IsLTarget, find_target-IsLTarget}
use blk_switch.Switch.AppSteer.{steer_app, steer_app_lem, take_turn}
use blk_switch.Switch.Queue.{
  Queue, Hctx, Flags, Place, map_queue, queue_type, tcp_init_hctx, rdma_init_hctx,
}
use blk_switch.Switch.ReqScan.{first_pick, scan, is_open, consider, room_of, req_thresh}
use blk_switch.Switch.ReqScan.Correct.{IsNearest, scan-IsNearest}
use blk_switch.Switch.TwoChoices.{drawn_core, two_choices}
use blk_switch.Switch.TwoChoices.Correct.{two_choices_lem}
use blk_switch.Switch.ReqSteer.{ReqSteered, has_room, place_at, steer_request}
use blk_switch.Switch.ReqSteer.Correct.{steer_request_total}
use blk_switch.Switch.Request.{
  Call, State, Request, refreshed, app_stage, req_stage, tag_stage, charge, init_request,
  get_request,
}
use blk_switch.Switch.Complete.{end_request}
use blk_switch.Switch.Complete.RoundTrip.{Undone, end-get_request}

-- Four cores on one node; jiffies are milliseconds and do not wrap.
abbrev kernel : Kernel
kernel = record {
  num_online_cpus = 4;
  num_online_nodes = 1;
  time_after = λ a b. ltb b a;
  msecs_to_jiffies = λ m. m;
  ioprio_class = λ c. c;
}

abbrev params : Params
params = record { switch_on = pos 2; thresh_b = pos 8; max_nr_cpus = pos 0; debug = pos 0 }

abbrev quiet : Switch
quiet = record {
  t_bytes = λ _. 0;
  l_bytes = λ _. 0;
  t_metric = λ _. 0;
  l_metric = λ _. 0;
  t_appstr = λ _. 0;
  l_appstr = λ _. 0;
  reset_metrics = 0;
  last_appstr = 0;
  appstr_app = t_app;
  stats_print = λ _. 0;
  stats_gen = λ _. 0;
  stats_str = λ _. 0;
  stats_prc = λ _. 0;
}

-- Core 0 has both classes, core 1 L-apps, core 2 T-apps, core 3 a little of both.
abbrev loaded : App → Switch
loaded app = record quiet {
  l_appstr = λ c. if c == 0 then 9000 else if c == 1 then 5000 else if c == 3 then 2000 else 0;
  t_appstr = λ c. if c == 0 then 60000 else if c == 2 then 70000 else if c == 3 then 4000 else 0;
  appstr_app = app;
}

abbrev four : List ℕ
four = 0 ∷ 1 ∷ 2 ∷ 3 ∷ []

-- The queue of a core, with its requests and those in the driver's batch.
abbrev hctx_with : ℕ → ℕ → Hctx
hctx_with active batch = record {
  blk_switch = true;
  numa_node = 0;
  nr_active = active;
  nr_req = batch;
  active_queues = 1;
  tag_shared = true;
  queued = 0;
}

abbrev queue : Queue
queue = record {
  hctx_of = λ c _. c;
  hctx = λ c.
      if c == 0
      then hctx_with 40 2
      else if c == 1
      then hctx_with 4 4
      else if c == 2
      then hctx_with 7 9
      else hctx_with 5 9;
  has_elevator = false;
  usage = 3;
}

abbrev plain : Flags
plain = record { hipri = false; req_prio = false; fua = false }

abbrev home : ℕ → Place
home c = record { ctx = c; hctx = c }

abbrev bytes_of : ℕ → ℕ
bytes_of n = 3 * n + 1

abbrev call : ℕ → Call
call tag = record {
  bio = some (record { size = 4096; prio = 0; req_prio = false });
  flags = plain;
  cpu = 1;
  reset_tested = 5;
  reset_set = 5;
  turn_tested = 5;
  turn_set = 5;
  cpu_after = λ _. 1;
  random = bytes_of;
  fuel = 4;
  get_tag = λ at. some (tag, at);
}

abbrev state : State
state = record { switch = quiet; queue = queue }

find_target_l_run : find_target (loaded l_app) false 0 four ≡ some 1
unfolding find_target search_from visit is_skipped is_l_better is_l_pending
find_target_l_run = refl

find_target_t_run : find_target (loaded t_app) true 0 four ≡ some 1
unfolding find_target search_from visit is_skipped is_l_better is_l_pending
find_target_t_run = refl

-- Core 3 waits for the L-apps of core 0 to come.
find_target_t_waits : find_target (loaded t_app) true 3 four ≡ none
unfolding find_target search_from visit is_skipped is_l_better is_l_pending
find_target_t_waits = refl

find_target-IsLTarget_example :
    IsLTarget (loaded l_app) 0 four (find_target (loaded l_app) false 0 four)
find_target-IsLTarget_example = find_target-IsLTarget (loaded l_app) 0 four refl

node_cores-lt_example : 2 < 4
unfolding node_cores cores_from
node_cores-lt_example = node_cores-lt 4 1 0 2 (omega arith) (inr (inr (inl refl)))

refresh_lem_example :
    let s' = refresh params kernel 9 9 0 quiet in
    ((((quiet.reset_metrics ≡ 0) ⊎ (kernel.time_after 9 quiet.reset_metrics ≡ true))
        × ((j : ℕ) → j < cores_in_use params kernel → Idle params kernel s' j)
        × ((j : ℕ) → cores_in_use params kernel ≤ j → Unchanged params kernel quiet s' j)
        × (s'.appstr_app ≡ t_app))
      ⊎ ((quiet.reset_metrics ≢ 0)
          × (kernel.time_after 9 quiet.reset_metrics ≡ false)
          × ((j : ℕ) → Unchanged params kernel quiet s' j)))
    × (s'.reset_metrics ≡ u64 (9 + kernel.msecs_to_jiffies reset_ms))
refresh_lem_example = refresh_lem params kernel 9 9 0 quiet

steer_app_lem_example :
    let a = steer_app kernel queue plain 4 9 9 (λ _. 2) true 4096 (home 0) quiet in
    let turned = take_turn kernel 4 9 9 (update_metrics true 4096 0 quiet) in
    let cores = node_cores 4 kernel.num_online_nodes (queue.hctx (home 0).hctx).numa_node in
    ((j : ℕ)
      → j ≢ 0
      → (a.switch.t_metric j ≡ quiet.t_metric j) × (a.switch.l_metric j ≡ quiet.l_metric j))
    × (find_target turned true 0 cores ≡ none → a.switch ≡ turned)
    × (((◌≡◌ {A = ℕ} 2 0) × (a.moved ≡ false) × (a.place ≡ home 0))
        ⊎ ((◌≢◌ {A = ℕ} 2 0)
            × (a.moved ≡ true)
            × (a.place.ctx ≡ 2)
            × (a.place.hctx ≡ map_queue queue plain 2)))
steer_app_lem_example = steer_app_lem kernel queue plain 4 9 9 (λ _. 2) true 4096 (home 0) quiet

-- Core 2 has more requests of a batch than core 1, and as many as core 3 with more in flight.
scan_run : (scan queue tcp bytes_of (λ _. 0) 0 (first_pick 0) four).target_cpu ≡ some 3
unfolding scan consider is_open room_of
scan_run = refl

scan-IsNearest_example :
    IsNearest queue tcp bytes_of
      (λ _. 0)
      0
      four
      (scan queue tcp bytes_of (λ _. 0) 0 (first_pick 0) four).target_cpu
scan-IsNearest_example = scan-IsNearest queue tcp bytes_of (λ _. 0) 0 four 0

two_choices_lem_example :
    (k : ℕ) × (c : ℕ) × (two_choices bytes_of 4 1 0 bytes_of 3 0 ≡ some c)
    × (drawn_core bytes_of 4 1 0 k ≢ drawn_core bytes_of 4 1 0 0)
    × ((c ≡ drawn_core bytes_of 4 1 0 0) ⊎ (c ≡ drawn_core bytes_of 4 1 0 k))
    × (bytes_of c
        ≡ min (bytes_of (drawn_core bytes_of 4 1 0 0)) (bytes_of (drawn_core bytes_of 4 1 0 k)))
unfolding drawn_core
two_choices_lem_example =
    two_choices_lem bytes_of 4 1 0 bytes_of 3 0 1 (omega arith) (omega arith) (omega arith)

-- Every core has L-requests, so that no core is open and two are drawn.
abbrev all_latent : Switch
all_latent = record quiet { l_metric = λ _. 5 }

steer_request_total_example :
    (r : ReqSteered) × (steer_request params kernel queue bytes_of 4 plain 3 (home 0) all_latent
      ≡ some r)
    × (r.place.ctx < 4)
unfolding drawn_core scan is_open node_cores cores_from
steer_request_total_example =
    steer_request_total params kernel queue bytes_of 4 plain 3 (home 0) all_latent (omega arith)
      (omega arith) (omega arith) (1, omega arith, omega arith, omega arith)

-- What an allocation at core 1 returns.
abbrev outcome : ℕ → State × Option Request
outcome tag = elim (get_request params kernel (call tag) state) [
  | none ↦ (state, none)
  | some r ↦ r
]

abbrev no_request : Request
no_request = record {
  place = home 0;
  tag = none;
  internal_tag = none;
  inflight = false;
  steered = true;
  bio = none;
  bytes = 0;
  ref = 1;
  has_end_io = false;
}

abbrev allocated : ℕ → Request
allocated tag = elim ((outcome tag).1) [ none ↦ no_request | some rq ↦ rq ]

get_request_run :
    (get_request params kernel (call 7) state ≡ some ((outcome 7).0, some (allocated 7)))
    × ((outcome 7).0.switch.t_bytes 1 ≡ 4096)
    × (((outcome 7).0.queue.hctx 1).nr_active ≡ 5)
    × ((outcome 7).0.queue.usage ≡ 4)
unfolding get_request refreshed refresh clear_metrics cores_in_use is_switch_request is_thru_request
    app_stage steer_app update_metrics take_turn find_target search_from visit is_skipped
    is_l_pending node_cores cores_from req_stage steer_request has_room req_thresh place_at
    map_queue queue_type tag_stage charge init_request
get_request_run = (refl, refl, refl, refl)

end-get_request_example :
    let (done, tags) = end_request kernel (allocated 7) (outcome 7).0 in
    Undone params kernel (call 7) state done tags
unfolding get_request refreshed refresh clear_metrics cores_in_use is_switch_request is_thru_request
    app_stage steer_app update_metrics take_turn find_target search_from visit is_skipped
    is_l_pending node_cores cores_from req_stage steer_request has_room req_thresh place_at
    map_queue queue_type tag_stage charge init_request
end-get_request_example =
    end-get_request params kernel (call 7) state (outcome 7).0 (allocated 7) refl (ground arith)
      (λ j. ground arith, λ j. ground arith)

-- A queue of nvme-rdma is marked as one of nvme-tcp is.
rdma_init_hctx_run : rdma_init_hctx 0 4 (hctx_with 20 0) ≡ some (tcp_init_hctx (hctx_with 20 0))
unfolding rdma_init_hctx tcp_init_hctx
rdma_init_hctx_run = refl
