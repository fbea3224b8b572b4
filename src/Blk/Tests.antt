-- ===== src/Blk/Tests.antt =====
-- block/blk-mq.c: a driver and requests, dispatched, plugged, submitted and requeued.
mod Submit
use blk_switch.Common.{
  ℕ, Bool, Option, none, some, List, [], ◌∷◌, ◌++◌, true, false, not, ◌+◌, ◌&&◌, ◌≡◌, ◌≢◌, ◌≤◌, ◌<◌,
  ◌⊎◌, refl, arith, All, if◌then◌else◌, ◌==◌, is_empty, length,
}
use blk_switch.HwQueue.{HwQueue, update_dispatch_busy, next_ewma}
use blk_switch.Lifecycle.{Rq, RqQueue, idle, requeue_request}
use blk_switch.Blk.{
  Status, ok, resource, failed, Driver, Hctx, get_driver_tag, get_dispatch_budget, queue_rq,
  queued_to_index, put_driver_tag, requeue, bypass_insert, commit_rqs,
}
use blk_switch.Blk.Trace.{left, waits}
use blk_switch.Blk.Rounds.{
  take_budget, budgeted, take_tag, tagged, issue, is_last, answered, round, rounds, finish,
  count_queued, put_next, rerun, dispatch_rq_list,
}
use blk_switch.Blk.Rounds.Order.{dispatch_rq_list-order}
use blk_switch.Blk.Rounds.Told.{EndsInError, dispatch_rq_list-told}
use blk_switch.Blk.Rounds.Touch.{Clear, Distinct}
use blk_switch.Blk.Rounds.Tags.{dispatch_rq_list-Clear}
use blk_switch.Blk.Direct.{try_issue_list_directly}
use blk_switch.Blk.Direct.Count.{count, placed, try_issue_list_directly-count}

abbrev pub no_drain : RqQueue
no_drain = record {
  has_stats = false;
  same_comp = true;
  same_force = false;
  has_drain = false;
  nr_hw_queues = 4;
}

-- A driver that takes the requests before the call `n`, and then answers with `s`.
abbrev pub driver : (n : ℕ) → Status → Driver
driver n s = record {
  queue = no_drain;
  tag_at = λ k. true;
  tag_busy = false;
  is_shared = false;
  has_get_budget = false;
  has_put_budget = false;
  has_commit = true;
  budget_at = λ k. true;
  answer_at = λ k. if k == n then s else ok;
  driven_at = λ k r. r;
  restart_at = λ k. false;
  stopped_at = λ k. false;
  ilog2 = λ n. if n == 1 then 0 else 1;
}

-- A request of the scheduler that has no tag of the driver.
abbrev pub request : Rq
request = record {
  state = idle;
  timed_out = false;
  counts_stats = false;
  io_start_time = 0;
  deadline = 0;
  nr_phys_segments = 1;
  bytes = 4096;
  has_driver_tag = false;
  has_sched_tag = true;
  is_counted = false;
  hipri = false;
  ctx_cpu = 0;
  ref = 1;
}

abbrev pub hw_queue : HwQueue
hw_queue = record {
  has_elevator = false;
  nr_hw_queues = 4;
  cpumask = λ c. true;
  dispatch_busy = 0;
  next_cpu = 0;
  next_cpu_batch = 8;
}

-- A hardware queue with the request 9 on its list.
abbrev pub hctx : Hctx
hctx = record {
  rqs = λ i. request;
  dispatch_list = 9 ∷ [];
  nr_active = 0;
  is_waiting = false;
  marked_restart = false;
  hw = hw_queue;
  dispatched = λ k. 0;
  calls = 0;
  effects = [];
}

abbrev pub three : List ℕ
three = 1 ∷ 2 ∷ 3 ∷ []

-- The calls are a tag for 1, a tag for 2, 1, a tag for 3, and 2, which the driver refuses.
refuses_second :
    (left (dispatch_rq_list (driver 4 resource) false three hctx).1.effects ≡ 1 ∷ [])
    × ((dispatch_rq_list (driver 4 resource) false three hctx).1.dispatch_list ≡ 9 ∷ 2 ∷ 3 ∷ [])
    × ((dispatch_rq_list (driver 4 resource) false three hctx).0 ≡ false)
unfolding dispatch_rq_list rounds round take_budget get_dispatch_budget budgeted take_tag
    get_driver_tag tagged issue is_last queue_rq answered finish count_queued queued_to_index
    update_dispatch_busy next_ewma put_next put_driver_tag requeue requeue_request rerun commit_rqs
refuses_second = (refl, refl, refl)

-- The driver took 1 and was told that more comes, and 2 failed: nothing tells it to start 1.
not_told :
    (waits (dispatch_rq_list (driver 3 failed) false (1 ∷ 2 ∷ []) hctx).1.effects ≡ true)
    × (left (dispatch_rq_list (driver 3 failed) false (1 ∷ 2 ∷ []) hctx).1.effects ≡ 1 ∷ 2 ∷ [])
unfolding dispatch_rq_list rounds round take_budget get_dispatch_budget budgeted take_tag
    get_driver_tag tagged issue is_last queue_rq answered finish count_queued queued_to_index
    update_dispatch_busy next_ewma
not_told = (refl, refl)

dispatch_rq_list-order_example :
    let (result, k) = dispatch_rq_list (driver 4 resource) false three hctx in
    (rest : List ℕ) × (left k.effects ++ rest ≡ three)
    × (k.dispatch_list ≡ 9 ∷ rest)
    × (result ≡ is_empty rest)
dispatch_rq_list-order_example = dispatch_rq_list-order (driver 4 resource) false three hctx

dispatch_rq_list-told_example :
    let k = (dispatch_rq_list (driver 4 resource) false three hctx).1 in
    (waits k.effects ≡ false) ⊎ EndsInError k.effects
dispatch_rq_list-told_example = dispatch_rq_list-told (driver 4 resource) false refl three hctx refl

three-Distinct : Distinct (three ++ hctx.dispatch_list)
three-Distinct = (
  (omega arith, (omega arith, (omega arith, tt))),
  ((omega arith, (omega arith, tt)), ((omega arith, tt), (tt, tt))),
)

three-Clear : All (Clear hctx) (three ++ hctx.dispatch_list)
three-Clear = ((λ s. refl), ((λ s. refl), ((λ s. refl), ((λ s. refl), tt))))

dispatch_rq_list-Clear_example :
    let k = (dispatch_rq_list (driver 4 resource) false three hctx).1 in
    All (Clear k) k.dispatch_list
dispatch_rq_list-Clear_example =
    dispatch_rq_list-Clear (driver 4 resource) false three hctx three-Distinct three-Clear

try_issue_list_directly-count_example :
    let (k, rest) = try_issue_list_directly (driver 3 resource) three hctx in
    placed 2 k + count 2 rest ≡ 1
try_issue_list_directly-count_example =
    try_issue_list_directly-count (driver 3 resource) 2 three hctx
