-- ===== src/Lifecycle.antt =====
-- block/blk-mq.c: the states of a request, from blk_mq_start_request to its completion, its requeue or
-- its timeout.
pub mod Correct
pub mod Expire
mod Tests
use blk_switch.Common.{
  ℕ, Bool, true, false, not, ◌+◌, ◌-◌, ◌^◌, ◌%◌, ◌&&◌, ◌||◌, ltb, leb, ◌==◌, if◌then◌else◌,
}

-- `enum mq_rq_state`
pub data RqState : Type 0 where
  idle in_flight complete : RqState

abbrev pub is_started : RqState → Bool
is_started idle = false
is_started in_flight = true
is_started complete = true

abbrev pub is_in_flight : RqState → Bool
is_in_flight idle = false
is_in_flight in_flight = true
is_in_flight complete = false

-- The fields of a request queue that are read: the flags STATS, SAME_COMP and SAME_FORCE, whether
-- `dma_drain_size` is set, and the number of hardware queues.
pub record RqQueue : Type 0 where
  pub has_stats : Bool
  pub same_comp : Bool
  pub same_force : Bool
  pub has_drain : Bool
  pub nr_hw_queues : ℕ

-- The fields of `struct request` that are used. `has_driver_tag` tells whether it holds a tag of
-- the driver (`tag != -1`), `has_sched_tag` whether it holds one of the scheduler (`internal_tag != -1`),
-- `is_counted` is RQF_MQ_INFLIGHT, and `bytes` is `blk_rq_bytes`.
pub record Rq : Type 0 where
  pub state : RqState
  pub timed_out : Bool
  pub counts_stats : Bool
  pub io_start_time : ℕ
  pub deadline : ℕ
  pub nr_phys_segments : ℕ
  pub bytes : ℕ
  pub has_driver_tag : Bool
  pub has_sched_tag : Bool
  pub is_counted : Bool
  pub hipri : Bool
  pub ctx_cpu : ℕ
  pub ref : ℕ

abbrev pub needs_drain : RqQueue → Rq → Bool
needs_drain q rq = q.has_drain && not (rq.bytes == 0)

-- `blk_mq_start_request`, at the time `now`; `add_timer` is `blk_add_timer`.
unfoldable pub start_request : RqQueue → (add_timer : Rq → Rq) → (now : ℕ) → Rq → Rq
start_request q add_timer now rq =
    let issued = record rq {
      counts_stats = q.has_stats || rq.counts_stats;
      io_start_time = if q.has_stats then now else rq.io_start_time;
    } in
    let timed = add_timer issued in
    record timed {
      state = in_flight;
      nr_phys_segments =
          if needs_drain q timed
          then (timed.nr_phys_segments + 1) % 2 ^ 16
          else timed.nr_phys_segments;
    }

-- What `blk_mq_put_driver_tag` does to the request.
abbrev pub put_tag : Rq → Rq
put_tag rq =
    if rq.has_driver_tag && rq.has_sched_tag
    then record rq { has_driver_tag = false; is_counted = false }
    else rq

-- `__blk_mq_requeue_request`, as far as it concerns the request
unfoldable pub requeue_request : RqQueue → Rq → Rq
requeue_request q rq =
    let put = put_tag rq in
    if is_started put.state
    then record put {
      state = idle;
      timed_out = false;
      nr_phys_segments =
          if needs_drain q rq
          then (rq.nr_phys_segments + 2 ^ 16 - 1) % 2 ^ 16
          else rq.nr_phys_segments;
    }
    else put

-- Where the completion of a request runs.
pub data Where : Type 0 where
  softirq here : Where
  at_cpu : ℕ → Where

-- `__blk_mq_complete_request` on the core `cpu`; whether it shares its cache with the core of the
-- request, and whether that is online, is the kernel's.
unfoldable pub complete_request :
    RqQueue → (cpu : ℕ) (shares_cache is_online : ℕ → Bool) → Rq → Rq × Where
complete_request q cpu shares_cache is_online rq =
    let done = record rq { state = complete } in
    let shared = if q.same_force then false else shares_cache rq.ctx_cpu in
    if q.nr_hw_queues == 1
    then (done, softirq)
    else if rq.hipri || not q.same_comp
    then (done, here)
    else if not (cpu == rq.ctx_cpu) && not shared && is_online rq.ctx_cpu
    then (done, at_cpu rq.ctx_cpu)
    else (done, here)

-- `time_after_eq` on 64-bit jiffies
abbrev pub is_after_eq : ℕ → ℕ → Bool
is_after_eq a b = ltb ((a + 2 ^ 64 - b) % 2 ^ 64) (2 ^ 63)

-- `blk_mq_req_expired`, with what becomes of `*next`
unfoldable pub req_expired : (jiffies : ℕ) → Rq → (next : ℕ) → Bool × ℕ
req_expired jiffies rq next =
    if not (is_in_flight rq.state) || rq.timed_out
    then (false, next)
    else if is_after_eq jiffies rq.deadline
    then (true, next)
    else if next == 0
    then (false, rq.deadline)
    else (false, if is_after_eq rq.deadline next then next else rq.deadline)

-- `blk_mq_rq_timed_out`; `is_done` tells that the driver's handler is there and returned
-- BLK_EH_DONE, and `add_timer` is `blk_add_timer`.
unfoldable pub rq_timed_out : (add_timer : Rq → Rq) → (is_done : Bool) → Rq → Rq
rq_timed_out add_timer is_done rq =
    let marked = record rq { timed_out = true } in if is_done then marked else add_timer marked
