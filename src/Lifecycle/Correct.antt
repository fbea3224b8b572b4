-- ===== src/Lifecycle/Correct.antt =====
-- block/blk-mq.c: what the steps of a request do together.
use blk_switch.Common.{ℕ, Bool, true, false, ◌^◌, ◌<◌, ◌≡◌, arith, if◌then◌else◌, ◌||◌, ◌&&◌, not}
use blk_switch.Lifecycle.{
  Rq, RqQueue, idle, in_flight, start_request, requeue_request, complete_request, req_expired,
  rq_timed_out,
}

-- With a `blk_add_timer` that keeps the bytes, the segments and the tags of a request: a request that is idle,
-- not marked as timed out, and has fewer than 2 ^ 16 segments, is idle again when it is started and
-- requeued, with the segments it had and no mark, and it holds a tag of the driver only if it
-- held one and has none of the scheduler.
pub requeue-start :
    (q : RqQueue) (add_timer : Rq → Rq) (now : ℕ) (rq : Rq)
    → ((r : Rq)
        → ((add_timer r).bytes ≡ r.bytes)
          × ((add_timer r).nr_phys_segments ≡ r.nr_phys_segments)
          × ((add_timer r).has_driver_tag ≡ r.has_driver_tag)
          × ((add_timer r).has_sched_tag ≡ r.has_sched_tag))
    → rq.state ≡ idle
    → rq.timed_out ≡ false
    → rq.nr_phys_segments < 2 ^ 16
    → let r = requeue_request q (start_request q add_timer now rq) in
      (r.state ≡ idle)
      × (r.timed_out ≡ false)
      × (r.nr_phys_segments ≡ rq.nr_phys_segments)
      × (r.has_driver_tag ≡ rq.has_driver_tag && not rq.has_sched_tag)
unfolding requeue_request start_request
requeue-start q add_timer now rq keeps i t s =
    let issued = record rq {
      counts_stats = q.has_stats || rq.counts_stats;
      io_start_time = if q.has_stats then now else rq.io_start_time;
    } in
    let (b, n, t', u) = keeps issued in (ground arith, ground arith, ground arith, ground arith)

-- When a request expires, it is in flight and `next` stays; behind a timeout that the driver has dealt
-- with it does not expire again at any time, and neither does it behind its completion.
pub expires_once :
    (q : RqQueue) (add_timer : Rq → Rq) (jiffies later next next' cpu : ℕ)
    (shares_cache is_online : ℕ → Bool) (rq : Rq)
    → (req_expired jiffies rq next).0 ≡ true
    → (rq.state ≡ in_flight)
      × ((req_expired jiffies rq next).1 ≡ next)
      × ((req_expired later (rq_timed_out add_timer true rq) next').0 ≡ false)
      × ((req_expired later (complete_request q cpu shares_cache is_online rq).0 next').0 ≡ false)
unfolding req_expired rq_timed_out complete_request
expires_once q add_timer jiffies later next next' cpu shares_cache is_online rq e =
    (ground arith, ground arith, ground arith, ground arith)
