-- ===== src/Tcp/Doorbell.antt =====
-- drivers/nvme/host/tcp.c: nvme_tcp_queue_request and i10_host_doorbell_timeout, the delayed doorbells
-- of a queue.
pub mod Awake
use blk_switch.Common.{
  ℕ, Bool, Option, List, [], ◌∷◌, ◌++◌, none, some, true, false, not, ◌+◌, ◌&&◌, ◌||◌, ltb, leb,
  ◌==◌, if◌then◌else◌,
}

abbrev pub aggregation_size : ℕ
aggregation_size = 16

abbrev pub min_doorbell_timeout : ℕ
min_doorbell_timeout = 25

-- `i10_delayed_doorbell_us`, `num_online_cpus`, and whether the flags of a bio have one that is not in
-- `I10_ALLOWED_FLAGS`: the flags are the kernel's. A negative delay is as 0 is.
pub record Host : Type 0 where
  pub delayed_doorbell_us : ℕ
  pub online_cpus : ℕ
  pub has_other_flag : ℕ → Bool

-- A request in the send list, by its tag, with the flags of `curr_bio`.
pub record Sent : Type 0 where
  pub tag : ℕ
  pub curr_bio : Option ℕ

-- The part of `struct nvme_tcp_queue` that rings. `work` and `work_lat` tell whether `io_work` and
-- `io_work_lat` are queued; `nr_req` counts requests and stays below 2 ^ 31.
pub record Bell : Type 0 where
  pub queue_id : ℕ
  pub prio_class : ℕ
  pub send_list : List Sent
  pub nr_req : ℕ
  pub timer_active : Bool
  pub timer_set : ℕ
  pub work : Bool
  pub work_lat : Bool

-- `i10_host_is_latency`
abbrev pub is_latency : Bell → Bool
is_latency q = q.prio_class == 1

-- The choice between the two works.
unfoldable pub queue_work : Bell → Bell
queue_work q = if is_latency q then record q { work_lat = true } else record q { work = true }

-- `hrtimer_cancel` and `atomic_set(&queue->timer_set, 0)`
unfoldable pub stop_timer : Bell → Bell
stop_timer q = record q { timer_active = false; timer_set = 0 }

module _ (h : Host) where
  -- `i10_host_legacy_path`
  unfoldable pub is_legacy_path : Bell → Bool
  is_legacy_path q =
      q.queue_id == 0 || is_latency q || ltb h.delayed_doorbell_us min_doorbell_timeout

  -- `i10_host_is_nodelay_path`
  unfoldable pub is_nodelay_path : Sent → Bool
  is_nodelay_path r = elim (r.curr_bio) [ none ↦ true | some flags ↦ h.has_other_flag flags ]

  -- A delayed request starts the timer if it is the first one.
  unfoldable pub count_request : Bell → Bell
  count_request q =
      let counted = record q { nr_req = q.nr_req + 1 } in
      if counted.nr_req == 1 && not counted.timer_active
      then record counted { timer_active = true; timer_set = counted.timer_set + 1 }
      else counted

  -- `nvme_tcp_queue_request`
  unfoldable pub queue_request : Bell → Sent → Bell
  unfolding is_legacy_path count_request queue_work stop_timer
  queue_request q r =
      let listed = record q {
        prio_class = if leb q.queue_id h.online_cpus then 0 else 1;
        send_list = q.send_list ++ r ∷ [];
      } in
      let counted = count_request listed in
      if not (is_legacy_path listed) && not (is_nodelay_path r)
      then (if leb aggregation_size counted.nr_req
          then queue_work (stop_timer counted)
          else counted)
      else queue_work (stop_timer listed)

-- `i10_host_doorbell_timeout`, when the timer fires.
unfoldable pub doorbell_timeout : Bell → Bell
unfolding queue_work stop_timer
doorbell_timeout q = queue_work (stop_timer q)
