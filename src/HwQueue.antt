-- ===== src/HwQueue.antt =====
-- block/blk-mq.c: a hardware queue as the dispatch of requests keeps it: how busy its driver is, and
-- the core that its work runs on.
pub mod Busy
pub mod NextCpu
mod Tests
use blk_switch.Common.{
  ℕ, Bool, Option, none, some, ◌+◌, ◌-◌, ◌*◌, ◌/◌, ◌^◌, ◌&&◌, not, leb, ◌==◌, if◌then◌else◌, u32,
}

abbrev pub ewma_weight : ℕ
ewma_weight = 8

abbrev pub ewma_factor : ℕ
ewma_factor = 4

abbrev pub work_batch : ℕ
work_batch = 8

-- The fields of `struct blk_mq_hw_ctx` that the two functions read, with whether the request queue has
-- an elevator and how many hardware queues it has. `next_cpu_batch` is an int that is never negative.
pub record HwQueue : Type 0 where
  pub has_elevator : Bool
  pub nr_hw_queues : ℕ
  pub cpumask : ℕ → Bool
  pub dispatch_busy : ℕ
  pub next_cpu : ℕ
  pub next_cpu_batch : ℕ

-- The kernel's sets of cores: `cpumask_next_and`, `cpumask_first_and`, `cpumask_first`,
-- `nr_cpu_ids` and `cpu_online_mask`.
pub record Cpus : Type 0 where
  pub nr_cpu_ids : ℕ
  pub online : ℕ → Bool
  pub next_and : ℕ → (ℕ → Bool) → (ℕ → Bool) → ℕ
  pub first_and : (ℕ → Bool) → (ℕ → Bool) → ℕ
  pub first : (ℕ → Bool) → ℕ

-- `ewma`, as it is after a dispatch
unfoldable pub next_ewma : ℕ → Bool → ℕ
next_ewma ewma busy =
    let kept = u32 (ewma * (ewma_weight - 1)) in
    (if busy then u32 (kept + 2 ^ ewma_factor) else kept) / ewma_weight

-- `blk_mq_update_dispatch_busy`
unfoldable pub update_dispatch_busy : HwQueue → Bool → HwQueue
unfolding next_ewma
update_dispatch_busy h busy =
    if h.has_elevator
    then h
    else if h.dispatch_busy == 0 && not busy
    then h
    else record h { dispatch_busy = next_ewma h.dispatch_busy busy }

module _ (c : Cpus) where
  -- `blk_mq_first_mapped_cpu`
  unfoldable pub first_mapped_cpu : HwQueue → ℕ
  first_mapped_cpu h =
      let cpu = c.first_and h.cpumask c.online in
      if leb c.nr_cpu_ids cpu then c.first h.cpumask else cpu

  -- What stands behind the label `select_cpu`.
  unfoldable pub select_cpu : HwQueue → ℕ → ℕ
  unfolding first_mapped_cpu
  select_cpu h cpu =
      let next = c.next_and cpu h.cpumask c.online in
      if leb c.nr_cpu_ids next then first_mapped_cpu h else next

  -- The core that is looked at first, and the batch with it.
  unfoldable pub candidate : HwQueue → ℕ × ℕ
  unfolding select_cpu
  candidate h =
      if leb h.next_cpu_batch 1
      then (select_cpu h h.next_cpu, work_batch)
      else (h.next_cpu, h.next_cpu_batch - 1)

  -- `blk_mq_hctx_next_cpu`; `none` is WORK_CPU_UNBOUND.
  unfoldable pub hctx_next_cpu : HwQueue → Option ℕ × HwQueue
  unfolding candidate
  hctx_next_cpu h =
      let (cpu, batch) = candidate h in
      let again = select_cpu h cpu in
      if h.nr_hw_queues == 1
      then (none, h)
      else if c.online cpu
      then (some cpu, record h { next_cpu = cpu; next_cpu_batch = batch })
      else if c.online again
      then (some again, record h { next_cpu = again; next_cpu_batch = work_batch })
      else (none, record h { next_cpu = again; next_cpu_batch = 1 })
