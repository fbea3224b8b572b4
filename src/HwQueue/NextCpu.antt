-- ===== src/HwQueue/NextCpu.antt =====
-- block/blk-mq.c: the core that the work of a hardware queue runs on.
use blk_switch.Common.{ℕ, some, true, ◌<◌, ◌≤◌, ◌≡◌, ◌≢◌, arith, Bool-cases, leb, inl, inr}
use blk_switch.HwQueue.{HwQueue, Cpus, select_cpu, first_mapped_cpu, candidate, hctx_next_cpu}

-- A core that is selected is online.
online-select_cpu :
    (c : Cpus) (h : HwQueue) (cpu : ℕ)
    → (c.next_and cpu h.cpumask c.online < c.nr_cpu_ids
        → c.online (c.next_and cpu h.cpumask c.online) ≡ true)
    → c.first_and h.cpumask c.online < c.nr_cpu_ids
    → c.online (c.first_and h.cpumask c.online) ≡ true
    → c.online (select_cpu c h cpu) ≡ true
unfolding select_cpu first_mapped_cpu
online-select_cpu c h cpu next lt on =
    elim (Bool-cases (leb c.nr_cpu_ids (c.next_and cpu h.cpumask c.online))) [
      | inl t ↦ rw t (ground arith)
      | inr n ↦ rw n (next (ground arith))
    ]

candidate-batch :
    (c : Cpus) (h : HwQueue)
    → h.next_cpu_batch ≤ 8
    → (1 ≤ (candidate c h).1) × ((candidate c h).1 ≤ 8)
unfolding candidate
candidate-batch c h b = ground arith

-- With the kernel's search in two sets of cores finding a core of both, or a number that is no core:
-- if some core of a queue that is not the only one is online, the queue's work gets a core that is
-- online, which the queue keeps, with a batch from 1 to 8 before the next change if the batch was 8 at
-- most.
pub hctx_next_cpu_lem :
    (c : Cpus) (h : HwQueue)
    → ((n : ℕ)
        → c.next_and n h.cpumask c.online < c.nr_cpu_ids
        → c.online (c.next_and n h.cpumask c.online) ≡ true)
    → c.first_and h.cpumask c.online < c.nr_cpu_ids
    → c.online (c.first_and h.cpumask c.online) ≡ true
    → h.nr_hw_queues ≢ 1
    → h.next_cpu_batch ≤ 8
    → (cpu : ℕ) × ((hctx_next_cpu c h).0 ≡ some cpu)
      × (c.online cpu ≡ true)
      × ((hctx_next_cpu c h).1.next_cpu ≡ cpu)
      × (1 ≤ (hctx_next_cpu c h).1.next_cpu_batch)
      × ((hctx_next_cpu c h).1.next_cpu_batch ≤ 8)
unfolding hctx_next_cpu
hctx_next_cpu_lem c h next lt on many b =
    let (cpu, batch) = candidate c h in
    let again = online-select_cpu c h cpu (next cpu) lt on in
    let (lo, hi) = candidate-batch c h b in
    elim (Bool-cases (c.online (candidate c h).0)) [
      | inl t ↦ ((candidate c h).0, ground arith, t, ground arith, ground arith, ground arith)
      | inr n ↦ (
        select_cpu c h (candidate c h).0,
        ground arith,
        again,
        ground arith,
        ground arith,
        ground arith,
      )
    ]
