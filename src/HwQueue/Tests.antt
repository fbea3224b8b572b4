-- ===== src/HwQueue/Tests.antt =====
-- block/blk-mq.c: runs of a hardware queue over four cores, of which 1 and 3 are online.
use blk_switch.Common.{
  ℕ, some, [], ◌∷◌, true, false, ◌≤◌, ◌<◌, ◌≡◌, ◌==◌, ◌||◌, ltb, if◌then◌else◌, refl, arith,
}
use blk_switch.HwQueue.{HwQueue, Cpus, hctx_next_cpu, update_dispatch_busy}
use blk_switch.HwQueue.Busy.{dispatches, idle_for, dispatch_busy_lem}
use blk_switch.HwQueue.NextCpu.{hctx_next_cpu_lem}

abbrev cpus : Cpus
cpus = record {
  nr_cpu_ids = 4;
  online = λ n. (n == 1) || (n == 3);
  next_and = λ n m o. if ltb n 1 then 1 else if ltb n 3 then 3 else 4;
  first_and = λ m o. 1;
  first = λ m. 0;
}

abbrev hw_queue : HwQueue
hw_queue = record {
  has_elevator = false;
  nr_hw_queues = 4;
  cpumask = λ n. true;
  dispatch_busy = 0;
  next_cpu = 2;
  next_cpu_batch = 3;
}

-- Three dispatches, of which two were busy.
dispatch_busy_lem_example :
    ((dispatches hw_queue (true ∷ false ∷ true ∷ [])).dispatch_busy ≤ 9)
    × (2
        ≤ (update_dispatch_busy
            (dispatches hw_queue (true ∷ false ∷ true ∷ []))
            true).dispatch_busy)
    × ((idle_for 9 (dispatches hw_queue (true ∷ false ∷ true ∷ []))).dispatch_busy ≡ 0)
dispatch_busy_lem_example = dispatch_busy_lem hw_queue (true ∷ false ∷ true ∷ []) refl refl

found :
    (n : ℕ)
    → cpus.next_and n hw_queue.cpumask cpus.online < 4
    → cpus.online (cpus.next_and n hw_queue.cpumask cpus.online) ≡ true
found n l = ground arith

hctx_next_cpu_lem_example :
    (cpu : ℕ) × ((hctx_next_cpu cpus hw_queue).0 ≡ some cpu)
    × (cpus.online cpu ≡ true)
    × ((hctx_next_cpu cpus hw_queue).1.next_cpu ≡ cpu)
    × (1 ≤ (hctx_next_cpu cpus hw_queue).1.next_cpu_batch)
    × ((hctx_next_cpu cpus hw_queue).1.next_cpu_batch ≤ 8)
hctx_next_cpu_lem_example =
    hctx_next_cpu_lem cpus hw_queue found (omega arith) refl (omega arith) (omega arith)
