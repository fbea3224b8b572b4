-- ===== src/Lifecycle/Tests.antt =====
-- block/blk-mq.c: requests that are due, and requests that wait.
use blk_switch.Common.{ℕ, some, [], ◌∷◌, true, false, ◌≤◌, ◌<◌, ◌^◌, ◌≡◌, refl, arith}
use blk_switch.Lifecycle.{Rq, idle, in_flight, req_expired, rq_timed_out}
use blk_switch.Lifecycle.Expire.{Busy, timer_at, check_expired, put_ref, scan_busy, timeout_work}
use blk_switch.Lifecycle.Expire.Step.{due_in, Steady, Pends}
use blk_switch.Lifecycle.Expire.Scan.{AllBusy, timeout_work-timer}

abbrev waiting : Rq
waiting = record {
  state = idle;
  timed_out = false;
  counts_stats = false;
  io_start_time = 0;
  deadline = 100;
  nr_phys_segments = 3;
  bytes = 4096;
  has_driver_tag = true;
  has_sched_tag = true;
  is_counted = false;
  hipri = false;
  ctx_cpu = 2;
  ref = 1;
}

abbrev flying : Rq
flying = record waiting { state = in_flight }

-- A timer of 30 from the time 100.
abbrev timer : Rq → Rq
timer rq = record rq { timed_out = false; deadline = 130 }

late : (req_expired 110 flying 0).0 ≡ true
unfolding req_expired
late = refl

abbrev busy_until : ℕ → Busy
busy_until t = record {
  rq = record flying { deadline = t };
  now = 90;
  then_now = 90;
  before = λ r. r;
  during = λ r. r;
  is_done = true;
  is_flush = false;
}

busy_until-Steady : (t : ℕ) → 0 < t → t < 2 ^ 64 → Steady 90 (busy_until t)
busy_until-Steady t a b = record {
  reads = refl;
  reads_again = refl;
  own_set = (a, b);
  before_set = (a, b);
}

timeout_work-timer_example :
    AllBusy
      (λ e.
        Pends 90 e.rq
        → (t : ℕ) × ((timeout_work timer timer true
              (busy_until 120 ∷ busy_until 80 ∷ busy_until 100 ∷ [])).1
            ≡ some (timer_at t))
          × (due_in 90 t ≤ due_in 90 e.rq.deadline))
      (busy_until 120 ∷ busy_until 80 ∷ busy_until 100 ∷ [])
timeout_work-timer_example =
    timeout_work-timer timer timer 90 (omega arith)
      (busy_until 120 ∷ busy_until 80 ∷ busy_until 100 ∷ [])
      (
        busy_until-Steady 120 (omega arith) (omega arith),
        (
          busy_until-Steady 80 (omega arith) (omega arith),
          (busy_until-Steady 100 (omega arith) (omega arith), tt),
        ),
      )

-- The request that was due at 80 is marked, and the timer is set to 100.
scan_of_three :
    (timeout_work timer timer true (busy_until 120 ∷ busy_until 80 ∷ busy_until 100 ∷ [])).1
    ≡ some (timer_at 100)
unfolding timeout_work scan_busy check_expired put_ref req_expired rq_timed_out
scan_of_three = refl
