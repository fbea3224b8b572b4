-- ===== src/Lifecycle/Expire.antt =====
-- block/blk-mq.c: blk_mq_check_expired and blk_mq_timeout_work, the scan for requests that expired.
pub mod Step
pub mod Scan
use blk_switch.Common.{
  ℕ, Bool, Option, none, some, List, [], ◌∷◌, true, false, not, ◌+◌, ◌-◌, ◌^◌, ◌%◌, ◌==◌,
  if◌then◌else◌, u32,
}
use blk_switch.Lifecycle.{Rq, req_expired, rq_timed_out}

-- A request of the scan with what happens around it: `jiffies` at its two reads, what other threads do
-- to the request before the reference is taken and while it is held, whether the driver's handler
-- is done with a timeout, and whether it is a flush request, whose `end_io` puts the reference.
pub record Busy : Type 0 where
  pub rq : Rq
  pub now : ℕ
  pub then_now : ℕ
  pub before : Rq → Rq
  pub during : Rq → Rq
  pub is_done : Bool
  pub is_flush : Bool

-- What the scan does to a request: the request behind it, `*next`, and whether it was freed.
pub record Checked : Type 0 where
  pub left_rq : Rq
  pub next : ℕ
  pub is_freed : Bool

-- What the timer of the queue is set to, or that its hardware queues are marked as idle.
pub data Rearm : Type 0 where
  timer_at : ℕ → Rearm
  tags_idle : Rearm

module _ (add_timer : Rq → Rq) (end_io : Rq → Rq) where
  -- The reference is put.
  unfoldable pub put_ref : (is_flush : Bool) → Rq → Rq × Bool
  put_ref true rq = (end_io rq, false)
  put_ref false rq = (record rq { ref = rq.ref - 1 }, rq.ref == 1)

  -- `blk_mq_check_expired`
  unfoldable pub check_expired : Busy → (next : ℕ) → Checked
  check_expired e next =
      let (first, next') = req_expired e.now e.rq next in
      let rq = e.before e.rq in
      if not first
      then record { left_rq = e.rq; next = next'; is_freed = false }
      else if rq.ref == 0
      then record { left_rq = rq; next = next'; is_freed = false }
      else let held = record rq { ref = u32 (rq.ref + 1) } in
        let (second, next'') = req_expired e.then_now held next' in
        let timed = if second then rq_timed_out add_timer e.is_done held else held in
        let (rest, freed) = put_ref e.is_flush (e.during timed) in
        record { left_rq = rest; next = next''; is_freed = freed }

  -- `blk_mq_queue_tag_busy_iter` with it, over the requests that hold a tag
  unfoldable pub scan_busy : List Busy → (next : ℕ) → List Checked × ℕ
  scan_busy [] next = ([], next)
  scan_busy (e ∷ es) next =
      let c = check_expired e next in let (cs, next') = scan_busy es c.next in (c ∷ cs, next')

  -- `blk_mq_timeout_work`; nothing is done where the queue is no longer entered.
  unfoldable pub timeout_work : (is_entered : Bool) → List Busy → List Checked × Option Rearm
  timeout_work is_entered es =
      let (cs, next) = scan_busy es 0 in
      if not is_entered
      then ([], none)
      else (cs, some (if next == 0 then tags_idle else timer_at next))
