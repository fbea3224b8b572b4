-- ===== src/Blk.antt =====
-- block/blk-mq.c and block/blk-mq.h: a hardware queue as the dispatch of requests keeps it, the tags
-- of the driver, the budget of a dispatch, and the calls of the driver.
pub mod Trace
pub mod Rounds
pub mod Direct
pub mod Plug
pub mod Requeue
pub mod Submit
mod Tests
use blk_switch.Common.{
  ℕ, Bool, Option, List, [], ◌∷◌, ◌++◌, none, some, true, false, not, ◌+◌, ◌-◌, ◌^◌, ◌%◌, ◌&&◌,
  ◌||◌, min, if◌then◌else◌, ◌==◌, u32,
}
use blk_switch.Common.Map.{update}
use blk_switch.HwQueue.{HwQueue, update_dispatch_busy}
use blk_switch.Lifecycle.{Rq, RqQueue, put_tag, requeue_request}

-- `blk_status_t`, as the dispatch tells its values apart; `failed` is any other error.
pub data Status : Type 0 where
  ok resource dev_resource failed : Status

-- What the dispatch does outside itself, in its order. A request is a number.
pub data Effect : Type 0 where
  budget_got budget_put committed : Effect
  handed : (rq : ℕ) → (last : Bool) → Status → Effect  -- `queue_rq` and its answer
  ended : (rq : ℕ) → Effect  -- `blk_mq_end_request`
  run_queue : (is_async : Bool) → Effect  -- `blk_mq_run_hw_queue`
  run_later : (msecs : ℕ) → Effect  -- `blk_mq_delay_run_hw_queue`
  -- `blk_mq_sched_insert_request`, without its flags for a run of the queue
  sched_insert : (rq : ℕ) → (at_head : Bool) → Effect

-- The driver and the parts of the kernel that the dispatch asks. An answer depends on the number of
-- the call: whether `blk_mq_get_tag` has a tag, whether `get_budget` gives one, the answer of
-- `queue_rq` and what it does to the request, `blk_mq_sched_needs_restart`, and whether the queue is
-- stopped or quiesced. `tag_busy` is `blk_mq_tag_busy`, and `ilog2` the kernel's.
pub record Driver : Type 0 where
  pub queue : RqQueue
  pub tag_at : ℕ → Bool
  pub tag_busy : Bool
  pub is_shared : Bool  -- BLK_MQ_F_TAG_SHARED
  pub has_get_budget : Bool
  pub has_put_budget : Bool
  pub has_commit : Bool
  pub budget_at : ℕ → Bool
  pub answer_at : ℕ → Status
  pub driven_at : ℕ → Rq → Rq
  pub restart_at : ℕ → Bool
  pub stopped_at : ℕ → Bool
  pub ilog2 : ℕ → ℕ

-- A hardware queue and its requests. `is_waiting` tells that `dispatch_wait` is in the queue of those
-- that wait for a tag, `calls` is the number of the next call, and `effects` is the trace.
pub record Hctx : Type 0 where
  pub rqs : ℕ → Rq
  pub dispatch_list : List ℕ
  pub nr_active : ℕ
  pub is_waiting : Bool
  pub marked_restart : Bool
  pub hw : HwQueue
  pub dispatched : ℕ → ℕ
  pub calls : ℕ
  pub effects : List Effect

abbrev pub note : Effect → Hctx → Hctx
note e h = record h { effects = h.effects ++ e ∷ [] }

abbrev pub count_call : Hctx → Hctx
count_call h = record h { calls = h.calls + 1 }

abbrev pub set_rq : ℕ → Rq → Hctx → Hctx
set_rq i rq h = record h { rqs = update h.rqs i rq }

-- `blk_mq_put_driver_tag`
unfoldable pub put_driver_tag : ℕ → Hctx → Hctx
put_driver_tag i h =
    let rq = h.rqs i in
    set_rq i (put_tag rq) (
      if rq.has_driver_tag && rq.has_sched_tag && rq.is_counted
      then record h { nr_active = u32 (h.nr_active + 2 ^ 32 - 1) }
      else h)

abbrev pub max_dispatch_order : ℕ
max_dispatch_order = 7

module _ (d : Driver) where
  -- `blk_mq_get_driver_tag`
  unfoldable pub get_driver_tag : ℕ → Hctx → Bool × Hctx
  get_driver_tag i h =
      let rq = h.rqs i in
      if rq.has_driver_tag
      then (true, h)
      else if not (d.tag_at h.calls)
      then (false, count_call h)
      else if d.tag_busy
      then (
        true,
        set_rq i (record rq { has_driver_tag = true; is_counted = true })
            (record h { nr_active = u32 (h.nr_active + 1); calls = h.calls + 1 }),
      )
      else (true, set_rq i (record rq { has_driver_tag = true }) (count_call h))

  -- `blk_mq_get_dispatch_budget`
  unfoldable pub get_dispatch_budget : Hctx → Bool × Hctx
  get_dispatch_budget h =
      if not d.has_get_budget
      then (true, h)
      else if d.budget_at h.calls
      then (true, note budget_got (count_call h))
      else (false, count_call h)

  -- `blk_mq_put_dispatch_budget`
  unfoldable pub put_dispatch_budget : Hctx → Hctx
  put_dispatch_budget h = if d.has_put_budget then note budget_put h else h

  -- `blk_mq_mark_tag_wait`
  unfoldable pub mark_tag_wait : ℕ → Hctx → Bool × Hctx
  mark_tag_wait i h =
      if not d.is_shared
      then get_driver_tag i (record h { marked_restart = true })
      else if h.is_waiting
      then (false, h)
      else let (got, h') = get_driver_tag i (record h { is_waiting = true }) in
        (got, if got then record h' { is_waiting = false } else h')

  -- `__blk_mq_requeue_request`
  unfoldable pub requeue : ℕ → Hctx → Hctx
  unfolding put_driver_tag
  requeue i h = set_rq i (requeue_request d.queue (h.rqs i)) (put_driver_tag i h)

  -- `q->mq_ops->queue_rq`
  unfoldable pub queue_rq : ℕ → (last : Bool) → Hctx → Status × Hctx
  queue_rq i last h =
      let ret = d.answer_at h.calls in
      (ret, note (handed i last ret) (set_rq i (d.driven_at h.calls (h.rqs i)) (count_call h)))

  -- `q->mq_ops->commit_rqs`
  unfoldable pub commit_rqs : Hctx → Hctx
  commit_rqs h = if d.has_commit then note committed h else h

  -- `queued_to_index`
  unfoldable pub queued_to_index : ℕ → ℕ
  queued_to_index queued =
      if queued == 0 then 0 else min (max_dispatch_order - 1) (d.ilog2 queued + 1)

abbrev pub is_busy : Status → Bool
is_busy ok = false
is_busy resource = true
is_busy dev_resource = true
is_busy failed = false

abbrev pub set_busy : Bool → Hctx → Hctx
set_busy b h = record h { hw = update_dispatch_busy h.hw b }

-- `blk_mq_request_bypass_insert`
unfoldable pub bypass_insert : ℕ → (at_head runs : Bool) → Hctx → Hctx
bypass_insert i at_head runs h =
    let put = record h {
      dispatch_list = if at_head then i ∷ h.dispatch_list else h.dispatch_list ++ i ∷ [];
    } in
    if runs then note (run_queue false) put else put
