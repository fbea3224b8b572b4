-- ===== src/Blk/Requeue.antt =====
-- block/blk-mq.c: the list of requests to insert again, and its work.
pub mod Order
pub mod Again
use blk_switch.Common.{
  ℕ, Bool, Option, none, some, List, [], ◌∷◌, ◌++◌, true, false, not, ◌==◌, ◌||◌, if◌then◌else◌,
}
use blk_switch.Common.Map.{update}
use blk_switch.Blk.{Driver, Hctx, sched_insert, run_queue, note, count_call, requeue, bypass_insert}

-- The list of a request queue, two flags of the requests (RQF_SOFTBARRIER, RQF_DONTPREP), whether the
-- work is due, and the hardware queue of the requests.
pub record RequeueList : Type 0 where
  pub entries : List ℕ
  pub soft_barrier : ℕ → Bool
  pub dont_prep : ℕ → Bool
  pub is_kicked : Bool
  pub hctx : Hctx

abbrev pub with_hctx : Hctx → RequeueList → RequeueList
with_hctx h s = record s { hctx = h }

-- Whether a request is in a list
unfoldable pub has : ℕ → List ℕ → Bool
has i [] = false
has i (j ∷ l) = i == j || has i l

-- Whether the `queuelist` of a request is on a list. `others` tells which requests are on a list of
-- another part: of a software queue, of the scheduler, or of a plug.
unfoldable pub is_listed : (others : ℕ → Bool) → ℕ → RequeueList → Bool
is_listed others i s = others i || has i s.entries || has i s.hctx.dispatch_list

-- `blk_mq_add_to_requeue_list`; `none` is the BUG_ON.
unfoldable pub add_to_requeue_list : ℕ → (at_head kicks : Bool) → RequeueList → Option RequeueList
add_to_requeue_list i at_head kicks s =
    if s.soft_barrier i
    then none
    else some (record s {
      entries = if at_head then i ∷ s.entries else s.entries ++ i ∷ [];
      soft_barrier = if at_head then update s.soft_barrier i true else s.soft_barrier;
      is_kicked = kicks || s.is_kicked;
    })

-- A request of the first loop of the work that has one of the flags.
unfoldable pub insert_flagged : ℕ → RequeueList → RequeueList
insert_flagged i s = record s {
  soft_barrier = update s.soft_barrier i false;
  hctx =
      if s.dont_prep i
      then bypass_insert i false false s.hctx
      else note (sched_insert i true) s.hctx;
}

-- The first loop of `blk_mq_requeue_work`, with the requests that it leaves in the list.
unfoldable pub first_pass : List ℕ → RequeueList → RequeueList × List ℕ
first_pass [] s = (s, [])
first_pass (i ∷ list) s = elim (s.soft_barrier i || s.dont_prep i) [
  | true ↦ first_pass list (insert_flagged i s)
  | false ↦ let (s', kept) = first_pass list s in (s', i ∷ kept)
]

-- The second loop
unfoldable pub second_pass : List ℕ → Hctx → Hctx
second_pass [] h = h
second_pass (i ∷ list) h = second_pass list (note (sched_insert i false) h)

module _ (d : Driver) where
  -- `blk_mq_run_hw_queues`, for the hardware queue
  unfoldable pub run_hw_queues : (is_async : Bool) → Hctx → Hctx
  run_hw_queues is_async h =
      if d.stopped_at h.calls then count_call h else note (run_queue is_async) (count_call h)

  -- `blk_mq_requeue_work`
  unfoldable pub requeue_work : RequeueList → RequeueList
  requeue_work s =
      let (s', kept) = first_pass s.entries (record s { entries = []; is_kicked = false }) in
      with_hctx (run_hw_queues false (second_pass kept s'.hctx)) s'

  module _ (others : ℕ → Bool) where
    -- `blk_mq_requeue_request`, without what the scheduler does to the request; `none` is one of the
    -- two BUG_ONs, that for a request on a list and that of `blk_mq_add_to_requeue_list`.
    unfoldable pub requeue_to_list : ℕ → (kicks : Bool) → RequeueList → Option RequeueList
    requeue_to_list i kicks s =
        let t = with_hctx (requeue d i s.hctx) s in
        if is_listed others i t then none else add_to_requeue_list i true kicks t

    -- Several requests, one after the other
    abbrev pub requeue_each : List ℕ → (kicks : Bool) → RequeueList → Option RequeueList
    requeue_each [] kicks s = some s
    requeue_each (i ∷ list) kicks s = elim (requeue_to_list i kicks s) [
      | none ↦ none
      | some s' ↦ requeue_each list kicks s'
    ]
