-- ===== src/Blk/Rounds.antt =====
-- block/blk-mq.c: blk_mq_dispatch_rq_list.
pub mod Loop
pub mod Order
pub mod Told
pub mod Touch
pub mod Tags
use blk_switch.Common.{
  ℕ, Bool, List, [], ◌∷◌, ◌++◌, true, false, not, ◌+◌, ◌&&◌, ◌||◌, if◌then◌else◌, is_empty, ◌==◌,
  u32,
}
use blk_switch.Common.Map.{update}
use blk_switch.Blk.{
  Status, ok, resource, dev_resource, failed, Effect, ended, run_queue, run_later, Driver, Hctx,
  note, count_call, put_driver_tag, get_driver_tag, get_dispatch_budget, put_dispatch_budget,
  mark_tag_wait, requeue, queue_rq, commit_rqs, queued_to_index, is_busy, set_busy,
}

-- The local variables of the function, with the state of the queue.
pub record Round : Type 0 where
  pub hctx : Hctx
  pub no_tag : Bool
  pub errors : ℕ
  pub queued : ℕ
  pub ret : Status

-- A round of the loop goes on behind the request, or stops with the request at the head of the list.
pub data Rounded : Type 0 where
  next stop : Round → Rounded

abbrev pub at_hctx : Hctx → Round → Round
at_hctx h x = record x { hctx = h }

abbrev pub start_round : Hctx → Round
start_round h = record { hctx = h; no_tag = false; errors = 0; queued = 0; ret = ok }

abbrev pub resource_delay : ℕ
resource_delay = 3

module _ (d : Driver) where
  -- The tag of a request, taken or waited for.
  unfoldable pub take_tag : ℕ → Hctx → Bool × Hctx
  take_tag i h =
      let (got, h') = get_driver_tag d i h in if got then (true, h') else mark_tag_wait d i h'

  -- `bd.last`
  unfoldable pub is_last : List ℕ → Hctx → Bool × Hctx
  is_last [] h = (true, h)
  is_last (nxt ∷ list) h = let (got, h') = get_driver_tag d nxt h in (not got, h')

  -- The tag of the next request is put.
  unfoldable pub put_next : List ℕ → Hctx → Hctx
  put_next [] h = h
  put_next (nxt ∷ list) h = put_driver_tag nxt h

  -- Behind the answer of `queue_rq`
  unfoldable pub answered : ℕ → List ℕ → Status → Round → Rounded
  answered i list ok x = next (record x { queued = x.queued + 1; ret = ok })
  answered i list failed x =
      next (record x { errors = x.errors + 1; ret = failed; hctx = note (ended i) x.hctx })
  answered i list resource x =
      stop (record x { ret = resource; hctx = requeue d i (put_next list x.hctx) })
  answered i list dev_resource x =
      stop (record x { ret = dev_resource; hctx = requeue d i (put_next list x.hctx) })

  -- The request has its budget and its tag.
  unfoldable pub issue : ℕ → List ℕ → Round → Rounded
  issue i list x =
      let (last, h) = is_last list x.hctx in
      let (ret, h') = queue_rq d i last h in answered i list ret (at_hctx h' x)

  -- Behind the try for a tag, in the state of the queue after it
  unfoldable pub tagged : (got : Bool) → ℕ → List ℕ → Hctx → Round → Rounded
  tagged true i list h x = issue i list (at_hctx h x)
  tagged false i list h x =
      stop (record x { no_tag = d.is_shared || x.no_tag; hctx = put_dispatch_budget d h })

  -- Behind the try for a budget
  unfoldable pub budgeted : Bool → ℕ → List ℕ → Hctx → Round → Rounded
  budgeted true i list h x = let (got, h') = take_tag i h in tagged got i list h' x
  budgeted false i list h x = stop (at_hctx (put_driver_tag i h) x)

  unfoldable pub take_budget : (got_budget : Bool) → Hctx → Bool × Hctx
  take_budget true h = (true, h)
  take_budget false h = get_dispatch_budget d h

  -- A round of the loop, for the request before the list.
  unfoldable pub round : (got_budget : Bool) → ℕ → List ℕ → Round → Rounded
  round got_budget i list x =
      let (budget, h) = take_budget got_budget x.hctx in budgeted budget i list h x

  -- The loop, with what it leaves of the list.
  unfoldable pub rounds : (got_budget : Bool) → List ℕ → Round → Round × List ℕ
  rounds got_budget [] x = (x, [])
  rounds got_budget (i ∷ list) x = elim (round got_budget i list x) [
    | stop x' ↦ (x', i ∷ list)
    | next x' ↦ rounds got_budget list x'
  ]

  -- Behind the loop: the queue is run at once, later, or not here.
  unfoldable pub rerun : Round → Hctx → Hctx
  rerun x h =
      let needs_restart = d.restart_at h.calls in
      if not needs_restart || (x.no_tag && not h.is_waiting)
      then note (run_queue true) (count_call h)
      else elim x.ret [
        | resource ↦ note (run_later resource_delay) (count_call h)
        | _ ↦ count_call h
      ]

  -- Behind the loop, with what is left of the list
  unfoldable pub finish : Round → List ℕ → Bool × Hctx
  finish x [] = (not (is_busy x.ret) && not (x.queued + x.errors == 0), set_busy false x.hctx)
  finish x (i ∷ list) =
      let h = commit_rqs d x.hctx in
      (false, set_busy true (rerun x (record h { dispatch_list = h.dispatch_list ++ i ∷ list })))

  -- `hctx->dispatched[queued_to_index(queued)]++`
  unfoldable pub count_queued : ℕ → Hctx → Hctx
  count_queued n h =
      let k = queued_to_index d n in
      record h { dispatched = update h.dispatched k (h.dispatched k + 1) }

  -- `blk_mq_dispatch_rq_list`, whose list is empty behind it
  unfoldable pub dispatch_rq_list : (got_budget : Bool) → List ℕ → Hctx → Bool × Hctx
  dispatch_rq_list got_budget [] h = (false, h)
  dispatch_rq_list got_budget (i ∷ list) h =
      let (x, rest) = rounds got_budget (i ∷ list) (start_round h) in
      finish (at_hctx (count_queued x.queued x.hctx) x) rest
