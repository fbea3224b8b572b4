-- ===== src/Blk/Direct.antt =====
-- block/blk-mq.c: the requests that go to the driver directly, one or a list of them.
pub mod Count
use blk_switch.Common.{
  ℕ, Bool, List, [], ◌∷◌, true, false, not, ◌+◌, ◌&&◌, ◌||◌, if◌then◌else◌, is_empty,
}
use blk_switch.Blk.{
  Status, ok, resource, dev_resource, failed, Effect, ended, Driver, Hctx, note, count_call,
  get_driver_tag, get_dispatch_budget, put_dispatch_budget, requeue, queue_rq, commit_rqs, set_busy,
  bypass_insert,
}

-- `insert:`
unfoldable pub insert_instead : ℕ → (bypass runs : Bool) → Hctx → Status × Hctx
insert_instead i true runs h = (resource, h)
insert_instead i false runs h = (ok, bypass_insert i false runs h)

-- Behind a request that was tried alone
unfoldable pub settle : ℕ → Status → Hctx → Hctx
settle i ok h = h
settle i resource h = bypass_insert i false true h
settle i dev_resource h = bypass_insert i false true h
settle i failed h = note (ended i) h

module _ (d : Driver) where
  -- The `switch` of `__blk_mq_issue_directly`
  unfoldable pub issued : ℕ → Status → Hctx → Hctx
  issued i ok h = set_busy false h
  issued i resource h = requeue d i (set_busy true h)
  issued i dev_resource h = requeue d i (set_busy true h)
  issued i failed h = set_busy false h

  -- `__blk_mq_issue_directly`, without the cookie
  unfoldable pub issue_directly : ℕ → (last : Bool) → Hctx → Status × Hctx
  issue_directly i last h = let (ret, h') = queue_rq d i last h in (ret, issued i ret h')

  -- Behind the tries for a budget and for a tag
  unfoldable pub issue_tagged : (got : Bool) → ℕ → (bypass last : Bool) → Hctx → Status × Hctx
  issue_tagged true i bypass last h = issue_directly i last h
  issue_tagged false i bypass last h = insert_instead i bypass true (put_dispatch_budget d h)

  unfoldable pub issue_budgeted : (budget : Bool) → ℕ → (bypass last : Bool) → Hctx → Status × Hctx
  issue_budgeted true i bypass last h =
      let (got, h') = get_driver_tag d i h in issue_tagged got i bypass last h'
  issue_budgeted false i bypass last h = insert_instead i bypass true h

  -- `__blk_mq_try_issue_directly`, without the cookie
  unfoldable pub try_issue : ℕ → (bypass last : Bool) → Hctx → Status × Hctx
  try_issue i bypass last h =
      let h' = count_call h in
      if d.stopped_at h.calls
      then insert_instead i false false h'
      else if h.hw.has_elevator && not bypass
      then insert_instead i false true h'
      else let (budget, k) = get_dispatch_budget d h' in issue_budgeted budget i bypass last k

  -- `blk_mq_try_issue_directly`
  unfoldable pub try_issue_directly : ℕ → Hctx → Hctx
  try_issue_directly i h = let (ret, h') = try_issue i false true h in settle i ret h'

  -- `blk_mq_request_issue_directly`
  unfoldable pub request_issue_directly : ℕ → (last : Bool) → Hctx → Status × Hctx
  request_issue_directly i last h = try_issue i true last h

  -- The loop of `blk_mq_try_issue_list_directly`, with what it leaves of the list.
  unfoldable pub issue_list : List ℕ → Hctx → Hctx × List ℕ
  issue_list [] h = (h, [])
  issue_list (i ∷ list) h =
      let (ret, h') = request_issue_directly i (is_empty list) h in
      elim ret [
        | ok ↦ issue_list list h'
        | resource ↦ (bypass_insert i false (is_empty list) h', list)
        | dev_resource ↦ (bypass_insert i false (is_empty list) h', list)
        | failed ↦ issue_list list (note (ended i) h')
      ]

  -- `blk_mq_try_issue_list_directly`, with what it leaves of the list
  unfoldable pub try_issue_list_directly : List ℕ → Hctx → Hctx × List ℕ
  try_issue_list_directly list h =
      let (h', rest) = issue_list list h in (if is_empty rest then h' else commit_rqs d h', rest)
