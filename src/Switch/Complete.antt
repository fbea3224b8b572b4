-- ===== src/Switch/Complete.antt =====
-- blk_mq_end_request, __blk_mq_end_request, blk_mq_free_request and __blk_mq_free_request
-- (block/blk-mq.c): the end of a request and the release of what it holds.
pub mod RoundTrip
use blk_switch.Common.{
  ℕ, zero, suc, Bool, Option, List, [], ◌∷◌, ◌++◌, none, some, true, false, not, ◌+◌, ◌-◌, ◌&&◌,
  leb, ◌==◌, if◌then◌else◌,
}
use blk_switch.Common.Map.{update}
use blk_switch.Switch.{Switch, Kernel, Bio, is_switched, is_thru_request}
use blk_switch.Switch.Queue.{fabric_of, Queue, Hctx, Place, set_hctx}
use blk_switch.Switch.Request.{Request, State, leave}

-- `rq->tag` as a condition: -1 counts as true.
abbrev pub is_tag_set : Option ℕ → Bool
is_tag_set none = true
is_tag_set (some tag) = not (tag == 0)

abbrev pub has_bio : Option Bio → Bool
has_bio none = false
has_bio (some bio) = true

-- The subtraction that stops at 0.
unfoldable pub take_off : (bytes count : ℕ) → ℕ
take_off bytes count = if leb bytes count then count - bytes else 0

module _ (k : Kernel) where
  -- The accounting of `blk_mq_end_request`.
  unfoldable pub discharge : Queue → Request → Switch → Switch
  unfolding take_off
  discharge q rq s =
      let cpu = rq.place.ctx in
      if is_switched (fabric_of (q.hctx rq.place.hctx).blk_switch)
        && not (rq.bytes == 0)
        && not rq.steered
        && is_tag_set rq.tag
        && has_bio rq.bio
      then (if is_thru_request k rq.bio
          then record s { t_bytes = update s.t_bytes cpu (take_off rq.bytes (s.t_bytes cpu)) }
          else record s { l_bytes = update s.l_bytes cpu (take_off rq.bytes (s.l_bytes cpu)) })
      else s

-- The tags that go back to the allocator: of the driver, or of the scheduler.
pub data Tag : Type 0 where
  driver : ℕ → Tag
  sched : ℕ → Tag

abbrev pub driver_tags : Option ℕ → List Tag
driver_tags none = []
driver_tags (some t) = driver t ∷ []

abbrev pub sched_tags : Option ℕ → List Tag
sched_tags none = []
sched_tags (some t) = sched t ∷ []

-- `blk_mq_free_request`, with what `__blk_mq_free_request` does behind the last reference.
unfoldable pub free_request : Queue → Request → Queue × List Tag
free_request q rq =
    let h = q.hctx rq.place.hctx in
    let q' =
      set_hctx q rq.place.hctx
        (record h { nr_active = if rq.inflight then h.nr_active - 1 else h.nr_active }) in
    if rq.ref == 1 then (leave q', driver_tags rq.tag ++ sched_tags rq.internal_tag) else (q', [])

module _ (k : Kernel) where
  -- `blk_mq_end_request`: a request with an `end_io` hook is handed to the hook.
  unfoldable pub end_request : Request → State → State × List Tag
  end_request rq st =
      let s = discharge k st.queue rq st.switch in
      if rq.has_end_io
      then (record { switch = s; queue = st.queue }, [])
      else let (q, tags) = free_request st.queue rq in (record { switch = s; queue = q }, tags)
