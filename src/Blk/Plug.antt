-- ===== src/Blk/Plug.antt =====
-- block/blk-mq.c: the list of requests that a task holds back, and its flush.
pub mod Batches
use blk_switch.Common.{
  ℕ, Bool, Option, none, some, List, [], ◌∷◌, ◌++◌, true, false, not, ◌+◌, ◌^◌, ◌%◌, ◌&&◌, ◌||◌,
  ltb, leb, ◌==◌, if◌then◌else◌,
}
use blk_switch.Common.{ℤ, pos, negsuc}

-- The fields of the requests that the plug reads: the request queue, the queue of the core, the
-- hardware queue and the place on the disk. A pointer is a number.
pub record Requests : Type 0 where
  pub q : ℕ → ℕ
  pub ctx : ℕ → ℕ
  pub hctx : ℕ → ℕ
  pub place : ℕ → ℕ
  pub bytes : ℕ → ℕ

-- `struct blk_plug`; `rq_count` is an unsigned short.
pub record Plug : Type 0 where
  pub mq_list : List ℕ
  pub rq_count : ℕ
  pub multiple_queues : Bool

-- A call of `blk_mq_sched_insert_requests`
pub record Batch : Type 0 where
  pub to_hctx : ℕ
  pub to_ctx : ℕ
  pub rq_list : List ℕ
  pub from_schedule : Bool

-- `list_is_singular`
abbrev pub is_singular : List ℕ → Bool
is_singular [] = false
is_singular (i ∷ []) = true
is_singular (i ∷ j ∷ list) = false

module _ (r : Requests) where
  -- `plug_rq_cmp`
  unfoldable pub plug_rq_cmp : ℕ → ℕ → ℤ
  plug_rq_cmp a b =
      if ltb (r.ctx a) (r.ctx b)
      then negsuc 0
      else if ltb (r.ctx b) (r.ctx a)
      then pos 1
      else if ltb (r.hctx a) (r.hctx b)
      then negsuc 0
      else if ltb (r.hctx b) (r.hctx a)
      then pos 1
      else if ltb (r.place b) (r.place a)
      then pos 1
      else pos 0

  -- The queue of the first request on the list is not that of `i`.
  abbrev pub other_queue : ℕ → List ℕ → Bool
  other_queue i [] = false
  other_queue i (j ∷ list) = not (r.q j == r.q i)

  -- `blk_add_rq_to_plug`
  unfoldable pub add_rq_to_plug : ℕ → Plug → Plug
  add_rq_to_plug i p =
      let list = p.mq_list ++ i ∷ [] in
      record {
        mq_list = list;
        rq_count = (p.rq_count + 1) % 2 ^ 16;
        multiple_queues = p.multiple_queues || (not (is_singular list) && other_queue i list);
      }

  abbrev open_batch : (from_schedule : Bool) → ℕ → Batch
  open_batch from_schedule i = record {
    to_hctx = r.hctx i;
    to_ctx = r.ctx i;
    rq_list = i ∷ [];
    from_schedule = from_schedule;
  }

  abbrev is_for : ℕ → Batch → Bool
  is_for i b = (r.hctx i == b.to_hctx) && (r.ctx i == b.to_ctx)

  -- The loop of `blk_mq_flush_plug_list` and the call behind it; the batch is what `this_hctx`,
  -- `this_ctx` and `rq_list` hold, once there is one.
  unfoldable pub batches : (from_schedule : Bool) → List ℕ → Batch → List Batch
  batches from_schedule [] b = b ∷ []
  batches from_schedule (i ∷ list) b = elim (is_for i b) [
    | true ↦ batches from_schedule list (record b { rq_list = b.rq_list ++ i ∷ [] })
    | false ↦ b ∷ batches from_schedule list (open_batch from_schedule i)
  ]

  unfoldable pub all_batches : (from_schedule : Bool) → List ℕ → List Batch
  all_batches from_schedule [] = []
  all_batches from_schedule (i ∷ list) = batches from_schedule list (open_batch from_schedule i)

  -- The list as it is flushed; `sort` is the kernel's `list_sort`.
  unfoldable pub flush_order : (sort : (ℕ → ℕ → ℤ) → List ℕ → List ℕ) → Plug → List ℕ
  flush_order sort p =
      if ltb 2 p.rq_count && p.multiple_queues then sort plug_rq_cmp p.mq_list else p.mq_list

  -- `blk_mq_flush_plug_list`
  unfoldable pub flush_plug_list :
      (sort : (ℕ → ℕ → ℤ) → List ℕ → List ℕ) → (from_schedule : Bool) → Plug → List Batch × Plug
  flush_plug_list sort from_schedule p =
      (all_batches from_schedule (flush_order sort p), record p { mq_list = []; rq_count = 0 })
