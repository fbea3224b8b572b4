-- ===== src/Blk/Submit.antt =====
-- block/blk-mq.c: blk_mq_make_request, from the request that it has got to the place where it goes.
pub mod Once
pub mod Plugged
use blk_switch.Common.{
  ℕ, Bool, Option, none, some, List, [], ◌∷◌, ◌++◌, true, false, not, ◌+◌, ◌-◌, ◌*◌, ◌^◌, ◌%◌, ◌&&◌,
  ◌||◌, ltb, leb, ◌==◌, if◌then◌else◌, is_empty,
}
use blk_switch.Common.Map.{update}
use blk_switch.Blk.{Driver, Hctx, run_queue, sched_insert, note}
use blk_switch.Blk.Direct.{try_issue_directly}
use blk_switch.Blk.Plug.{Requests, Plug, Batch, add_rq_to_plug}

abbrev pub max_request_count : ℕ
max_request_count = 16

abbrev pub plug_flush_size : ℕ
plug_flush_size = 128 * 1024

-- What the function reads of the bio and of the request queue; `current_plug` tells that the task has
-- a plug.
pub record Bio : Type 0 where
  pub is_flush_fua : Bool
  pub is_sync : Bool
  pub is_write : Bool
  pub is_nowait : Bool

pub record Site : Type 0 where
  pub is_zoned : Bool
  pub no_merges : Bool
  pub is_nonrot : Bool

-- What the functions that it calls answer: whether `bio_integrity_prep` takes the bio, whether it is
-- merged into a request of the plug, with the request of the same queue that is in the plug, whether
-- the scheduler merges it, and the request of `blk_mq_get_request`.
pub record Asked : Type 0 where
  pub is_prepared : Bool
  pub is_plug_merged : Bool
  pub same_queue : Option ℕ
  pub is_sched_merged : Bool
  pub got : Option ℕ

pub data Outcome : Type 0 where
  unprepared merged : Outcome
  no_request : (would_block : Bool) → Outcome
  submitted : ℕ → Outcome

-- The places where a request can be: the plug of the task, the hardware queues, the calls of
-- `blk_mq_sched_insert_requests`, and `blk_insert_flush`.
pub record Places : Type 0 where
  pub plug : Plug
  pub has_plug : Bool
  pub hctxs : ℕ → Hctx
  pub batched : List Batch
  pub flushes : List ℕ

abbrev pub set_plug : Plug → Places → Places
set_plug p s = record s { plug = p }

abbrev pub last_of : List ℕ → Option ℕ
last_of [] = none
last_of (i ∷ []) = some i
last_of (i ∷ j ∷ list) = last_of (j ∷ list)

-- `list_del_init`
abbrev pub remove : ℕ → List ℕ → List ℕ
remove i [] = []
remove i (j ∷ list) = if i == j then list else j ∷ remove i list

-- The drivers of the hardware queues, and `blk_flush_plug_list` of the kernel.
module _ (d : ℕ → Driver) (r : Requests) (flush : Plug → List Batch × Plug) where
  abbrev at_hctx : ℕ → (Hctx → Hctx) → Places → Places
  at_hctx i f s = let k = r.hctx i in record s { hctxs = update s.hctxs k (f (s.hctxs k)) }

  unfoldable pub is_full : Plug → Bool
  is_full p =
      leb max_request_count p.rq_count
      || (elim (if p.rq_count == 0 then none else last_of p.mq_list) [
        | none ↦ false
        | some i ↦ leb plug_flush_size (r.bytes i)
      ])

  -- The branch with full plugging
  unfoldable pub plug_request : ℕ → Places → Places
  plug_request i s =
      let (bs, p) = if is_full s.plug then flush s.plug else ([], s.plug) in
      record s { plug = add_rq_to_plug r i p; batched = s.batched ++ bs }

  -- The branch with limited plugging, for the request of the same queue in the plug
  unfoldable pub replace_plugged : ℕ → (same : Option ℕ) → Places → Places
  replace_plugged i none s = set_plug (add_rq_to_plug r i s.plug) s
  replace_plugged i (some j) s =
      let p = record s.plug {
        mq_list = remove j s.plug.mq_list;
        rq_count = (s.plug.rq_count + 2 ^ 16 - 1) % 2 ^ 16;
      } in
      at_hctx j (try_issue_directly (d (r.hctx j)) j) (set_plug (add_rq_to_plug r i p) s)

  -- Where the request goes.
  unfoldable pub route : Bio → Site → (same : Option ℕ) → ℕ → Places → Places
  route bio q same i s =
      let h = s.hctxs (r.hctx i) in
      let plugs = s.has_plug && not (q.is_zoned && bio.is_write) in
      if bio.is_flush_fua
      then at_hctx i (note (run_queue true)) (record s { flushes = s.flushes ++ i ∷ [] })
      else if plugs && (h.hw.nr_hw_queues == 1 || (d (r.hctx i)).has_commit || not q.is_nonrot)
      then plug_request i s
      else if h.hw.has_elevator
      then at_hctx i (note (sched_insert i false)) s
      else if plugs && not q.no_merges
      then replace_plugged i (if is_empty s.plug.mq_list then none else same) s
      else if (ltb 1 h.hw.nr_hw_queues && bio.is_sync) || h.hw.dispatch_busy == 0
      then at_hctx i (try_issue_directly (d (r.hctx i)) i) s
      else at_hctx i (note (sched_insert i false)) s

  -- `blk_mq_make_request`, behind `blk_switch_set_ioprio` and the split of the bio
  unfoldable pub make_request : Bio → Site → Asked → Places → Outcome × Places
  make_request bio q a s =
      let merges = not bio.is_flush_fua && not q.no_merges in
      if not a.is_prepared
      then (unprepared, s)
      else if (merges && a.is_plug_merged) || a.is_sched_merged
      then (merged, s)
      else elim a.got [
        | none ↦ (no_request bio.is_nowait, s)
        | some i ↦ (submitted i, route bio q (if merges then a.same_queue else none) i s)
      ]
