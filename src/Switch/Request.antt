-- ===== src/Switch/Request.antt =====
-- blk_mq_get_request and blk_mq_rq_ctx_init (block/blk-mq.c): the allocation of a request, with the
-- two kinds of steering and the accounting of its bytes.
pub mod Stages
use blk_switch.Common.{
  ℕ, Bool, Option, none, some, true, false, not, ◌+◌, ◌-◌, ◌*◌, ◌&&◌, leb, ◌==◌, if◌then◌else◌, u64,
  pos_part,
}
use blk_switch.Common.Map.{update}
use blk_switch.Switch.{Switch, Params, Kernel, Bio, is_switched, is_switch_request, is_thru_request}
use blk_switch.Switch.Reset.{cores_in_use, refresh}
use blk_switch.Switch.Queue.{fabric_of, Queue, Hctx, Flags, Place, map_queue, set_hctx}
use blk_switch.Switch.AppSteer.{AppSteered, steer_app}
use blk_switch.Switch.ReqSteer.{ReqSteered, steer_request}

-- What the surroundings answer during one call: the bio, `jiffies` at its reads, `current->cpu`, the
-- random bytes, and the tag allocator, which may sleep and then leave the request at another place.
pub record Call : Type 0 where
  pub bio : Option Bio
  pub flags : Flags
  pub cpu : ℕ
  pub reset_tested : ℕ
  pub reset_set : ℕ
  pub turn_tested : ℕ
  pub turn_set : ℕ
  pub cpu_after : Option ℕ → ℕ
  pub random : ℕ → ℕ
  pub fuel : ℕ
  pub get_tag : Place → Option (ℕ × Place)

-- `struct request`. A tag of -1 is `none`; `bytes` is `blk_rq_bytes`.
pub record Request : Type 0 where
  pub place : Place
  pub tag : Option ℕ
  pub internal_tag : Option ℕ
  pub inflight : Bool
  pub steered : Bool
  pub bio : Option Bio
  pub bytes : ℕ
  pub ref : ℕ
  pub has_end_io : Bool

abbrev pub size_of : Option Bio → ℕ
size_of none = 0
size_of (some bio) = bio.size

-- The global variables and the queue.
pub record State : Type 0 where
  pub switch : Switch
  pub queue : Queue

module _ (p : Params) (k : Kernel) where
  -- The first block: reset and statistics, for a request of blk-switch.
  unfoldable pub refreshed : Call → Place → State → Switch
  refreshed c place st =
      if is_switch_request (fabric_of (st.queue.hctx place.hctx).blk_switch) c.bio
      then refresh p k c.reset_tested c.reset_set c.cpu st.switch
      else st.switch

  -- The second block, with its guard.
  unfoldable pub app_stage : Call → Queue → Place → Switch → AppSteered
  app_stage c q place s =
      if leb 2 (pos_part p.switch_on)
        && is_switch_request (fabric_of (q.hctx place.hctx).blk_switch) c.bio
      then steer_app k q c.flags (cores_in_use p k) c.turn_tested c.turn_set c.cpu_after
          (is_thru_request k c.bio) (size_of c.bio) place s
      else record { switch = s; place = place; moved = false }

  -- The third block, with its guard.
  unfoldable pub req_stage : Call → Queue → AppSteered → Option ReqSteered
  req_stage c q a =
      if leb 1 (pos_part p.switch_on)
        && is_switch_request (fabric_of (q.hctx a.place.hctx).blk_switch) c.bio
        && is_thru_request k c.bio
        && not a.moved
        && leb (k.num_online_nodes * 2) (cores_in_use p k)
      then steer_request p k q c.random (cores_in_use p k) c.flags c.fuel a.place a.switch
      else some (record { switch = a.switch; place = a.place; steered = false })

module _ (k : Kernel) where
  -- The bytes of a request that was not steered are counted at its core.
  unfoldable pub charge : (steered : Bool) → Queue → Place → Option Bio → Switch → Switch
  charge steered q place none s = s
  charge steered q place (some bio) s =
      if is_switched (fabric_of (q.hctx place.hctx).blk_switch) && not steered
      then (if is_thru_request k (some bio)
          then record s {
            t_bytes = update s.t_bytes place.ctx (u64 (s.t_bytes place.ctx + bio.size));
          }
          else record s {
            l_bytes = update s.l_bytes place.ctx (u64 (s.l_bytes place.ctx + bio.size));
          })
      else s

-- `blk_mq_rq_ctx_init`, with the assignments that follow it.
unfoldable pub init_request :
    (steered : Bool) (tag : ℕ) → Place → Option Bio → Queue → Request × Queue
init_request steered tag place bio q =
    let h = q.hctx place.hctx in
    let shared = not q.has_elevator && h.tag_shared in
    (
      record {
        place = place;
        tag = if q.has_elevator then none else some tag;
        internal_tag = if q.has_elevator then some tag else none;
        inflight = shared;
        steered = steered;
        bio = bio;
        bytes = size_of bio;
        ref = 1;
        has_end_io = false;
      },
      set_hctx q place.hctx (record h {
        nr_active = if shared then h.nr_active + 1 else h.nr_active;
        queued = h.queued + 1;
      }),
    )

-- `blk_queue_enter_live` and `blk_queue_exit`
abbrev pub enter : Queue → Queue
enter q = record q { usage = q.usage + 1 }

abbrev pub leave : Queue → Queue
leave q = record q { usage = q.usage - 1 }

module _ (p : Params) (k : Kernel) where
  -- The tag is taken and the request set up; without a tag the queue is left again.
  unfoldable pub tag_stage : Call → Queue → ReqSteered → State × Option Request
  tag_stage c q r = elim (c.get_tag r.place) [
    | none ↦ (record { switch = r.switch; queue = leave q }, none)
    | some (tag, place) ↦
        let (rq, q') = init_request r.steered tag place c.bio q in
        (record { switch = charge k r.steered q place c.bio r.switch; queue = q' }, some rq)
  ]

  -- `blk_mq_get_request` for a call that comes without a context, as that of a bio does. The outer
  -- `none` is a lack of fuel for the random draws.
  unfoldable pub get_request : Call → State → Option (State × Option Request)
  get_request c st =
      let q = enter st.queue in
      let place : Place = record { ctx = c.cpu; hctx = map_queue q c.flags c.cpu } in
      let s = refreshed p k c place (record st { queue = q }) in
      elim (req_stage p k c q (app_stage p k c q place s)) [
        | none ↦ none
        | some r ↦ some (tag_stage c q r)
      ]
