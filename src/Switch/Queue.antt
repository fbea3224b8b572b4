-- ===== src/Switch/Queue.antt =====
-- The part of a request queue (block/blk-mq.h, include/linux/blk-mq.h) that the steering reads: the
-- hardware contexts, the map from the cores to them, and the allocation data of a request.
use blk_switch.Common.{
  ℕ, Bool, Option, none, some, true, false, ◌&&◌, not, leb, ◌==◌, if◌then◌else◌,
}
use blk_switch.Common.Map.{update}
use blk_switch.Switch.{Fabric, none_fabric, tcp}

-- `enum hctx_type`
pub data HctxType : Type 0 where
  default_type read_type poll_type : HctxType

-- The bits of `cmd_flags` that are tested here.
pub record Flags : Type 0 where
  pub hipri : Bool
  pub req_prio : Bool
  pub fua : Bool

-- `struct blk_mq_hw_ctx`; its `blk_switch` is a `bool`, whatever the drivers store there. `nr_req`
-- is the counter of the driver's queue behind it, and `active_queues` that of its tags.
pub record Hctx : Type 0 where
  pub blk_switch : Bool
  pub numa_node : ℕ
  pub nr_active : ℕ
  pub nr_req : ℕ
  pub active_queues : ℕ
  pub tag_shared : Bool
  pub queued : ℕ

-- How that `bool` compares with the enumerators: true is 1, which is BLK_SWITCH_TCP.
abbrev pub fabric_of : Bool → Fabric
fabric_of false = none_fabric
fabric_of true = tcp

-- What is left of a number that is stored in a `bool`.
abbrev pub to_bool : ℕ → Bool
to_bool n = not (n == 0)

-- nvme_tcp_init_hctx (drivers/nvme/host/tcp.c) stores 1 in `blk_switch`.
unfoldable pub tcp_init_hctx : Hctx → Hctx
tcp_init_hctx h = record h { blk_switch = to_bool 1 }

-- nvme_rdma_init_hctx (drivers/nvme/host/rdma.c) stores 2; `none` is its BUG_ON.
unfoldable pub rdma_init_hctx : (hctx_idx queue_count : ℕ) → Hctx → Option Hctx
rdma_init_hctx hctx_idx queue_count h =
    if leb queue_count hctx_idx then none else some (record h { blk_switch = to_bool 2 })

-- `hctx_of cpu type` is the number of `per_cpu_ptr(q->queue_ctx, cpu)->hctxs[type]`.
pub record Queue : Type 0 where
  pub hctx_of : ℕ → HctxType → ℕ
  pub hctx : ℕ → Hctx
  pub has_elevator : Bool
  pub usage : ℕ

-- The type that `blk_mq_map_queue` derives from the flags.
unfoldable pub queue_type : Flags → HctxType
queue_type f =
    if f.hipri then poll_type else if f.req_prio && not f.fua then read_type else default_type

-- `blk_mq_map_queue`
unfoldable pub map_queue : Queue → Flags → (cpu : ℕ) → ℕ
unfolding queue_type
map_queue q f cpu = q.hctx_of cpu (queue_type f)

-- The software and the hardware context of a request, `data->ctx` and `data->hctx`.
pub record Place : Type 0 where
  pub ctx : ℕ
  pub hctx : ℕ

abbrev pub set_hctx : Queue → ℕ → Hctx → Queue
set_hctx q i h = record q { hctx = update q.hctx i h }
