-- ===== src/Switch.antt =====
-- block/blk-switch.h: the module parameters, the metrics of every core, and the classification
-- of requests. The kernel's own functions are fields of `Kernel`.
pub mod Queue
pub mod AppSteer
pub mod ReqScan
pub mod TwoChoices
pub mod ReqSteer
pub mod Request
pub mod Complete
pub mod Reset
mod Tests
pub mod Metric
pub mod Best
pub mod AppTarget
use blk_switch.Common.{
  ℕ, ℤ, Bool, true, false, not, ◌&&◌, Option, none, some, ltb, ◌==◌, if◌then◌else◌,
}

-- `enum blk_switch_ioprio`
pub data App : Type 0 where
  t_app l_app : App

abbrev pub is_l_app : App → Bool
is_l_app t_app = false
is_l_app l_app = true

-- The values that compare with an I/O priority class.
abbrev pub app_class : App → ℕ
app_class t_app = 0
app_class l_app = 1

-- `enum blk_swtich_fabric`
pub data Fabric : Type 0 where
  none_fabric tcp rdma : Fabric

abbrev pub is_switched : Fabric → Bool
is_switched none_fabric = false
is_switched tcp = true
is_switched rdma = true

abbrev pub is_tcp : Fabric → Bool
is_tcp tcp = true
is_tcp _ = false

abbrev pub is_rdma : Fabric → Bool
is_rdma rdma = true
is_rdma _ = false

-- BLK_SWITCH_NR_CPUS, BLK_SWITCH_RESET_METRICS, BLK_SWITCH_APPSTR_INTERVAL, BLK_SWITCH_TCP_BATCH
-- and BLK_SWITCH_THRESH_L
abbrev pub max_cpus : ℕ
max_cpus = 64

abbrev pub reset_ms : ℕ
reset_ms = 1000

abbrev pub appstr_ms : ℕ
appstr_ms = 10

abbrev pub tcp_batch : ℕ
tcp_batch = 16

abbrev pub thresh_l : ℕ
thresh_l = 98304

-- The module parameters, each an `int`.
pub record Params : Type 0 where
  pub switch_on : ℤ
  pub thresh_b : ℤ
  pub max_nr_cpus : ℤ
  pub debug : ℤ

-- The global arrays and counters. An array is a function of the core; a `stats_` counter is the
-- bit pattern of an `int`.
pub record Switch : Type 0 where
  pub t_bytes : ℕ → ℕ
  pub l_bytes : ℕ → ℕ
  pub t_metric : ℕ → ℕ
  pub l_metric : ℕ → ℕ
  pub t_appstr : ℕ → ℕ
  pub l_appstr : ℕ → ℕ
  pub reset_metrics : ℕ
  pub last_appstr : ℕ
  pub appstr_app : App
  pub stats_print : ℕ → ℕ
  pub stats_gen : ℕ → ℕ
  pub stats_str : ℕ → ℕ
  pub stats_prc : ℕ → ℕ

-- The kernel's functions and macros that the code calls and the repository does not hold.
pub record Kernel : Type 0 where
  pub num_online_cpus : ℕ
  pub num_online_nodes : ℕ
  pub time_after : ℕ → ℕ → Bool
  pub msecs_to_jiffies : ℕ → ℕ
  pub ioprio_class : ℕ → ℕ

-- The part of `struct bio` that is read: `bi_iter.bi_size`, the priority, and REQ_PRIO.
pub record Bio : Type 0 where
  pub size : ℕ
  pub prio : ℕ
  pub req_prio : Bool

module _ (k : Kernel) where
  -- `blk_switch_set_ioprio`; `inherited` is the I/O priority of the task's context, if it has one,
  -- and `default` that of IOPRIO_CLASS_NONE.
  pub set_ioprio : (default : ℕ) (inherited : Option ℕ) → Bio → Bio
  set_ioprio default inherited bio =
      let ioprio : ℕ = elim inherited [ none ↦ default | some p ↦ p ] in
      if k.ioprio_class ioprio == app_class l_app
      then record bio { prio = ioprio; req_prio = true }
      else bio

  -- `blk_switch_is_thru_request`
  unfoldable pub is_thru_request : Option Bio → Bool
  is_thru_request none = false
  is_thru_request (some bio) = not (k.ioprio_class bio.prio == app_class l_app)

-- `blk_switch_request`
unfoldable pub is_switch_request : Fabric → Option Bio → Bool
is_switch_request f none = false
is_switch_request f (some bio) = is_switched f && ltb 0 bio.size
