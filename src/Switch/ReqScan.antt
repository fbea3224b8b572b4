-- ===== src/Switch/ReqScan.antt =====
-- blk_mq_get_request (block/blk-mq.c): the scan for the core whose queue takes a T-request.
pub mod Keys
pub mod Correct
use blk_switch.Common.{
  ℕ, ℤ, pos, Bool, Option, List, [], ◌∷◌, none, some, false, not, ◌+◌, ◌*◌, ◌/◌, ◌%◌, ◌&&◌, ◌||◌,
  ltb, ◌==◌, if◌then◌else◌, sub_ℕ, ltz, eqz, pos_part,
}
use blk_switch.Switch.{Params, Fabric, is_tcp, is_rdma, tcp_batch}
use blk_switch.Switch.Queue.{Queue, Hctx, default_type}

-- `req_thresh`
unfoldable pub req_thresh : Params → Fabric → ℕ
req_thresh p f =
    if not (pos_part p.thresh_b == 0)
    then pos_part p.thresh_b * 2
    else if is_tcp f
    then tcp_batch * 2
    else tcp_batch / 2

-- The locals of the scan. `drawn` counts the random bytes used so far.
pub record Pick : Type 0 where
  pub target_cpu : Option ℕ
  pub min_nr : ℤ
  pub min_active : ℕ
  pub drawn : ℕ

abbrev pub first_pick : ℕ → Pick
first_pick drawn = record { target_cpu = none; min_nr = pos 1024; min_active = 2048; drawn = drawn }

-- `target_cpu == cpu`
abbrev pub is_target : Option ℕ → ℕ → Bool
is_target none cpu = false
is_target (some c) cpu = c == cpu

-- The context that the scan reads at a core.
abbrev pub default_hctx : Queue → ℕ → Hctx
default_hctx q cpu = q.hctx (q.hctx_of cpu default_type)

-- `two_nr[0]`: how far the driver's queue of the core is from a full batch.
unfoldable pub room_of : Fabric → Hctx → ℤ
room_of f h = if is_tcp f then sub_ℕ tcp_batch h.nr_req else pos 0

-- The test under which a core is considered.
unfoldable pub is_open : Fabric → (l_metric : ℕ) → Hctx → Bool
is_open f l_metric h = (l_metric == 0) && (is_rdma f || (is_tcp f && ltb h.nr_active tcp_batch))

-- One core that is considered, with its `two_nr[0]` and `T_active`.
unfoldable pub consider : (random : ℕ → ℕ) (cur_cpu cpu : ℕ) → ℤ → (active : ℕ) → Pick → Pick
consider random cur_cpu cpu nr active st =
    if ltz nr st.min_nr
    then record st { target_cpu = some cpu; min_nr = nr; min_active = active }
    else if eqz nr st.min_nr
    then (if ltb active st.min_active
        then record st { target_cpu = some cpu; min_active = active }
        else if active == st.min_active
        then (if cpu == cur_cpu
            then record st { target_cpu = some cpu }
            else if not (is_target st.target_cpu cur_cpu)
            then (if random st.drawn % 2 == 0
                then record st { target_cpu = some cpu; drawn = st.drawn + 1 }
                else record st { drawn = st.drawn + 1 })
            else st)
        else st)
    else st

module _ (q : Queue) (f : Fabric) (random : ℕ → ℕ) (l_metric : ℕ → ℕ) (cur_cpu : ℕ) where
  -- The whole loop.
  unfoldable pub scan : Pick → List ℕ → Pick
  scan st [] = st
  scan st (c ∷ cs) =
      scan
        (if is_open f (l_metric c) (default_hctx q c)
          then consider random cur_cpu c (room_of f (default_hctx q c)) (default_hctx q c).nr_active
              st
          else st)
        cs
