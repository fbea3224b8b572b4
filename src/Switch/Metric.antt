-- ===== src/Switch/Metric.antt =====
-- blk_mq_get_request (block/blk-mq.c): the moving average of the bytes that a core has in flight.
use blk_switch.Common.{
  ℕ, Bool, not, ◌+◌, ◌-◌, ◌/◌, ◌^◌, ◌≤◌, ◌<◌, min, max, ◌≡◌, ◌⊎◌, true, arith, ltb, ◌==◌,
  if◌then◌else◌, u32, u64, sext, asr3,
}
use blk_switch.Common.Map.{update}
use blk_switch.Switch.{Switch}

-- `int sample = bytes; sample += bi_size;`, as a bit pattern
abbrev pub sample_of : ℕ → ℕ → ℕ
sample_of bytes size = u32 (bytes + size)

-- The first sample is taken as it is; a later one has the weight 1/8.
unfoldable pub average : ℕ → ℕ → ℕ
average metric sample =
    if metric == 0 then sext sample else u64 (metric - metric / 8 + sext (asr3 sample))

-- What one class of a core goes to; `mine` tells whether the request is of that class.
unfoldable pub next_metric : Bool → (bytes size metric : ℕ) → ℕ
unfolding average
next_metric mine bytes size metric =
    let fresh = if mine then average metric (sample_of bytes size) else metric in
    if ltb fresh 10 then 0 else fresh

-- Steps 1-1 and 1-2, at core `cpu`, for a request of `size` bytes.
unfoldable pub update_metrics : Bool → (size cpu : ℕ) → Switch → Switch
update_metrics thru size cpu s = record s {
  t_metric = update s.t_metric cpu (next_metric thru (s.t_bytes cpu) size (s.t_metric cpu));
  l_metric = update s.l_metric cpu (next_metric (not thru) (s.l_bytes cpu) size (s.l_metric cpu));
}

-- For a metric above 0 and below 2 ^ 63 and a sample below 2 ^ 31 the average stays between the old
-- metric and the sample.
pub average_between :
    (metric sample : ℕ)
    → 0 < metric
    → metric < 2 ^ 63
    → sample < 2 ^ 31
    → (min metric sample ≤ average metric sample) × (average metric sample ≤ max metric sample)
unfolding average
average_between metric sample p m s = ground arith

-- With less than 2 GB in flight and a metric below 2 ^ 63, the metric of the request's own class
-- becomes 0, or at least 10 and at most the larger of the old metric and the bytes in flight.
pub next_metric_own :
    (bytes size metric : ℕ)
    → metric < 2 ^ 63
    → bytes + size < 2 ^ 31
    → (next_metric true bytes size metric ≡ 0)
      ⊎ ((10 ≤ next_metric true bytes size metric)
          × (next_metric true bytes size metric ≤ max metric (bytes + size)))
unfolding next_metric
next_metric_own bytes size metric m s = ground arith

-- With 2 ^ 31 to 2 ^ 32 bytes in flight the sample is negative: a core that had no load gets a metric
-- of 2 ^ 64 - 2 ^ 31 or more.
pub next_metric_wraps :
    (bytes size : ℕ)
    → 2 ^ 31 ≤ bytes + size
    → bytes + size < 2 ^ 32
    → 2 ^ 64 - 2 ^ 31 ≤ next_metric true bytes size 0
unfolding next_metric
next_metric_wraps bytes size lo hi = ground arith
