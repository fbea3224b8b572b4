-- ===== src/Tcp/Doorbell/Awake.antt =====
-- drivers/nvme/host/tcp.c: no request of the send list waits without a doorbell.
use blk_switch.Common.{
  Bool, [], ◌∷◌, ◌++◌, true, false, ◌+◌, ◌||◌, ◌≤◌, ◌<◌, ◌≡◌, ◌⊎◌, inr, length, length-append,
  arith,
}
use blk_switch.Tcp.Doorbell.{
  Host, Sent, Bell, queue_request, doorbell_timeout, count_request, queue_work, stop_timer,
}

-- Some work is queued.
abbrev pub is_rung : Bell → Bool
is_rung q = q.work || q.work_lat

-- Fewer than 16 requests wait, all of them counted, for a timer that runs.
abbrev pub IsTimed : Bell → Type 0
IsTimed q =
    (q.timer_active ≡ true)
    × (q.timer_set ≡ 1)
    × (q.nr_req ≡ length q.send_list)
    × (1 ≤ length q.send_list)
    × (length q.send_list < 16)

-- No request waits.
abbrev pub IsQuiet : Bell → Type 0
IsQuiet q = (q.timer_active ≡ false) × (q.timer_set ≡ 0) × (q.nr_req ≡ 0) × (length q.send_list ≡ 0)

abbrev pub IsAwake : Bell → Type 0
IsAwake q = (is_rung q ≡ true) ⊎ (IsTimed q ⊎ IsQuiet q)

-- What happens to a queue until a work runs: requests are queued, and a timer that is active fires.
pub data Rings (h : Host) : Bell → Bell → Type 0 where
  start : {q : Bell} → Rings h q q
  queued : {q q' : Bell} (r : Sent) → Rings h q q' → Rings h q (queue_request h q' r)
  fired : {q q' : Bell} → q'.timer_active ≡ true → Rings h q q' → Rings h q (doorbell_timeout q')

rung-queue_work : (q : Bell) → is_rung (queue_work q) ≡ true
unfolding queue_work
rung-queue_work q = ground arith

queue_request-IsAwake : (h : Host) (q : Bell) (r : Sent) → IsAwake q → IsAwake (queue_request h q r)
unfolding queue_request count_request queue_work stop_timer
queue_request-IsAwake h q r a =
    let l : length (q.send_list ++ r ∷ []) ≡ length q.send_list + 1 =
      length-append q.send_list (r ∷ []) in
    ground arith

doorbell_timeout-IsAwake : (q : Bell) → IsAwake (doorbell_timeout q)
unfolding doorbell_timeout queue_work stop_timer
doorbell_timeout-IsAwake q = ground arith

-- From a queue where no request waits, until a work runs: whatever requests are queued and however
-- often the timer fires, a work is queued, or fewer than 16 requests wait for a timer that runs, or
-- none waits.
pub Rings-IsAwake : (h : Host) (q q' : Bell) → IsQuiet q → Rings h q q' → IsAwake q'
Rings-IsAwake h q q' c start = inr (inr c)
Rings-IsAwake h q q' c (queued {q' = p} r s) = queue_request-IsAwake h p r (Rings-IsAwake h q p c s)
Rings-IsAwake h q q' c (fired {q' = p} t s) = doorbell_timeout-IsAwake p
