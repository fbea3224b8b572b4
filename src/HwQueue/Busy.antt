-- ===== src/HwQueue/Busy.antt =====
-- block/blk-mq.c: the moving average that tells whether a driver is busy.
use blk_switch.Common.{
  ℕ, zero, suc, Bool, List, [], ◌∷◌, true, false, ◌+◌, ◌≤◌, ◌≡◌, ◌∙◌, refl, arith,
}
use blk_switch.HwQueue.{HwQueue, update_dispatch_busy}

-- The dispatches of a queue in order, each busy or not.
abbrev pub dispatches : HwQueue → List Bool → HwQueue
dispatches h [] = h
dispatches h (b ∷ bs) = dispatches (update_dispatch_busy h b) bs

abbrev pub idle_for : ℕ → HwQueue → HwQueue
idle_for zero h = h
idle_for (suc n) h = idle_for n (update_dispatch_busy h false)

update_dispatch_busy-le :
    (h : HwQueue) (b : Bool) → h.dispatch_busy ≤ 9 → (update_dispatch_busy h b).dispatch_busy ≤ 9
unfolding update_dispatch_busy
update_dispatch_busy-le h b l = ground arith

dispatches-le :
    (h : HwQueue) (bs : List Bool) → h.dispatch_busy ≤ 9 → (dispatches h bs).dispatch_busy ≤ 9
dispatches-le h [] l = l
dispatches-le h (b ∷ bs) l =
    dispatches-le (update_dispatch_busy h b) bs (update_dispatch_busy-le h b l)

elevator-update :
    (h : HwQueue) (b : Bool) → (update_dispatch_busy h b).has_elevator ≡ h.has_elevator
unfolding update_dispatch_busy
elevator-update h b = ground arith

elevator-dispatches :
    (h : HwQueue) (bs : List Bool) → (dispatches h bs).has_elevator ≡ h.has_elevator
elevator-dispatches h [] = refl
elevator-dispatches h (b ∷ bs) =
    elevator-dispatches (update_dispatch_busy h b) bs ∙ elevator-update h b

-- An idle dispatch takes at least 1 off.
idle-lt :
    (h : HwQueue) (n : ℕ)
    → h.has_elevator ≡ false
    → h.dispatch_busy ≤ 9
    → h.dispatch_busy ≤ n + 1
    → (update_dispatch_busy h false).dispatch_busy ≤ n
unfolding update_dispatch_busy
idle-lt h n e l m = ground arith

idle_for-zero :
    (n : ℕ) (h : HwQueue)
    → h.has_elevator ≡ false
    → h.dispatch_busy ≤ 9
    → h.dispatch_busy ≤ n
    → (idle_for n h).dispatch_busy ≡ 0
idle_for-zero zero h e l m = omega arith
idle_for-zero (suc n) h e l m =
    idle_for-zero n (update_dispatch_busy h false) (elevator-update h false ∙ e)
      (update_dispatch_busy-le h false l) (idle-lt h n e l (omega arith))

busy-lt :
    (h : HwQueue)
    → h.has_elevator ≡ false
    → h.dispatch_busy ≤ 9
    → 2 ≤ (update_dispatch_busy h true).dispatch_busy
unfolding update_dispatch_busy
busy-lt h e l = ground arith

-- For a queue without an elevator that starts at 0, the average never exceeds 9, is 2 or more behind a
-- busy dispatch, and is 0 again behind 9 dispatches that are not busy, whatever came before.
pub dispatch_busy_lem :
    (h : HwQueue) (bs : List Bool)
    → h.has_elevator ≡ false
    → h.dispatch_busy ≡ 0
    → ((dispatches h bs).dispatch_busy ≤ 9)
      × (2 ≤ (update_dispatch_busy (dispatches h bs) true).dispatch_busy)
      × ((idle_for 9 (dispatches h bs)).dispatch_busy ≡ 0)
dispatch_busy_lem h bs e z =
    let l = dispatches-le h bs (omega arith) in
    let e' = elevator-dispatches h bs ∙ e in
    (l, busy-lt (dispatches h bs) e' l, idle_for-zero 9 (dispatches h bs) e' l l)
