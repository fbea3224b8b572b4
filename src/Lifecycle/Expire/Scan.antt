-- ===== src/Lifecycle/Expire/Scan.antt =====
-- block/blk-mq.c: blk_mq_timeout_work sets the timer for the first of the requests that wait.
use blk_switch.Common.{
  ℕ, some, List, [], ◌∷◌, true, ◌+◌, ◌^◌, ◌≡◌, ◌≤◌, ◌<◌, refl, arith, ◌==◌, if◌then◌else◌,
  Bool-cases, inl, inr, ◌⊎◌, ap, sym, ◌∙◌, u32,
}
use mathlib.Core.Path.{subst}
use blk_switch.Lifecycle.{Rq, req_expired}
use blk_switch.Lifecycle.Expire.{Busy, timer_at, tags_idle, check_expired, scan_busy, timeout_work}
use blk_switch.Lifecycle.Expire.Step.{
  due_in, HasDeadline, Steady, Pends, Covers, Waits, expired-Step, Step-Waits, Step-Covers,
  Step-own,
}

module _ (add_timer : Rq → Rq) (end_io : Rq → Rq) where
  abbrev next_of : Busy → ℕ → ℕ
  next_of e next = (check_expired add_timer end_io e next).next

  abbrev held : Busy → Rq
  held e = record (e.before e.rq) { ref = u32 ((e.before e.rq).ref + 1) }

  -- Both checks are made, or the first alone.
  next_of-cases :
      (e : Busy) (next : ℕ)
      → let once = (req_expired e.now e.rq next).1 in
        (next_of e next ≡ once) ⊎ (next_of e next ≡ (req_expired e.then_now (held e) once).1)
  unfolding check_expired
  next_of-cases e next = elim (Bool-cases (req_expired e.now e.rq next).0) [
    | inl f ↦ elim (Bool-cases ((e.before e.rq).ref == 0)) [
      | inl g ↦ inl (ground arith)
      | inr g ↦ inr (ground arith)
    ]
    | inr f ↦ inl (ground arith)
  ]

abbrev pub AllBusy : (Busy → Type 0) → List Busy → Type 0
AllBusy P [] = Unit
AllBusy P (e ∷ es) = P e × AllBusy P es

module _ (add_timer : Rq → Rq) (end_io : Rq → Rq) (now : ℕ) (n : now < 2 ^ 64) where
  -- A predicate of `next` that a check keeps is kept by a request of the scan.
  check-keeps :
      (P : ℕ → Type 0)
      → ((rq : Rq) (k : ℕ) → HasDeadline rq → Waits now k → P k → P (req_expired now rq k).1)
      → (e : Busy) (next : ℕ) → Steady now e
      → Waits now next
      → P (req_expired now e.rq next).1
      → P (next_of add_timer end_io e next)
  check-keeps P keeps e next s w p =
      let once = (req_expired now e.rq next).1 in
      let v = Step-Waits now n e.rq next once s.own_set w (expired-Step now n e.rq next) in
      let q = keeps (held add_timer end_io e) once s.before_set v p in
      elim (next_of-cases add_timer end_io e next) [
        | inl f ↦ subst P (ap (λ t. (req_expired t e.rq next).1) (sym s.reads) ∙ sym f) p
        | inr f ↦
            subst P
              (cc (
                ap (λ t. (req_expired t (held add_timer end_io e) once).1) s.reads_again,
                ap (λ t. (req_expired e.then_now (held add_timer end_io e) t).1)
                    (ap (λ t. (req_expired t e.rq next).1) s.reads),
                f,
              ))
              q
      ]

  check-Waits :
      (e : Busy) (next : ℕ)
      → Steady now e
      → Waits now next
      → Waits now (next_of add_timer end_io e next)
  check-Waits e next s w =
      check-keeps (Waits now)
        (λ rq k i v p. Step-Waits now n rq k (req_expired now rq k).1 i v (expired-Step now n rq k))
        e next s w
        (Step-Waits now n e.rq next (req_expired now e.rq next).1 s.own_set w
          (expired-Step now n e.rq next))

  check-Covers :
      (e : Busy) (next deadline : ℕ)
      → Steady now e
      → Waits now next
      → Covers now next deadline ⊎ (Pends now e.rq × (deadline ≡ e.rq.deadline))
      → Covers now (next_of add_timer end_io e next) deadline
  check-Covers e next deadline s w h =
      check-keeps (λ k. Covers now k deadline)
        (λ rq k i v p.
          Step-Covers now n rq k (req_expired now rq k).1 i v deadline (expired-Step now n rq k) p)
        e next s w (first h)
    where
      first :
          Covers now next deadline ⊎ (Pends now e.rq × (deadline ≡ e.rq.deadline))
          → Covers now (req_expired now e.rq next).1 deadline
      first (inl c) =
          Step-Covers now n e.rq next (req_expired now e.rq next).1 s.own_set w deadline
            (expired-Step now n e.rq next) c
      first (inr (p, d)) = rw d (
          Step-own now n e.rq next (req_expired now e.rq next).1 s.own_set w p
            (expired-Step now n e.rq next))

  scan-Covers :
      (es : List Busy) (next deadline : ℕ)
      → AllBusy (Steady now) es
      → Waits now next
      → Covers now next deadline
      → Covers now (scan_busy add_timer end_io es next).1 deadline
  unfolding scan_busy
  scan-Covers [] next deadline s w c = c
  scan-Covers (e ∷ es) next deadline (s, ss) w c =
      scan-Covers es (next_of add_timer end_io e next) deadline ss (check-Waits e next s w)
        (check-Covers e next deadline s w (inl c))

  scan-all :
      (es : List Busy) (next : ℕ)
      → AllBusy (Steady now) es
      → Waits now next
      → AllBusy
          (λ e. Pends now e.rq → Covers now (scan_busy add_timer end_io es next).1 e.rq.deadline)
          es
  unfolding scan_busy
  scan-all [] next s w = tt
  scan-all (e ∷ es) next (s, ss) w = (
    (λ p.
        scan-Covers es (next_of add_timer end_io e next) e.rq.deadline ss (check-Waits e next s w)
          (check-Covers e next e.rq.deadline s w (inr (p, refl)))),
    scan-all es (next_of add_timer end_io e next) ss (check-Waits e next s w),
  )

  All-timer :
      (next : ℕ) (es : List Busy)
      → AllBusy (λ e. Pends now e.rq → Covers now next e.rq.deadline) es
      → AllBusy
          (λ e.
            Pends now e.rq
            → (t : ℕ) × (some (if next == 0 then tags_idle else timer_at next) ≡ some (timer_at t))
              × (due_in now t ≤ due_in now e.rq.deadline))
          es
  All-timer next [] a = tt
  All-timer next (e ∷ es) (c, a) =
      ((λ p. let (z, d) = c p in (next, ground arith, d)), All-timer next es a)

  -- With one time for the reads of the scan, and deadlines of 64 bits that are not 0: the timer is
  -- set to a time no later than the deadline of any request that is in flight, not marked, and not
  -- due, whatever other threads do to the requests between the checks.
  pub timeout_work-timer :
      (es : List Busy)
      → AllBusy (Steady now) es
      → AllBusy
          (λ e.
            Pends now e.rq
            → (t : ℕ) × ((timeout_work add_timer end_io true es).1 ≡ some (timer_at t))
              × (due_in now t ≤ due_in now e.rq.deadline))
          es
  unfolding timeout_work
  timeout_work-timer es s =
      All-timer (scan_busy add_timer end_io es 0).1 es (scan-all es 0 s (inl refl))
