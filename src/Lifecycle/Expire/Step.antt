-- ===== src/Lifecycle/Expire/Step.antt =====
-- block/blk-mq.c: what one check of blk_mq_req_expired does to the time of the next run.
use blk_switch.Common.{
  ℕ, true, false, not, ◌+◌, ◌-◌, ◌^◌, ◌%◌, ◌≡◌, ◌≢◌, ◌≤◌, ◌<◌, refl, arith, ◌==◌, Bool-cases, inl,
  inr, ==→eq, ◌||◌, ◌⊎◌,
}
use blk_switch.Lifecycle.{Rq, req_expired, is_in_flight, is_after_eq}
use blk_switch.Lifecycle.Expire.{Busy}

-- The time from `now` to a deadline, in the ring of 64 bits.
abbrev pub due_in : (now deadline : ℕ) → ℕ
due_in now deadline = (deadline + 2 ^ 64 - now) % 2 ^ 64

-- A deadline of 64 bits that is set
abbrev pub HasDeadline : Rq → Type 0
HasDeadline rq = (0 < rq.deadline) × (rq.deadline < 2 ^ 64)

-- The reads of the scan give the time `now`, and the deadlines are set.
pub record Steady (now : ℕ) (e : Busy) : Type 0 where
  pub reads : e.now ≡ now
  pub reads_again : e.then_now ≡ now
  pub own_set : HasDeadline e.rq
  pub before_set : HasDeadline (e.before e.rq)

-- The scan leaves the request for later: it is in flight, not marked, and not due.
pub record Pends (now : ℕ) (rq : Rq) : Type 0 where
  pub flies : is_in_flight rq.state ≡ true
  pub unmarked : rq.timed_out ≡ false
  pub not_due : is_after_eq now rq.deadline ≡ false

-- The time of the next run is no later than the deadline.
abbrev pub Covers : (now next deadline : ℕ) → Type 0
Covers now next deadline = (next ≢ 0) × (due_in now next ≤ due_in now deadline)

-- A `next` that is 0, or a time to come
abbrev pub Waits : (now next : ℕ) → Type 0
Waits now next = (next ≡ 0) ⊎ ((next < 2 ^ 64) × (is_after_eq now next ≡ false))

-- Of two times to come, the one that is not before the other is due no earlier.
due_in-le :
    (now a b : ℕ)
    → now < 2 ^ 64
    → a < 2 ^ 64
    → b < 2 ^ 64
    → is_after_eq now a ≡ false
    → is_after_eq now b ≡ false
    → is_after_eq a b ≡ true
    → due_in now b ≤ due_in now a
due_in-le now a b n l m p q r = ground arith

due_in-lt :
    (now a b : ℕ)
    → now < 2 ^ 64
    → a < 2 ^ 64
    → b < 2 ^ 64
    → is_after_eq now a ≡ false
    → is_after_eq now b ≡ false
    → is_after_eq a b ≡ false
    → due_in now a ≤ due_in now b
due_in-lt now a b n l m p q r = ground arith

module _ (now : ℕ) (n : now < 2 ^ 64) where
  -- What a check does to `next`.
  abbrev pub Step : Rq → (next next' : ℕ) → Type 0
  Step rq next next' =
      ((next' ≡ next) × (Pends now rq → (next ≢ 0) × (is_after_eq rq.deadline next ≡ true)))
      ⊎ ((next' ≡ rq.deadline)
          × (is_after_eq now rq.deadline ≡ false)
          × ((next ≡ 0) ⊎ (is_after_eq rq.deadline next ≡ false)))

  pub expired-Step : (rq : Rq) (next : ℕ) → Step rq next (req_expired now rq next).1
  unfolding req_expired
  expired-Step rq next = elim (Bool-cases (not (is_in_flight rq.state) || rq.timed_out)) [
    | inl e ↦ rw e (inl (refl, λ p. absurd (ground (arith, p.flies, p.unmarked))))
    | inr e ↦ elim (Bool-cases (is_after_eq now rq.deadline)) [
      | inl f ↦ rw (e, f) (inl (refl, λ p. absurd (cc (f, p.not_due))))
      | inr f ↦ elim (Bool-cases (next == 0)) [
        | inl g ↦ rw (e, f, g) (inr (refl, refl, inl (==→eq next 0 g)))
        | inr g ↦ elim (Bool-cases (is_after_eq rq.deadline next)) [
          | inl h ↦ rw (e, f, g, h) (inl (refl, λ p. (ground arith, refl)))
          | inr h ↦ rw (e, f, g, h) (inr (refl, refl, inr refl))
        ]
      ]
    ]
  ]

  module _ (rq : Rq) (next next' : ℕ) (s : HasDeadline rq) (w : Waits now next) where
    pub Step-Waits : Step rq next next' → Waits now next'
    Step-Waits (inl (e, p)) = rw e w
    Step-Waits (inr (e, f, g)) = inr ((omega (arith, s.1), rw e f))

    pub Step-Covers :
        (deadline : ℕ) → Step rq next next' → Covers now next deadline → Covers now next' deadline
    Step-Covers deadline (inl (e, p)) (z, c) = rw e (z, c)
    Step-Covers deadline (inr (e, f, g)) (z, c) = later w g
      where
        later :
            Waits now next
            → (next ≡ 0) ⊎ (is_after_eq rq.deadline next ≡ false)
            → Covers now next' deadline
        later (inl o) h = absurd (z o)
        later v (inl o) = absurd (z o)
        later (inr (l, q)) (inr h) = (
          omega (arith, s.0),
          let k = due_in-lt now rq.deadline next n s.1 l f q h in rw e (omega arith),
        )

    pub Step-own : Pends now rq → Step rq next next' → Covers now next' rq.deadline
    Step-own p (inr (e, f, g)) = (omega (arith, s.0), rw e (omega arith))
    Step-own p (inl (e, h)) = later w (h p)
      where
        later :
            Waits now next
            → (next ≢ 0) × (is_after_eq rq.deadline next ≡ true)
            → Covers now next' rq.deadline
        later (inl o) (z, a) = absurd (z o)
        later (inr (l, q)) (z, a) =
            (rw e z, rw e (due_in-le now rq.deadline next n s.1 l p.not_due q a))
