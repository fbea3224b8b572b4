-- ===== src/Blk/Rounds/Touch.antt =====
-- block/blk-mq.c: which requests the functions of blk_mq_dispatch_rq_list touch.
use blk_switch.Common.{
  ℕ, Bool, List, [], ◌∷◌, true, false, ◌≡◌, ◌≢◌, refl, arith, All, inl, inr, ◌∙◌, ap, sym,
  Bool-cases,
}
use blk_switch.Blk.{
  Driver, Hctx, put_driver_tag, get_driver_tag, get_dispatch_budget, put_dispatch_budget,
  mark_tag_wait, requeue, queue_rq,
}
use blk_switch.Lifecycle.{requeue_request}
use blk_switch.Blk.Rounds.{take_tag, take_budget}

-- A request that has a tag of the scheduler holds none of the driver.
abbrev pub Clear : Hctx → ℕ → Type 0
Clear h i = (h.rqs i).has_sched_tag ≡ true → (h.rqs i).has_driver_tag ≡ false

abbrev pub Distinct : List ℕ → Type 0
Distinct [] = Unit
Distinct (i ∷ list) = All (λ j. i ≢ j) list × Distinct list

-- The step `h` to `k` changes at most the request `i`, and not the list of the queue.
pub record Only (i : ℕ) (h k : Hctx) : Type 0 where
  pub list_same : k.dispatch_list ≡ h.dispatch_list
  pub rqs_same : (j : ℕ) → i ≢ j → k.rqs j ≡ h.rqs j

pub Only-trans : {i : ℕ} {h k l : Hctx} → Only i h k → Only i k l → Only i h l
Only-trans p q = record {
  list_same = q.list_same ∙ p.list_same;
  rqs_same = λ j n. q.rqs_same j n ∙ p.rqs_same j n;
}

pub All-Only :
    {i : ℕ} {h k : Hctx} (list : List ℕ)
    → Only i h k
    → All (λ j. i ≢ j) list
    → All (Clear h) list
    → All (Clear k) list
All-Only [] o n c = tt
All-Only (j ∷ list) o (m, n) (c, cs) = (
  (λ s.
      let e = o.rqs_same j m in
      ap (λ r. r.has_driver_tag) e ∙ c (sym (ap (λ r. r.has_sched_tag) e) ∙ s)),
  All-Only list o n cs,
)

pub put_driver_tag-Only : (i : ℕ) (h : Hctx) → Only i h (put_driver_tag i h)
unfolding put_driver_tag
put_driver_tag-Only i h = record { list_same = ground arith; rqs_same = λ j n. ground arith }

pub put_driver_tag-Clear : (i : ℕ) (h : Hctx) → Clear (put_driver_tag i h) i
unfolding put_driver_tag
put_driver_tag-Clear i h s = ground arith

module _ (d : Driver) where
  pub get_driver_tag-Only : (i : ℕ) (h : Hctx) → Only i h (get_driver_tag d i h).1
  unfolding get_driver_tag
  get_driver_tag-Only i h = record { list_same = ground arith; rqs_same = λ j n. ground arith }

  pub get_dispatch_budget-Only : (i : ℕ) (h : Hctx) → Only i h (get_dispatch_budget d h).1
  unfolding get_dispatch_budget
  get_dispatch_budget-Only i h = record { list_same = ground arith; rqs_same = λ j n. ground arith }

  pub put_dispatch_budget-Only : (i : ℕ) (h : Hctx) → Only i h (put_dispatch_budget d h)
  unfolding put_dispatch_budget
  put_dispatch_budget-Only i h = record { list_same = ground arith; rqs_same = λ j n. ground arith }

  pub requeue-Only : (i : ℕ) (h : Hctx) → Only i h (requeue d i h)
  unfolding requeue put_driver_tag
  requeue-Only i h = record { list_same = ground arith; rqs_same = λ j n. ground arith }

  pub requeue-Clear : (i : ℕ) (h : Hctx) → Clear (requeue d i h) i
  unfolding requeue requeue_request
  requeue-Clear i h s = ground arith

  pub queue_rq-Only : (i : ℕ) (last : Bool) (h : Hctx) → Only i h (queue_rq d i last h).1
  unfolding queue_rq
  queue_rq-Only i last h = record { list_same = refl; rqs_same = λ j n. ground arith }

  pub mark_tag_wait-Only : (i : ℕ) (h : Hctx) → Only i h (mark_tag_wait d i h).1
  unfolding mark_tag_wait get_driver_tag
  mark_tag_wait-Only i h = record { list_same = ground arith; rqs_same = λ j n. ground arith }

  pub take_tag-Only : (i : ℕ) (h : Hctx) → Only i h (take_tag d i h).1
  unfolding take_tag
  take_tag-Only i h = elim (Bool-cases (get_driver_tag d i h).0) [
    | inl e ↦ rw e (get_driver_tag-Only i h)
    | inr e ↦
        rw e (Only-trans (get_driver_tag-Only i h) (mark_tag_wait-Only i (get_driver_tag d i h).1))
  ]

  pub get_driver_tag-none :
      (i : ℕ) (h : Hctx)
      → (get_driver_tag d i h).0 ≡ false
      → ((get_driver_tag d i h).1.rqs i).has_driver_tag ≡ false
  unfolding get_driver_tag
  get_driver_tag-none i h e = ground arith

  pub take_tag-none :
      (i : ℕ) (h : Hctx)
      → (take_tag d i h).0 ≡ false
      → ((take_tag d i h).1.rqs i).has_driver_tag ≡ false
  unfolding take_tag mark_tag_wait
  take_tag-none i h e =
      let k = (get_driver_tag d i h).1 in
      ground (
        arith,
        get_driver_tag-none i h,
        get_driver_tag-none i (record k { marked_restart = true }),
        get_driver_tag-none i (record k { is_waiting = true }),
      )

  pub take_budget-Only : (i : ℕ) (b : Bool) (h : Hctx) → Only i h (take_budget d b h).1
  unfolding take_budget
  take_budget-Only i true h = record { list_same = refl; rqs_same = λ j n. refl }
  take_budget-Only i false h = get_dispatch_budget-Only i h

  pub put_budget-Clear : (i : ℕ) (h : Hctx) → Clear h i → Clear (put_dispatch_budget d h) i
  unfolding put_dispatch_budget
  put_budget-Clear i h c s = ground (arith, c)
