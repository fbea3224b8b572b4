-- ===== src/Blk/Rounds/Loop.antt =====
-- block/blk-mq.c: induction over the loop of blk_mq_dispatch_rq_list.
use blk_switch.Common.{ℕ, Bool, List, [], ◌∷◌, ◌++◌, true, false, ◌≡◌, refl, arith}
use blk_switch.Blk.{Effect, run_queue, run_later, Driver, Hctx, get_driver_tag}
use blk_switch.Blk.Trace.{
  is_quiet, Stays, Stays-refl, put_driver_tag-Stays, get_driver_tag-Stays,
  get_dispatch_budget-Stays, mark_tag_wait-Stays,
}
use blk_switch.Blk.Rounds.{
  Round, Rounded, next, stop, take_tag, is_last, put_next, take_budget, round, rounds, rerun,
  resource_delay,
}

-- `P` holds where the loop goes on, and `Q` where it stops.
abbrev pub Steps : (P Q : List ℕ → Round → Type 0) → ℕ → List ℕ → Rounded → Type 0
Steps P Q i list (next x) = P list x
Steps P Q i list (stop x) = Q (i ∷ list) x

module _ (d : Driver) (b : Bool) where
  -- What a loop keeps in each round holds of its end.
  pub rounds-Steps :
      (P Q : List ℕ → Round → Type 0)
      → ((x : Round) → P [] x → Q [] x)
      → ((i : ℕ) (list : List ℕ) (x : Round)
          → P (i ∷ list) x
          → Steps P Q i list (round d b i list x))
      → (list : List ℕ) (x : Round) → P list x
      → Q (rounds d b list x).1 (rounds d b list x).0
  unfolding rounds
  rounds-Steps P Q base step [] x p = base x p
  rounds-Steps P Q base step (i ∷ list) x p =
      elim (round d b i list x)
          as (λ r.
            Steps P Q i list r
            → let (x', rest) : Round × List ℕ = elim r [
              | stop x' ↦ (x', i ∷ list)
              | next x' ↦ rounds d b list x'
            ] in
              Q rest x') [ stop x' ↦ λ q. q | next x' ↦ λ q. rounds-Steps P Q base step list x' q ]
        (step i list x p)

module _ (d : Driver) {A : Type 0} (f : List Effect → A)
    (quiet : (es : List Effect) (e : Effect) → is_quiet e ≡ true → f (es ++ e ∷ []) ≡ f es) where
  pub take_tag-Stays : (i : ℕ) (h : Hctx) → Stays f h (take_tag d i h).1
  unfolding take_tag
  take_tag-Stays i h =
      let a = get_driver_tag-Stays d f quiet i h in
      let b = mark_tag_wait-Stays d f quiet i (get_driver_tag d i h).1 in
      ground (arith, a.read_same, a.list_same, b.read_same, b.list_same)

  pub is_last-Stays : (list : List ℕ) (h : Hctx) → Stays f h (is_last d list h).1
  unfolding is_last
  is_last-Stays [] h = Stays-refl h
  is_last-Stays (nxt ∷ list) h = get_driver_tag-Stays d f quiet nxt h

  pub put_next-Stays : (list : List ℕ) (h : Hctx) → Stays f h (put_next d list h)
  unfolding put_next
  put_next-Stays [] h = Stays-refl h
  put_next-Stays (nxt ∷ list) h = put_driver_tag-Stays d f quiet nxt h

  pub take_budget-Stays : (b : Bool) (h : Hctx) → Stays f h (take_budget d b h).1
  unfolding take_budget
  take_budget-Stays true h = Stays-refl h
  take_budget-Stays false h = get_dispatch_budget-Stays d f quiet h

  pub rerun-Stays : (x : Round) (h : Hctx) → Stays f h (rerun d x h)
  unfolding rerun
  rerun-Stays x h = ground (
    arith,
    quiet h.effects (run_queue true) refl,
    quiet h.effects (run_later resource_delay) refl,
  )
