-- ===== src/Blk/Rounds/Tags.antt =====
-- block/blk-mq.c: blk_mq_dispatch_rq_list leaves no tag of the driver with a request that stays.
use blk_switch.Common.{
  ℕ, Bool, List, [], ◌∷◌, true, false, ◌≡◌, ◌≢◌, refl, arith, All, ◌∙◌, ap, sym, ◌++◌,
}
use mathlib.Core.Path.{subst}
use blk_switch.Blk.{
  Status, ok, resource, dev_resource, failed, Driver, Hctx, requeue, queue_rq, commit_rqs,
}
use blk_switch.Blk.Rounds.{
  Round, at_hctx, take_tag, is_last, put_next, answered, issue, tagged, budgeted, take_budget,
  round, rounds, rerun, finish, count_queued, start_round, dispatch_rq_list,
}
use blk_switch.Blk.Rounds.Loop.{Steps, rounds-Steps}
use blk_switch.Blk.Rounds.Touch.{
  Clear, Distinct, Only, All-Only, put_driver_tag-Only, put_driver_tag-Clear, get_driver_tag-Only,
  put_dispatch_budget-Only, requeue-Only, requeue-Clear, queue_rq-Only, take_tag-Only,
  take_tag-none, take_budget-Only, put_budget-Clear,
}

-- The requests `others` that are on the list of the queue, before and behind the loop.
module _ (others : List ℕ) where
  -- Where the loop stops: none of them, and none of the list, holds a tag.
  abbrev AllClear : List ℕ → Round → Type 0
  AllClear list x = (x.hctx.dispatch_list ≡ others) × All (Clear x.hctx) (list ++ others)

  -- Before a round, the first of the list may hold one.
  abbrev Ready : List ℕ → Round → Type 0
  Ready [] x = AllClear [] x
  Ready (i ∷ list) x = Distinct (i ∷ list ++ others) × AllClear list x

  module _ (d : Driver) where
    AllClear-Only :
        {i : ℕ} (list : List ℕ) (x : Round) {k : Hctx}
        → Only i x.hctx k
        → All (λ j. i ≢ j) (list ++ others)
        → AllClear list x
        → AllClear list (at_hctx k x)
    AllClear-Only list x o n (l, c) = (o.list_same ∙ l, All-Only (list ++ others) o n c)

    -- The tag of the next request is taken.
    is_last-Ready :
        (list : List ℕ) (x : Round)
        → Distinct (list ++ others)
        → AllClear list x
        → Ready list (at_hctx (is_last d list x.hctx).1 x)
    unfolding is_last
    is_last-Ready [] x n c = c
    is_last-Ready (i ∷ list) x (n, m) (l, (c, cs)) =
        ((n, m), AllClear-Only list x (get_driver_tag-Only d i x.hctx) n (l, cs))

    put_next-AllClear :
        (list : List ℕ) (x : Round)
        → Ready list x
        → AllClear list (at_hctx (put_next d list x.hctx) x)
    unfolding put_next
    put_next-AllClear [] x c = c
    put_next-AllClear (i ∷ list) x ((n, m), c) =
        let (l, cs) = AllClear-Only list x (put_driver_tag-Only i x.hctx) n c in
        (l, (put_driver_tag-Clear i x.hctx, cs))

    Ready-Only :
        {i : ℕ} (list : List ℕ) (x : Round) {k : Hctx}
        → Only i x.hctx k
        → All (λ j. i ≢ j) (list ++ others)
        → Ready list x
        → Ready list (at_hctx k x)
    Ready-Only [] x o n c = AllClear-Only [] x o n c
    Ready-Only (j ∷ list) x o (n, ns) (m, c) = (m, AllClear-Only list x o ns c)

    busy-AllClear :
        (i : ℕ) (list : List ℕ) (x : Round)
        → All (λ j. i ≢ j) (list ++ others)
        → Ready list x
        → AllClear (i ∷ list) (at_hctx (requeue d i (put_next d list x.hctx)) x)
    busy-AllClear i list x n r =
        let k = put_next d list x.hctx in
        let (l, c) =
          AllClear-Only list (at_hctx k x) (requeue-Only d i k) n (put_next-AllClear list x r) in
        (l, (requeue-Clear d i k, c))

    answered-AllClear :
        (i : ℕ) (list : List ℕ) (s : Status) (x : Round)
        → All (λ j. i ≢ j) (list ++ others)
        → Ready list x
        → Steps Ready AllClear i list (answered d i list s x)
    unfolding answered
    answered-AllClear i [] ok x n r = r
    answered-AllClear i (j ∷ list) ok x n r = r
    answered-AllClear i [] failed x n r = r
    answered-AllClear i (j ∷ list) failed x n r = r
    answered-AllClear i list resource x n r = busy-AllClear i list x n r
    answered-AllClear i list dev_resource x n r = busy-AllClear i list x n r

    tagged-AllClear :
        (got : Bool) (i : ℕ) (list : List ℕ) (h : Hctx) (x : Round)
        → (got ≡ false → Clear h i)
        → Ready (i ∷ list) (at_hctx h x)
        → Steps Ready AllClear i list (tagged d got i list h x)
    unfolding tagged issue
    tagged-AllClear true i list h x t ((n, m), c) =
        let (last, k) = is_last d list h in
        let (ret, k') = queue_rq d i last k in
        answered-AllClear i list ret (at_hctx k' x) n (
          Ready-Only list (at_hctx k x) (queue_rq-Only d i last k) n
            (is_last-Ready list (at_hctx h x) m c))
    tagged-AllClear false i list h x t ((n, m), c) =
        let o = put_dispatch_budget-Only d i h in
        let (l, cs) = AllClear-Only list (at_hctx h x) o n c in
        (l, (put_budget-Clear d i h (t refl), cs))

    budgeted-AllClear :
        (budget : Bool) (i : ℕ) (list : List ℕ) (h : Hctx) (x : Round)
        → Ready (i ∷ list) (at_hctx h x)
        → Steps Ready AllClear i list (budgeted d budget i list h x)
    unfolding budgeted
    budgeted-AllClear true i list h x ((n, m), c) =
        let (got, h') = take_tag d i h in
        tagged-AllClear got i list h' x (λ e s. take_tag-none d i h e)
          ((n, m), AllClear-Only list (at_hctx h x) (take_tag-Only d i h) n c)
    budgeted-AllClear false i list h x ((n, m), c) =
        let (l, cs) = AllClear-Only list (at_hctx h x) (put_driver_tag-Only i h) n c in
        (l, (put_driver_tag-Clear i h, cs))

    round-AllClear :
        (b : Bool) (i : ℕ) (list : List ℕ) (x : Round)
        → Ready (i ∷ list) x
        → Steps Ready AllClear i list (round d b i list x)
    unfolding round
    round-AllClear b i list x ((n, m), c) =
        let (budget, h) = take_budget d b x.hctx in
        budgeted-AllClear budget i list h x
          ((n, m), AllClear-Only list x (take_budget-Only d i b x.hctx) n c)

All-append : (P : ℕ → Type 0) (k l : List ℕ) → All P k → All P l → All P (k ++ l)
All-append P [] l p q = q
All-append P (i ∷ k) l (p, ps) q = (p, All-append P k l ps q)

All-split : (P : ℕ → Type 0) (k l : List ℕ) → All P (k ++ l) → All P k × All P l
All-split P [] l q = (tt, q)
All-split P (i ∷ k) l (p, ps) = let (q, r) = All-split P k l ps in ((p, q), r)

All-Clear-same : (l : List ℕ) (h k : Hctx) → k.rqs ≡ h.rqs → All (Clear h) l → All (Clear k) l
All-Clear-same l h k e =
    subst (λ f. All (λ i. (f i).has_sched_tag ≡ true → (f i).has_driver_tag ≡ false) l) (sym e)

module _ (d : Driver) where
  commit_rqs-same :
      (h : Hctx)
      → ((commit_rqs d h).rqs ≡ h.rqs) × ((commit_rqs d h).dispatch_list ≡ h.dispatch_list)
  unfolding commit_rqs
  commit_rqs-same h = (ground arith, ground arith)

  rerun-same :
      (x : Round) (h : Hctx)
      → ((rerun d x h).rqs ≡ h.rqs) × ((rerun d x h).dispatch_list ≡ h.dispatch_list)
  unfolding rerun
  rerun-same x h = (ground arith, ground arith)

  finish-Clear :
      (others rest : List ℕ) (x : Round)
      → AllClear others rest x
      → let k = (finish d x rest).1 in All (Clear k) k.dispatch_list
  unfolding finish
  finish-Clear others [] x (l, c) = subst (All (Clear x.hctx)) (sym l) c
  finish-Clear others (i ∷ rest) x (l, c) =
      let h = commit_rqs d x.hctx in
      let k : Hctx = record h { dispatch_list = h.dispatch_list ++ i ∷ rest } in
      let (e, m) = commit_rqs-same x.hctx in
      let (e', m') = rerun-same x k in
      let (p, q) = All-split (Clear x.hctx) (i ∷ rest) others c in
      subst (All (Clear (rerun d x k))) (sym (m' ∙ ap (λ t. t ++ i ∷ rest) (m ∙ l))) (
        All-Clear-same (others ++ i ∷ rest) x.hctx (rerun d x k) (e' ∙ e)
          (All-append (Clear x.hctx) others (i ∷ rest) q p))

  -- For different requests, on the list of the queue or in the list to dispatch, of which those with
  -- a tag of the scheduler hold none of the driver: behind a dispatch the same holds of all that are
  -- on the list of the queue.
  pub dispatch_rq_list-Clear :
      (b : Bool) (list : List ℕ) (h : Hctx)
      → Distinct (list ++ h.dispatch_list)
      → All (Clear h) (list ++ h.dispatch_list)
      → let k = (dispatch_rq_list d b list h).1 in All (Clear k) k.dispatch_list
  unfolding dispatch_rq_list count_queued
  dispatch_rq_list-Clear b [] h n c = c
  dispatch_rq_list-Clear b (i ∷ list) h n (c, cs) =
      let others = h.dispatch_list in
      let (x, rest) = rounds d b (i ∷ list) (start_round h) in
      finish-Clear others rest (at_hctx (count_queued d x.queued x.hctx) x) (
        rounds-Steps d b (Ready others) (AllClear others) (λ x p. p) (round-AllClear others d b)
          (i ∷ list) (start_round h) (n, (refl, cs)))
