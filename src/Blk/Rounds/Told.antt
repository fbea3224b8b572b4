-- ===== src/Blk/Rounds/Told.antt =====
-- block/blk-mq.c: blk_mq_dispatch_rq_list tells the driver to start the requests that it took.
use blk_switch.Common.{
  ℕ, Bool, List, [], ◌∷◌, ◌++◌, true, false, ◌≡◌, refl, ap, ◌∙◌, arith, not, is_empty, ◌⊎◌, inl,
  inr,
}
use mathlib.Core.List.{append_assoc}
use blk_switch.Blk.{
  Status, ok, resource, dev_resource, failed, Effect, committed, handed, ended, Driver, Hctx,
  queue_rq, commit_rqs,
}
use blk_switch.Blk.Trace.{waits, waits-snoc, waits-quiet}
use blk_switch.Blk.Rounds.{
  Round, at_hctx, take_tag, is_last, answered, issue, tagged, budgeted, take_budget, round, rounds,
  finish, count_queued, start_round, dispatch_rq_list,
}
use blk_switch.Blk.Rounds.Loop.{Steps, rounds-Steps, rerun-Stays}

-- The last thing that was done is that the driver answered a request with an error, and that it was
-- ended.
abbrev pub EndsInError : List Effect → Type 0
EndsInError es =
    (before : List Effect) × (i : ℕ) × (es ≡ before ++ handed i true failed ∷ ended i ∷ [])

-- Where nothing is left of the list, the driver was told, or the last request failed.
abbrev Told : List ℕ → Round → Type 0
Told list x = is_empty list ≡ true → (waits x.hctx.effects ≡ false) ⊎ EndsInError x.hctx.effects

module _ (d : Driver) (b : Bool) where
  -- `k` is the state behind `queue_rq`, and `es` the trace before it.
  answered-Told :
      (i : ℕ) (list : List ℕ) (s : Status) (last : Bool) (es : List Effect) (k : Hctx) (x : Round)
      → k.effects ≡ es ++ handed i last s ∷ []
      → (is_empty list ≡ true → last ≡ true)
      → Steps Told Told i list (answered d i list s (at_hctx k x))
  unfolding answered
  answered-Told i list ok last es k x e l =
      λ n. inl (ap waits e ∙ waits-snoc es (handed i last ok) ∙ ap not (l n))
  answered-Told i list failed last es k x e l = λ n. inr (
    es,
    i,
    ap (λ t. t ++ ended i ∷ []) e
        ∙ append_assoc es (handed i last failed ∷ []) (ended i ∷ [])
        ∙ ap (λ t. es ++ handed i t failed ∷ ended i ∷ []) (l n),
  )
  answered-Told i list resource last es k x e l = λ n. cc
  answered-Told i list dev_resource last es k x e l = λ n. cc

  is_last-empty : (list : List ℕ) (h : Hctx) → is_empty list ≡ true → (is_last d list h).0 ≡ true
  unfolding is_last
  is_last-empty [] h n = refl
  is_last-empty (i ∷ list) h n = cc

  tagged-Told :
      (got : Bool) (i : ℕ) (list : List ℕ) (h : Hctx) (x : Round)
      → Steps Told Told i list (tagged d got i list h x)
  unfolding tagged issue queue_rq
  tagged-Told true i list h x =
      let (last, k) = is_last d list h in
      answered-Told i list (d.answer_at k.calls) last k.effects (queue_rq d i last k).1 x refl
        (is_last-empty list h)
  tagged-Told false i list h x = λ n. cc

  budgeted-Told :
      (budget : Bool) (i : ℕ) (list : List ℕ) (h : Hctx) (x : Round)
      → Steps Told Told i list (budgeted d budget i list h x)
  unfolding budgeted
  budgeted-Told true i list h x = let (got, h') = take_tag d i h in tagged-Told got i list h' x
  budgeted-Told false i list h x = λ n. cc

  round-Told : (i : ℕ) (list : List ℕ) (x : Round) → Steps Told Told i list (round d b i list x)
  unfolding round
  round-Told i list x = let (budget, h) = take_budget d b x.hctx in budgeted-Told budget i list h x

  commit_rqs-waits : d.has_commit ≡ true → (h : Hctx) → waits (commit_rqs d h).effects ≡ false
  unfolding commit_rqs
  commit_rqs-waits c h = ground (arith, waits-snoc h.effects committed)

  finish-Told :
      d.has_commit ≡ true
      → (list : List ℕ) (x : Round) → Told list x
      → let k = (finish d x list).1 in (waits k.effects ≡ false) ⊎ EndsInError k.effects
  unfolding finish
  finish-Told c [] x t = t refl
  finish-Told c (i ∷ list) x t =
      let h = commit_rqs d x.hctx in
      let k : Hctx = record h { dispatch_list = h.dispatch_list ++ i ∷ list } in
      let s = rerun-Stays d waits waits-quiet x k in inl (s.read_same ∙ commit_rqs-waits c x.hctx)

  -- With a driver that has `commit_rqs`, and holds no request that it was not told to start: behind
  -- a dispatch it holds none either, except where the trace ends in a request that the driver
  -- answered with an error.
  pub dispatch_rq_list-told :
      d.has_commit ≡ true
      → (list : List ℕ) (h : Hctx) → waits h.effects ≡ false
      → let k = (dispatch_rq_list d b list h).1 in (waits k.effects ≡ false) ⊎ EndsInError k.effects
  unfolding dispatch_rq_list count_queued
  dispatch_rq_list-told c [] h w = inl w
  dispatch_rq_list-told c (i ∷ list) h w =
      let (x, rest) = rounds d b (i ∷ list) (start_round h) in
      finish-Told c rest (at_hctx (count_queued d x.queued x.hctx) x) (
        rounds-Steps d b Told Told (λ x t. t) (λ i list x t. round-Told i list x) (i ∷ list)
          (start_round h) (λ n. cc))
