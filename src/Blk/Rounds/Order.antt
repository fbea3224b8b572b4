-- ===== src/Blk/Rounds/Order.antt =====
-- block/blk-mq.c: blk_mq_dispatch_rq_list keeps the order of the requests, and loses none.
use blk_switch.Common.{
  ℕ, Bool, List, [], ◌∷◌, ◌++◌, true, false, ◌≡◌, refl, ap, ◌∙◌, sym, arith, not, ◌+◌, is_empty,
  ◌<◌, ◌&&◌,
}
use mathlib.Core.List.{append-nil, append_assoc}
use blk_switch.Blk.{
  Status, ok, resource, dev_resource, failed, committed, handed, ended, Driver, Hctx, queue_rq,
  commit_rqs, requeue, is_busy,
}
use blk_switch.Blk.Trace.{
  left, left-snoc, left-quiet, Stays, Stays-trans, put_driver_tag-Stays, put_dispatch_budget-Stays,
  requeue-Stays,
}
use blk_switch.Blk.Rounds.{
  Round, Rounded, next, stop, at_hctx, take_tag, is_last, put_next, answered, issue, tagged,
  budgeted, take_budget, round, rounds, finish, count_queued, start_round, dispatch_rq_list,
}
use blk_switch.Blk.Rounds.Loop.{
  Steps, rounds-Steps, take_tag-Stays, is_last-Stays, put_next-Stays, take_budget-Stays,
  rerun-Stays,
}

-- What a round does with its request: it leaves, and the loop goes on, or it stays. Where the loop
-- goes on it has counted the request, and the driver was not busy.
abbrev Handled : ℕ → Hctx → Rounded → Type 0
Handled i h (next x) =
    (left x.hctx.effects ≡ left h.effects ++ i ∷ [])
    × (x.hctx.dispatch_list ≡ h.dispatch_list)
    × (is_busy x.ret ≡ false)
    × (0 < x.queued + x.errors)
Handled i h (stop x) = Stays left h x.hctx

Handled-from : {h k : Hctx} (i : ℕ) (r : Rounded) → Stays left h k → Handled i k r → Handled i h r
Handled-from i (next x) p (e, l, m, n) = (cc (e, p.read_same), l ∙ p.list_same, m, n)
Handled-from i (stop x) p q = Stays-trans p q

module _ (d : Driver) where
  -- A busy answer, behind which the request stays.
  busy-Handled :
      (i : ℕ) (list : List ℕ) (h k : Hctx)
      → Stays left h k
      → Stays left h (requeue d i (put_next d list k))
  busy-Handled i list h k p = Stays-trans p (
      Stays-trans (put_next-Stays d left left-quiet list k)
        (requeue-Stays d left left-quiet i (put_next d list k)))

  -- `k` is the state behind `queue_rq`.
  answered-Handled :
      (i : ℕ) (list : List ℕ) (s : Status) (last : Bool) (h k : Hctx) (x : Round)
      → k.effects ≡ h.effects ++ handed i last s ∷ []
      → k.dispatch_list ≡ h.dispatch_list
      → Handled i h (answered d i list s (at_hctx k x))
  unfolding answered
  answered-Handled i list ok last h k x e l =
      (cc (e, left-snoc h.effects (handed i last ok)), l, refl, omega arith)
  answered-Handled i list failed last h k x e l = (
    cc (
      ap left e,
      left-snoc h.effects (handed i last failed),
      left-snoc k.effects (ended i),
      append-nil (left h.effects),
    ),
    l,
    refl,
    omega arith,
  )
  answered-Handled i list resource last h k x e l = busy-Handled i list h k (record {
    read_same =
        cc (ap left e, left-snoc h.effects (handed i last resource), append-nil (left h.effects));
    list_same = l;
  })
  answered-Handled i list dev_resource last h k x e l = busy-Handled i list h k (record {
    read_same =
        cc (
          ap left e,
          left-snoc h.effects (handed i last dev_resource),
          append-nil (left h.effects),
        );
    list_same = l;
  })

  issue-Handled : (i : ℕ) (list : List ℕ) (x : Round) → Handled i x.hctx (issue d i list x)
  unfolding issue queue_rq
  issue-Handled i list x =
      let (last, h) = is_last d list x.hctx in
      Handled-from i (issue d i list x) (is_last-Stays d left left-quiet list x.hctx)
        (answered-Handled i list (d.answer_at h.calls) last h (queue_rq d i last h).1 x refl refl)

  tagged-Handled :
      (got : Bool) (i : ℕ) (list : List ℕ) (h : Hctx) (x : Round)
      → Handled i h (tagged d got i list h x)
  unfolding tagged
  tagged-Handled true i list h x = issue-Handled i list (at_hctx h x)
  tagged-Handled false i list h x = put_dispatch_budget-Stays d left left-quiet h

  budgeted-Handled :
      (budget : Bool) (i : ℕ) (list : List ℕ) (h : Hctx) (x : Round)
      → Handled i h (budgeted d budget i list h x)
  unfolding budgeted
  budgeted-Handled true i list h x =
      let (got, h') = take_tag d i h in
      Handled-from i (tagged d got i list h' x) (take_tag-Stays d left left-quiet i h)
        (tagged-Handled got i list h' x)
  budgeted-Handled false i list h x = put_driver_tag-Stays d left left-quiet i h

  round-Handled :
      (b : Bool) (i : ℕ) (list : List ℕ) (x : Round) → Handled i x.hctx (round d b i list x)
  unfolding round
  round-Handled b i list x =
      let (budget, h) = take_budget d b x.hctx in
      Handled-from i (budgeted d budget i list h x) (take_budget-Stays d left left-quiet b x.hctx)
        (budgeted-Handled budget i list h x)

-- The requests of the loop in order, `all` of them: those that left, then the list. The loop that has
-- gone through its list has counted a request, and the driver was not busy at the last.
abbrev Ordered : (all dispatch : List ℕ) → List ℕ → Round → Type 0
Ordered all dispatch list x =
    (left x.hctx.effects ++ list ≡ all)
    × (x.hctx.dispatch_list ≡ dispatch)
    × (is_empty list ≡ true → (is_busy x.ret ≡ false) × (0 < x.queued + x.errors))

module _ (d : Driver) where
  commit_rqs-left : (h : Hctx) → Stays left h (commit_rqs d h)
  unfolding commit_rqs
  commit_rqs-left h = ground (arith, left-snoc h.effects committed, append-nil (left h.effects))

module _ (d : Driver) (b : Bool) where
  round-Ordered :
      (all dispatch : List ℕ) (i : ℕ) (list : List ℕ) (x : Round) (r : Rounded)
      → Ordered all dispatch (i ∷ list) x
      → Handled i x.hctx r
      → Steps (Ordered all dispatch) (Ordered all dispatch) i list r
  round-Ordered all dispatch i list x (next x') (e, l, m) (e', l', m', n') = (
    ap (λ t. t ++ list) e' ∙ append_assoc (left x.hctx.effects) (i ∷ []) list ∙ e,
    l' ∙ l,
    λ z. (m', n'),
  )
  round-Ordered all dispatch i list x (stop x') (e, l, m) s =
      (ap (λ t. t ++ i ∷ list) s.read_same ∙ e, s.list_same ∙ l, λ z. cc)

  finish-order :
      (all dispatch rest : List ℕ) (x : Round)
      → Ordered all dispatch rest x
      → let (result, k) = finish d x rest in
        (left k.effects ++ rest ≡ all)
        × (k.dispatch_list ≡ dispatch ++ rest)
        × (result ≡ is_empty rest)
  unfolding finish
  finish-order all dispatch [] x (e, l, m) =
      (e, l ∙ sym (append-nil dispatch), let (p, q) = m refl in ground (arith, p, q))
  finish-order all dispatch (i ∷ rest) x (e, l, m) =
      let c = commit_rqs d x.hctx in
      let s = commit_rqs-left d x.hctx in
      let k : Hctx = record c { dispatch_list = c.dispatch_list ++ i ∷ rest } in
      let r = rerun-Stays d left left-quiet x k in
      (
        ap (λ t. t ++ i ∷ rest) (r.read_same ∙ s.read_same) ∙ e,
        r.list_same ∙ ap (λ t. t ++ i ∷ rest) (s.list_same ∙ l),
        refl,
      )

  -- Every request of the list leaves, or is put on the list of the queue behind those that were
  -- there, and these are the last ones, in their order: with what left before, the requests that
  -- left and those that were put on the list are together what left before, followed by the list. It
  -- returns true exactly when the list is not empty and all of it left.
  pub dispatch_rq_list-order :
      (list : List ℕ) (h : Hctx)
      → let (result, k) = dispatch_rq_list d b list h in
        (rest : List ℕ) × (left k.effects ++ rest ≡ left h.effects ++ list)
        × (k.dispatch_list ≡ h.dispatch_list ++ rest)
        × (result ≡ not (is_empty list) && is_empty rest)
  unfolding dispatch_rq_list count_queued
  dispatch_rq_list-order [] h = ([], refl, sym (append-nil h.dispatch_list), refl)
  dispatch_rq_list-order (i ∷ list) h =
      let all = left h.effects ++ i ∷ list in
      let (x, rest) = rounds d b (i ∷ list) (start_round h) in
      let o =
        rounds-Steps d b (Ordered all h.dispatch_list) (Ordered all h.dispatch_list) (λ x p. p)
          (λ i list x p.
            round-Ordered all h.dispatch_list i list x (round d b i list x) p
              (round-Handled d b i list x))
          (i ∷ list) (start_round h) (refl, refl, λ z. cc) in
      let (e, l, m) =
        finish-order all h.dispatch_list rest (at_hctx (count_queued d x.queued x.hctx) x) o in
      (rest, e, l, m)
