-- ===== src/Blk/Requeue/Order.antt =====
-- block/blk-mq.c: where the requests of the requeue list go, and in which order.
use blk_switch.Common.{
  ℕ, Bool, some, List, [], ◌∷◌, ◌++◌, ◌||◌, true, false, ◌≡◌, ◌≢◌, refl, ap, ◌∙◌, sym, arith, All,
  if◌then◌else◌, ◌&&◌, not,
}
use mathlib.Core.List.{append-nil, append_assoc}
use blk_switch.Common.Map.{update}
use blk_switch.Blk.{
  Effect, budget_got, budget_put, committed, handed, ended, run_queue, run_later, sched_insert,
  Driver, Hctx, note, bypass_insert, requeue,
}
use blk_switch.Blk.Trace.{is_quiet, Stays, requeue-Stays}
use blk_switch.Blk.Rounds.Touch.{Distinct}
use blk_switch.Blk.Requeue.{
  RequeueList, add_to_requeue_list, insert_flagged, first_pass, second_pass, run_hw_queues,
  requeue_work, requeue_to_list, has, is_listed, with_hctx,
}

-- The list of the scheduler behind an effect.
abbrev pub sched_after : List ℕ → Effect → List ℕ
sched_after l (sched_insert i at_head) = if at_head then i ∷ l else l ++ i ∷ []
sched_after l (handed i last s) = l
sched_after l (ended i) = l
sched_after l budget_got = l
sched_after l budget_put = l
sched_after l committed = l
sched_after l (run_queue b) = l
sched_after l (run_later n) = l

abbrev pub sched_from : List ℕ → List Effect → List ℕ
sched_from l [] = l
sched_from l (e ∷ es) = sched_from (sched_after l e) es

-- The list of a scheduler that was empty before the trace.
abbrev pub sched_list : List Effect → List ℕ
sched_list es = sched_from [] es

sched_from-snoc :
    (l : List ℕ) (es : List Effect) (e : Effect)
    → sched_from l (es ++ e ∷ []) ≡ sched_after (sched_from l es) e
sched_from-snoc l [] e = refl
sched_from-snoc l (f ∷ es) e = sched_from-snoc (sched_after l f) es e

sched_list-quiet :
    (es : List Effect) (e : Effect) → is_quiet e ≡ true → sched_list (es ++ e ∷ []) ≡ sched_list es
sched_list-quiet es (handed i l s) q = cc
sched_list-quiet es (ended i) q = cc
sched_list-quiet es budget_got q = sched_from-snoc [] es budget_got
sched_list-quiet es budget_put q = sched_from-snoc [] es budget_put
sched_list-quiet es committed q = cc
sched_list-quiet es (run_queue b) q = sched_from-snoc [] es (run_queue b)
sched_list-quiet es (run_later n) q = sched_from-snoc [] es (run_later n)
sched_list-quiet es (sched_insert i b) q = cc

-- The entries, in the reverse order, before those of another list.
abbrev pub rev_onto : List ℕ → List ℕ → List ℕ
rev_onto [] l = l
rev_onto (i ∷ k) l = rev_onto k (i ∷ l)

abbrev pub keep : (ℕ → Bool) → List ℕ → List ℕ
keep f [] = []
keep f (i ∷ l) = if f i then i ∷ keep f l else keep f l

-- The requests that the work inserts into the scheduler at its head, those that it puts on the list of
-- the hardware queue, and those that it inserts at the tail.
abbrev pub is_headed : RequeueList → ℕ → Bool
is_headed s i = s.soft_barrier i && not (s.dont_prep i)

abbrev pub is_tailed : RequeueList → ℕ → Bool
is_tailed s i = not (s.soft_barrier i) && not (s.dont_prep i)

keep-same : (f g : ℕ → Bool) (l : List ℕ) → All (λ i. f i ≡ g i) l → keep f l ≡ keep g l
keep-same f g [] a = refl
keep-same f g (i ∷ l) (e, a) = ground (arith, keep-same f g l a)

module _ (i : ℕ) (s : RequeueList) where
  -- The flags of the others are the same behind a request that has one.
  flags-insert :
      (l : List ℕ)
      → All (λ j. i ≢ j) l
      → All (λ j. is_headed (insert_flagged i s) j ≡ is_headed s j) l
        × All (λ j. is_tailed (insert_flagged i s) j ≡ is_tailed s j) l
  unfolding insert_flagged
  flags-insert [] n = (tt, tt)
  flags-insert (j ∷ l) (n, m) =
      let (a, b) = flags-insert l m in ((ground arith, a), (ground arith, b))

  insert_flagged-list :
      (insert_flagged i s).hctx.dispatch_list
      ≡ (if s.dont_prep i then s.hctx.dispatch_list ++ i ∷ [] else s.hctx.dispatch_list)
  unfolding insert_flagged bypass_insert
  insert_flagged-list = ground arith

  insert_flagged-sched :
      sched_list (insert_flagged i s).hctx.effects
      ≡ (if s.dont_prep i then sched_list s.hctx.effects else i ∷ sched_list s.hctx.effects)
  unfolding insert_flagged bypass_insert
  insert_flagged-sched = ground (arith, sched_from-snoc [] s.hctx.effects (sched_insert i true))

  insert_flagged-prep : (insert_flagged i s).dont_prep ≡ s.dont_prep
  unfolding insert_flagged
  insert_flagged-prep = refl

-- The three places of the requests of a list.
abbrev Passed : List ℕ → RequeueList → RequeueList × List ℕ → Type 0
Passed l s (k, kept) =
    (k.hctx.dispatch_list ≡ s.hctx.dispatch_list ++ keep s.dont_prep l)
    × (sched_list k.hctx.effects ≡ rev_onto (keep (is_headed s) l) (sched_list s.hctx.effects))
    × (kept ≡ keep (is_tailed s) l)

first_pass-Passed : (l : List ℕ) (s : RequeueList) → Distinct l → Passed l s (first_pass l s)
unfolding first_pass
first_pass-Passed [] s n = (sym (append-nil s.hctx.dispatch_list), refl, refl)
first_pass-Passed (i ∷ l) s (n, m) =
    let t = insert_flagged i s in
    let (a, b) = flags-insert i s l n in
    let (p, q, r) = first_pass-Passed l s m in
    let (p', q', r') = first_pass-Passed l t m in
    let e = keep-same (is_headed t) (is_headed s) l a in
    let f = keep-same (is_tailed t) (is_tailed s) l b in
    let g = insert_flagged-prep i s in
    let u = insert_flagged-list i s in
    let v = insert_flagged-sched i s in
    let w = append_assoc s.hctx.dispatch_list (i ∷ []) (keep s.dont_prep l) in
    (ground arith, ground arith, ground arith)

first_pass-entries : (l : List ℕ) (s : RequeueList) → (first_pass l s).0.entries ≡ s.entries
unfolding first_pass insert_flagged
first_pass-entries [] s = refl
first_pass-entries (i ∷ l) s =
    let a = first_pass-entries l s in
    let b = first_pass-entries l (insert_flagged i s) in ground arith

second_pass-sched :
    (l : List ℕ) (h : Hctx)
    → (sched_list (second_pass l h).effects ≡ sched_list h.effects ++ l)
      × ((second_pass l h).dispatch_list ≡ h.dispatch_list)
unfolding second_pass
second_pass-sched [] h = (sym (append-nil (sched_list h.effects)), refl)
second_pass-sched (i ∷ l) h =
    let (e, f) = second_pass-sched l (note (sched_insert i false) h) in
    (
      e
          ∙ ap (λ t. t ++ l) (sched_from-snoc [] h.effects (sched_insert i false))
          ∙ append_assoc (sched_list h.effects) (i ∷ []) l,
      f,
    )

module _ (d : Driver) where
  run_hw_queues-Stays : (b : Bool) (h : Hctx) → Stays sched_list h (run_hw_queues d b h)
  unfolding run_hw_queues
  run_hw_queues-Stays b h = ground (arith, sched_list-quiet h.effects (run_queue b) refl)

  -- The work leaves the list empty. Of the different requests that were in it, those with driver data
  -- are put on the list of the hardware queue, in their order; of the others, those that were added
  -- at the head are in front of the scheduler's list, the last of them first, and the rest is at
  -- its end, in their order.
  pub requeue_work-order :
      (s : RequeueList)
      → Distinct s.entries
      → let k = requeue_work d s in
        (k.entries ≡ [])
        × (k.hctx.dispatch_list ≡ s.hctx.dispatch_list ++ keep s.dont_prep s.entries)
        × (sched_list k.hctx.effects
            ≡ rev_onto (keep (is_headed s) s.entries) (sched_list s.hctx.effects)
              ++ keep (is_tailed s) s.entries)
  unfolding requeue_work
  requeue_work-order s n =
      let t : RequeueList = record s { entries = []; is_kicked = false } in
      let (u, kept) = first_pass s.entries t in
      let (p, q, r) = first_pass-Passed s.entries t n in
      let (e, f) = second_pass-sched kept u.hctx in
      let w = run_hw_queues-Stays false (second_pass kept u.hctx) in
      (
        first_pass-entries s.entries t,
        w.list_same ∙ f ∙ p,
        w.read_same
            ∙ e
            ∙ ap (λ l. l ++ kept) q
            ∙ ap (λ l. rev_onto (keep (is_headed t) s.entries) (sched_list t.hctx.effects) ++ l) r,
      )

  -- A request that is on no list is on none behind `requeue`.
  is_listed-requeue :
      (others : ℕ → Bool) (i : ℕ) (s : RequeueList)
      → is_listed others i s ≡ false
      → is_listed others i (with_hctx (requeue d i s.hctx) s) ≡ false
  unfolding is_listed
  is_listed-requeue others i s e =
      ap (λ l. others i || has i s.entries || has i l)
        (requeue-Stays d sched_list sched_list-quiet i s.hctx).list_same
      ∙ e

  -- What one request more on the list changes.
  pub requeue_to_list-some :
      (others : ℕ → Bool) (i : ℕ) (b : Bool) (s : RequeueList)
      → is_listed others i s ≡ false
      → s.soft_barrier i ≡ false
      → (t : RequeueList) × (requeue_to_list d others i b s ≡ some t)
        × (t.entries ≡ i ∷ s.entries)
        × (t.soft_barrier ≡ update s.soft_barrier i true)
        × (t.dont_prep ≡ s.dont_prep)
        × Stays sched_list s.hctx t.hctx
  unfolding requeue_to_list add_to_requeue_list
  requeue_to_list-some others i b s n e =
      rw (is_listed-requeue others i s n, e)
        (_, refl, refl, refl, refl, requeue-Stays d sched_list sched_list-quiet i s.hctx)
