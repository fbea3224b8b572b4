-- ===== src/Blk/Trace.antt =====
-- block/blk-mq.c: what the trace of a dispatch says: which requests left the block layer.
use blk_switch.Common.{ℕ, Bool, List, [], ◌∷◌, ◌++◌, true, false, not, ◌≡◌, refl, ◌∙◌, arith}
use mathlib.Core.List.{append-nil, append_assoc}
use blk_switch.Blk.{
  ok, resource, dev_resource, failed, Effect, budget_got, budget_put, committed, handed, ended,
  run_queue, run_later, sched_insert, Driver, Hctx, put_driver_tag, get_driver_tag,
  get_dispatch_budget, put_dispatch_budget, mark_tag_wait, requeue,
}

-- The request that leaves with an effect: the driver took it, it was ended, or the scheduler has it.
abbrev pub leaver : Effect → List ℕ
leaver (handed i l ok) = i ∷ []
leaver (handed i l resource) = []
leaver (handed i l dev_resource) = []
leaver (handed i l failed) = []
leaver (ended i) = i ∷ []
leaver budget_got = []
leaver budget_put = []
leaver committed = []
leaver (run_queue b) = []
leaver (run_later n) = []
leaver (sched_insert i b) = i ∷ []

-- The effects that neither a request nor the driver's hardware queue takes part in.
abbrev pub is_quiet : Effect → Bool
is_quiet (handed i l s) = false
is_quiet (ended i) = false
is_quiet budget_got = true
is_quiet budget_put = true
is_quiet committed = false
is_quiet (run_queue b) = true
is_quiet (run_later n) = true
is_quiet (sched_insert i b) = false

-- The requests that left, in their order.
abbrev pub left : List Effect → List ℕ
left [] = []
left (e ∷ es) = leaver e ++ left es

pub left-snoc : (es : List Effect) (e : Effect) → left (es ++ e ∷ []) ≡ left es ++ leaver e
left-snoc [] e = append-nil (leaver e)
left-snoc (f ∷ es) e = ground (arith, left-snoc es e, append_assoc (leaver f) (left es) (leaver e))

pub left-quiet : (es : List Effect) (e : Effect) → is_quiet e ≡ true → left (es ++ e ∷ []) ≡ left es
left-quiet es (handed i l s) q = cc
left-quiet es (ended i) q = cc
left-quiet es budget_got q = left-snoc es budget_got ∙ append-nil (left es)
left-quiet es budget_put q = left-snoc es budget_put ∙ append-nil (left es)
left-quiet es committed q = cc
left-quiet es (run_queue b) q = left-snoc es (run_queue b) ∙ append-nil (left es)
left-quiet es (run_later n) q = left-snoc es (run_later n) ∙ append-nil (left es)
left-quiet es (sched_insert i b) q = cc

-- Whether the driver holds requests that it was not told to start: those since the last one that it
-- took with `last`, or since `commit_rqs`.
abbrev pub waits_after : Bool → Effect → Bool
waits_after w (handed i last ok) = not last
waits_after w (handed i last resource) = w
waits_after w (handed i last dev_resource) = w
waits_after w (handed i last failed) = w
waits_after w (ended i) = w
waits_after w budget_got = w
waits_after w budget_put = w
waits_after w committed = false
waits_after w (run_queue b) = w
waits_after w (run_later n) = w
waits_after w (sched_insert i b) = w

abbrev pub waits_from : Bool → List Effect → Bool
waits_from w [] = w
waits_from w (e ∷ es) = waits_from (waits_after w e) es

abbrev pub waits : List Effect → Bool
waits es = waits_from false es

waits_from-snoc :
    (w : Bool) (es : List Effect) (e : Effect)
    → waits_from w (es ++ e ∷ []) ≡ waits_after (waits_from w es) e
waits_from-snoc w [] e = refl
waits_from-snoc w (f ∷ es) e = waits_from-snoc (waits_after w f) es e

pub waits-snoc : (es : List Effect) (e : Effect) → waits (es ++ e ∷ []) ≡ waits_after (waits es) e
waits-snoc es e = waits_from-snoc false es e

pub waits-quiet :
    (es : List Effect) (e : Effect) → is_quiet e ≡ true → waits (es ++ e ∷ []) ≡ waits es
waits-quiet es (handed i l s) q = cc
waits-quiet es (ended i) q = cc
waits-quiet es budget_got q = waits-snoc es budget_got
waits-quiet es budget_put q = waits-snoc es budget_put
waits-quiet es committed q = cc
waits-quiet es (run_queue b) q = waits-snoc es (run_queue b)
waits-quiet es (run_later n) q = waits-snoc es (run_later n)
waits-quiet es (sched_insert i b) q = cc

-- What `f` reads in the trace is the same, and nothing was put on the list of the queue.
pub record Stays {A : Type 0} (f : List Effect → A) (h k : Hctx) : Type 0 where
  pub read_same : f k.effects ≡ f h.effects
  pub list_same : k.dispatch_list ≡ h.dispatch_list

module _ {A : Type 0} {f : List Effect → A} where
  pub Stays-refl : (h : Hctx) → Stays f h h
  Stays-refl h = record { read_same = refl; list_same = refl }

  pub Stays-trans : {h k l : Hctx} → Stays f h k → Stays f k l → Stays f h l
  Stays-trans p q = record {
    read_same = q.read_same ∙ p.read_same;
    list_same = q.list_same ∙ p.list_same;
  }

-- The functions that only take and put tags and budgets.
module _ (d : Driver) {A : Type 0} (f : List Effect → A)
    (quiet : (es : List Effect) (e : Effect) → is_quiet e ≡ true → f (es ++ e ∷ []) ≡ f es) where
  pub put_driver_tag-Stays : (i : ℕ) (h : Hctx) → Stays f h (put_driver_tag i h)
  unfolding put_driver_tag
  put_driver_tag-Stays i h = ground arith

  pub get_driver_tag-Stays : (i : ℕ) (h : Hctx) → Stays f h (get_driver_tag d i h).1
  unfolding get_driver_tag
  get_driver_tag-Stays i h = ground arith

  pub get_dispatch_budget-Stays : (h : Hctx) → Stays f h (get_dispatch_budget d h).1
  unfolding get_dispatch_budget
  get_dispatch_budget-Stays h = ground (arith, quiet h.effects budget_got refl)

  pub put_dispatch_budget-Stays : (h : Hctx) → Stays f h (put_dispatch_budget d h)
  unfolding put_dispatch_budget
  put_dispatch_budget-Stays h = ground (arith, quiet h.effects budget_put refl)

  pub mark_tag_wait-Stays : (i : ℕ) (h : Hctx) → Stays f h (mark_tag_wait d i h).1
  unfolding mark_tag_wait
  mark_tag_wait-Stays i h =
      let a = get_driver_tag-Stays i (record h { marked_restart = true }) in
      let b = get_driver_tag-Stays i (record h { is_waiting = true }) in
      ground (arith, a.read_same, a.list_same, b.read_same, b.list_same)

  pub requeue-Stays : (i : ℕ) (h : Hctx) → Stays f h (requeue d i h)
  unfolding requeue
  requeue-Stays i h = ground arith
