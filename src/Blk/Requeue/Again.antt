-- ===== src/Blk/Requeue/Again.antt =====
-- block/blk-mq.c: requests that are requeued one after the other come back in their order.
use blk_switch.Common.{
  ℕ, Bool, some, List, [], ◌∷◌, ◌++◌, true, false, ◌≡◌, ◌≢◌, refl, ap, ◌∙◌, sym, arith, All,
}
use mathlib.Core.List.{append-nil}
use mathlib.Core.Path.{subst}
use blk_switch.Common.Map.{update}
use blk_switch.Blk.{Driver}
use blk_switch.Blk.Trace.{Stays, Stays-refl, Stays-trans}
use blk_switch.Blk.Rounds.Touch.{Distinct}
use blk_switch.Blk.Requeue.{RequeueList, has, is_listed, requeue_each, requeue_work}
use blk_switch.Blk.Requeue.Order.{
  sched_list, rev_onto, keep, is_headed, is_tailed, requeue_work-order, requeue_to_list-some,
}

rev_onto-twice : (k l m : List ℕ) → rev_onto (rev_onto k l) m ≡ rev_onto l (k ++ m)
rev_onto-twice [] l m = refl
rev_onto-twice (i ∷ k) l m = rev_onto-twice k (i ∷ l) m

module _ (P : ℕ → Type 0) where
  All-rev_onto : (k l : List ℕ) → All P k → All P l → All P (rev_onto k l)
  All-rev_onto [] l a b = b
  All-rev_onto (i ∷ k) l (p, a) b = All-rev_onto k (i ∷ l) a (p, b)

-- No entry of the first list is in the second.
abbrev Apart : List ℕ → List ℕ → Type 0
Apart k l = All (λ i. All (λ j. i ≢ j) l) k

Apart-cons : (i : ℕ) (k l : List ℕ) → All (λ j. i ≢ j) k → Apart k l → Apart k (i ∷ l)
Apart-cons i [] l n a = tt
Apart-cons i (j ∷ k) l (n, ns) (a, as') = (((λ e. n (sym e)), a), Apart-cons i k l ns as')

Distinct-rev_onto : (k l : List ℕ) → Distinct k → Distinct l → Apart k l → Distinct (rev_onto k l)
Distinct-rev_onto [] l d e a = e
Distinct-rev_onto (i ∷ k) l (n, d) e (a, b) =
    Distinct-rev_onto k (i ∷ l) d (a, e) (Apart-cons i k l n b)

Apart-nil : (k : List ℕ) → Apart k []
Apart-nil [] = tt
Apart-nil (i ∷ k) = (tt, Apart-nil k)

keep_every : (f : ℕ → Bool) (l : List ℕ) → All (λ i. f i ≡ true) l → keep f l ≡ l
keep_every f [] a = refl
keep_every f (i ∷ l) (e, a) = ground (arith, keep_every f l a)

keep_nothing : (f : ℕ → Bool) (l : List ℕ) → All (λ i. f i ≡ false) l → keep f l ≡ []
keep_nothing f [] a = refl
keep_nothing f (i ∷ l) (e, a) = ground (arith, keep_nothing f l a)

-- The list behind the requests `l`, which are marked and were put before what was there.
record Requeued (l : List ℕ) (s t : RequeueList) : Type 0 where
  pub listed : t.entries ≡ rev_onto l s.entries
  pub marked : (i : ℕ) → s.soft_barrier i ≡ true → t.soft_barrier i ≡ true
  pub marks : All (λ i. t.soft_barrier i ≡ true) l
  pub prep_same : t.dont_prep ≡ s.dont_prep
  pub stays : Stays sched_list s.hctx t.hctx

-- Where all are marked and have no driver data, all are inserted at the head.
sides :
    (l : List ℕ) (t : RequeueList)
    → All (λ i. t.soft_barrier i ≡ true) l
    → All (λ i. t.dont_prep i ≡ false) l
    → All (λ i. is_headed t i ≡ true) l × All (λ i. is_tailed t i ≡ false) l
sides [] t m p = (tt, tt)
sides (i ∷ l) t (m, ms) (p, ps) =
    let (h, k) = sides l t ms ps in ((ground arith, h), (ground arith, k))

has-cons : (i j : ℕ) (l : List ℕ) → i ≢ j → has j l ≡ false → has j (i ∷ l) ≡ false
unfolding has
has-cons i j l n h = ground arith

module _ (d : Driver) (others : ℕ → Bool) (b : Bool) where
  -- The other requests are on no list when one more is on the requeue list.
  unlisted-cons :
      (i : ℕ) (l : List ℕ) (s t : RequeueList)
      → t.entries ≡ i ∷ s.entries
      → t.hctx.dispatch_list ≡ s.hctx.dispatch_list
      → All (λ j. i ≢ j) l
      → All (λ j. is_listed others j s ≡ false) l
      → All (λ j. is_listed others j t ≡ false) l
  unfolding is_listed
  unlisted-cons i [] s t e f n u = tt
  unlisted-cons i (j ∷ l) s t e f (n, ns) (u, us) =
      let a : has j (i ∷ s.entries) ≡ false = has-cons i j s.entries n (ground (arith, u)) in
      (rw (e, f, a) (ground (arith, u)), unlisted-cons i l s t e f ns us)

  unmarked-update :
      (i : ℕ) (l : List ℕ) (f g : ℕ → Bool)
      → g ≡ update f i true
      → All (λ j. i ≢ j) l
      → All (λ j. f j ≡ false) l
      → All (λ j. g j ≡ false) l
  unmarked-update i [] f g e n u = tt
  unmarked-update i (j ∷ l) f g e (n, ns) (u, us) =
      (rw e (ground arith), unmarked-update i l f g e ns us)

  requeue_each-some :
      (l : List ℕ) (s : RequeueList)
      → Distinct l
      → All (λ i. is_listed others i s ≡ false) l
      → All (λ i. s.soft_barrier i ≡ false) l
      → (t : RequeueList) × (requeue_each d others l b s ≡ some t) × Requeued l s t
  requeue_each-some [] s n o u = (
    s,
    refl,
    record {
      listed = refl;
      marked = λ i e. e;
      marks = tt;
      prep_same = refl;
      stays = Stays-refl s.hctx;
    },
  )
  requeue_each-some (i ∷ l) s (n, m) (o, os) (u, us) =
      let (t, e, p, q, r, w) = requeue_to_list-some d others i b s o u in
      let (t', e', z) =
        requeue_each-some l t m (unlisted-cons i l s t p w.list_same n os)
          (unmarked-update i l s.soft_barrier t.soft_barrier q n us) in
      let first : t.soft_barrier i ≡ true = rw q (ground arith) in
      (
        t',
        rw (requeue_each, e) e',
        record {
          listed = z.listed ∙ ap (rev_onto l) p;
          marked = λ j h. z.marked j (rw q (ground arith));
          marks = (z.marked i first, z.marks);
          prep_same = z.prep_same ∙ r;
          stays = Stays-trans w z.stays;
        },
      )

  -- Different requests, of which none is on a list, none is marked to be inserted at the head and none
  -- has driver data, are requeued one after the other without meeting a BUG_ON, from an empty list;
  -- the work then puts them in front of the scheduler's list in the order in which they were
  -- requeued, and leaves the list empty and that of the hardware queue as it was.
  pub requeue-again :
      (l : List ℕ) (s : RequeueList)
      → s.entries ≡ []
      → Distinct l
      → All (λ i. is_listed others i s ≡ false) l
      → All (λ i. s.soft_barrier i ≡ false) l
      → All (λ i. s.dont_prep i ≡ false) l
      → (t : RequeueList) × (requeue_each d others l b s ≡ some t)
        × (sched_list (requeue_work d t).hctx.effects ≡ l ++ sched_list s.hctx.effects)
        × ((requeue_work d t).hctx.dispatch_list ≡ s.hctx.dispatch_list)
        × ((requeue_work d t).entries ≡ [])
  requeue-again l s n m o u p =
      let (t, e, z) = requeue_each-some l s m o u in
      let listed : t.entries ≡ rev_onto l [] = z.listed ∙ ap (rev_onto l) n in
      let distinct : Distinct t.entries =
        subst Distinct (sym listed) (Distinct-rev_onto l [] m tt (Apart-nil l)) in
      let (none_left, listed_to, sched) = requeue_work-order d t distinct in
      let prep : All (λ i. t.dont_prep i ≡ false) l =
        subst (λ f. All (λ i. f i ≡ false) l) (sym z.prep_same) p in
      let (headed, tailed) = sides l t z.marks prep in
      let all_headed = keep_every (is_headed t) (rev_onto l []) (All-rev_onto _ l [] headed tt) in
      let none_tailed =
        keep_nothing (is_tailed t) (rev_onto l []) (All-rev_onto _ l [] tailed tt) in
      let none_prep = keep_nothing t.dont_prep (rev_onto l []) (All-rev_onto _ l [] prep tt) in
      (
        t,
        e,
        sched
            ∙ cc (listed, all_headed, none_tailed, z.stays.read_same)
            ∙ append-nil (rev_onto (rev_onto l []) (sched_list s.hctx.effects))
            ∙ rev_onto-twice l [] (sched_list s.hctx.effects),
        listed_to ∙ cc (listed, none_prep, z.stays.list_same) ∙ append-nil s.hctx.dispatch_list,
        none_left,
      )
