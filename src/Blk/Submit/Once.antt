-- ===== src/Blk/Submit/Once.antt =====
-- block/blk-mq.c: a request that blk_mq_make_request submits is in one place.
use blk_switch.Common.{
  ℕ, Bool, Option, none, some, List, [], ◌∷◌, ◌++◌, true, false, not, ◌&&◌, ◌+◌, ◌-◌, ◌^◌, ◌%◌, ◌≡◌,
  ◌≤◌, refl, ap, ◌∙◌, arith, ◌==◌, if◌then◌else◌, Bool-cases, Option-cases, inl, inr, is_empty,
  ==→eq, ==_refl,
}
use mathlib.Core.List.{append_assoc}
use blk_switch.Common.Map.{update}
use blk_switch.Blk.{Driver, Hctx, run_queue, sched_insert, note}
use blk_switch.Blk.Trace.{left, left-snoc, left-quiet}
use blk_switch.Blk.Direct.{try_issue_directly}
use blk_switch.Blk.Direct.Count.{count, count-append, placed, try_issue_directly-once}
use blk_switch.Blk.Plug.{Requests, Plug, Batch, add_rq_to_plug}
use blk_switch.Blk.Plug.Batches.{requests_of}
use blk_switch.Blk.Submit.{
  Bio, Site, Asked, Outcome, unprepared, merged, no_request, submitted, Places, remove,
  plug_request, replace_plugged, route, make_request,
}

requests_of-append : (k l : List Batch) → requests_of (k ++ l) ≡ requests_of k ++ requests_of l
requests_of-append [] l = refl
requests_of-append (b ∷ k) l =
    ground (arith, requests_of-append k l, append_assoc b.rq_list (requests_of k) (requests_of l))

count-remove :
    (x i : ℕ) (l : List ℕ)
    → 1 ≤ count i l
    → count x (remove i l) + (if i == x then 1 else 0) ≡ count x l
count-remove x i [] h = omega arith
count-remove x i (j ∷ l) h =
    let f = count-remove x i l in
    elim (Bool-cases (i == j)) [
      | inl e ↦ ground arith
      | inr e ↦ let g = f (ground arith) in ground arith
    ]

module _ (r : Requests) (x : ℕ) where
  -- A request of another hardware queue is another request.
  elsewhere : (i n : ℕ) → (r.hctx i == r.hctx x) ≡ false → n ≡ n + (if i == x then 1 else 0)
  elsewhere i n c = elim (Bool-cases (i == x)) [
    | inl e ↦
        let q = ap r.hctx (==→eq i x e) in let c' = ==_refl (r.hctx x) in absurd (cc (c, c', q))
    | inr e ↦ ground arith
  ]

module _ (d : ℕ → Driver) (r : Requests) (flush : Plug → List Batch × Plug) (x : ℕ) where
  -- How often the request `x` is in any of the places; a hardware queue has its own requests.
  abbrev pub total : Places → ℕ
  total s =
      count x s.plug.mq_list
      + count x (requests_of s.batched)
      + count x s.flushes
      + placed x (s.hctxs (r.hctx x))

  add_rq_to_plug-count :
      (i : ℕ) (p : Plug)
      → count x (add_rq_to_plug r i p).mq_list ≡ count x p.mq_list + (if i == x then 1 else 0)
  unfolding add_rq_to_plug
  add_rq_to_plug-count i p = omega (arith, count-append x p.mq_list (i ∷ []))

  abbrev one : ℕ → ℕ
  one i = if i == x then 1 else 0

  -- At the hardware queue of the request `i`, which the new state `b` places once more.
  moved :
      (i : ℕ) (b : Hctx) (h : ℕ → Hctx)
      → placed x b ≡ placed x (h (r.hctx i)) + one i
      → placed x (update h (r.hctx i) b (r.hctx x)) ≡ placed x (h (r.hctx x)) + one i
  moved i b h e = elim (Bool-cases (r.hctx i == r.hctx x)) [
    | inl c ↦
        let q = ==→eq (r.hctx i) (r.hctx x) c in
        ap (λ t. placed x (if t then b else h (r.hctx x))) c
        ∙ e
        ∙ ap (λ t. placed x (h t) + one i) q
    | inr c ↦
        ap (λ t. placed x (if t then b else h (r.hctx x))) c
        ∙ elsewhere r x i (placed x (h (r.hctx x))) c
  ]

  noted : (i : ℕ) (h : Hctx) → placed x (note (sched_insert i false) h) ≡ placed x h + one i
  noted i h = omega (
    arith,
    ap (count x) (left-snoc h.effects (sched_insert i false)),
    count-append x (left h.effects) (i ∷ []),
  )

  ran :
      (k : ℕ) (h : ℕ → Hctx)
      → placed x (update h k (note (run_queue true) (h k)) (r.hctx x)) ≡ placed x (h (r.hctx x))
  ran k h = elim (Bool-cases (k == r.hctx x)) [
    | inl c ↦
        ap (λ t. placed x (if t then note (run_queue true) (h k) else h (r.hctx x))) c
        ∙ ap (λ t. count x t + count x (h k).dispatch_list)
            (left-quiet (h k).effects (run_queue true) refl)
        ∙ ap (λ t. placed x (h t)) (==→eq k (r.hctx x) c)
    | inr c ↦ ap (λ t. placed x (if t then note (run_queue true) (h k) else h (r.hctx x))) c
  ]

  -- What is documented of `blk_flush_plug_list`: the requests of the plug are handed over.
  abbrev pub Flushes : Type 0
  Flushes =
      (p : Plug)
      → count x (flush p).1.mq_list + count x (requests_of (flush p).0) ≡ count x p.mq_list

  -- The request of the same queue is in the plug.
  abbrev pub InPlug : Option ℕ → Plug → Type 0
  InPlug none p = Unit
  InPlug (some j) p = 1 ≤ count j p.mq_list

  plug_request-total :
      (i : ℕ) (s : Places) → Flushes → total (plug_request d r flush i s) ≡ total s + one i
  unfolding plug_request
  plug_request-total i s f = ground (
    arith,
    f s.plug,
    add_rq_to_plug-count i (flush s.plug).1,
    add_rq_to_plug-count i s.plug,
    ap (count x) (requests_of-append s.batched (flush s.plug).0),
    ap (count x) (requests_of-append s.batched []),
    count-append x (requests_of s.batched) (requests_of (flush s.plug).0),
    count-append x (requests_of s.batched) [],
  )

  replace_plugged-total :
      (i : ℕ) (same : Option ℕ) (s : Places)
      → InPlug same s.plug
      → total (replace_plugged d r flush i same s) ≡ total s + one i
  unfolding replace_plugged
  replace_plugged-total i none s p = omega (arith, add_rq_to_plug-count i s.plug)
  replace_plugged-total i (some j) s p =
      let q = record s.plug {
        mq_list = remove j s.plug.mq_list;
        rq_count = (s.plug.rq_count + 2 ^ 16 - 1) % 2 ^ 16;
      } in
      let h = s.hctxs (r.hctx j) in
      omega (
        arith,
        add_rq_to_plug-count i q,
        count-remove x j s.plug.mq_list p,
        moved j (try_issue_directly (d (r.hctx j)) j h) s.hctxs
            (try_issue_directly-once (d (r.hctx j)) x j h),
      )

  InPlug-empty :
      (b : Bool) (same : Option ℕ) (p : Plug) → InPlug same p → InPlug (if b then none else same) p
  InPlug-empty true same p q = tt
  InPlug-empty false same p q = q

  InPlug-if :
      (b : Bool) (same : Option ℕ) (p : Plug) → InPlug same p → InPlug (if b then same else none) p
  InPlug-if true same p q = q
  InPlug-if false same p q = tt

  route-total :
      (bio : Bio) (q : Site) (same : Option ℕ) (i : ℕ) (s : Places)
      → Flushes
      → InPlug same s.plug
      → total (route d r flush bio q same i s) ≡ total s + one i
  unfolding route
  route-total bio q same i s f p =
      let h = s.hctxs (r.hctx i) in
      ground (
        arith,
        plug_request-total i s f,
        replace_plugged-total i (if is_empty s.plug.mq_list then none else same) s
            (InPlug-empty (is_empty s.plug.mq_list) same s.plug p),
        moved i (note (sched_insert i false) h) s.hctxs (noted i h),
        moved i (try_issue_directly (d (r.hctx i)) i h) s.hctxs
            (try_issue_directly-once (d (r.hctx i)) x i h),
        ran (r.hctx i) s.hctxs,
        count-append x s.flushes (i ∷ []),
      )

  -- The request of an outcome
  abbrev pub submits : Outcome → ℕ
  submits unprepared = 0
  submits merged = 0
  submits (no_request b) = 0
  submits (submitted i) = one i

  -- With a flush of the plug that hands over what is in it, and with the request of the same queue
  -- in the plug: the request that is submitted is in one place more than before, and every other
  -- request is in as many places as it was; where no request is submitted, nothing moves.
  pub make_request-once :
      (bio : Bio) (q : Site) (a : Asked) (s : Places)
      → Flushes
      → InPlug a.same_queue s.plug
      → let (o, t) = make_request d r flush bio q a s in total t ≡ total s + submits o
  unfolding make_request
  make_request-once bio q a s f p =
      let merges = not bio.is_flush_fua && not q.no_merges in
      let same : Option ℕ = if merges then a.same_queue else none in
      elim (Option-cases a.got) [
        | inl e ↦ ground arith
        | inr (i, e) ↦
            let t = route-total bio q same i s f (InPlug-if merges a.same_queue s.plug p) in
            ground arith
      ]
