-- ===== src/Blk/Submit/Plugged.antt =====
-- block/blk-mq.c: the plug of a task that submits requests counts its requests, and knows when they
-- belong to several queues.
use blk_switch.Common.{
  ℕ, Bool, Option, none, some, List, [], ◌∷◌, ◌++◌, true, false, not, ◌+◌, ◌^◌, ◌%◌, ◌≡◌, ◌≤◌, refl,
  ap, ◌∙◌, sym, arith, ◌==◌, if◌then◌else◌, Bool-cases, Option-cases, inl, inr, All, length,
  length-append, is_empty, ◌&&◌, ◌||◌,
}
use blk_switch.Blk.{Driver}
use blk_switch.Blk.Direct.Count.{count}
use blk_switch.Blk.Plug.{Requests, Plug, Batch, add_rq_to_plug, is_singular, other_queue}
use blk_switch.Blk.Submit.{
  Bio, Site, Asked, Places, remove, is_full, plug_request, replace_plugged, route, make_request,
  max_request_count,
}

-- The plug counts its requests, in 16 bits, and unless it is marked they belong to one queue.
pub record IsCounted (r : Requests) (p : Plug) : Type 0 where
  pub counted : p.rq_count ≡ length p.mq_list % 2 ^ 16
  pub one_queue : p.multiple_queues ≡ false → (v : ℕ) × All (λ i. r.q i ≡ v) p.mq_list

module _ (r : Requests) where
  All-snoc : (P : ℕ → Type 0) (l : List ℕ) (i : ℕ) → All P l → P i → All P (l ++ i ∷ [])
  All-snoc P [] i a p = (p, tt)
  All-snoc P (j ∷ l) i (q, a) p = (q, All-snoc P l i a p)

  All-remove : (P : ℕ → Type 0) (i : ℕ) (l : List ℕ) → All P l → All P (remove i l)
  All-remove P i [] a = tt
  All-remove P i (j ∷ l) (p, a) = elim (Bool-cases (i == j)) [
    | inl e ↦ rw (remove, e) a
    | inr e ↦ rw (remove, e) (p, All-remove P i l a)
  ]

  length-remove : (i : ℕ) (l : List ℕ) → 1 ≤ count i l → length (remove i l) + 1 ≡ length l
  length-remove i [] h = omega arith
  length-remove i (j ∷ l) h =
      let f = length-remove i l in
      elim (Bool-cases (i == j)) [
        | inl e ↦ ground arith
        | inr e ↦ let g = f (ground arith) in ground arith
      ]

  abbrev OneQueue : List ℕ → Type 0
  OneQueue l = (v : ℕ) × All (λ i. r.q i ≡ v) l

  first-OneQueue :
      (i j : ℕ) (l : List ℕ)
      → OneQueue (j ∷ l)
      → other_queue r i (j ∷ l) ≡ false
      → OneQueue (j ∷ l ++ i ∷ [])
  first-OneQueue i j l (v, (e, a)) n = (v, (e, All-snoc (λ k. r.q k ≡ v) l i a (ground arith)))

  snoc-OneQueue :
      (i : ℕ) (l : List ℕ) (m : Bool)
      → (m ≡ false → OneQueue l)
      → (m || (not (is_singular (l ++ i ∷ [])) && other_queue r i (l ++ i ∷ []))) ≡ false
      → OneQueue (l ++ i ∷ [])
  snoc-OneQueue i l true o e = cc
  snoc-OneQueue i [] false o e = (r.q i, (refl, tt))
  snoc-OneQueue i (j ∷ []) false o e = first-OneQueue i j [] (o refl) e
  snoc-OneQueue i (j ∷ k ∷ l) false o e = first-OneQueue i j (k ∷ l) (o refl) e

  add_rq_to_plug-IsCounted : (i : ℕ) (p : Plug) → IsCounted r p → IsCounted r (add_rq_to_plug r i p)
  unfolding add_rq_to_plug
  add_rq_to_plug-IsCounted i p c = record {
    counted = omega (arith, c.counted, length-append p.mq_list (i ∷ []));
    one_queue = snoc-OneQueue i p.mq_list p.multiple_queues c.one_queue;
  }

module _ (d : ℕ → Driver) (r : Requests) (flush : Plug → List Batch × Plug) where
  -- What is documented of `blk_flush_plug_list`: the plug is empty behind it.
  abbrev pub Empties : Type 0
  Empties = (p : Plug) → ((flush p).1.mq_list ≡ []) × ((flush p).1.rq_count ≡ 0)

  -- The request of the same queue is in the plug.
  abbrev pub Plugs : Option ℕ → Plug → Type 0
  Plugs none p = Unit
  Plugs (some j) p = 1 ≤ count j p.mq_list

  flush-IsCounted : Empties → (p : Plug) → IsCounted r (flush p).1
  flush-IsCounted f p =
      let (e, n) = f p in
      record { counted = n ∙ sym (ap (λ l. length l % 2 ^ 16) e); one_queue = λ h. (0, rw e tt) }

  plug_request-IsCounted :
      (i : ℕ) (s : Places)
      → Empties
      → IsCounted r s.plug
      → IsCounted r (plug_request d r flush i s).plug
  unfolding plug_request
  plug_request-IsCounted i s f c = elim (Bool-cases (is_full d r flush s.plug)) [
    | inl e ↦ rw e (add_rq_to_plug-IsCounted r i (flush s.plug).1 (flush-IsCounted f s.plug))
    | inr e ↦ rw e (add_rq_to_plug-IsCounted r i s.plug c)
  ]

  replace_plugged-IsCounted :
      (i : ℕ) (same : Option ℕ) (s : Places)
      → Plugs same s.plug
      → IsCounted r s.plug
      → IsCounted r (replace_plugged d r flush i same s).plug
  unfolding replace_plugged
  replace_plugged-IsCounted i none s p c = add_rq_to_plug-IsCounted r i s.plug c
  replace_plugged-IsCounted i (some j) s p c = add_rq_to_plug-IsCounted r i _ (record {
    counted = omega (arith, c.counted, length-remove r j s.plug.mq_list p);
    one_queue =
        λ m. let (v, a) = c.one_queue m in (v, All-remove r (λ k. r.q k ≡ v) j s.plug.mq_list a);
  })

  Plugs-if :
      (b : Bool) (same : Option ℕ) (p : Plug)
      → Plugs same p
      → Plugs (if b then none else same) p × Plugs (if b then same else none) p
  Plugs-if true same p q = (tt, q)
  Plugs-if false same p q = (q, tt)

  route-IsCounted :
      (bio : Bio) (q : Site) (same : Option ℕ) (i : ℕ) (s : Places)
      → Empties
      → Plugs same s.plug
      → IsCounted r s.plug
      → IsCounted r (route d r flush bio q same i s).plug
  unfolding route
  route-IsCounted bio q same i s f p c =
      let a = plug_request-IsCounted i s f c in
      let (h, h') = Plugs-if (is_empty s.plug.mq_list) same s.plug p in
      let b = replace_plugged-IsCounted i (if is_empty s.plug.mq_list then none else same) s h c in
      ground arith

  -- With a flush that empties the plug, and with the request of the same queue in the plug:
  -- behind a bio, as before it, the plug counts its requests in 16 bits, and unless it is marked
  -- they belong to one request queue.
  pub make_request-IsCounted :
      (bio : Bio) (q : Site) (a : Asked) (s : Places)
      → Empties
      → Plugs a.same_queue s.plug
      → IsCounted r s.plug
      → IsCounted r (make_request d r flush bio q a s).1.plug
  unfolding make_request
  make_request-IsCounted bio q a s f p c =
      let merges = not bio.is_flush_fua && not q.no_merges in
      let same : Option ℕ = if merges then a.same_queue else none in
      let (h, h') = Plugs-if merges a.same_queue s.plug p in
      elim (Option-cases a.got) [
        | inl e ↦ ground arith
        | inr (i, e) ↦ let t = route-IsCounted bio q same i s f h' c in ground arith
      ]

  plug_request-le :
      (i : ℕ) (s : Places)
      → Empties
      → s.plug.rq_count ≡ length s.plug.mq_list % 2 ^ 16
      → length s.plug.mq_list ≤ max_request_count
      → length (plug_request d r flush i s).plug.mq_list ≤ max_request_count
  unfolding plug_request is_full add_rq_to_plug
  plug_request-le i s f c l =
      let (e, n) = f s.plug in
      ground (
        arith,
        ap length e,
        length-append s.plug.mq_list (i ∷ []),
        length-append (flush s.plug).1.mq_list (i ∷ []),
      )

  route-le :
      (bio : Bio) (q : Site) (same : Option ℕ) (i : ℕ) (s : Places)
      → Empties
      → ((k : ℕ) → (d k).has_commit ≡ true)
      → s.plug.rq_count ≡ length s.plug.mq_list % 2 ^ 16
      → length s.plug.mq_list ≤ max_request_count
      → length (route d r flush bio q same i s).plug.mq_list ≤ max_request_count
  unfolding route
  route-le bio q same i s f m c l =
      let e = m (r.hctx i) in let g = plug_request-le i s f c l in ground arith

  -- With a flush that empties the plug, and drivers that have `commit_rqs`: a plug that counts its
  -- requests and has at most 16 of them has at most 16 behind a bio.
  pub make_request-le :
      (bio : Bio) (q : Site) (a : Asked) (s : Places)
      → Empties
      → ((k : ℕ) → (d k).has_commit ≡ true)
      → s.plug.rq_count ≡ length s.plug.mq_list % 2 ^ 16
      → length s.plug.mq_list ≤ max_request_count
      → length (make_request d r flush bio q a s).1.plug.mq_list ≤ max_request_count
  unfolding make_request
  make_request-le bio q a s f m c l =
      let same : Option ℕ =
        if not bio.is_flush_fua && not q.no_merges then a.same_queue else none in
      elim (Option-cases a.got) [
        | inl e ↦ ground arith
        | inr (i, e) ↦ let t = route-le bio q same i s f m c l in ground arith
      ]
