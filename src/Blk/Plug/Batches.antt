-- ===== src/Blk/Plug/Batches.antt =====
-- block/blk-mq.c: blk_mq_flush_plug_list hands over every request once, one call for a queue.
use blk_switch.Common.{
  ℕ, Bool, List, [], ◌∷◌, ◌++◌, true, false, ◌≡◌, ◌≢◌, ◌<◌, ◌≤◌, ◌⊎◌, inl, inr, refl, arith, All,
  ◌==◌, not, Bool-cases, lt→ltb,
}
use mathlib.Core.List.{append_assoc}
use blk_switch.Common.{ℤ, pos, negsuc}
use blk_switch.Blk.Plug.{
  Requests, Plug, Batch, plug_rq_cmp, open_batch, is_for, batches, all_batches, flush_order,
  flush_plug_list,
}

-- The requests of the batches, in their order.
abbrev pub requests_of : List Batch → List ℕ
requests_of [] = []
requests_of (b ∷ bs) = b.rq_list ++ requests_of bs

-- A batch has a request, and all of its requests belong to its two queues.
abbrev pub OneQueue : Requests → Batch → Type 0
OneQueue r b = (b.rq_list ≢ []) × All (λ i. (r.hctx i ≡ b.to_hctx) × (r.ctx i ≡ b.to_ctx)) b.rq_list

abbrev pub AllBatches : (Batch → Type 0) → List Batch → Type 0
AllBatches P [] = Unit
AllBatches P (b ∷ bs) = P b × AllBatches P bs

module _ (r : Requests) (s : Bool) where
  batches-requests :
      (list : List ℕ) (b : Batch) → requests_of (batches r s list b) ≡ b.rq_list ++ list
  unfolding batches
  batches-requests [] b = refl
  batches-requests (i ∷ list) b =
      let o : Batch = open_batch r s i in
      let b' : Batch = record b { rq_list = b.rq_list ++ i ∷ [] } in
      ground (
        arith,
        batches-requests list b',
        batches-requests list o,
        append_assoc b.rq_list (i ∷ []) list,
      )

  All-snoc : (P : ℕ → Type 0) (list : List ℕ) (i : ℕ) → All P list → P i → All P (list ++ i ∷ [])
  All-snoc P [] i a p = (p, tt)
  All-snoc P (j ∷ list) i (q, a) p = (q, All-snoc P list i a p)

  snoc-ne : (list : List ℕ) (i : ℕ) → list ++ i ∷ [] ≢ []
  snoc-ne [] i e = cc
  snoc-ne (j ∷ list) i e = cc

  batches-OneQueue :
      (list : List ℕ) (b : Batch) → OneQueue r b → AllBatches (OneQueue r) (batches r s list b)
  unfolding batches
  batches-OneQueue [] b q = (q, tt)
  batches-OneQueue (i ∷ list) b q = elim (Bool-cases (is_for r i b)) [
    | inl e ↦
        rw (batches, e)
          (batches-OneQueue list (record b { rq_list = b.rq_list ++ i ∷ [] })
            (
              snoc-ne b.rq_list i,
              All-snoc (λ j. (r.hctx j ≡ b.to_hctx) × (r.ctx j ≡ b.to_ctx)) b.rq_list i q.1
                  (ground arith, ground arith),
            ))
    | inr e ↦
        rw (batches, e)
          (q, batches-OneQueue list (open_batch r s i) ((λ z. cc), ((refl, refl), tt)))
  ]

  all_batches-lem :
      (list : List ℕ)
      → (requests_of (all_batches r s list) ≡ list) × AllBatches (OneQueue r) (all_batches r s list)
  unfolding all_batches
  all_batches-lem [] = (refl, tt)
  all_batches-lem (i ∷ list) = (
    batches-requests list (open_batch r s i),
    batches-OneQueue list (open_batch r s i) ((λ z. cc), ((refl, refl), tt)),
  )

-- The queues of a batch come before those of another.
abbrev pub Before : Batch → Batch → Type 0
Before b c = (b.to_ctx < c.to_ctx) ⊎ ((b.to_ctx ≡ c.to_ctx) × (b.to_hctx < c.to_hctx))

abbrev pub Increasing : List Batch → Type 0
Increasing [] = Unit
Increasing (b ∷ bs) = AllBatches (Before b) bs × Increasing bs

abbrev pub is_positive : ℤ → Bool
is_positive (pos n) = not (n == 0)
is_positive (negsuc n) = false

-- No request comes behind the next by `plug_rq_cmp`.
abbrev pub Sorted : Requests → List ℕ → Type 0
Sorted r [] = Unit
Sorted r (i ∷ []) = Unit
Sorted r (i ∷ j ∷ list) = (is_positive (plug_rq_cmp r i j) ≡ false) × Sorted r (j ∷ list)

module _ (r : Requests) (s : Bool) where
  cmp-Before :
      (i j : ℕ)
      → is_positive (plug_rq_cmp r i j) ≡ false
      → (r.ctx i < r.ctx j) ⊎ ((r.ctx i ≡ r.ctx j) × (r.hctx i ≤ r.hctx j))
  unfolding plug_rq_cmp
  cmp-Before i j e = ground arith

  abbrev Of : ℕ → Batch → Type 0
  Of i b = (b.to_ctx ≡ r.ctx i) × (b.to_hctx ≡ r.hctx i)

  open-Before :
      (i j : ℕ) (b : Batch)
      → Of i b
      → is_positive (plug_rq_cmp r i j) ≡ false
      → is_for r j b ≡ false
      → Before b (open_batch r s j)
  open-Before i j b (e, e') p n = let c = cmp-Before i j p in ground arith

  Before-trans : (a b c : Batch) → Before a b → Before b c → Before a c
  Before-trans a b c p q = ground arith

  batches-Before :
      (i : ℕ) (list : List ℕ) (k b : Batch)
      → Of i b
      → Sorted r (i ∷ list)
      → Before k b
      → AllBatches (Before k) (batches r s list b)
  unfolding batches
  batches-Before i [] k b o n p = (p, tt)
  batches-Before i (j ∷ list) k b o (c, n) p = elim (Bool-cases (is_for r j b)) [
    | inl e ↦
        rw (batches, e)
          (batches-Before j list k (record b { rq_list = b.rq_list ++ j ∷ [] })
            (ground arith, ground arith) n p)
    | inr e ↦
        rw (batches, e)
          (
            p,
            batches-Before j list k (open_batch r s j) (refl, refl) n
                (Before-trans k b (open_batch r s j) p (open-Before i j b o c e)),
          )
  ]

  batches-Increasing :
      (i : ℕ) (list : List ℕ) (b : Batch)
      → Of i b
      → Sorted r (i ∷ list)
      → Increasing (batches r s list b)
  unfolding batches
  batches-Increasing i [] b o n = (tt, tt)
  batches-Increasing i (j ∷ list) b o (c, n) = elim (Bool-cases (is_for r j b)) [
    | inl e ↦
        rw (batches, e)
          (batches-Increasing j list (record b { rq_list = b.rq_list ++ j ∷ [] })
            (ground arith, ground arith) n)
    | inr e ↦
        rw (batches, e)
          (
            batches-Before j list b (open_batch r s j) (refl, refl) n (open-Before i j b o c e),
            batches-Increasing j list (open_batch r s j) (refl, refl) n,
          )
  ]

  all_batches-Increasing : (list : List ℕ) → Sorted r list → Increasing (all_batches r s list)
  unfolding all_batches
  all_batches-Increasing [] n = tt
  all_batches-Increasing (i ∷ list) n = batches-Increasing i list (open_batch r s i) (refl, refl) n

  -- A flush hands over the requests of the plug, in their order or, where it sorts them, in that of
  -- `list_sort`. A call has at least one request, and all of them belong to the two queues of the
  -- call. The plug is empty behind it.
  pub flush_plug_list-batches :
      (sort : (ℕ → ℕ → ℤ) → List ℕ → List ℕ) (p : Plug)
      → let (bs, p') = flush_plug_list r sort s p in
        (requests_of bs ≡ flush_order r sort p)
        × AllBatches (OneQueue r) bs
        × (p'.mq_list ≡ [])
        × (p'.rq_count ≡ 0)
  unfolding flush_plug_list
  flush_plug_list-batches sort p =
      let (e, q) = all_batches-lem r s (flush_order r sort p) in (e, q, refl, refl)

  -- With a `list_sort` whose result is sorted: a plug of more than two requests for several queues
  -- is flushed with one call for each pair of queues, since the pairs of the calls increase.
  pub flush_plug_list-Increasing :
      (sort : (ℕ → ℕ → ℤ) → List ℕ → List ℕ) (p : Plug)
      → ((list : List ℕ) → Sorted r (sort (plug_rq_cmp r) list))
      → 2 < p.rq_count
      → p.multiple_queues ≡ true
      → Increasing (flush_plug_list r sort s p).0
  unfolding flush_plug_list flush_order
  flush_plug_list-Increasing sort p n c m =
      rw (m, lt→ltb 2 p.rq_count c)
        (all_batches-Increasing (sort (plug_rq_cmp r) p.mq_list) (n p.mq_list))
