-- ===== src/Blk/Tests/Submit.antt =====
-- block/blk-mq.c: a plug with requests for two queues, a bio that is submitted, and requests that are
-- requeued.
use blk_switch.Common.{
  ℕ, Bool, none, some, List, [], ◌∷◌, true, false, ◌+◌, ◌≡◌, refl, arith, ap, ◌∙◌, if◌then◌else◌,
  ◌==◌, ℤ, Bool-cases, inl, inr,
}
use blk_switch.Blk.{ok, requeue}
use blk_switch.Blk.Rounds.Touch.{Distinct}
use blk_switch.Blk.Direct.Count.{count}
use blk_switch.Blk.Plug.{
  Requests, Plug, Batch, plug_rq_cmp, batches, all_batches, flush_order, flush_plug_list,
}
use blk_switch.Blk.Plug.Batches.{
  requests_of, OneQueue, AllBatches, Increasing, is_positive, Sorted, flush_plug_list-batches,
  flush_plug_list-Increasing,
}
use blk_switch.Blk.Submit.{Bio, Site, Asked, Places, make_request}
use blk_switch.Blk.Submit.Once.{Flushes, total, submits, make_request-once}
use blk_switch.Blk.Submit.Plugged.{IsCounted, make_request-IsCounted}
use blk_switch.Blk.Requeue.{
  RequeueList, has, is_listed, requeue_each, requeue_to_list, requeue_work,
}
use blk_switch.Blk.Requeue.Order.{sched_list, requeue_work-order}
use blk_switch.Blk.Requeue.Again.{requeue-again}
use blk_switch.Blk.Tests.{driver, hctx}

-- The requests 4 and 6 belong to the core 0, and 5 to the core 1.
abbrev requests : Requests
requests = record {
  q = λ i. 0;
  ctx = λ i. if i == 5 then 1 else 0;
  hctx = λ i. if i == 5 then 1 else 0;
  place = λ i. i;
  bytes = λ i. 4096;
}

abbrev plug : Plug
plug = record { mq_list = 4 ∷ 5 ∷ 6 ∷ []; rq_count = 3; multiple_queues = true }

-- An insertion sort that stands for `list_sort`.
abbrev insert_by : (ℕ → ℕ → ℤ) → ℕ → List ℕ → List ℕ
insert_by c i [] = i ∷ []
insert_by c i (j ∷ l) = elim (is_positive (c i j)) [
  | true ↦ j ∷ insert_by c i l
  | false ↦ i ∷ j ∷ l
]

abbrev sort_by : (ℕ → ℕ → ℤ) → List ℕ → List ℕ
sort_by c [] = []
sort_by c (i ∷ l) = insert_by c i (sort_by c l)

flush_plug_list-batches_example :
    let (bs, p) = flush_plug_list requests sort_by false plug in
    (requests_of bs ≡ flush_order requests sort_by plug)
    × AllBatches (OneQueue requests) bs
    × (p.mq_list ≡ [])
    × (p.rq_count ≡ 0)
flush_plug_list-batches_example = flush_plug_list-batches requests false sort_by plug

-- The plug is flushed with two calls: 4 and 6, then 5.
two_calls :
    (flush_plug_list requests sort_by false plug).0
    ≡ record { to_hctx = 0; to_ctx = 0; rq_list = 4 ∷ 6 ∷ []; from_schedule = false }
      ∷ record { to_hctx = 1; to_ctx = 1; rq_list = 5 ∷ []; from_schedule = false }
      ∷ []
unfolding flush_plug_list flush_order all_batches batches plug_rq_cmp
two_calls = refl

module _ (r : Requests) where
  -- If a request comes behind another, that does not come behind it.
  cmp-total :
      (i j : ℕ) → is_positive (plug_rq_cmp r i j) ≡ true → is_positive (plug_rq_cmp r j i) ≡ false
  unfolding plug_rq_cmp
  cmp-total i j e = ground arith

  insert-Sorted : (i : ℕ) (l : List ℕ) → Sorted r l → Sorted r (insert_by (plug_rq_cmp r) i l)
  insert-Sorted i [] n = tt
  insert-Sorted i (j ∷ []) n = elim (Bool-cases (is_positive (plug_rq_cmp r i j))) [
    | inl e ↦ rw (insert_by, e) (cmp-total i j e, tt)
    | inr e ↦ rw (insert_by, e) (e, tt)
  ]
  insert-Sorted i (j ∷ k ∷ l) (n, m) =
      let ih = insert-Sorted i (k ∷ l) m in
      elim (Bool-cases (is_positive (plug_rq_cmp r i j))) [
        | inl e ↦ elim (Bool-cases (is_positive (plug_rq_cmp r i k))) [
          | inl f ↦ rw (insert_by, e, insert_by, f) (n, rw (insert_by, f) at ih)
          | inr f ↦ rw (insert_by, e, insert_by, f) (cmp-total i j e, (f, m))
        ]
        | inr e ↦ rw (insert_by, e) (e, (n, m))
      ]

  sort-Sorted : (l : List ℕ) → Sorted r (sort_by (plug_rq_cmp r) l)
  sort-Sorted [] = tt
  sort-Sorted (i ∷ l) = insert-Sorted i (sort_by (plug_rq_cmp r) l) (sort-Sorted l)

flush_plug_list-Increasing_example : Increasing (flush_plug_list requests sort_by false plug).0
flush_plug_list-Increasing_example =
    flush_plug_list-Increasing requests false sort_by plug (sort-Sorted requests) (omega arith) refl

-- A request queue with full plugging, and a task whose plug has three requests.
abbrev bio : Bio
bio = record { is_flush_fua = false; is_sync = true; is_write = true; is_nowait = false }

abbrev site : Site
site = record { is_zoned = false; no_merges = false; is_nonrot = true }

abbrev asked : Asked
asked = record {
  is_prepared = true;
  is_plug_merged = false;
  same_queue = some 4;
  is_sched_merged = false;
  got = some 7;
}

abbrev places : Places
places = record { plug = plug; has_plug = true; hctxs = λ k. hctx; batched = []; flushes = [] }

-- A `blk_flush_plug_list` that does no more than to flush the requests of the block layer.
abbrev flush_blocks : Plug → List Batch × Plug
flush_blocks p = flush_plug_list requests (λ c l. l) false p

flush-same : (p : Plug) → flush_order requests (λ c l. l) p ≡ p.mq_list
unfolding flush_order
flush-same p = ground arith

flush-keeps : (x : ℕ) → Flushes (λ k. driver 9 ok) requests flush_blocks x
unfolding flush_plug_list
flush-keeps x p =
    let (e, q, m, n) = flush_plug_list-batches requests false (λ c l. l) p in
    omega (arith, ap (count x) (e ∙ flush-same p), ap (count x) m)

make_request-once_example :
    let (o, t) = make_request (λ k. driver 9 ok) requests flush_blocks bio site asked places in
    total (λ k. driver 9 ok) requests flush_blocks 7 t
    ≡ 0 + submits (λ k. driver 9 ok) requests flush_blocks 7 o
make_request-once_example =
    make_request-once (λ k. driver 9 ok) requests flush_blocks 7 bio site asked places
      (flush-keeps 7) (omega arith)

plug-IsCounted : IsCounted requests plug
plug-IsCounted = record { counted = refl; one_queue = λ e. cc }

flush-empties : (p : Plug) → ((flush_blocks p).1.mq_list ≡ []) × ((flush_blocks p).1.rq_count ≡ 0)
unfolding flush_plug_list
flush-empties p = (refl, refl)

make_request-IsCounted_example :
    IsCounted requests
      (make_request (λ k. driver 9 ok) requests flush_blocks bio site asked places).1.plug
make_request-IsCounted_example =
    make_request-IsCounted (λ k. driver 9 ok) requests flush_blocks bio site asked places
      flush-empties (omega arith) plug-IsCounted

-- A list of 3, which is to be inserted at the head, 2, which has driver data, and 1.
abbrev requeued : RequeueList
requeued = record {
  entries = 3 ∷ 2 ∷ 1 ∷ [];
  soft_barrier = λ i. i == 3;
  dont_prep = λ i. i == 2;
  is_kicked = true;
  hctx = hctx;
}

entries-Distinct : Distinct (3 ∷ 2 ∷ 1 ∷ [])
entries-Distinct = ((omega arith, (omega arith, tt)), ((omega arith, tt), (tt, tt)))

requeue_work-order_example :
    let k = requeue_work (driver 9 ok) requeued in
    (k.entries ≡ [])
    × (k.hctx.dispatch_list ≡ 9 ∷ 2 ∷ [])
    × (sched_list k.hctx.effects ≡ 3 ∷ 1 ∷ [])
requeue_work-order_example = requeue_work-order (driver 9 ok) requeued entries-Distinct

abbrev fresh : RequeueList
fresh = record requeued { entries = []; soft_barrier = λ i. false; dont_prep = λ i. false }

-- The request 7 is in a plug, and 9 on the list of the hardware queue.
abbrev in_plug : ℕ → Bool
in_plug i = i == 7

-- A request on the list of the hardware queue is not requeued.
requeue_each_listed : requeue_each (driver 9 ok) in_plug (9 ∷ []) true fresh ≡ none
unfolding requeue_to_list is_listed has requeue
requeue_each_listed = refl

requeue-again_example :
    (t : RequeueList) × (requeue_each (driver 9 ok) in_plug (3 ∷ 2 ∷ 1 ∷ []) true fresh ≡ some t)
    × (sched_list (requeue_work (driver 9 ok) t).hctx.effects ≡ 3 ∷ 2 ∷ 1 ∷ [])
    × ((requeue_work (driver 9 ok) t).hctx.dispatch_list ≡ 9 ∷ [])
    × ((requeue_work (driver 9 ok) t).entries ≡ [])
unfolding is_listed has
requeue-again_example =
    requeue-again (driver 9 ok) in_plug true (3 ∷ 2 ∷ 1 ∷ []) fresh refl entries-Distinct
      (refl, (refl, (refl, tt))) (refl, (refl, (refl, tt))) (refl, (refl, (refl, tt)))
