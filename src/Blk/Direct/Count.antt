-- ===== src/Blk/Direct/Count.antt =====
-- block/blk-mq.c: no request is lost or doubled where requests go to the driver directly.
use blk_switch.Common.{
  ℕ, Bool, List, [], ◌∷◌, ◌++◌, true, false, ◌≡◌, refl, ap, ◌∙◌, arith, ◌+◌, is_empty, ◌==◌,
  if◌then◌else◌,
}
use blk_switch.Blk.{
  Status, ok, resource, dev_resource, failed, Effect, committed, handed, ended, run_queue, Driver,
  Hctx, note, count_call, queue_rq, commit_rqs, put_dispatch_budget, get_driver_tag,
  get_dispatch_budget, bypass_insert, set_busy,
}
use blk_switch.Blk.Trace.{
  left, left-snoc, left-quiet, Stays, put_dispatch_budget-Stays, get_driver_tag-Stays,
  get_dispatch_budget-Stays, requeue-Stays,
}
use blk_switch.Blk.Direct.{
  issued, issue_directly, insert_instead, issue_tagged, issue_budgeted, try_issue, settle,
  try_issue_directly, request_issue_directly, issue_list, try_issue_list_directly,
}

-- How often a request is in a list.
abbrev pub count : ℕ → List ℕ → ℕ
count r [] = 0
count r (i ∷ list) = (if i == r then 1 else 0) + count r list

pub count-append : (r : ℕ) (k l : List ℕ) → count r (k ++ l) ≡ count r k + count r l
count-append r [] l = omega arith
count-append r (i ∷ k) l = omega (arith, count-append r k l)

-- How often a request left or is on the list of the queue.
abbrev pub placed : ℕ → Hctx → ℕ
placed r h = count r (left h.effects) + count r h.dispatch_list

pub placed-Stays : {h k : Hctx} (r : ℕ) → Stays left h k → placed r k ≡ placed r h
placed-Stays r s = cc (ap (count r) s.read_same, ap (count r) s.list_same)

abbrev one : ℕ → ℕ → ℕ
one r i = if i == r then 1 else 0

bypass_insert-placed :
    (r i : ℕ) (at_head runs : Bool) (h : Hctx)
    → placed r (bypass_insert i at_head runs h) ≡ placed r h + one r i
unfolding bypass_insert
bypass_insert-placed r i at_head runs h =
    ground
      (arith, count-append r h.dispatch_list (i ∷ []), left-quiet h.effects (run_queue false) refl)

note-placed :
    (r : ℕ) (e : Effect) (h : Hctx) (l : List ℕ)
    → left (h.effects ++ e ∷ []) ≡ left h.effects ++ l
    → placed r (note e h) ≡ placed r h + count r l
note-placed r e h l p = omega (arith, ap (count r) p, count-append r (left h.effects) l)

-- Whether a request left or stayed, by what a try returned.
abbrev taken : Status → ℕ → ℕ
taken ok n = n
taken resource n = 0
taken dev_resource n = 0
taken failed n = 0

module _ (d : Driver) (r : ℕ) where
  issued-placed : (i : ℕ) (s : Status) (h : Hctx) → placed r (issued d i s h) ≡ placed r h
  unfolding issued
  issued-placed i ok h = refl
  issued-placed i resource h = placed-Stays r (requeue-Stays d left left-quiet i (set_busy true h))
  issued-placed i dev_resource h =
      placed-Stays r (requeue-Stays d left left-quiet i (set_busy true h))
  issued-placed i failed h = refl

  handed-placed :
      (i : ℕ) (last : Bool) (s : Status) (h : Hctx)
      → placed r (note (handed i last s) h) ≡ placed r h + taken s (one r i)
  handed-placed i last ok h =
      omega (
        arith,
        note-placed r (handed i last ok) h (i ∷ []) (left-snoc h.effects (handed i last ok)),
      )
  handed-placed i last resource h = omega (
    arith,
    note-placed r (handed i last resource) h [] (left-snoc h.effects (handed i last resource)),
  )
  handed-placed i last dev_resource h = omega (
    arith,
    note-placed r (handed i last dev_resource) h []
        (left-snoc h.effects (handed i last dev_resource)),
  )
  handed-placed i last failed h = omega (
    arith,
    note-placed r (handed i last failed) h [] (left-snoc h.effects (handed i last failed)),
  )

  -- What the functions below do: a request is placed exactly if they return ok.
  abbrev Placed : ℕ → Hctx → Status × Hctx → Type 0
  Placed i h (s, k) = placed r k ≡ placed r h + taken s (one r i)

  issue_directly-Placed : (i : ℕ) (last : Bool) (h : Hctx) → Placed i h (issue_directly d i last h)
  unfolding issue_directly queue_rq
  issue_directly-Placed i last h =
      let s = d.answer_at h.calls in
      issued-placed i s (queue_rq d i last h).1 ∙ handed-placed i last s h

  insert_instead-Placed :
      (i : ℕ) (bypass runs : Bool) (h : Hctx) → Placed i h (insert_instead i bypass runs h)
  unfolding insert_instead
  insert_instead-Placed i true runs h = omega arith
  insert_instead-Placed i false runs h = bypass_insert-placed r i false runs h

  issue_tagged-Placed :
      (got : Bool) (i : ℕ) (bypass last : Bool) (h : Hctx)
      → Placed i h (issue_tagged d got i bypass last h)
  unfolding issue_tagged
  issue_tagged-Placed true i bypass last h = issue_directly-Placed i last h
  issue_tagged-Placed false i bypass last h =
      insert_instead-Placed i bypass true (put_dispatch_budget d h)
      ∙ ap (λ n. n + taken (insert_instead i bypass true (put_dispatch_budget d h)).0 (one r i))
          (placed-Stays r (put_dispatch_budget-Stays d left left-quiet h))

  issue_budgeted-Placed :
      (budget : Bool) (i : ℕ) (bypass last : Bool) (h : Hctx)
      → Placed i h (issue_budgeted d budget i bypass last h)
  unfolding issue_budgeted
  issue_budgeted-Placed true i bypass last h =
      let (got, k) = get_driver_tag d i h in
      issue_tagged-Placed got i bypass last k
      ∙ ap (λ n. n + taken (issue_tagged d got i bypass last k).0 (one r i))
          (placed-Stays r (get_driver_tag-Stays d left left-quiet i h))
  issue_budgeted-Placed false i bypass last h = insert_instead-Placed i bypass true h

  try_issue-Placed :
      (i : ℕ) (bypass last : Bool) (h : Hctx) → Placed i h (try_issue d i bypass last h)
  unfolding try_issue
  try_issue-Placed i bypass last h =
      let (budget, k) = get_dispatch_budget d (count_call h) in
      ground (
        arith,
        insert_instead-Placed i false false (count_call h),
        insert_instead-Placed i false true (count_call h),
        issue_budgeted-Placed budget i bypass last k,
        placed-Stays r (get_dispatch_budget-Stays d left left-quiet (count_call h)),
      )

  settle-Placed :
      (i : ℕ) (s : Status) (h : Hctx)
      → placed r (settle i s h) + taken s (one r i) ≡ placed r h + one r i
  unfolding settle
  settle-Placed i ok h = refl
  settle-Placed i resource h = omega (arith, bypass_insert-placed r i false true h)
  settle-Placed i dev_resource h = omega (arith, bypass_insert-placed r i false true h)
  settle-Placed i failed h =
      omega (arith, note-placed r (ended i) h (i ∷ []) (left-snoc h.effects (ended i)))

  -- A request that is tried alone leaves, or is put on the list of the queue, exactly once, and no
  -- other request does.
  pub try_issue_directly-once :
      (i : ℕ) (h : Hctx)
      → placed r (try_issue_directly d i h) ≡ placed r h + (if i == r then 1 else 0)
  unfolding try_issue_directly
  try_issue_directly-once i h =
      let (s, k) = try_issue d i false true h in
      omega (arith, settle-Placed i s k, try_issue-Placed i false true h)

  commit_rqs-placed : (h : Hctx) → placed r (commit_rqs d h) ≡ placed r h
  unfolding commit_rqs
  commit_rqs-placed h = ground (arith, note-placed r committed h [] (left-snoc h.effects committed))

  issue_list-placed :
      (list : List ℕ) (h : Hctx)
      → let (k, rest) = issue_list d list h in placed r k + count r rest ≡ placed r h + count r list
  unfolding issue_list request_issue_directly
  issue_list-placed [] h = refl
  issue_list-placed (i ∷ list) h =
      let (s, k) = try_issue d i true (is_empty list) h in
      ground (
        arith,
        try_issue-Placed i true (is_empty list) h,
        issue_list-placed list k,
        issue_list-placed list (note (ended i) k),
        bypass_insert-placed r i false (is_empty list) k,
        note-placed r (ended i) k (i ∷ []) (left-snoc k.effects (ended i)),
      )

  -- Of a list that is tried, every request leaves, is put on the list of the queue, or is left in the
  -- list, as often as it was in the list, and no other request does.
  pub try_issue_list_directly-count :
      (list : List ℕ) (h : Hctx)
      → let (k, rest) = try_issue_list_directly d list h in
        placed r k + count r rest ≡ placed r h + count r list
  unfolding try_issue_list_directly
  try_issue_list_directly-count list h =
      let (k, rest) = issue_list d list h in
      ground (arith, issue_list-placed list h, commit_rqs-placed k)
