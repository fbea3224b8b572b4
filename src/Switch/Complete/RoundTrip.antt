-- ===== src/Switch/Complete/RoundTrip.antt =====
-- The allocation of a request and its end cancel out. The tag 0 is reserved for the
-- connect command by both drivers (reserved_tags), so that no request of a bio has it.
use mathlib.Core.Path.{subst}
use blk_switch.Common.{
  ℕ, Bool, Option, List, [], ◌∷◌, none, some, ◌+◌, ◌-◌, ◌^◌, ◌<◌, ◌≡◌, ◌≢◌, inl, inr, refl, arith,
  ◌∙◌, Option-cases, sym, ap, if◌then◌else◌,
}
use blk_switch.Switch.{Switch, Params, Kernel, Bio}
use blk_switch.Switch.Queue.{Queue, Place, map_queue}
use blk_switch.Switch.ReqSteer.{ReqSteered}
use blk_switch.Switch.Request.{
  Call, State, Request, size_of, enter, leave, refreshed, app_stage, req_stage, charge,
  init_request, tag_stage, get_request,
}
use blk_switch.Switch.Request.Stages.{SameBytes, SameBytes-stages}
use blk_switch.Switch.Complete.{Tag, driver, sched, discharge, free_request, end_request}

-- The counters of two states agree at every core.
abbrev pub AgreeBytes : Switch → Switch → Type 0
AgreeBytes s s' = ((j : ℕ) → s.t_bytes j ≡ s'.t_bytes j) × ((j : ℕ) → s.l_bytes j ≡ s'.l_bytes j)

-- No counter overflows when `size` bytes are added.
abbrev pub HasSpace : (size : ℕ) → Switch → Type 0
HasSpace size s = ((j : ℕ) → s.t_bytes j + size < 2 ^ 64) × ((j : ℕ) → s.l_bytes j + size < 2 ^ 64)

module _ (k : Kernel) (steered : Bool) (tag : ℕ) (place : Place) (bio : Option Bio)
    (q : Queue) where
  abbrev fresh : Request
  fresh = (init_request steered tag place bio q).0

  abbrev busy : Queue
  busy = (init_request steered tag place bio q).1

  discharge-charge_t :
      (s : Switch) (j : ℕ)
      → HasSpace (size_of bio) s
      → fresh.tag ≢ some 0
      → (discharge k busy fresh (charge k steered q place bio s)).t_bytes j ≡ s.t_bytes j
  unfolding discharge charge init_request
  discharge-charge_t s j h n = ground (arith, h.0 j, h.1 j, h.0 place.ctx, h.1 place.ctx)

  discharge-charge_l :
      (s : Switch) (j : ℕ)
      → HasSpace (size_of bio) s
      → fresh.tag ≢ some 0
      → (discharge k busy fresh (charge k steered q place bio s)).l_bytes j ≡ s.l_bytes j
  unfolding discharge charge init_request
  discharge-charge_l s j h n = ground (arith, h.0 j, h.1 j, h.0 place.ctx, h.1 place.ctx)

  -- The tag that the allocator gave, as it goes back.
  abbrev given : Tag
  given = if q.has_elevator then sched tag else driver tag

  pub fresh_fields : (fresh.steered ≡ steered) × (fresh.place ≡ place)
  unfolding init_request
  fresh_fields = (refl, refl)

  free-init :
      let (q', tags) = free_request busy fresh in
      (q'.usage ≡ q.usage - 1)
      × ((j : ℕ) → (q'.hctx j).nr_active ≡ (q.hctx j).nr_active)
      × (tags ≡ given ∷ [])
  unfolding free_request init_request
  free-init = (ground arith, λ j. ground arith, ground arith)

module _ (p : Params) (k : Kernel) where
  -- The place that a call starts from.
  abbrev start : Call → State → Place
  start c st = record { ctx = c.cpu; hctx = map_queue (enter st.queue) c.flags c.cpu }

  -- The counters behind the reset, which are those before the request is counted.
  abbrev pub before : Call → State → Switch
  before c st = refreshed p k c (start c st) (record st { queue = enter st.queue })

  -- What the last stage makes of a tag.
  abbrev made : Call → State → ReqSteered → ℕ → Place → State × Option Request
  made c st r tag place = (
    record {
      switch = charge k r.steered (enter st.queue) place c.bio r.switch;
      queue = busy k r.steered tag place c.bio (enter st.queue);
    },
    some (fresh k r.steered tag place c.bio (enter st.queue)),
  )

  abbrev failed : State → ReqSteered → State × Option Request
  failed st r = (record { switch = r.switch; queue = leave (enter st.queue) }, none)

  -- How a request comes about.
  record Allocated (c : Call) (st st' : State) (rq : Request) : Type 0 where
    steps : ReqSteered
    tag : ℕ
    place : Place
    given_tag : c.get_tag steps.place ≡ some (tag, place)
    same : SameBytes steps.switch (before c st)
    request : rq ≡ fresh k steps.steered tag place c.bio (enter st.queue)
    state : st' ≡ record {
      switch = charge k steps.steered (enter st.queue) place c.bio steps.switch;
      queue = busy k steps.steered tag place c.bio (enter st.queue);
    }

  tagged :
      (c : Call) (st st' : State) (rq : Request) (r : ReqSteered)
      → SameBytes r.switch (before c st)
      → tag_stage p k c (enter st.queue) r ≡ (st', some rq)
      → Allocated c st st' rq
  unfolding tag_stage
  tagged c st st' rq r same h = elim (Option-cases (c.get_tag r.place)) [
    | inl e ↦
        let missed : tag_stage p k c (enter st.queue) r ≡ failed st r = rw (e, tag_stage) in
        let both : ◌≡◌ {A = Option Request} none (some rq) = ap (λ x. x.1) (sym missed ∙ h) in
        absurd (cc)
    | inr ((tag, place), e) ↦
        let found : made c st r tag place ≡ (st', some rq) = sym (rw (e, tag_stage)) ∙ h in
        let second : some (fresh k r.steered tag place c.bio (enter st.queue)) ≡ some rq =
          ap (λ x. x.1) found in
        record {
          steps = r;
          tag = tag;
          place = place;
          given_tag = e;
          same = same;
          request = cc;
          state = sym (ap (λ x. x.0) found);
        }
  ]

  allocated :
      (c : Call) (st st' : State) (rq : Request)
      → get_request p k c st ≡ some (st', some rq)
      → Allocated c st st' rq
  unfolding get_request
  allocated c st st' rq h =
      let q = enter st.queue in
      elim (Option-cases (req_stage p k c q (app_stage p k c q (start c st) (before c st)))) [
        | inl e ↦
            let missed : ◌≡◌ {A = Option (State × Option Request)} none (some (st', some rq)) =
              sym (rw (e, get_request)) ∙ h in
            absurd (cc)
        | inr (r, e) ↦
            let found : some (tag_stage p k c q r) ≡ some (st', some rq) =
              sym (rw (e, get_request)) ∙ h in
            tagged c st st' rq r (SameBytes-stages p k c q (start c st) (before c st) e) (cc)
      ]

  -- Behind the end of a request everything is as it was before the call.
  abbrev pub Undone : Call → State → State → List Tag → Type 0
  Undone c st done tags =
      AgreeBytes done.switch (before c st)
      × (done.queue.usage ≡ st.queue.usage)
      × ((j : ℕ) → (done.queue.hctx j).nr_active ≡ (st.queue.hctx j).nr_active)
      × ((t : ℕ) × (asked : Place) × (got : Place) × (c.get_tag asked ≡ some (t, got))
          × (tags ≡ (if st.queue.has_elevator then sched t else driver t) ∷ []))

  room_later : (size : ℕ) (s s' : Switch) → SameBytes s s' → HasSpace size s' → HasSpace size s
  room_later size s s' (t, l) (a, b) = (
    subst (λ x. (j : ℕ) → x j + size < 2 ^ 64) (sym t) a,
    subst (λ x. (j : ℕ) → x j + size < 2 ^ 64) (sym l) b,
  )

  end-made :
      (c : Call) (st : State) (r : ReqSteered) (tag : ℕ) (place : Place)
      → c.get_tag r.place ≡ some (tag, place)
      → SameBytes r.switch (before c st)
      → (fresh k r.steered tag place c.bio (enter st.queue)).tag ≢ some 0
      → HasSpace (size_of c.bio) (before c st)
      → let (done, tags) =
          end_request k
            (fresh k r.steered tag place c.bio (enter st.queue))
            ((made c st r tag place).0) in
        Undone c st done tags
  unfolding end_request init_request
  end-made c st r tag place given_tag same n room =
      let q = enter st.queue in
      let space = room_later (size_of c.bio) r.switch (before c st) same room in
      let (usage, active, tags) = free-init k r.steered tag place c.bio q in
      (
        (
          λ j.
              discharge-charge_t k r.steered tag place c.bio q r.switch j space n
              ∙ ap (λ x. x j) same.0,
          λ j.
              discharge-charge_l k r.steered tag place c.bio q r.switch j space n
              ∙ ap (λ x. x j) same.1,
        ),
        usage ∙ omega arith,
        active,
        (tag, r.place, place, given_tag, tags),
      )

  -- A request that was allocated and ends with no error hook leaves the byte counters as they were
  -- behind the reset, and the queue with its usage count and its active requests as they were before
  -- the call; the tag that the allocator gave goes back, once. The tag is not 0, and the counters
  -- have room for the bytes of the request.
  pub end-get_request :
      (c : Call) (st st' : State) (rq : Request)
      → get_request p k c st ≡ some (st', some rq)
      → rq.tag ≢ some 0
      → HasSpace (size_of c.bio) (before c st)
      → let (done, tags) = end_request k rq st' in Undone c st done tags
  end-get_request c st st' rq h n room =
      let a = allocated c st st' rq h in
      let made_end =
        end-made c st a.steps a.tag a.place a.given_tag a.same
          (subst (λ x. x.tag ≢ some 0) a.request n) room in
      subst (λ x. let (done, tags) = end_request k rq x in Undone c st done tags) (sym a.state)
        (subst
          (λ x.
            let (done, tags) = end_request k x (made c st a.steps a.tag a.place).0 in
            Undone c st done tags)
          (sym a.request) made_end)
