-- ===== src/Switch/ReqScan/Correct.antt =====
-- The scan takes, of the open cores, one whose driver queue is nearest to a full batch and then one
-- with the fewest requests, and prefers the core of the request.
use mathlib.Core.Path.{subst}
use blk_switch.Common.{
  ℕ, ℤ, Option, List, [], ◌∷◌, none, some, true, ◌≤◌, ◌≡◌, ◌⊎◌, inl, inr, refl, sym, ◌∙◌, arith, In,
  Bool-cases, pos_part,
}
use blk_switch.Switch.{Fabric}
use blk_switch.Switch.Queue.{Queue}
use blk_switch.Switch.ReqScan.{Pick, first_pick, default_hctx, room_of, is_open, consider, scan}
use blk_switch.Switch.ReqScan.Keys.{
  AtMost, AtMost-trans, Below, AtMost-Below, Below-AtMost, consider_lem, consider_local,
  consider_self,
}

module _ (q : Queue) (f : Fabric) (random : ℕ → ℕ) (l_metric : ℕ → ℕ) (cur_cpu : ℕ) where
  abbrev pub IsOpen : ℕ → Type 0
  IsOpen c = is_open f (l_metric c) (default_hctx q c) ≡ true

  abbrev room : ℕ → ℤ
  room c = room_of f (default_hctx q c)

  abbrev busy : ℕ → ℕ
  busy c = (default_hctx q c).nr_active

  -- The key of a pick is at most that of a core.
  abbrev Beats : Pick → ℕ → Type 0
  Beats st d = AtMost st.min_nr st.min_active (room d) (busy d)

  -- Where the pick of a scan comes from.
  abbrev Origin : List ℕ → Pick → Pick → Type 0
  Origin cs st r =
      ((r.target_cpu ≡ st.target_cpu) × (r.min_nr ≡ st.min_nr) × (r.min_active ≡ st.min_active))
      ⊎ ((c : ℕ) × In c cs
          × IsOpen c
          × (r.target_cpu ≡ some c)
          × AtMost (room c) (busy c) r.min_nr r.min_active)

  record Scanned (cs : List ℕ) (st r : Pick) : Type 0 where
    least : (d : ℕ) → In d cs → IsOpen d → Beats r d
    below : AtMost r.min_nr r.min_active st.min_nr st.min_active
    origin : Origin cs st r

  -- One round of the loop.
  abbrev round : Pick → ℕ → Pick
  round st c = scan q f random l_metric cur_cpu st (c ∷ [])

  round-Scanned : (st : Pick) (c : ℕ) → Scanned (c ∷ []) st (round st c)
  unfolding scan
  round-Scanned st c = elim (Bool-cases (is_open f (l_metric c) (default_hctx q c))) [
    | inl t ↦
        let (won, below, from) = consider_lem random cur_cpu c (room c) (busy c) st in
        let mid = consider random cur_cpu c (room c) (busy c) st in
        rw t (record {
          least = λ d m o. elim m [
            | inl e ↦ subst (λ x. AtMost mid.min_nr mid.min_active (room x) (busy x)) (sym e) won
            | inr n ↦ absurd n
          ];
          below = below;
          origin = elim from [ inl k ↦ inl k | inr (e, k) ↦ inr (c, inl refl, t, e, k) ];
        })
    | inr n ↦ rw n (record {
      least = λ d m o. elim m [ inl e ↦ absurd (cc) | inr n ↦ absurd n ];
      below = inr (omega arith, omega arith);
      origin = inl (refl, refl, refl);
    })
  ]

  chain-Origin :
      (c : ℕ) (cs : List ℕ) (st mid r : Pick)
      → Origin (c ∷ []) st mid
      → Origin cs mid r
      → Origin (c ∷ cs) st r
  chain-Origin c cs st mid r (inl a) (inl b) = inl (cc, cc, cc)
  chain-Origin c cs st mid r (inr (d, inr m, o, t, k)) b = absurd m
  chain-Origin c cs st mid r (inr (d, inl e, o, t, k)) (inl (b, n, x)) =
      inr (d, inl e, o, b ∙ t, rw (n, x) k)
  chain-Origin c cs st mid r (inl a) (inr (d, m, o, t, k)) = inr (d, inr m, o, t, k)
  chain-Origin c cs st mid r (inr (e, inl z, p, u, h)) (inr (d, m, o, t, k)) =
      inr (d, inr m, o, t, k)

  chain :
      (c : ℕ) (cs : List ℕ) (st mid r : Pick)
      → Scanned (c ∷ []) st mid
      → Scanned cs mid r
      → Scanned (c ∷ cs) st r
  chain c cs st mid r a b = record {
    least = λ d m o. elim m [
      | inl e ↦
          AtMost-trans r.min_nr mid.min_nr (room d) r.min_active mid.min_active (busy d) b.below
            (a.least d (inl e) o)
      | inr n ↦ b.least d n o
    ];
    below =
        AtMost-trans r.min_nr mid.min_nr st.min_nr r.min_active mid.min_active st.min_active b.below
          a.below;
    origin = chain-Origin c cs st mid r a.origin b.origin;
  }

  scan-Scanned : (cs : List ℕ) (st : Pick) → Scanned cs st (scan q f random l_metric cur_cpu st cs)
  unfolding scan
  scan-Scanned [] st = record {
    least = λ d m. absurd m;
    below = inr (omega arith, omega arith);
    origin = inl (refl, refl, refl);
  }
  scan-Scanned (c ∷ cs) st =
      chain c cs st (round st c) _ (round-Scanned st c) (scan-Scanned cs (round st c))

  -- Of an open core: no queue is nearer to a full batch, and of those as near none has fewer
  -- requests.
  abbrev pub IsNearest : List ℕ → Option ℕ → Type 0
  IsNearest cs none = (d : ℕ) → In d cs → ¬ IsOpen d
  IsNearest cs (some c) =
      In c cs
      × IsOpen c
      × ((d : ℕ) → In d cs → IsOpen d → AtMost (room c) (busy c) (room d) (busy d))

  room-le : (d : ℕ) → pos_part (room d) ≤ 16
  unfolding room_of
  room-le d = ground arith

  nearest :
      (cs : List ℕ) (drawn : ℕ) (r : Pick) (t : Option ℕ)
      → r.target_cpu ≡ t
      → ((d : ℕ) → In d cs → IsOpen d → Beats r d)
      → Origin cs (first_pick drawn) r
      → IsNearest cs t
  nearest cs drawn r none e least (inl (x, n, a)) = λ d m o. ground (arith, room-le d, least d m o)
  nearest cs drawn r none e least (inr (d, m, o, t, k)) = absurd (cc)
  nearest cs drawn r (some c) e least (inl (x, n, a)) = absurd (cc)
  nearest cs drawn r (some c) e least (inr (d, m, o, t, k)) =
      subst (λ x. IsNearest cs (some x)) same
        (
          m,
          o,
          λ b n p.
              AtMost-trans (room d) r.min_nr (room b) (busy d) r.min_active (busy b) k
                (least b n p),
        )
    where
      same : d ≡ c
      same = cc

  -- The scan finds no target exactly where no core of the list is open, and else an open core whose
  -- driver queue is nearest to a full batch, with the fewest requests of those.
  pub scan-IsNearest :
      (cs : List ℕ) (drawn : ℕ)
      → IsNearest cs (scan q f random l_metric cur_cpu (first_pick drawn) cs).target_cpu
  scan-IsNearest cs drawn =
      let done = scan-Scanned cs (first_pick drawn) in
      nearest cs drawn (scan q f random l_metric cur_cpu (first_pick drawn) cs) _ refl done.least
        done.origin

  -- A pick of the request's own core, with that core's key.
  abbrev Local : Pick → Type 0
  Local st =
      (st.target_cpu ≡ some cur_cpu)
      × AtMost (room cur_cpu) (busy cur_cpu) st.min_nr st.min_active
      × AtMost st.min_nr st.min_active (room cur_cpu) (busy cur_cpu)

  round-Local :
      (st : Pick) (c : ℕ)
      → Local st
      → Local (round st c)
        ⊎ Below (round st c).min_nr (round st c).min_active (room cur_cpu) (busy cur_cpu)
  unfolding scan
  round-Local st c (t, a, b) = elim (Bool-cases (is_open f (l_metric c) (default_hctx q c))) [
    | inl o ↦
        rw o
          (consider_local random cur_cpu c (room c) (room cur_cpu) (busy c) (busy cur_cpu) st t a b)
    | inr n ↦ rw n (inl (t, a, b))
  ]

  -- A pick at which the request's own core stands, or which is strictly better.
  abbrev Settled : Pick → Type 0
  Settled st = Local st ⊎ Below st.min_nr st.min_active (room cur_cpu) (busy cur_cpu)

  round-Settled : (st : Pick) (c : ℕ) → Settled st → Settled (round st c)
  round-Settled st c (inl l) = round-Local st c l
  round-Settled st c (inr b) = inr (
      AtMost-Below (round st c).min_nr st.min_nr (room cur_cpu) (round st c).min_active
        st.min_active (busy cur_cpu) (round-Scanned st c).below b)

  round_self : (st : Pick) (c : ℕ) → cur_cpu ≡ c → IsOpen cur_cpu → Settled (round st c)
  unfolding scan
  round_self st c e o =
      subst (λ x. Settled (round st x)) e
        (rw o (consider_self random cur_cpu (room cur_cpu) (busy cur_cpu) st))

  scan-Settled :
      (cs : List ℕ) (st : Pick) → Settled st → Settled (scan q f random l_metric cur_cpu st cs)
  unfolding scan
  scan-Settled [] st h = h
  scan-Settled (c ∷ cs) st h = scan-Settled cs (round st c) (round-Settled st c h)

  scan_self :
      (cs : List ℕ) (st : Pick)
      → In cur_cpu cs
      → IsOpen cur_cpu
      → Settled (scan q f random l_metric cur_cpu st cs)
  unfolding scan
  scan_self [] st m o = absurd m
  scan_self (c ∷ cs) st (inl e) o = scan-Settled cs (round st c) (round_self st c e o)
  scan_self (c ∷ cs) st (inr m) o = scan_self cs (round st c) m o

  -- What the origin of the final pick says, where the request's own core is as good as any.
  own-AtMost :
      (cs : List ℕ) (r : Pick)
      → Beats r cur_cpu
      → ((d : ℕ) → In d cs → IsOpen d → AtMost (room cur_cpu) (busy cur_cpu) (room d) (busy d))
      → Origin cs (first_pick 0) r
      → AtMost (room cur_cpu) (busy cur_cpu) r.min_nr r.min_active
  own-AtMost cs r b best (inl (x, n, a)) = ground (arith, room-le cur_cpu)
  own-AtMost cs r b best (inr (d, m, o, t, k)) =
      AtMost-trans (room cur_cpu) (room d) r.min_nr (busy cur_cpu) (busy d) r.min_active
        (best d m o) k

  -- Where the request's own core is open and no open core of the list is strictly better, the scan
  -- takes the request's own core, whatever the random bytes are.
  pub scan_keeps_local :
      (cs : List ℕ)
      → In cur_cpu cs
      → IsOpen cur_cpu
      → ((d : ℕ) → In d cs → IsOpen d → AtMost (room cur_cpu) (busy cur_cpu) (room d) (busy d))
      → (scan q f random l_metric cur_cpu (first_pick 0) cs).target_cpu ≡ some cur_cpu
  scan_keeps_local cs m o best = elim (scan_self cs (first_pick 0) m o) [
    | inl (t, a, b) ↦ t
    | inr b ↦ absurd (
        Below-AtMost r.min_nr (room cur_cpu) r.min_active (busy cur_cpu) b
          (own-AtMost cs r (done.least cur_cpu m o) best done.origin))
  ]
    where
      r : Pick
      r = scan q f random l_metric cur_cpu (first_pick 0) cs

      done : Scanned cs (first_pick 0) r
      done = scan-Scanned cs (first_pick 0)
