-- ===== src/Switch/AppTarget/Correct.antt =====
-- The search for a steering target meets its reference: the eligible core of least load.
use blk_switch.Common.{
  ℕ, Bool, List, [], ◌∷◌, none, some, true, false, not, ◌&&◌, ◌||◌, ◌≡◌, ◌⊎◌, inl, inr, refl, arith,
  ltb, Bool-cases, if◌then◌else◌,
}
use blk_switch.Switch.{Switch, t_app, l_app, is_l_app}
use blk_switch.Switch.Best.{best, IsBest, best-IsBest}
use blk_switch.Switch.AppTarget.{
  Search, total, is_skipped, is_l_better, is_l_pending, visit, search_from, find_target, next, wait,
}

module _ (s : Switch) (cur_cpu : ℕ) where
  -- The cores that an L-app may move to.
  abbrev pub suits_l : ℕ → Bool
  suits_l c = not (is_skipped s false cur_cpu c) && is_l_better s false cur_cpu c

  -- The cores that a T-app may move to.
  abbrev pub suits_t : ℕ → Bool
  suits_t c = not (is_skipped s true cur_cpu c) && ltb (s.l_appstr c) (s.l_appstr cur_cpu)

  -- Some core of the list makes the T-apps wait.
  abbrev pub must_wait : List ℕ → Bool
  must_wait [] = false
  must_wait (c ∷ cs) =
      (not (is_skipped s true cur_cpu c) && is_l_pending s true cur_cpu c) || must_wait cs

  visit_l :
      (c : ℕ) (st : Search)
      → s.appstr_app ≡ l_app
      → visit s false cur_cpu st c
        ≡ next (record {
          target_cpu =
              if suits_l c && ltb (total s false cur_cpu c) st.min_metric
              then some c
              else st.target_cpu;
          min_metric =
              if suits_l c && ltb (total s false cur_cpu c) st.min_metric
              then total s false cur_cpu c
              else st.min_metric;
        })
  unfolding visit
  visit_l c st e = ground arith

  search_l :
      (cs : List ℕ) (st : Search)
      → s.appstr_app ≡ l_app
      → search_from s false cur_cpu st cs
        ≡ best suits_l (total s false cur_cpu) cs st.target_cpu st.min_metric
  unfolding search_from best
  search_l [] st e = refl
  search_l (c ∷ cs) st e = rw (visit_l c st e, search_from) (search_l cs _ e)

  visit_t :
      (c : ℕ) (st : Search)
      → s.appstr_app ≡ t_app
      → (not (is_skipped s true cur_cpu c) && is_l_pending s true cur_cpu c) ≡ false
      → visit s true cur_cpu st c
        ≡ next (record {
          target_cpu =
              if suits_t c && ltb (s.t_appstr c) st.min_metric then some c else st.target_cpu;
          min_metric =
              if suits_t c && ltb (s.t_appstr c) st.min_metric then s.t_appstr c else st.min_metric;
        })
  unfolding visit
  visit_t c st e n = ground arith

  visit_wait :
      (c : ℕ) (st : Search)
      → s.appstr_app ≡ t_app
      → (not (is_skipped s true cur_cpu c) && is_l_pending s true cur_cpu c) ≡ true
      → visit s true cur_cpu st c ≡ wait
  unfolding visit
  visit_wait c st e n = ground arith

  search_t :
      (cs : List ℕ) (st : Search)
      → s.appstr_app ≡ t_app
      → search_from s true cur_cpu st cs
        ≡ (if must_wait cs then none else best suits_t s.t_appstr cs st.target_cpu st.min_metric)
  unfolding search_from best
  search_t [] st e = refl
  search_t (c ∷ cs) st e =
      elim (Bool-cases (not (is_skipped s true cur_cpu c) && is_l_pending s true cur_cpu c)) [
        | inl p ↦ rw (visit_wait c st e p, search_from, p, must_wait)
        | inr p ↦ rw (visit_t c st e p, search_from, p, must_wait) (search_t cs _ e)
      ]

  visit_other :
      (thru : Bool) (c : ℕ) (st : Search)
      → is_l_app s.appstr_app ≡ thru
      → visit s thru cur_cpu st c ≡ next st
  unfolding visit
  visit_other thru c st e = ground arith

  search_other :
      (thru : Bool) (cs : List ℕ) (st : Search)
      → is_l_app s.appstr_app ≡ thru
      → search_from s thru cur_cpu st cs ≡ st.target_cpu
  unfolding search_from
  search_other thru [] st e = refl
  search_other thru (c ∷ cs) st e =
      rw (visit_other thru c st e, search_from) (search_other thru cs st e)

  -- In a round of L-apps the target of an L-app is, of the cores that suit it, the first of least
  -- load, and there is a target exactly if some core suits it.
  pub find_target_l :
      (cs : List ℕ)
      → s.appstr_app ≡ l_app
      → IsBest suits_l
          (total s false cur_cpu)
          cs
          none
          (total s false cur_cpu cur_cpu)
          (find_target s false cur_cpu cs)
  unfolding find_target
  find_target_l cs e = rw (search_l cs _ e) (best-IsBest _ _ cs none _)

  -- In a round of T-apps a T-app stays where it is if the L-apps have a core to move to; else its
  -- target is, of the cores with less L-load than its own, the first of least T-load.
  pub find_target_t :
      (cs : List ℕ)
      → s.appstr_app ≡ t_app
      → ((must_wait cs ≡ true) × (find_target s true cur_cpu cs ≡ none))
        ⊎ ((must_wait cs ≡ false)
            × IsBest suits_t s.t_appstr cs none 8388608 (find_target s true cur_cpu cs))
  unfolding find_target
  find_target_t cs e = elim (Bool-cases (must_wait cs)) [
    | inl w ↦ inl (w, rw (search_t cs _ e, w))
    | inr w ↦ inr (w, rw (search_t cs _ e, w) (best-IsBest _ _ cs none _))
  ]

  -- No application moves in a round of the other class.
  pub find_target_other :
      (thru : Bool) (cs : List ℕ)
      → is_l_app s.appstr_app ≡ thru
      → find_target s thru cur_cpu cs ≡ none
  unfolding find_target
  find_target_other thru cs e = search_other thru cs _ e
