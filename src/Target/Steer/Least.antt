-- ===== src/Target/Steer/Least.antt =====
-- drivers/nvme/target/tcp.c: the loop of the steering picks a least loaded core of those that suit.
use blk_switch.Common.{
  ℕ, zero, suc, Bool, Option, none, some, true, ◌+◌, ◌≡◌, ◌≤◌, ◌<◌, refl, arith, Bool-cases, inl,
  inr, ◌⊎◌, if◌then◌else◌, ◌&&◌, ltb→lt, dec_lt, ap, sym, ◌∙◌,
}
use mathlib.Core.Path.{subst}
use blk_switch.Target.Steer.{Pick, start_pick, pick_from, rank, lt_int}

lt_or_eq : (i n : ℕ) → i < n + 1 → (i < n) ⊎ (i ≡ n)
lt_or_eq i n b = elim (dec_lt i n) [ yes c ↦ inl c | no c ↦ inr (omega arith) ]

module _ (suits : ℕ → Bool) (load : ℕ → ℕ) where
  -- A core below `n` that suits and has a load of less than a million, as an int.
  abbrev pub Fits : ℕ → ℕ → Type 0
  Fits n i = (i < n) × (suits i ≡ true) × (rank (load i) < rank 1000000)

  -- The target: none where no core fits, or a core that fits with the least load of those that suit.
  abbrev pub IsLeast : ℕ → Option ℕ → Type 0
  IsLeast n none = (i : ℕ) → i < n → suits i ≡ true → rank 1000000 ≤ rank (load i)
  IsLeast n (some j) = Fits n j × ((i : ℕ) → i < n → suits i ≡ true → rank (load j) ≤ rank (load i))

  -- The loop has visited the cores below `n`.
  record Visited (n : ℕ) (p : Pick) : Type 0 where
    pub minimal : (i : ℕ) → i < n → suits i ≡ true → rank p.min_metric ≤ rank (load i)
    pub taken : (j : ℕ) → p.target ≡ some j → Fits n j × (p.min_metric ≡ load j)
    pub untaken : p.target ≡ none → p.min_metric ≡ 1000000
    pub small : rank p.min_metric ≤ rank 1000000

  -- A core that is taken, and a core that is not
  take_core :
      (n : ℕ) (p : Pick)
      → Visited n p
      → suits n ≡ true
      → rank (load n) < rank p.min_metric
      → Visited (n + 1) (record { target = some n; min_metric = load n })
  take_core n p v s l = record {
    minimal = λ i b t. elim (lt_or_eq i n b) [
      | inl c ↦ let m = v.minimal i c t in omega arith
      | inr e ↦ omega (arith, ap (λ k. rank (load k)) e)
    ];
    taken = λ j e.
        let f : n ≡ j = cc in
        (
          (omega arith, sym (ap suits f) ∙ s, omega (arith, v.small, ap (λ k. rank (load k)) f)),
          ap load f,
        );
    untaken = λ e. cc;
    small = omega (arith, v.small);
  }

  pass_core :
      (n : ℕ) (p : Pick)
      → Visited n p
      → (suits n ≡ true → rank p.min_metric ≤ rank (load n))
      → Visited (n + 1) p
  pass_core n p v l = record {
    minimal = λ i b t. elim (lt_or_eq i n b) [
      | inl c ↦ v.minimal i c t
      | inr e ↦ omega (arith, ap (λ k. rank (load k)) e, l (sym (ap suits e) ∙ t))
    ];
    taken = λ j e. let ((b, t, s), m) = v.taken j e in ((omega arith, t, s), m);
    untaken = v.untaken;
    small = v.small;
  }

  visit :
      (n : ℕ) (p : Pick)
      → Visited n p
      → Visited (n + 1) (
          if suits n && lt_int (load n) p.min_metric
          then record { target = some n; min_metric = load n }
          else p)
  visit n p v = elim (Bool-cases (suits n)) [
    | inl s ↦ elim (Bool-cases (lt_int (load n) p.min_metric)) [
      | inl l ↦ rw (s, l) (take_core n p v s (ltb→lt (rank (load n)) (rank p.min_metric) l))
      | inr l ↦ rw (s, l) (pass_core n p v (λ t. ground arith))
    ]
    | inr s ↦ rw s (pass_core n p v (λ t. cc))
  ]

  visit_all :
      (n rounds : ℕ) (p : Pick)
      → Visited n p
      → Visited (n + rounds) (pick_from suits load n rounds p)
  unfolding pick_from
  visit_all n zero p v = subst (λ k. Visited k p) (omega arith) v
  visit_all n (suc rounds) p v =
      subst (λ k. Visited k (pick_from suits load n (suc rounds) p)) (omega arith)
        (visit_all (n + 1) rounds
          (if suits n && lt_int (load n) p.min_metric
            then record { target = some n; min_metric = load n }
            else p)
          (visit n p v))

  IsLeast-Visited : (n : ℕ) (p : Pick) (t : Option ℕ) → p.target ≡ t → Visited n p → IsLeast n t
  IsLeast-Visited n p none e v =
      λ i b s. let m = v.minimal i b s in omega (arith, ap rank (v.untaken e))
  IsLeast-Visited n p (some j) e v =
      let (f, m) = v.taken j e in (f, λ i b s. omega (arith, v.minimal i b s, ap rank m))

  pub pick_from-IsLeast : (n : ℕ) → IsLeast n (pick_from suits load 0 n start_pick).target
  pick_from-IsLeast n =
      let p = pick_from suits load 0 n start_pick in
      let v = visit_all 0 n start_pick (record {
        minimal = λ i b s. absurd (omega arith);
        taken = λ j e. cc;
        untaken = λ e. refl;
        small = omega arith;
      }) in
      IsLeast-Visited n p p.target refl (subst (λ k. Visited k p) (omega arith) v)
