-- ===== src/Tcp/Recv/Bytewise.antt =====
-- drivers/nvme/host/tcp.c: an account of the receive path that takes one byte at a time.
use blk_switch.Common.{
  ℕ, Bool, List, [], ◌∷◌, ◌++◌, not, ◌+◌, ◌==◌, ◌&&◌, ◌≤◌, ◌≡◌, ◌⊎◌, inl, inr, if◌then◌else◌, refl,
  length, arith,
}
use blk_switch.Tcp.{Wire, Queue, Error, Event, Result, recovery, ok, err, ◌>>=◌}
use blk_switch.Tcp.Recv.{take_pdu, take_ddgst, take_data}

pub assoc {ℓ κ μ} :
    {A : Type ℓ} {B : Type κ} {C : Type μ} (r : Result A) (f : A → Result B) (g : B → Result C)
    → ((r >>= f) >>= g) ≡ (r >>= λ a. f a >>= g)
assoc (ok a) f g = refl
assoc (err e l) f g = refl

pub bind-ok {ℓ} : {A : Type ℓ} (r : Result A) → (r >>= ok) ≡ r
bind-ok (ok a) = refl
bind-ok (err e l) = refl

-- A state that waits for data of length 0: the next byte is not for it.
unfoldable pub is_idle : Queue → Bool
is_idle q = q.pdu_remaining == 0 && q.ddgst_remaining == 0 && q.data_remaining == 0

module _ (w : Wire) where
  unfoldable pub settle : Queue → Result Queue
  unfolding is_idle
  settle q = if is_idle q then take_data w q [] else ok q

  unfoldable pub take_byte : Queue → ℕ → Result Queue
  take_byte q b =
      if not (q.pdu_remaining == 0)
      then take_pdu w q (b ∷ [])
      else if not (q.ddgst_remaining == 0)
      then take_ddgst w q (b ∷ [])
      else take_data w q (b ∷ [])

  unfoldable pub feed : Queue → ℕ → Result Queue
  unfolding settle take_byte
  feed q b = settle q >>= λ q'. take_byte q' b

  unfoldable pub feeds : Queue → List ℕ → Result Queue
  feeds q [] = ok q
  feeds q (b ∷ bs) = feed q b >>= λ q'. feeds q' bs

  pub feeds-append :
      (q : Queue) (xs ys : List ℕ) → feeds q (xs ++ ys) ≡ (feeds q xs >>= λ q'. feeds q' ys)
  unfolding feeds
  feeds-append q [] ys = refl
  feeds-append q (x ∷ xs) ys =
      elim (feed q x)
        as (λ r.
          (r >>= λ q'. feeds q' (xs ++ ys)) ≡ ((r >>= λ q'. feeds q' xs) >>= λ q'. feeds q' ys)) [
            | ok q' ↦ feeds-append q' xs ys
            | err e l ↦ refl
          ]

  -- What the bytes lead to one by one; an error starts the recovery.
  unfoldable pub outcome : Queue → List ℕ → Result Queue
  outcome q bs = elim (feeds q bs) [ ok q' ↦ ok q' | err e l ↦ err e (l ++ recovery ∷ []) ]

  -- A way to take several bytes at once, that is the same as byte for byte.
  module _ (takes : Queue → List ℕ → Result Queue) (remaining : Queue → ℕ)
      (InPhase : Queue → Type 0)
      (one : (q : Queue) (b : ℕ) → InPhase q → 1 ≤ remaining q → feed q b ≡ takes q (b ∷ []))
      (more : (q : Queue) (b : ℕ)
        → InPhase q
        → 2 ≤ remaining q
        → ((q' : Queue) × (takes q (b ∷ []) ≡ ok q')
            × InPhase q'
            × (remaining q' + 1 ≡ remaining q)
            × ((c : List ℕ) → takes q (b ∷ c) ≡ takes q' c))
          ⊎ ((e : Error) × (l : List Event) × ((c : List ℕ) → takes q (b ∷ c) ≡ err e l))) where
    pub takes-feeds :
        (q : Queue) (b : ℕ) (c : List ℕ)
        → InPhase q
        → length (b ∷ c) ≤ remaining q
        → takes q (b ∷ c) ≡ feeds q (b ∷ c)
    unfolding feeds
    takes-feeds q b [] p h = rw (one q b p (omega arith), bind-ok)
    takes-feeds q b (x ∷ xs) p h = elim (more q b p (omega arith)) [
      | inl (q', e, p', r, t) ↦
          rw (one q b p (omega arith), e, t (x ∷ xs), takes-feeds q' x xs p' (omega arith))
      | inr (e, l, t) ↦ rw (one q b p (omega arith), t [], t (x ∷ xs))
    ]
