-- ===== src/Tcp/Recv/Loop.antt =====
-- drivers/nvme/host/tcp.c: nvme_tcp_recv_skb ends, and does not depend on how the stream is cut into
-- socket buffers.
use blk_switch.Common.{
  ℕ, zero, suc, Option, List, [], ◌∷◌, ◌++◌, none, some, true, false, ◌+◌, ◌-◌, ◌*◌, ◌==◌, ◌≤◌, ◌≡◌,
  ◌⊎◌, inl, inr, if◌then◌else◌, refl, Bool-cases, Option-cases, length, take, drop, arith,
}
use mathlib.Core.Path.{subst}
use blk_switch.Tcp.{
  Pdu, enoent, eio, Wire, Queue, Error, Event, Result, recovery, ok, err, ◌>>=◌, tag_to_rq,
}
use blk_switch.Tcp.Dispatch.{init_recv_ctx, hdgst_len, set_rq}
use blk_switch.Tcp.Recv.{
  take_data, receive, data_done, recv_pdu, recv_ddgst, recv_data, recv_step, recv_loop, recv_skb,
}
use blk_switch.Tcp.Recv.Bytewise.{is_idle, settle, feed, feeds, outcome, feeds-append}
use blk_switch.Tcp.Recv.Phases.{pdu-feeds, ddgst-feeds, data-feeds}

take-drop : (n : ℕ) (xs : List ℕ) → take n xs ++ drop n xs ≡ xs
take-drop zero xs = refl
take-drop (suc n) [] = refl
take-drop (suc n) (x ∷ xs) = rw (take-drop n xs)

length-take : (n : ℕ) (xs : List ℕ) → length (take n xs) ≤ n
length-take zero xs = omega arith
length-take (suc n) [] = omega arith
length-take (suc n) (x ∷ xs) = omega (arith, length-take n xs)

length-drop : (n : ℕ) (xs : List ℕ) → length (drop n xs) ≤ length xs
length-drop zero xs = omega arith
length-drop (suc n) [] = omega arith
length-drop (suc n) (x ∷ xs) = omega (arith, length-drop n xs)

pred_suc : (n : ℕ) → suc n - 1 ≡ n
pred_suc n = omega arith

fits : (n : ℕ) (bs : List ℕ) → 1 ≤ n → suc (length (take (n - 1) bs)) ≤ n
fits n bs h = omega (arith, length-take (n - 1) bs)

take_pos : (n b : ℕ) (bs : List ℕ) → 1 ≤ n → take n (b ∷ bs) ≡ b ∷ take (n - 1) bs
take_pos zero b bs h = ground arith
take_pos (suc n) b bs h = rw (pred_suc n)

drop_pos : (n b : ℕ) (bs : List ℕ) → 1 ≤ n → drop n (b ∷ bs) ≡ drop (n - 1) bs
drop_pos zero b bs h = ground arith
drop_pos (suc n) b bs h = rw (pred_suc n)

is_zero : (n : ℕ) → n ≡ 0 → (n == 0) ≡ true
is_zero n h = ground arith

is_pos : (n : ℕ) → 1 ≤ n → (n == 0) ≡ false
is_pos n h = ground arith

-- The three states of the receive path, without the idle ones.
phases :
    (q : Queue)
    → is_idle q ≡ false
    → (1 ≤ q.pdu_remaining)
      ⊎ (((q.pdu_remaining ≡ 0) × (1 ≤ q.ddgst_remaining))
          ⊎ ((q.pdu_remaining ≡ 0) × (q.ddgst_remaining ≡ 0) × (1 ≤ q.data_remaining)))
unfolding is_idle
phases q h = ground arith

idle :
    (q : Queue)
    → is_idle q ≡ true
    → (q.pdu_remaining ≡ 0) × (q.ddgst_remaining ≡ 0) × (q.data_remaining ≡ 0)
unfolding is_idle
idle q h = ground arith

module _ (w : Wire) where
  -- What is taken from a state that is not idle is taken byte for byte.
  round :
      (q : Queue) (b : ℕ) (bs : List ℕ)
      → is_idle q ≡ false
      → (n : ℕ) × (recv_step w q (b ∷ bs)
          ≡ (feeds w q (b ∷ take n bs) >>= λ q'. ok (q', drop n bs)))
  unfolding recv_step recv_pdu recv_ddgst recv_data
  round q b bs h = elim (phases q h) [
    | inl p ↦ (
      q.pdu_remaining - 1,
      rw (
        recv_step,
        is_pos q.pdu_remaining p,
        take_pos q.pdu_remaining b bs p,
        drop_pos q.pdu_remaining b bs p,
        pdu-feeds w q b (take (q.pdu_remaining - 1) bs) tt (fits q.pdu_remaining bs p),
      ),
    )
    | inr (inl (z, p)) ↦ (
      q.ddgst_remaining - 1,
      rw (
        recv_step,
        is_zero q.pdu_remaining z,
        is_pos q.ddgst_remaining p,
        take_pos q.ddgst_remaining b bs p,
        drop_pos q.ddgst_remaining b bs p,
        ddgst-feeds w q b (take (q.ddgst_remaining - 1) bs) z (fits q.ddgst_remaining bs p),
      ),
    )
    | inr (inr (z, z', p)) ↦ (
      q.data_remaining - 1,
      rw (
        recv_step,
        is_zero q.pdu_remaining z,
        is_zero q.ddgst_remaining z',
        take_pos q.data_remaining b bs p,
        drop_pos q.data_remaining b bs p,
        data-feeds w q b (take (q.data_remaining - 1) bs) (z, z') (fits q.data_remaining bs p),
      ),
    )
  ]

  idle_round :
      (q : Queue) (bs : List ℕ)
      → is_idle q ≡ true
      → recv_step w q bs ≡ (take_data w q [] >>= λ q'. ok (q', bs))
  unfolding recv_step recv_data
  idle_round q bs h =
      let (z, z', z'') = idle q h in
      rw (recv_step, is_zero q.pdu_remaining z, is_zero q.ddgst_remaining z', z'')

-- The rounds that a state saves: an idle one needs a round more.
abbrev slack : Queue → ℕ
slack q = if is_idle q then 0 else 1

slack-le : (q : Queue) → slack q ≤ 1
slack-le q = ground arith

Result-cases {ℓ} :
    {A : Type ℓ} (x : Result A)
    → ((a : A) × (x ≡ ok a)) ⊎ ((e : Error) × (l : List Event) × (x ≡ err e l))
Result-cases (ok a) = inl (a, refl)
Result-cases (err e l) = inr (e, l, refl)

module _ (w : Wire) (r : 1 ≤ w.rsp_size) (d : 1 ≤ w.digest_size) where
  data_done-is_idle : (q : Queue) (p : Pdu) → is_idle (data_done w q p) ≡ false
  unfolding data_done init_recv_ctx hdgst_len is_idle
  data_done-is_idle q p = ground arith

  take_nothing :
      (q : Queue)
      → is_idle q ≡ true
      → ((q' : Queue) × (take_data w q [] ≡ ok q') × (is_idle q' ≡ false))
        ⊎ ((e : Error) × (l : List Event) × (take_data w q [] ≡ err e l))
  unfolding take_data
  take_nothing q h =
      let p = w.parse q.pdu in
      elim (Option-cases (tag_to_rq q p.command_id)) [
        | inl n ↦ inr (enoent, q.events, rw (take_data, n))
        | inr (rq, e) ↦ elim (Option-cases (receive rq [])) [
          | inl n ↦ inr (eio, q.events, rw (take_data, e, n))
          | inr (rq', e') ↦
              let got = record (set_rq p.command_id rq' q) {
                hash = if q.data_digest then q.hash ++ [] else q.hash;
                data_remaining = q.data_remaining - 0;
              } in
              let (z, z', z'') = idle q h in
              inl (data_done w got p, rw (take_data, e, e', z''), data_done-is_idle got p)
        ]
      ]

  feeds-idle :
      (q q' : Queue) (b : ℕ) (bs : List ℕ)
      → is_idle q ≡ true
      → take_data w q [] ≡ ok q'
      → is_idle q' ≡ false
      → feeds w q (b ∷ bs) ≡ feeds w q' (b ∷ bs)
  unfolding feeds feed settle
  feeds-idle q q' b bs h e h' = rw (feeds, feed, settle, h, e, h')

  feeds-stuck :
      (q : Queue) (b : ℕ) (bs : List ℕ) (e : Error) (l : List Event)
      → is_idle q ≡ true
      → take_data w q [] ≡ err e l
      → feeds w q (b ∷ bs) ≡ err e l
  unfolding feeds feed settle
  feeds-stuck q b bs e l h t = rw (feeds, feed, settle, h, t)

  feeds-nil : (q : Queue) → feeds w q [] ≡ ok q
  unfolding feeds
  feeds-nil q = refl

  -- What is left of a buffer is fed behind what was taken.
  feeds-rest :
      (q : Queue) (b : ℕ) (bs : List ℕ) (n : ℕ)
      → feeds w q (b ∷ bs) ≡ (feeds w q (b ∷ take n bs) >>= λ q'. feeds w q' (drop n bs))
  feeds-rest q b bs n =
      subst (λ x. feeds w q (b ∷ x) ≡ (feeds w q (b ∷ take n bs) >>= λ q'. feeds w q' (drop n bs)))
        (take-drop n bs) (feeds-append w q (b ∷ take n bs) (drop n bs))

  pub outcome-ok : (q q' : Queue) (bs : List ℕ) → feeds w q bs ≡ ok q' → outcome w q bs ≡ ok q'
  unfolding outcome
  outcome-ok q q' bs e = rw (outcome, e)

  outcome-err :
      (q : Queue) (bs : List ℕ) (e : Error) (l : List Event)
      → feeds w q bs ≡ err e l
      → outcome w q bs ≡ err e (l ++ recovery ∷ [])
  unfolding outcome
  outcome-err q bs e l h = rw (outcome, h)

  outcome-eq :
      (q q' : Queue) (xs ys : List ℕ)
      → feeds w q xs ≡ feeds w q' ys
      → outcome w q xs ≡ outcome w q' ys
  unfolding outcome
  outcome-eq q q' xs ys h = rw (outcome, h)

  -- With two rounds for each byte the loop ends, with what the bytes do one by one.
  recv_loop-outcome :
      (fuel : ℕ) (q : Queue) (bs : List ℕ)
      → 2 * length bs ≤ fuel + slack q
      → recv_loop w fuel q bs ≡ some (outcome w q bs)
  unfolding recv_loop
  recv_loop-outcome zero q [] h = rw (outcome-ok q q [] (feeds-nil q))
  recv_loop-outcome (suc fuel) q [] h = rw (outcome-ok q q [] (feeds-nil q))
  recv_loop-outcome zero q (b ∷ bs) h = ground arith
  recv_loop-outcome (suc fuel) q (b ∷ bs) h = elim (Bool-cases (is_idle q)) [
    | inl i ↦ elim (take_nothing q i) [
      | inl (q', e, i') ↦
          rw
            (
              recv_loop,
              idle_round w q (b ∷ bs) i,
              e,
              outcome-eq q q' (b ∷ bs) (b ∷ bs) (feeds-idle q q' b bs i e i'),
            )
            (recv_loop-outcome fuel q' (b ∷ bs) (ground arith))
      | inr (e, l, t) ↦ rw (
        recv_loop,
        idle_round w q (b ∷ bs) i,
        t,
        outcome-err q (b ∷ bs) e l (feeds-stuck q b bs e l i t),
      )
    ]
    | inr i ↦
        let (n, s) = round w q b bs i in
        elim (Result-cases (feeds w q (b ∷ take n bs))) [
          | inl (q', e) ↦
              rw
                (
                  recv_loop,
                  s,
                  e,
                  outcome-eq q q' (b ∷ bs) (drop n bs) (rw (feeds-rest q b bs n, e)),
                )
                (recv_loop-outcome fuel q' (drop n bs)
                  (omega (arith, length-drop n bs, slack-le q, h)))
          | inr (e, l, t) ↦
              rw (recv_loop, s, t, outcome-err q (b ∷ bs) e l (rw (feeds-rest q b bs n, t)))
        ]
  ]

  -- `nvme_tcp_recv_skb` ends for every buffer, with the state or the error that the bytes lead to one
  -- by one, if a PDU header and a digest have a byte at least.
  pub recv_skb-outcome : (q : Queue) (bs : List ℕ) → recv_skb w q bs ≡ some (outcome w q bs)
  unfolding recv_skb
  recv_skb-outcome q bs = recv_loop-outcome (2 * length bs) q bs (omega arith)

  -- A buffer can be cut anywhere: what `nvme_tcp_recv_skb` makes of the whole is what it makes of the
  -- second part behind the first, and an error in the first part is the error of the whole, if a PDU
  -- header and a digest have a byte at least.
  pub recv_skb-append :
      (q : Queue) (xs ys : List ℕ)
      → recv_skb w q (xs ++ ys) ≡ elim (recv_skb w q xs) as (λ x. Option (Result Queue)) [
        | none ↦ none
        | some (ok q') ↦ recv_skb w q' ys
        | some (err e l) ↦ some (err e l)
      ]
  recv_skb-append q xs ys = elim (Result-cases (feeds w q xs)) [
    | inl (q', e) ↦ rw (
      recv_skb-outcome q (xs ++ ys),
      recv_skb-outcome q xs,
      outcome-ok q q' xs e,
      recv_skb-outcome q' ys,
      outcome-eq q q' (xs ++ ys) ys (rw (feeds-append w q xs ys, e)),
    )
    | inr (e, l, t) ↦ rw (
      recv_skb-outcome q (xs ++ ys),
      recv_skb-outcome q xs,
      outcome-err q xs e l t,
      outcome-err q (xs ++ ys) e l (rw (feeds-append w q xs ys, t)),
    )
  ]
