-- ===== src/Target/Send/Batch/Total.antt =====
-- drivers/nvme/target/tcp.c: the loop of nvmet_try_send_data ends, and so does nvmet_tcp_try_send_one.
use blk_switch.Common.{
  ℕ, zero, suc, Option, List, [], ◌∷◌, none, some, ◌+◌, ◌-◌, ◌≤◌, ◌<◌, ◌≡◌, arith, refl, ap, ◌∙◌,
  Bool-cases, Option-cases, inl, inr, ◌==◌, ==_refl,
}
use mathlib.Core.Path.{subst}
use blk_switch.Tcp.Send.{Answer, Answer-cases, took, refused, Ret, nothing}
use blk_switch.Target.{Cmd, Queue, Link, Piece, is_caravan_full, send_data_pdu, send_data}
use blk_switch.Target.Respond.{
  fetch_cmd, take_first, refill, process_resp_list, move_responses, setup_pdu, setup_c2h_data_pdu,
  setup_r2t_pdu, setup_response_pdu,
}
use blk_switch.Target.Send.{
  submit, load, is_aggregated, send_header, header_sent, try_send_data_pdu, data_round, data_sent,
  data_advance, data_piece, try_send_data,
}
use blk_switch.Target.Send.Batch.{is_state, is_one, from_data, send_parts, current, try_send_one}

abbrev pub total : List ℕ → ℕ
total [] = 0
total (l ∷ ls) = l + total ls

-- What is left of the data of a command to send.
abbrev left : Cmd → ℕ
left x = total x.cur_sg - x.offset

-- A socket that takes no more than it is offered.
unfoldable pub TakesAtMost : Link → Type 0
TakesAtMost s = (i l n : ℕ) → s.answer i l ≡ took n → n ≤ l

-- Every command has less than `fuel` bytes in the scatterlist that is left.
unfoldable pub Within : ℕ → Queue → Type 0
Within fuel q = (c : ℕ) → total (q.cmds c).cur_sg < fuel

move_responses-cmds : (cs : List ℕ) (q : Queue) → (move_responses cs q).cmds ≡ q.cmds
unfolding move_responses
move_responses-cmds [] q = refl
move_responses-cmds (c ∷ cs) q =
    move_responses-cmds cs
      (record q { resp_send_list = c ∷ q.resp_send_list; send_list_len = q.send_list_len + 1 })

module _ (s : Link) where
  submit-cmds : (n : ℕ) (ps : List Piece) (q : Queue) → (submit s n ps q).0.cmds ≡ q.cmds
  unfolding submit
  submit-cmds n ps q = ground arith

  submit-TakesAtMost :
      (len n : ℕ) (ps : List Piece) (q : Queue)
      → TakesAtMost s
      → (submit s len ps q).1 ≡ took n
      → n ≤ len
  unfolding submit TakesAtMost
  submit-TakesAtMost len n ps q m e = elim (Answer-cases (s.answer q.calls len)) [
    | inl (k, a) ↦ ground (arith, m q.calls len k a)
    | inr (x, a) ↦ ground arith
  ]

  setup_pdu-sg : (c t : ℕ) (q : Queue) → ((setup_pdu s c q).cmds t).cur_sg ≡ (q.cmds t).cur_sg
  unfolding setup_pdu setup_c2h_data_pdu setup_r2t_pdu setup_response_pdu
  setup_pdu-sg c t q = ground arith

  take_first-sg :
      (cs : List ℕ) (t : ℕ) (q : Queue) → ((take_first s cs q).cmds t).cur_sg ≡ (q.cmds t).cur_sg
  unfolding take_first
  take_first-sg [] t q = refl
  take_first-sg (c ∷ cs) t q =
      setup_pdu-sg c t
        (record q { snd_cmd = some c; resp_send_list = cs; send_list_len = q.send_list_len - 1 })

  pub current-sg : (t : ℕ) (q : Queue) → ((current s q).cmds t).cur_sg ≡ (q.cmds t).cur_sg
  unfolding current fetch_cmd refill process_resp_list
  current-sg t q = ground (
    arith,
    take_first-sg (refill q).resp_send_list t (refill q),
    move_responses-cmds q.resp_list (record q { resp_list = [] }),
  )

  pub data_pdu-sg :
      (c t : ℕ) (q : Queue) → ((try_send_data_pdu s c q).0.cmds t).cur_sg ≡ (q.cmds t).cur_sg
  unfolding try_send_data_pdu send_header header_sent submit load
  data_pdu-sg c t q = ground arith

  data_advance-left :
      (c n l : ℕ) (ls : List ℕ) (q : Queue)
      → (q.cmds c).cur_sg ≡ l ∷ ls
      → 1 ≤ n
      → n ≤ l - (q.cmds c).offset
      → left ((data_advance s c n l ls q).cmds c) < l + total ls - (q.cmds c).offset
  unfolding data_advance
  data_advance-left c n l ls q sg lo hi =
      let k = ==_refl c in
      let b = ap total sg in
      elim (Bool-cases ((q.cmds c).offset + n == l)) [
        | inl t ↦
            let f : (q.cmds c).offset + n ≡ l = ground arith in
            rw (data_advance, t, k) (omega arith)
        | inr t ↦ rw (data_advance, t, k) (omega arith)
      ]

  -- A round that goes on has less than `m` left.
  abbrev Shrinks : ℕ → ℕ → Queue × Option Ret → Type 0
  Shrinks c m p = p.1 ≡ none → left (p.0.cmds c) < m

  data_sent-Shrinks :
      (c l : ℕ) (ls : List ℕ) (q : Queue) (a : Answer)
      → (q.cmds c).cur_sg ≡ l ∷ ls
      → ((n : ℕ) → a ≡ took n → n ≤ l - (q.cmds c).offset)
      → Shrinks c (l + total ls - (q.cmds c).offset) (data_sent s c l ls (q, a))
  unfolding data_sent
  data_sent-Shrinks c l ls q (refused x) sg h = λ e. ground arith
  data_sent-Shrinks c l ls q (took n) sg h = elim (Bool-cases (n == 0)) [
    | inl z ↦ rw (data_sent, z) (λ e. ground arith)
    | inr z ↦ rw (data_sent, z) (λ e. data_advance-left c n l ls q sg (ground arith) (h n refl))
  ]

  data_round-Shrinks :
      (c : ℕ) (cs : List ℕ) (q : Queue)
      → TakesAtMost s
      → (q.cmds c).cur_sg ≡ cs
      → Shrinks c (total cs - (q.cmds c).offset) (data_round s c cs q)
  unfolding data_round load data_piece
  data_round-Shrinks c [] q m sg = λ e. ground arith
  data_round-Shrinks c (l ∷ ls) q m sg =
      let p = data_piece s c l q in
      elim (Bool-cases (is_aggregated s q)) [
        | inl g ↦ elim (Bool-cases (is_caravan_full q)) [
          | inl f ↦ rw (data_round, g, f) (λ e. ground arith)
          | inr f ↦
              rw (data_round, g, f)
                (data_sent-Shrinks c l ls
                  (record (load p q) { nr_caravan_mapped = q.nr_caravan_mapped + 1 }) (took p.len)
                  sg (λ n a. ground arith))
        ]
        | inr g ↦
            let x = submit s p.len (p ∷ []) q in
            let k = submit-cmds p.len (p ∷ []) q in
            let o = ap (λ f. (f c).offset) k in
            rw (data_round, g)
              (subst (λ f. Shrinks c (l + total ls - (f c).offset) (data_sent s c l ls (x.0, x.1)))
                k
                (data_sent-Shrinks c l ls x.0 x.1 (ap (λ f. (f c).cur_sg) k ∙ sg)
                  (λ n a. let b = submit-TakesAtMost p.len n (p ∷ []) q m a in omega arith)))
      ]

  try_send_data-returns :
      (fuel c : ℕ) (q : Queue)
      → TakesAtMost s
      → left (q.cmds c) < fuel
      → (x : Queue × Ret) × (try_send_data s fuel c q ≡ some x)
  unfolding try_send_data
  try_send_data-returns zero c q m l = elim l [ ]
  try_send_data-returns (suc fuel) c q m l =
      let r = data_round s c (q.cmds c).cur_sg q in
      elim (Option-cases r.1) [
        | inl e ↦
            let less = data_round-Shrinks c (q.cmds c).cur_sg q m refl e in
            let (x, f) = try_send_data-returns fuel c r.0 m (omega arith) in
            (x, rw (try_send_data, e) f)
        | inr (x, e) ↦ ((r.0, x), rw (try_send_data, e) refl)
      ]

  from_data-returns :
      (fuel c : ℕ) (q : Queue) (x : Ret)
      → TakesAtMost s
      → total (q.cmds c).cur_sg < fuel
      → (y : Queue × Ret) × (from_data s fuel c q x ≡ some y)
  unfolding from_data
  from_data-returns fuel c q x m l = elim (Bool-cases (is_state (q.cmds c).state send_data)) [
    | inl t ↦
        let (y, e) = try_send_data-returns fuel c q m (omega arith) in
        rw (from_data, t, e) (_, refl)
    | inr t ↦ rw (from_data, t) (_, refl)
  ]

  send_parts-returns :
      (fuel c : ℕ) (q : Queue)
      → TakesAtMost s
      → total (q.cmds c).cur_sg < fuel
      → (y : Queue × Ret) × (send_parts s fuel c q ≡ some y)
  unfolding send_parts
  send_parts-returns fuel c q m l =
      let p = try_send_data_pdu s c q in
      elim (Bool-cases (is_state (q.cmds c).state send_data_pdu)) [
        | inl t ↦ elim (Bool-cases (is_one p.1)) [
          | inl o ↦
              let k = ap total (data_pdu-sg c c q) in
              rw (send_parts, t, o) (from_data-returns fuel c p.0 p.1 m (omega arith))
          | inr o ↦ rw (send_parts, t, o) (_, refl)
        ]
        | inr t ↦ rw (send_parts, t) (from_data-returns fuel c q nothing m l)
      ]

  -- `nvmet_tcp_try_send_one` returns, if the socket takes no more than it is offered: more fuel than any
  -- command has bytes in the rest of its scatterlist is enough for the rounds of its loop.
  pub try_send_one-returns :
      (fuel : ℕ) (q : Queue)
      → TakesAtMost s
      → Within fuel q
      → (q' : Queue) × (ret : Ret) × (try_send_one s fuel q ≡ some (q', ret))
  unfolding try_send_one Within
  try_send_one-returns fuel q m w =
      let f = current s q in
      elim (Option-cases f.snd_cmd) [
        | inl n ↦ rw (try_send_one, n) (_, _, refl)
        | inr (c, n) ↦
            let k = ap total (current-sg c q) in
            let l = w c in
            let (y, e) = send_parts-returns fuel c f m (omega arith) in
            rw (try_send_one, n) (y.0, y.1, e)
      ]
