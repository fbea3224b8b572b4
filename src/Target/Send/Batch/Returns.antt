-- ===== src/Target/Send/Batch/Returns.antt =====
-- drivers/nvme/target/tcp.c: nvmet_tcp_try_send ends.
use blk_switch.Common.{
  ℕ, zero, suc, Bool, List, [], ◌∷◌, some, ◌+◌, ◌≤◌, ◌≡◌, arith, refl, ap, Bool-cases, Option-cases,
  inl, inr, ◌==◌,
}
use blk_switch.Tcp.Send.{Ret, nothing}
use blk_switch.Target.{Queue, Link, put_cmd, free_sg}
use blk_switch.Target.Respond.{setup_response_pdu}
use blk_switch.Target.Send.{
  submit, load, send_header, header_sent, try_send_data_pdu, data_round, data_sent, data_advance,
  data_done, try_send_data, try_send_response, response_done, try_send_r2t, try_send_ddgst,
  ddgst_done,
}
use blk_switch.Target.Send.Batch.{
  is_one, from_response, from_r2t, from_ddgst, from_data, send_parts, current, try_send_one,
  put_cmds, settle, send_caravan, try_send,
}
use blk_switch.Target.Send.Batch.Total.{
  total, TakesAtMost, Within, current-sg, data_pdu-sg, try_send_one-returns,
}

module _ (s : Link) (t : ℕ) where
  -- The bytes in the rest of the scatterlist of the command `t`.
  abbrev rest : Queue → ℕ
  rest q = total (q.cmds t).cur_sg

  r2t-rest : (c : ℕ) (q : Queue) → rest (try_send_r2t s c q).0 ≡ rest q
  unfolding try_send_r2t send_header header_sent submit load
  r2t-rest c q = ground arith

  response-rest : (c : ℕ) (q : Queue) → rest (try_send_response s c q).0 ≡ rest q
  unfolding try_send_response header_sent submit load response_done put_cmd
  response-rest c q = ground arith

  ddgst-rest : (c : ℕ) (q : Queue) → rest (try_send_ddgst s c q).0 ≡ rest q
  unfolding try_send_ddgst submit ddgst_done setup_response_pdu put_cmd
  ddgst-rest c q = ground arith

  data_done-rest : (c : ℕ) (q : Queue) → rest (data_done s c q) ≡ rest q
  unfolding data_done setup_response_pdu put_cmd
  data_done-rest c q = ground arith

  put_cmds-rest : (cs : List ℕ) (q : Queue) → rest (put_cmds cs q) ≡ rest q
  unfolding put_cmds put_cmd
  put_cmds-rest [] q = refl
  put_cmds-rest (c ∷ cs) q = let e = put_cmds-rest cs (put_cmd c (free_sg c q)) in ground arith

  send_caravan-rest :
      (ret : Ret) (last : Bool) (q : Queue) → rest (send_caravan s ret last q).0 ≡ rest q
  unfolding send_caravan settle submit
  send_caravan-rest ret last q =
      let e = put_cmds-rest q.caravan_cmds (submit s q.caravan_len q.caravan_iovs q).0 in
      ground arith

  data_round-rest :
      (c : ℕ) (cs : List ℕ) (q : Queue)
      → (q.cmds c).cur_sg ≡ cs
      → rest (data_round s c cs q).0 ≤ rest q
  unfolding data_round data_sent data_advance submit load
  data_round-rest c [] q e = omega (arith, data_done-rest c q)
  data_round-rest c (l ∷ ls) q e =
      let b : total (q.cmds c).cur_sg ≡ l + total ls = ap total e in ground (arith, b)

  ends-lem :
      (fuel c : ℕ) (q : Queue) (x : Ret)
      → (data_round s c (q.cmds c).cur_sg q).1 ≡ some x
      → try_send_data s (suc fuel) c q ≡ some ((data_round s c (q.cmds c).cur_sg q).0, x)
  unfolding try_send_data
  ends-lem fuel c q x n = rw (try_send_data, n) refl

  try_send_data-rest :
      (fuel c : ℕ) (q q' : Queue) (ret : Ret)
      → try_send_data s fuel c q ≡ some (q', ret)
      → rest q' ≤ rest q
  unfolding try_send_data
  try_send_data-rest zero c q q' ret e = ground arith
  try_send_data-rest (suc fuel) c q q' ret e =
      let r = data_round s c (q.cmds c).cur_sg q in
      let k = data_round-rest c (q.cmds c).cur_sg q refl in
      elim (Option-cases r.1) [
        | inl n ↦ ground (arith, try_send_data-rest fuel c r.0 q' ret)
        | inr (x, n) ↦ ground (arith, ends-lem fuel c q x n)
      ]

  from_response-rest : (c : ℕ) (q : Queue) (x : Ret) → rest (from_response s c q x).0 ≡ rest q
  unfolding from_response
  from_response-rest c q x = ground (arith, response-rest c q)

  from_r2t-rest : (c : ℕ) (q : Queue) (x : Ret) → rest (from_r2t s c q x).0 ≡ rest q
  unfolding from_r2t
  from_r2t-rest c q x =
      let p = try_send_r2t s c q in
      ground (arith, r2t-rest c q, from_response-rest c q x, from_response-rest c p.0 p.1)

  from_ddgst-rest : (c : ℕ) (q : Queue) (x : Ret) → rest (from_ddgst s c q x).0 ≡ rest q
  unfolding from_ddgst
  from_ddgst-rest c q x =
      let p = try_send_ddgst s c q in
      ground (arith, ddgst-rest c q, from_r2t-rest c q x, from_r2t-rest c p.0 p.1)

  from_data-rest :
      (fuel c : ℕ) (q q' : Queue) (x x' : Ret)
      → from_data s fuel c q x ≡ some (q', x')
      → rest q' ≤ rest q
  unfolding from_data
  from_data-rest fuel c q q' x x' e = elim (Option-cases (try_send_data s fuel c q)) [
    | inl n ↦ ground (arith, from_ddgst-rest c q x)
    | inr ((q1, x1), n) ↦
        let k = try_send_data-rest fuel c q q1 x1 n in
        ground (arith, from_ddgst-rest c q x, from_ddgst-rest c q1 x1)
  ]

  send_parts-rest :
      (fuel c : ℕ) (q q' : Queue) (x : Ret)
      → send_parts s fuel c q ≡ some (q', x)
      → rest q' ≤ rest q
  unfolding send_parts
  send_parts-rest fuel c q q' x e =
      let p = try_send_data_pdu s c q in
      let k = ap total (data_pdu-sg s c t q) in
      ground (arith, from_data-rest fuel c q q' nothing x, from_data-rest fuel c p.0 q' p.1 x)

  try_send_one-rest :
      (fuel : ℕ) (q q' : Queue) (x : Ret) → try_send_one s fuel q ≡ some (q', x) → rest q' ≤ rest q
  unfolding try_send_one
  try_send_one-rest fuel q q' x e =
      let k = ap total (current-sg s t q) in
      elim (Option-cases (current s q).snd_cmd) [
        | inl n ↦ ground arith
        | inr (c, n) ↦ ground (arith, send_parts-rest fuel c (current s q) q' x)
      ]

module _ (s : Link) where
  -- `nvmet_tcp_try_send` returns, if the socket takes no more than it is offered: more fuel than any
  -- command has bytes in the rest of its scatterlist is enough for the rounds of its loops.
  pub try_send-returns :
      (fuel budget : ℕ) (q : Queue) (ret : Ret)
      → TakesAtMost s
      → Within fuel q
      → (q' : Queue) × (ret' : Ret) × (n : ℕ) × (try_send s fuel budget q ret ≡ some (q', ret', n))
  unfolding try_send Within
  try_send-returns fuel zero q ret m w = (_, _, _, refl)
  try_send-returns fuel (suc budget) q ret m w =
      let (q1, r1, e) = try_send_one-returns s fuel q m w in
      let last = budget == 0 in
      let g = (send_caravan s r1 last q1).0 in
      elim (Bool-cases (send_caravan s r1 last q1).1) [
        | inr f ↦ rw (try_send, e, f) (_, _, _, refl)
        | inl f ↦ elim (Bool-cases (is_one r1)) [
          | inr o ↦ rw (try_send, e, f, o) (_, _, _, refl)
          | inl o ↦
              let (q2, r2, n, k) = try_send-returns fuel budget g r1 m (λ c.
                let a = try_send_one-rest s c fuel q q1 r1 e in
                let b = send_caravan-rest s c r1 last q1 in let d = w c in omega arith) in
              rw (try_send, e, f, o, k) (_, _, _, refl)
        ]
      ]
