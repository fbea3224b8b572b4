-- ===== src/Tcp/Send/Total.antt =====
-- drivers/nvme/host/tcp.c: the loop of nvme_tcp_try_send_data ends, and so does nvme_tcp_try_send.
use blk_switch.Common.{
  ℕ, zero, suc, Option, List, [], ◌∷◌, none, some, not, ◌&&◌, ◌+◌, ◌-◌, ◌≤◌, ◌<◌, ◌≡◌, arith, refl,
  ap, Bool-cases, Option-cases, inl, inr, ◌==◌,
}
use blk_switch.Tcp.{send_cmd_pdu, send_h2c_pdu, send_data}
use blk_switch.Tcp.Doorbell.{Host, Sent, is_legacy_path}
use blk_switch.Tcp.Send.{
  Chunk, Answer, Answer-cases, took, refused, Ret, one, Sender, Socket, submit, load,
  is_caravan_full, Outgoing,
}
use blk_switch.Tcp.Send.Parts.{
  cur_chunk, cur_length, data_round, data_sent_some, data_advance, advance_req, try_send_data,
  try_send_cmd_pdu, try_send_data_pdu, has_inline_data, send_pdu, cmd_pdu_sent, data_pdu_sent,
}
use blk_switch.Tcp.Send.Try.{
  is_state, is_busy, is_one, fetch, flush, from_data, from_h2c, send_parts, try_send,
}

-- What is left of the PDU of a request.
abbrev left : Outgoing → ℕ
left r = r.pdu_len - r.pdu_sent

-- A socket that takes no more than it is offered.
unfoldable pub TakesAtMost : Socket → Type 0
TakesAtMost s = (i l n : ℕ) → s.answer i l ≡ took n → n ≤ l

-- Every request has less than `fuel` bytes of its PDU left.
unfoldable pub Within : ℕ → Sender → Type 0
Within fuel q = (t : ℕ) → left (q.reqs t) < fuel

module _ (h : Host) (s : Socket) where
  data_sent_some-left :
      (r : Sent) (c : Chunk) (q : Sender) (n : ℕ)
      → n ≤ c.len
      → c.len ≤ left (q.reqs r.tag)
      → (data_sent_some h s r c q (took n)).1 ≡ none
      → left ((data_sent_some h s r c q (took n)).0.reqs r.tag) < left (q.reqs r.tag)
  unfolding data_sent_some data_advance advance_req
  data_sent_some-left r c q n lo hi e = ground arith

  cur_chunk-left : (r : Sent) (q : Sender) → (cur_chunk h s r q).len ≤ left (q.reqs r.tag)
  unfolding cur_chunk cur_length
  cur_chunk-left r q = ground arith

  submit-keeps_reqs : (n : ℕ) (cs : List Chunk) (q : Sender) → (submit s n cs q).0.reqs ≡ q.reqs
  unfolding submit
  submit-keeps_reqs n cs q = ground arith

  -- What was offered to the socket, or went into the caravan.
  offered-left :
      (r : Sent) (q q1 : Sender) (a : Answer)
      → q1.reqs ≡ q.reqs
      → ((n : ℕ) → a ≡ took n → n ≤ (cur_chunk h s r q).len)
      → (data_sent_some h s r (cur_chunk h s r q) q1 a).1 ≡ none
      → left ((data_sent_some h s r (cur_chunk h s r q) q1 a).0.reqs r.tag) < left (q.reqs r.tag)
  unfolding data_sent_some
  offered-left r q q1 (took n) k lo e =
      let c = cur_chunk-left r q in
      let same : left (q1.reqs r.tag) ≡ left (q.reqs r.tag) = ap (λ x. left (x r.tag)) k in
      let less = data_sent_some-left r (cur_chunk h s r q) q1 n (lo n refl) (omega arith) e in
      omega arith
  offered-left r q q1 (refused x) k lo e = ground arith

  submit-TakesAtMost :
      (len n : ℕ) (cs : List Chunk) (q : Sender)
      → TakesAtMost s
      → (submit s len cs q).1 ≡ took n
      → n ≤ len
  unfolding submit TakesAtMost
  submit-TakesAtMost len n cs q m e = elim (Answer-cases (s.answer q.calls len)) [
    | inl (k, a) ↦ ground (arith, m q.calls len k a)
    | inr (x, a) ↦ ground arith
  ]

  -- A round that goes on has less left.
  abbrev Shrinks : Sent → Sender → Sender × Option Ret → Type 0
  Shrinks r q p = p.1 ≡ none → left (p.0.reqs r.tag) < left (q.reqs r.tag)

  data_round-Shrinks : (r : Sent) (q : Sender) → TakesAtMost s → Shrinks r q (data_round h s r q)
  unfolding data_round load
  data_round-Shrinks r q m =
      let c = cur_chunk h s r q in
      elim (Bool-cases (is_legacy_path h q.bell)) [
        | inl l ↦
            let p = submit s c.len (c ∷ []) q in
            rw (data_round, l)
              (offered-left r q p.0 p.1 (submit-keeps_reqs c.len (c ∷ []) q)
                (λ n a. submit-TakesAtMost c.len n (c ∷ []) q m a))
        | inr l ↦ elim (Bool-cases (is_caravan_full q)) [
          | inl f ↦ rw (data_round, l, f) (λ e. ground arith)
          | inr f ↦
              rw (data_round, l, f)
                (offered-left r q (record (load c q) { nr_mapped = q.nr_mapped + 1 }) (took c.len)
                  refl (λ n a. ground arith))
        ]
      ]

  try_send_data-returns :
      (fuel : ℕ) (r : Sent) (q : Sender)
      → TakesAtMost s
      → left (q.reqs r.tag) < fuel
      → (p : Sender × Ret) × (try_send_data h s fuel r q ≡ some p)
  unfolding try_send_data
  try_send_data-returns zero r q m l = elim l [ ]
  try_send_data-returns (suc fuel) r q m l = elim (Option-cases (data_round h s r q).1) [
    | inl e ↦
        let less = data_round-Shrinks r q m e in
        let (p, f) = try_send_data-returns fuel r (data_round h s r q).0 m (omega arith) in
        (p, rw (try_send_data, e) f)
    | inr (x, e) ↦ (((data_round h s r q).0, x), rw (try_send_data, e) refl)
  ]

  -- Neither PDU touches what is left of the data.
  cmd_pdu-left :
      (r : Sent) (q : Sender) (t : ℕ) → left ((try_send_cmd_pdu h s r q).0.reqs t) ≡ left (q.reqs t)
  unfolding try_send_cmd_pdu send_pdu cmd_pdu_sent submit load
  cmd_pdu-left r q t = ground arith

  data_pdu-left :
      (r : Sent) (q : Sender) (t : ℕ)
      → left ((try_send_data_pdu h s r q).0.reqs t) ≡ left (q.reqs t)
  unfolding try_send_data_pdu send_pdu data_pdu_sent submit load
  data_pdu-left r q t = ground arith

  flush-left : (q : Sender) (t : ℕ) → left ((flush h s (fetch h s q)).0.reqs t) ≡ left (q.reqs t)
  unfolding flush fetch submit
  flush-left q t = ground arith

  Returns : Option (Sender × Ret) → Type 0
  Returns o = (p : Sender × Ret) × (o ≡ some p)

  from_data-Returns :
      (fuel : ℕ) (r : Sent) (q : Sender) (x : Ret)
      → TakesAtMost s
      → left (q.reqs r.tag) < fuel
      → Returns (from_data h s fuel r q x)
  unfolding from_data Returns
  from_data-Returns fuel r q x m l = elim (Bool-cases (is_state (q.reqs r.tag).state send_data)) [
    | inl t ↦ let (p, e) = try_send_data-returns fuel r q m l in rw (from_data, t, e) (_, refl)
    | inr t ↦ rw (from_data, t) (_, refl)
  ]

  from_h2c-Returns :
      (fuel : ℕ) (r : Sent) (q : Sender) (x : Ret)
      → TakesAtMost s
      → left (q.reqs r.tag) < fuel
      → Returns (from_h2c h s fuel r q x)
  unfolding from_h2c Returns
  from_h2c-Returns fuel r q x m l =
      let p = try_send_data_pdu h s r q in
      elim (Bool-cases (is_state (q.reqs r.tag).state send_h2c_pdu)) [
        | inl t ↦ elim (Bool-cases (is_one p.1)) [
          | inl o ↦
              let k = data_pdu-left r q r.tag in
              rw (from_h2c, t, o) (from_data-Returns fuel r p.0 p.1 m (omega arith))
          | inr o ↦ rw (from_h2c, t, o) (_, refl)
        ]
        | inr t ↦ rw (from_h2c, t) (from_data-Returns fuel r q x m l)
      ]

  send_parts-Returns :
      (fuel : ℕ) (r : Sent) (q : Sender)
      → TakesAtMost s
      → left (q.reqs r.tag) < fuel
      → Returns (send_parts h s fuel r q)
  unfolding send_parts Returns
  send_parts-Returns fuel r q m l =
      let p = try_send_cmd_pdu h s r q in
      elim (Bool-cases (is_state (q.reqs r.tag).state send_cmd_pdu)) [
        | inl t ↦ elim (Bool-cases (is_one p.1)) [
          | inr o ↦ rw (send_parts, t, o) (_, refl)
          | inl o ↦ elim (Bool-cases (has_inline_data p.0 (p.0.reqs r.tag))) [
            | inr i ↦ rw (send_parts, t, o, i) (_, refl)
            | inl i ↦
                let k = cmd_pdu-left r q r.tag in
                rw (send_parts, t, o, i) (from_h2c-Returns fuel r p.0 p.1 m (omega arith))
          ]
        ]
        | inr t ↦ rw (send_parts, t) (from_h2c-Returns fuel r q one m l)
      ]

  -- `nvme_tcp_try_send` returns, if the socket takes no more than it is offered: more fuel than any
  -- request has bytes of its PDU left is enough for the rounds of its loop.
  pub try_send-Returns :
      (fuel : ℕ) (q : Sender)
      → TakesAtMost s
      → Within fuel q
      → (q' : Sender) × (ret : Ret) × (try_send h s fuel q ≡ some (q', ret))
  unfolding try_send Returns Within
  try_send-Returns fuel q m w =
      let f = fetch h s q in
      let g = flush h s f in
      elim (Bool-cases (not (is_busy f) && f.caravan_len == 0)) [
        | inl t ↦ rw (try_send, t) (_, _, refl)
        | inr t ↦ elim (Option-cases g.1) [
          | inr (x, e) ↦ rw (try_send, t, e) (_, _, refl)
          | inl e ↦ elim (Option-cases g.0.request) [
            | inl n ↦ rw (try_send, t, e, n) (_, _, refl)
            | inr (r, n) ↦
                let k = flush-left q r.tag in
                let l = w r.tag in
                let (p, x) = send_parts-Returns fuel r g.0 m (omega arith) in
                rw (try_send, t, e, n) (p.0, p.1, x)
          ]
        ]
      ]
