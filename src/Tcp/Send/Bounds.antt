-- ===== src/Tcp/Send/Bounds.antt =====
-- drivers/nvme/host/tcp.c: the caravan stays within its arrays, and its counters are right.
use blk_switch.Common.{
  ℕ, zero, suc, List, [], ◌∷◌, ◌++◌, some, false, ◌+◌, ◌≤◌, ◌≡◌, inl, inr, arith, length,
  length-append, Option-cases,
}
use blk_switch.Tcp.Doorbell.{Host, Sent}
use blk_switch.Tcp.Send.{
  Chunk, Answer, took, refused, Ret, one, Sender, Socket, bytes_of, load, submit, is_caravan_full,
}
use blk_switch.Tcp.Send.Parts.{
  send_pdu, try_send_cmd_pdu, cmd_pdu_sent, try_send_data_pdu, data_pdu_sent, data_round,
  data_sent_some, data_complete, data_advance, try_send_data, try_send_ddgst, cmd_chunk, h2c_chunk,
  cur_chunk, ddgst_chunk,
}
use blk_switch.Tcp.Send.Try.{fetch, flush, from_ddgst, from_data, from_h2c, send_parts, try_send}

-- The caravan's counters are those of its entries, and the arrays have the space: 64 entries of
-- `caravan_iovs` and 32 of `caravan_mapped`.
pub record IsLoaded (q : Sender) : Type 0 where
  pub counted : q.nr_iovs ≡ length q.caravan_iovs
  pub weighed : q.caravan_len ≡ bytes_of q.caravan_iovs
  pub iovs_fit : q.nr_iovs ≤ 64
  pub mapped_fit : q.nr_mapped ≤ 32

pub bytes_of-append : (xs ys : List Chunk) → bytes_of (xs ++ ys) ≡ bytes_of xs + bytes_of ys
bytes_of-append [] ys = omega arith
bytes_of-append (x ∷ xs) ys = omega (arith, bytes_of-append xs ys)

-- The two ways to leave the caravan's fields alone.
SameCaravan : Sender → Sender → Type 0
SameCaravan q q' =
    (q'.nr_iovs ≡ q.nr_iovs)
    × (q'.caravan_iovs ≡ q.caravan_iovs)
    × (q'.caravan_len ≡ q.caravan_len)
    × (q'.nr_mapped ≡ q.nr_mapped)

load-IsLoaded :
    (c : Chunk) (q : Sender) → is_caravan_full q ≡ false → IsLoaded q → IsLoaded (load c q)
unfolding load is_caravan_full
load-IsLoaded c q f l =
    ground (arith, length-append q.caravan_iovs (c ∷ []), bytes_of-append q.caravan_iovs (c ∷ []))

submit-IsLoaded :
    (s : Socket) (n : ℕ) (cs : List Chunk) (q : Sender) → IsLoaded q → IsLoaded (submit s n cs q).0
unfolding submit
submit-IsLoaded s n cs q l = ground arith

mapped :
    (c : Chunk) (q : Sender)
    → IsLoaded q
    → is_caravan_full q ≡ false
    → IsLoaded (record (load c q) { nr_mapped = q.nr_mapped + 1 })
unfolding load is_caravan_full
mapped c q l f =
    ground (arith, length-append q.caravan_iovs (c ∷ []), bytes_of-append q.caravan_iovs (c ∷ []))

module _ (h : Host) (s : Socket) where
  cmd_pdu_sent-IsLoaded :
      (r : Sent) (len n : ℕ) (q : Sender) → IsLoaded q → IsLoaded (cmd_pdu_sent h s r len n q).0
  unfolding cmd_pdu_sent
  cmd_pdu_sent-IsLoaded r len n q l = ground arith

  data_pdu_sent-IsLoaded :
      (r : Sent) (len n : ℕ) (q : Sender) → IsLoaded q → IsLoaded (data_pdu_sent h s r len n q).0
  unfolding data_pdu_sent
  data_pdu_sent-IsLoaded r len n q l = ground arith

  send_pdu-IsLoaded :
      (r : Sent) (c : Chunk) (q : Sender) (q' : Sender) (a : Answer)
      → IsLoaded q
      → send_pdu h s r c q ≡ some (q', a)
      → IsLoaded q'
  unfolding send_pdu
  send_pdu-IsLoaded r c q q' a l e =
      ground (arith, submit-IsLoaded s c.len (c ∷ []) q l, load-IsLoaded c q)

  data_sent_some-IsLoaded :
      (r : Sent) (c : Chunk) (q : Sender) (a : Answer)
      → IsLoaded q
      → IsLoaded (data_sent_some h s r c q a).0
  unfolding data_sent_some data_complete data_advance
  data_sent_some-IsLoaded r c q a l = ground arith

  fetch-IsLoaded : (q : Sender) → IsLoaded q → IsLoaded (fetch h s q)
  unfolding fetch
  fetch-IsLoaded q l = ground arith

  flush-IsLoaded : (q : Sender) → IsLoaded q → IsLoaded (flush h s q).0
  unfolding flush
  flush-IsLoaded q l = ground (arith, submit-IsLoaded s q.caravan_len q.caravan_iovs q l)

  try_send_ddgst-IsLoaded :
      (r : Sent) (q : Sender) → IsLoaded q → IsLoaded (try_send_ddgst h s r q).0
  unfolding try_send_ddgst
  try_send_ddgst-IsLoaded r q l = ground (
    arith,
    submit-IsLoaded s (ddgst_chunk h s r (q.reqs r.tag)).len (ddgst_chunk h s r (q.reqs r.tag) ∷ [])
        q l,
  )

  try_send_cmd_pdu-IsLoaded :
      (r : Sent) (q : Sender) → IsLoaded q → IsLoaded (try_send_cmd_pdu h s r q).0
  unfolding try_send_cmd_pdu
  try_send_cmd_pdu-IsLoaded r q l = elim (Option-cases (send_pdu h s r (cmd_chunk h s r q) q)) [
    | inl n ↦ rw (try_send_cmd_pdu, n) (ground arith)
    | inr ((q', took n), e) ↦
        let l' = send_pdu-IsLoaded r (cmd_chunk h s r q) q q' (took n) l e in
        rw (try_send_cmd_pdu, e)
          (cmd_pdu_sent-IsLoaded r (cmd_chunk h s r q).len n _ (ground arith))
    | inr ((q', refused x), e) ↦
        let l' = send_pdu-IsLoaded r (cmd_chunk h s r q) q q' (refused x) l e in
        rw (try_send_cmd_pdu, e) (ground arith)
  ]

  try_send_data_pdu-IsLoaded :
      (r : Sent) (q : Sender) → IsLoaded q → IsLoaded (try_send_data_pdu h s r q).0
  unfolding try_send_data_pdu
  try_send_data_pdu-IsLoaded r q l = elim (Option-cases (send_pdu h s r (h2c_chunk h s r q) q)) [
    | inl n ↦ rw (try_send_data_pdu, n) (ground arith)
    | inr ((q', took n), e) ↦
        rw (try_send_data_pdu, e)
          (data_pdu_sent-IsLoaded r (h2c_chunk h s r q).len n q'
            (send_pdu-IsLoaded r (h2c_chunk h s r q) q q' (took n) l e))
    | inr ((q', refused x), e) ↦
        rw (try_send_data_pdu, e) (send_pdu-IsLoaded r (h2c_chunk h s r q) q q' (refused x) l e)
  ]

  data_round-IsLoaded : (r : Sent) (q : Sender) → IsLoaded q → IsLoaded (data_round h s r q).0
  unfolding data_round
  data_round-IsLoaded r q l = ground (
    arith,
    data_sent_some-IsLoaded r (cur_chunk h s r q)
        (submit s (cur_chunk h s r q).len (cur_chunk h s r q ∷ []) q).0
        (submit s (cur_chunk h s r q).len (cur_chunk h s r q ∷ []) q).1
        (submit-IsLoaded s (cur_chunk h s r q).len (cur_chunk h s r q ∷ []) q l),
    mapped (cur_chunk h s r q) q l,
    data_sent_some-IsLoaded r (cur_chunk h s r q)
        (record (load (cur_chunk h s r q) q) { nr_mapped = q.nr_mapped + 1 })
        (took (cur_chunk h s r q).len),
  )

  try_send_data-IsLoaded :
      (fuel : ℕ) (r : Sent) (q q' : Sender) (ret : Ret)
      → IsLoaded q
      → try_send_data h s fuel r q ≡ some (q', ret)
      → IsLoaded q'
  unfolding try_send_data
  try_send_data-IsLoaded zero r q q' ret l e = cc
  try_send_data-IsLoaded (suc fuel) r q q' ret l e = ground (
    arith,
    data_round-IsLoaded r q l,
    try_send_data-IsLoaded fuel r (data_round h s r q).0 q' ret,
  )

  from_ddgst-IsLoaded :
      (r : Sent) (q : Sender) (ret : Ret) → IsLoaded q → IsLoaded (from_ddgst h s r q ret).0
  unfolding from_ddgst
  from_ddgst-IsLoaded r q ret l = ground (arith, try_send_ddgst-IsLoaded r q l)

  from_data-IsLoaded :
      (fuel : ℕ) (r : Sent) (q q' : Sender) (ret ret' : Ret)
      → IsLoaded q
      → from_data h s fuel r q ret ≡ some (q', ret')
      → IsLoaded q'
  unfolding from_data
  from_data-IsLoaded fuel r q q' ret ret' l e = elim (Option-cases (try_send_data h s fuel r q)) [
    | inl n ↦ ground (arith, from_ddgst-IsLoaded r q ret l)
    | inr ((q1, ret1), e1) ↦
        let l1 = try_send_data-IsLoaded fuel r q q1 ret1 l e1 in
        ground (arith, from_ddgst-IsLoaded r q ret l, from_ddgst-IsLoaded r q1 ret1 l1)
  ]

  from_h2c-IsLoaded :
      (fuel : ℕ) (r : Sent) (q q' : Sender) (ret ret' : Ret)
      → IsLoaded q
      → from_h2c h s fuel r q ret ≡ some (q', ret')
      → IsLoaded q'
  unfolding from_h2c
  from_h2c-IsLoaded fuel r q q' ret ret' l e =
      let l1 = try_send_data_pdu-IsLoaded r q l in
      ground (
        arith,
        from_data-IsLoaded fuel r q q' ret ret' l,
        from_data-IsLoaded fuel r (try_send_data_pdu h s r q).0 q' (try_send_data_pdu h s r q).1
            ret' l1,
      )

  send_parts-IsLoaded :
      (fuel : ℕ) (r : Sent) (q q' : Sender) (ret : Ret)
      → IsLoaded q
      → send_parts h s fuel r q ≡ some (q', ret)
      → IsLoaded q'
  unfolding send_parts
  send_parts-IsLoaded fuel r q q' ret l e =
      let l1 = try_send_cmd_pdu-IsLoaded r q l in
      ground (
        arith,
        from_h2c-IsLoaded fuel r q q' one ret l,
        from_h2c-IsLoaded fuel r (try_send_cmd_pdu h s r q).0 q' (try_send_cmd_pdu h s r q).1 ret
            l1,
      )

  -- Whatever the socket answers, `nvme_tcp_try_send` keeps the caravan within its arrays of 64 entries
  -- and 32 pages, and its counters right.
  pub try_send-IsLoaded :
      (fuel : ℕ) (q q' : Sender) (ret : Ret)
      → IsLoaded q
      → try_send h s fuel q ≡ some (q', ret)
      → IsLoaded q'
  unfolding try_send
  try_send-IsLoaded fuel q q' ret l e =
      let l1 = fetch-IsLoaded q l in
      let l2 = flush-IsLoaded (fetch h s q) l1 in
      elim (Option-cases (flush h s (fetch h s q)).0.request) [
        | inl n ↦ ground arith
        | inr (r, f) ↦
            ground (arith, send_parts-IsLoaded fuel r (flush h s (fetch h s q)).0 q' ret l2)
      ]
