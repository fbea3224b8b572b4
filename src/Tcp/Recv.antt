-- ===== src/Tcp/Recv.antt =====
-- drivers/nvme/host/tcp.c: the receive path, over the bytes of one socket buffer. The copy functions
-- of the kernel succeed within the buffer.
pub mod Bytewise
pub mod Phases
pub mod Loop
pub mod Room
pub mod Transfer
use blk_switch.Common.{
  ℕ, zero, suc, Bool, Option, List, [], ◌∷◌, ◌++◌, none, some, true, false, not, ◌+◌, ◌-◌, ◌*◌,
  ◌==◌, if◌then◌else◌, u32, min, length, take, drop, is_empty,
}
use blk_switch.Tcp.{
  Pdu, Wire, Req, completed, recovery, enoent, eio, Queue, Result, ok, err, ◌>>=◌, tag_to_rq,
  same_bytes,
}
use blk_switch.Tcp.Dispatch.{log, set_rq, init_recv_ctx, pdu_done}

-- Bytes into the iterator of a request: when it is full, that of the next bio; `none` where there is
-- no next bio.
unfoldable pub copy_to_bios : ℕ → List ℕ → List ℕ → Option (ℕ × List ℕ)
copy_to_bios iter [] bytes =
    if is_empty (drop iter bytes) then some (iter - length bytes, []) else none
copy_to_bios iter (b ∷ bs) bytes =
    let next = copy_to_bios b bs (drop iter bytes) in
    if is_empty (drop iter bytes) then some (iter - length bytes, b ∷ bs) else next

-- The loop of `nvme_tcp_recv_data`, for one request; `none` is -EIO.
unfoldable pub receive : Req → List ℕ → Option Req
receive rq bytes = elim (copy_to_bios rq.iter rq.bios bytes) [
  | none ↦ none
  | some (iter, bios) ↦
      some (record rq { iter = iter; bios = bios; received = rq.received ++ bytes })
]

module _ (w : Wire) where
  -- Behind the loop: the data of the PDU is complete.
  unfoldable pub data_done : Queue → Pdu → Queue
  data_done q p =
      if q.data_digest
      then record q {
        exp_ddgst = w.digest q.hash;
        ddgst_remaining = w.digest_size;
        recv_ddgst = [];
      }
      else if p.success_flag
      then init_recv_ctx w
          (record (log (completed p.command_id 0) q) { nr_cqe = u32 (q.nr_cqe + 1) })
      else init_recv_ctx w q

  -- Behind the last byte of a data digest.
  unfoldable pub ddgst_done : Queue → Pdu → Result Queue
  ddgst_done q p =
      if not (same_bytes q.recv_ddgst q.exp_ddgst)
      then err eio q.events
      else if p.success_flag
      then ok (
          init_recv_ctx w
            (record (log (completed p.command_id 0) q) { nr_cqe = u32 (q.nr_cqe + 1) }))
      else ok (init_recv_ctx w q)

  -- The three steps for bytes that the present state takes in whole, at most as many as remain.
  unfoldable pub take_pdu : Queue → List ℕ → Result Queue
  take_pdu q bytes =
      let got = record q { pdu = q.pdu ++ bytes; pdu_remaining = q.pdu_remaining - length bytes } in
      if got.pdu_remaining == 0 then pdu_done w got else ok got

  unfoldable pub take_ddgst : Queue → List ℕ → Result Queue
  take_ddgst q bytes =
      let got = record q {
        recv_ddgst = q.recv_ddgst ++ bytes;
        ddgst_remaining = q.ddgst_remaining - length bytes;
      } in
      if got.ddgst_remaining == 0 then ddgst_done got (w.parse q.pdu) else ok got

  unfoldable pub take_data : Queue → List ℕ → Result Queue
  take_data q bytes =
      let p = w.parse q.pdu in
      elim (tag_to_rq q p.command_id) [
        | none ↦ err enoent q.events
        | some rq ↦ elim (receive rq bytes) [
          | none ↦ err eio q.events
          | some rq' ↦
              let got = record (set_rq p.command_id rq' q) {
                hash = if q.data_digest then q.hash ++ bytes else q.hash;
                data_remaining = q.data_remaining - length bytes;
              } in
              if got.data_remaining == 0 then ok (data_done got p) else ok got
        ]
      ]

  -- `nvme_tcp_recv_pdu`, `nvme_tcp_recv_ddgst` and `nvme_tcp_recv_data`: the state afterwards and
  -- the bytes that are left.
  unfoldable pub recv_pdu : Queue → List ℕ → Result (Queue × List ℕ)
  recv_pdu q bytes =
      take_pdu q (take q.pdu_remaining bytes) >>= λ q'. ok (q', drop q.pdu_remaining bytes)

  unfoldable pub recv_ddgst : Queue → List ℕ → Result (Queue × List ℕ)
  recv_ddgst q bytes =
      take_ddgst q (take q.ddgst_remaining bytes) >>= λ q'. ok (q', drop q.ddgst_remaining bytes)

  unfoldable pub recv_data : Queue → List ℕ → Result (Queue × List ℕ)
  recv_data q bytes =
      take_data q (take q.data_remaining bytes) >>= λ q'. ok (q', drop q.data_remaining bytes)

  -- One round of `nvme_tcp_recv_skb`, by `nvme_tcp_recv_state`.
  unfoldable pub recv_step : Queue → List ℕ → Result (Queue × List ℕ)
  unfolding recv_pdu recv_ddgst recv_data
  recv_step q bytes =
      if not (q.pdu_remaining == 0)
      then recv_pdu q bytes
      else if not (q.ddgst_remaining == 0)
      then recv_ddgst q bytes
      else recv_data q bytes

  -- The loop, with fuel; the outer `none` is a lack of fuel. An error starts the recovery.
  unfoldable pub recv_loop : ℕ → Queue → List ℕ → Option (Result Queue)
  recv_loop fuel q [] = some (ok q)
  recv_loop zero q (b ∷ bs) = none
  recv_loop (suc fuel) q (b ∷ bs) = elim (recv_step q (b ∷ bs)) [
    | ok (q', rest) ↦ recv_loop fuel q' rest
    | err e l ↦ some (err e (l ++ recovery ∷ []))
  ]

  -- `nvme_tcp_recv_skb`: a byte costs two rounds at most.
  unfoldable pub recv_skb : Queue → List ℕ → Option (Result Queue)
  recv_skb q bytes = recv_loop (2 * length bytes) q bytes
