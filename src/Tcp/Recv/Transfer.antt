-- ===== src/Tcp/Recv/Transfer.antt =====
-- drivers/nvme/host/tcp.c: a whole data PDU, without digests, through nvme_tcp_recv_skb.
use blk_switch.Common.{
  ℕ, suc, List, [], ◌∷◌, ◌++◌, some, false, not, ◌-◌, ◌&&◌, ◌≤◌, ◌≡◌, ◌==◌, if◌then◌else◌, refl,
  sym, ap, ◌∙◌, length, inl, inr, arith,
}
use blk_switch.Tcp.{Wire, Queue, Req, Pdu, c2h_data, completed, ok, tag_to_rq}
use blk_switch.Tcp.Dispatch.{init_recv_ctx, hdgst_len, set_rq, pdu_done, dispatch, handle_c2h_data}
use blk_switch.Tcp.Recv.{take_pdu, take_data, receive, data_done, recv_skb}
use blk_switch.Tcp.Recv.Bytewise.{feeds-append}
use blk_switch.Tcp.Recv.Phases.{pdu-feeds, data-feeds}
use blk_switch.Tcp.Recv.Loop.{recv_skb-outcome, outcome-ok}
use blk_switch.Tcp.Recv.Room.{room, receive_lem}

sub_self : (n : ℕ) → n - n ≡ 0
sub_self n = omega arith

-- A queue behind the header of a data PDU.
abbrev headed : Queue → List ℕ → ℕ → Queue
headed q hd n = record q { pdu = hd; pdu_remaining = 0; data_remaining = n }

module _ (w : Wire) where
  dispatched :
      (q : Queue) (p : Pdu) (rq : Req)
      → p.pdu_type ≡ c2h_data
      → tag_to_rq q p.command_id ≡ some rq
      → (rq.payload == 0) ≡ false
      → (p.success_flag && not p.last_flag) ≡ false
      → dispatch w p.pdu_type q p ≡ ok (record q { data_remaining = p.data_length })
  unfolding dispatch handle_c2h_data
  dispatched q p rq t f z s = ground arith

  -- The header is complete, and announces data for a request.
  take_header :
      (q : Queue) (hd : List ℕ) (rq : Req)
      → q.pdu ≡ []
      → q.pdu_remaining ≡ length hd
      → q.hdr_digest ≡ false
      → q.data_digest ≡ false
      → (w.parse hd).pdu_type ≡ c2h_data
      → tag_to_rq q (w.parse hd).command_id ≡ some rq
      → (rq.payload == 0) ≡ false
      → ((w.parse hd).success_flag && not (w.parse hd).last_flag) ≡ false
      → take_pdu w q hd ≡ ok (headed q hd (w.parse hd).data_length)
  unfolding take_pdu pdu_done tag_to_rq
  take_header q hd rq e r h d t f p s =
      rw (take_pdu, e, r, sub_self (length hd), h, d)
        (dispatched
          (record q { hdr_digest = false; data_digest = false; pdu = hd; pdu_remaining = 0 })
          (w.parse hd) rq t f p s)

  -- The data is complete, and goes to the request.
  take_body :
      (q : Queue) (hd body : List ℕ) (rq rq' : Req)
      → q.data_digest ≡ false
      → tag_to_rq q (w.parse hd).command_id ≡ some rq
      → receive rq body ≡ some rq'
      → take_data w (headed q hd (length body)) body
        ≡ ok (
            data_done w
              (record (set_rq (w.parse hd).command_id rq' (headed q hd 0)) { hash = q.hash })
              (w.parse hd))
  unfolding take_data tag_to_rq
  take_body q hd body rq rq' d f r = rw (take_data, f, r, d, sub_self (length body))

  -- The state behind the data.
  abbrev delivered : Queue → List ℕ → Req → Queue
  delivered q hd rq =
      data_done w (record (set_rq (w.parse hd).command_id rq (headed q hd 0)) { hash = q.hash })
        (w.parse hd)

  delivered_lem :
      (q : Queue) (hd : List ℕ) (rq rq' : Req)
      → q.hdr_digest ≡ false
      → q.data_digest ≡ false
      → tag_to_rq q (w.parse hd).command_id ≡ some rq
      → (tag_to_rq (delivered q hd rq') (w.parse hd).command_id ≡ some rq')
        × ((delivered q hd rq').pdu ≡ [])
        × ((delivered q hd rq').pdu_remaining ≡ w.rsp_size)
        × ((delivered q hd rq').events ≡ (
            if (w.parse hd).success_flag
            then q.events ++ completed (w.parse hd).command_id 0 ∷ []
            else q.events))
  unfolding data_done init_recv_ctx hdgst_len tag_to_rq
  delivered_lem q hd rq rq' h d f = ground arith

module _ (w : Wire) (r : 1 ≤ w.rsp_size) (d : 1 ≤ w.digest_size) where
  -- Without digests, for a queue that waits for a PDU, a data PDU for a request that expects data and
  -- has the space for it, with data, and marked as the last one if it stands for success, is received:
  -- the data follows what the request has received before, in order, the queue waits for the next PDU,
  -- and the request is completed if the PDU stands for success, if a PDU header and a digest have a
  -- byte at least.
  pub recv_skb-c2h_data :
      (q : Queue) (h : ℕ) (hs : List ℕ) (b : ℕ) (bs : List ℕ) (rq : Req)
      → q.pdu ≡ []
      → q.pdu_remaining ≡ suc (length hs)
      → q.ddgst_remaining ≡ 0
      → q.hdr_digest ≡ false
      → q.data_digest ≡ false
      → (w.parse (h ∷ hs)).pdu_type ≡ c2h_data
      → (w.parse (h ∷ hs)).data_length ≡ suc (length bs)
      → ((w.parse (h ∷ hs)).success_flag && not (w.parse (h ∷ hs)).last_flag) ≡ false
      → tag_to_rq q (w.parse (h ∷ hs)).command_id ≡ some rq
      → (rq.payload == 0) ≡ false
      → suc (length bs) ≤ room rq
      → (q' : Queue) × (rq' : Req) × (recv_skb w q ((h ∷ hs) ++ b ∷ bs) ≡ some (ok q'))
        × (tag_to_rq q' (w.parse (h ∷ hs)).command_id ≡ some rq')
        × (rq'.received ≡ rq.received ++ b ∷ bs)
        × (q'.pdu ≡ [])
        × (q'.pdu_remaining ≡ w.rsp_size)
        × (q'.events ≡ (
            if (w.parse (h ∷ hs)).success_flag
            then q.events ++ completed (w.parse (h ∷ hs)).command_id 0 ∷ []
            else q.events))
  recv_skb-c2h_data q h hs b bs rq e n z hd dd t l s f p m = elim (receive_lem rq (b ∷ bs)) [
    | inr (lt, _) ↦ ground arith
    | inl (_, rq', g, app, _) ↦
        let hdr = h ∷ hs in
        let header =
          sym (pdu-feeds w q h hs tt (omega arith))
          ∙ take_header w q hdr rq e n hd dd t f p s
          ∙ ap (λ x. ok (headed q hdr x)) l in
        let body =
          sym (data-feeds w (headed q hdr (suc (length bs))) b bs (refl, z) (omega arith))
          ∙ take_body w q hdr (b ∷ bs) rq rq' dd f g in
        (
          delivered w q hdr rq',
          rq',
          recv_skb-outcome w r d q (hdr ++ b ∷ bs)
              ∙ ap some (
                  outcome-ok w r d q (delivered w q hdr rq') (hdr ++ b ∷ bs)
                    (rw (feeds-append w q hdr (b ∷ bs), header) body)),
          (delivered_lem w q hdr rq rq' hd dd f).0,
          app,
          (delivered_lem w q hdr rq rq' hd dd f).1,
          (delivered_lem w q hdr rq rq' hd dd f).2,
          (delivered_lem w q hdr rq rq' hd dd f).3,
        )
  ]
