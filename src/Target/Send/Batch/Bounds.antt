-- ===== src/Target/Send/Batch/Bounds.antt =====
-- drivers/nvme/target/tcp.c: the arrays of the caravan are never overrun.
use blk_switch.Common.{
  ℕ, zero, suc, Bool, List, [], ◌∷◌, ◌++◌, none, some, false, ◌+◌, ◌≡◌, arith, Bool-cases,
  Option-cases, inl, inr, ◌==◌, length-append,
}
use blk_switch.Tcp.Send.{Answer, Answer-cases, took, refused, Ret, nothing}
use blk_switch.Target.{Queue, Link, Piece, put_cmd, is_caravan_full}
use blk_switch.Target.Send.{
  submit, load, is_aggregated, try_send_data_pdu, data_round, data_sent, data_advance, data_piece,
  data_done, try_send_data, rsp_header, response_done, try_send_response, try_send_r2t,
  try_send_ddgst, ddgst_piece, ddgst_done,
}
use blk_switch.Target.Send.Batch.{
  send_caravan, settle, from_response, from_r2t, from_ddgst, from_data, send_parts, current,
  try_send_one, try_send,
}
use blk_switch.Target.Send.Batch.Within.{
  IsWithin, mapped, cmds-IsWithin, submit-IsWithin, response-IsWithin, current-IsWithin,
  header_sent-IsWithin, try_send_data_pdu-IsWithin, try_send_r2t-IsWithin,
}

module _ (s : Link) where
  queued-IsWithin :
      (c : ℕ) (p : Piece) (q : Queue)
      → is_caravan_full q ≡ false
      → IsWithin q
      → IsWithin (record (load p q) {
        caravan_cmds = q.caravan_cmds ++ c ∷ [];
        nr_caravan_cmds = q.nr_caravan_cmds + 1;
        snd_cmd = none;
      })
  unfolding load is_caravan_full
  queued-IsWithin c p q f l =
      ground (arith, length-append q.caravan_iovs (p ∷ []), length-append q.caravan_cmds (c ∷ []))

  response_done-IsWithin : (c : ℕ) (q : Queue) → IsWithin q → IsWithin (response_done s c q)
  unfolding response_done put_cmd
  response_done-IsWithin c q l = ground arith

  try_send_response-IsWithin :
      (c : ℕ) (q : Queue) → IsWithin q → IsWithin (try_send_response s c q).0
  unfolding try_send_response
  try_send_response-IsWithin c q l =
      let p = rsp_header s c q in
      let q1 = (submit s p.len (p ∷ []) q).0 in
      let l1 = submit-IsWithin s p.len (p ∷ []) q l in
      elim (Bool-cases (is_aggregated s q)) [
        | inl g ↦ elim (Bool-cases (is_caravan_full q)) [
          | inl f ↦ rw (try_send_response, g, f) (ground arith)
          | inr f ↦ rw (try_send_response, g, f) (cmds-IsWithin _ _ (queued-IsWithin c p q f l))
        ]
        | inr g ↦ elim (Answer-cases (submit s p.len (p ∷ []) q).1) [
          | inl (n, a) ↦
              rw (try_send_response, g, a)
                (header_sent-IsWithin s c p.len n (response_done s c) q1 (response_done-IsWithin c)
                  l1)
          | inr (e, a) ↦ rw (try_send_response, g, a) l1
        ]
      ]

  data_done-IsWithin : (c : ℕ) (q : Queue) → IsWithin q → IsWithin (data_done s c q)
  unfolding data_done put_cmd
  data_done-IsWithin c q l = ground (arith, response-IsWithin s c q l)

  data_sent-IsWithin :
      (c l : ℕ) (ls : List ℕ) (q : Queue) (a : Answer)
      → IsWithin q
      → IsWithin (data_sent s c l ls (q, a)).0
  unfolding data_sent data_advance
  data_sent-IsWithin c l ls q (took n) k = ground arith
  data_sent-IsWithin c l ls q (refused e) k = k

  data_round-IsWithin :
      (c : ℕ) (ls : List ℕ) (q : Queue) → IsWithin q → IsWithin (data_round s c ls q).0
  unfolding data_round
  data_round-IsWithin c [] q k = data_done-IsWithin c q k
  data_round-IsWithin c (l ∷ ls) q k =
      let p = data_piece s c l q in
      elim (Bool-cases (is_aggregated s q)) [
        | inl g ↦ elim (Bool-cases (is_caravan_full q)) [
          | inl f ↦ rw (data_round, g, f) (ground arith)
          | inr f ↦
              rw (data_round, g, f)
                (data_sent-IsWithin c l ls
                  (record (load p q) { nr_caravan_mapped = q.nr_caravan_mapped + 1 }) (took p.len)
                  (mapped p q f k))
        ]
        | inr g ↦
            rw (data_round, g)
              (data_sent-IsWithin c l ls (submit s p.len (p ∷ []) q).0 (submit s p.len (p ∷ []) q).1
                (submit-IsWithin s p.len (p ∷ []) q k))
      ]

  ddgst_done-IsWithin : (c : ℕ) (q : Queue) → IsWithin q → IsWithin (ddgst_done s c q)
  unfolding ddgst_done put_cmd
  ddgst_done-IsWithin c q l = ground (arith, response-IsWithin s c q l)

  try_send_ddgst-IsWithin : (c : ℕ) (q : Queue) → IsWithin q → IsWithin (try_send_ddgst s c q).0
  unfolding try_send_ddgst
  try_send_ddgst-IsWithin c q l =
      let p = ddgst_piece s c q in
      let q1 = (submit s p.len (p ∷ []) q).0 in
      let l1 = submit-IsWithin s p.len (p ∷ []) q l in
      elim (Answer-cases (submit s p.len (p ∷ []) q).1) [
        | inr (e, a) ↦ rw (try_send_ddgst, a) l1
        | inl (n, a) ↦ elim (Bool-cases (n == 0)) [
          | inl z ↦ rw (try_send_ddgst, a, z) l1
          | inr z ↦ rw (try_send_ddgst, a, z) (ddgst_done-IsWithin c _ (cmds-IsWithin _ q1 l1))
        ]
      ]

  try_send_data-IsWithin :
      (fuel c : ℕ) (q q' : Queue) (ret : Ret)
      → IsWithin q
      → try_send_data s fuel c q ≡ some (q', ret)
      → IsWithin q'
  unfolding try_send_data
  try_send_data-IsWithin zero c q q' ret l e = ground arith
  try_send_data-IsWithin (suc fuel) c q q' ret l e =
      let r = data_round s c (q.cmds c).cur_sg q in
      let k = data_round-IsWithin c (q.cmds c).cur_sg q l in
      ground (arith, try_send_data-IsWithin fuel c r.0 q' ret k)

  from_response-IsWithin :
      (c : ℕ) (q : Queue) (ret : Ret) → IsWithin q → IsWithin (from_response s c q ret).0
  unfolding from_response
  from_response-IsWithin c q ret l = ground (arith, try_send_response-IsWithin c q l)

  from_r2t-IsWithin : (c : ℕ) (q : Queue) (ret : Ret) → IsWithin q → IsWithin (from_r2t s c q ret).0
  unfolding from_r2t
  from_r2t-IsWithin c q ret l =
      let p = try_send_r2t s c q in
      let k = try_send_r2t-IsWithin s c q l in
      ground (arith, from_response-IsWithin c q ret l, from_response-IsWithin c p.0 p.1 k)

  from_ddgst-IsWithin :
      (c : ℕ) (q : Queue) (ret : Ret) → IsWithin q → IsWithin (from_ddgst s c q ret).0
  unfolding from_ddgst
  from_ddgst-IsWithin c q ret l =
      let p = try_send_ddgst s c q in
      let k = try_send_ddgst-IsWithin c q l in
      ground (arith, from_r2t-IsWithin c q ret l, from_r2t-IsWithin c p.0 p.1 k)

  from_data-IsWithin :
      (fuel c : ℕ) (q q' : Queue) (ret ret' : Ret)
      → IsWithin q
      → from_data s fuel c q ret ≡ some (q', ret')
      → IsWithin q'
  unfolding from_data
  from_data-IsWithin fuel c q q' ret ret' l e = elim (Option-cases (try_send_data s fuel c q)) [
    | inl n ↦ ground (arith, from_ddgst-IsWithin c q ret l)
    | inr ((q1, r1), n) ↦
        let k = try_send_data-IsWithin fuel c q q1 r1 l n in
        ground (arith, from_ddgst-IsWithin c q ret l, from_ddgst-IsWithin c q1 r1 k)
  ]

  send_parts-IsWithin :
      (fuel c : ℕ) (q q' : Queue) (ret : Ret)
      → IsWithin q
      → send_parts s fuel c q ≡ some (q', ret)
      → IsWithin q'
  unfolding send_parts
  send_parts-IsWithin fuel c q q' ret l e =
      let p = try_send_data_pdu s c q in
      let k = try_send_data_pdu-IsWithin s c q l in
      ground (
        arith,
        from_data-IsWithin fuel c q q' nothing ret l,
        from_data-IsWithin fuel c p.0 q' p.1 ret k,
      )

  try_send_one-IsWithin :
      (fuel : ℕ) (q q' : Queue) (ret : Ret)
      → IsWithin q
      → try_send_one s fuel q ≡ some (q', ret)
      → IsWithin q'
  unfolding try_send_one
  try_send_one-IsWithin fuel q q' ret l e =
      let k = current-IsWithin s q l in
      elim (Option-cases (current s q).snd_cmd) [
        | inl n ↦ ground arith
        | inr (c, n) ↦ ground (arith, send_parts-IsWithin fuel c (current s q) q' ret k)
      ]

  send_caravan-IsWithin :
      (ret : Ret) (last : Bool) (q : Queue) → IsWithin q → IsWithin (send_caravan s ret last q).0
  unfolding send_caravan settle
  send_caravan-IsWithin ret last q l = ground arith

  -- Whatever the socket answers, `nvmet_tcp_try_send` keeps the caravan within its arrays of 48
  -- entries, 16 commands and 16 pages, and its counters right.
  pub try_send-IsWithin :
      (fuel budget n : ℕ) (q q' : Queue) (ret ret' : Ret)
      → IsWithin q
      → try_send s fuel budget q ret ≡ some (q', ret', n)
      → IsWithin q'
  unfolding try_send
  try_send-IsWithin fuel zero n q q' ret ret' l e = ground arith
  try_send-IsWithin fuel (suc budget) n q q' ret ret' l e =
      elim (Option-cases (try_send_one s fuel q)) [
        | inl z ↦ ground arith
        | inr ((q1, r1), o) ↦
            let k =
              send_caravan-IsWithin r1 (budget == 0) q1 (try_send_one-IsWithin fuel q q1 r1 l o) in
            let g = (send_caravan s r1 (budget == 0) q1).0 in
            elim (Option-cases (try_send s fuel budget g r1)) [
              | inl z ↦ ground arith
              | inr ((q2, r2, m), t) ↦
                  let k2 = try_send-IsWithin fuel budget m g q2 r1 r2 k t in ground arith
            ]
      ]
