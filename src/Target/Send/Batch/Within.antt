-- ===== src/Target/Send/Batch/Within.antt =====
-- drivers/nvme/target/tcp.c: a PDU that is put into the caravan, or flushes it, keeps it within its arrays.
use blk_switch.Common.{
  ℕ, List, [], ◌∷◌, none, some, false, ◌+◌, ◌-◌, ◌≡◌, ◌≤◌, arith, Bool-cases, Option-cases, inl,
  inr, ◌==◌, length, length-append,
}
use blk_switch.Tcp.Send.{Answer, took, refused}
use blk_switch.Target.{Cmd, Queue, Link, Piece, set_cmd, put_cmd, free_sg, is_caravan_full}
use blk_switch.Target.Respond.{
  fetch_cmd, take_first, refill, process_resp_list, move_responses, setup_pdu, setup_c2h_data_pdu,
  setup_r2t_pdu, setup_response_pdu,
}
use blk_switch.Target.Send.{
  submit, load, send_header, header_sent, data_header, to_data, try_send_data_pdu, r2t_piece,
  try_send_r2t,
}
use blk_switch.Target.Send.Batch.{put_cmds, current}

-- The caravan within its arrays of 48 entries, 16 commands and 16 pages, and its counters.
pub record IsWithin (q : Queue) : Type 0 where
  pub counted : q.nr_iovs ≡ length q.caravan_iovs
  pub cmds_counted : q.nr_caravan_cmds ≡ length q.caravan_cmds
  pub iovs_fit : q.nr_iovs ≤ 48
  pub cmds_fit : q.nr_caravan_cmds ≤ 16
  pub mapped_fit : q.nr_caravan_mapped ≤ 16

load-IsWithin :
    (p : Piece) (q : Queue) → is_caravan_full q ≡ false → IsWithin q → IsWithin (load p q)
unfolding load is_caravan_full
load-IsWithin p q f l = ground (arith, length-append q.caravan_iovs (p ∷ []))

pub mapped :
    (p : Piece) (q : Queue)
    → is_caravan_full q ≡ false
    → IsWithin q
    → IsWithin (record (load p q) { nr_caravan_mapped = q.nr_caravan_mapped + 1 })
unfolding load is_caravan_full
mapped p q f l = ground (arith, length-append q.caravan_iovs (p ∷ []))

put_cmd-IsWithin : (c : ℕ) (q : Queue) → IsWithin q → IsWithin (put_cmd c q)
unfolding put_cmd
put_cmd-IsWithin c q l = ground arith

put_cmds-IsWithin : (cs : List ℕ) (q : Queue) → IsWithin q → IsWithin (put_cmds cs q)
unfolding put_cmds
put_cmds-IsWithin [] q l = l
put_cmds-IsWithin (c ∷ cs) q l =
    put_cmds-IsWithin cs (put_cmd c (free_sg c q)) (put_cmd-IsWithin c (free_sg c q) (ground arith))

pub cmds-IsWithin : (f : ℕ → Cmd) (q : Queue) → IsWithin q → IsWithin (record q { cmds = f })
cmds-IsWithin f q l = ground arith

module _ (s : Link) where
  pub submit-IsWithin :
      (n : ℕ) (ps : List Piece) (q : Queue) → IsWithin q → IsWithin (submit s n ps q).0
  unfolding submit
  submit-IsWithin n ps q l = ground arith

  pub response-IsWithin : (c : ℕ) (q : Queue) → IsWithin q → IsWithin (setup_response_pdu s c q)
  unfolding setup_response_pdu
  response-IsWithin c q l = ground arith

  setup_pdu-IsWithin : (c : ℕ) (q : Queue) → IsWithin q → IsWithin (setup_pdu s c q)
  unfolding setup_pdu setup_c2h_data_pdu setup_r2t_pdu
  setup_pdu-IsWithin c q l = ground (arith, response-IsWithin c q l)

  move_responses-IsWithin : (cs : List ℕ) (q : Queue) → IsWithin q → IsWithin (move_responses cs q)
  unfolding move_responses
  move_responses-IsWithin [] q l = l
  move_responses-IsWithin (c ∷ cs) q l =
      move_responses-IsWithin cs
        (record q { resp_send_list = c ∷ q.resp_send_list; send_list_len = q.send_list_len + 1 })
        (ground arith)

  refill-IsWithin : (q : Queue) → IsWithin q → IsWithin (refill q)
  unfolding refill process_resp_list
  refill-IsWithin q l =
      ground
        (arith, move_responses-IsWithin q.resp_list (record q { resp_list = [] }) (ground arith))

  take_first-IsWithin : (cs : List ℕ) (q : Queue) → IsWithin q → IsWithin (take_first s cs q)
  unfolding take_first
  take_first-IsWithin [] q l = ground arith
  take_first-IsWithin (c ∷ cs) q l =
      setup_pdu-IsWithin c
        (record q { snd_cmd = some c; resp_send_list = cs; send_list_len = q.send_list_len - 1 })
        (ground arith)

  pub current-IsWithin : (q : Queue) → IsWithin q → IsWithin (current s q)
  unfolding current fetch_cmd
  current-IsWithin q l =
      ground (arith, take_first-IsWithin (refill q).resp_send_list (refill q) (refill-IsWithin q l))

  pub header_sent-IsWithin :
      (c len n : ℕ) (next : Queue → Queue) (q : Queue)
      → ((x : Queue) → IsWithin x → IsWithin (next x))
      → IsWithin q
      → IsWithin (header_sent s c len n next q).0
  unfolding header_sent
  header_sent-IsWithin c len n next q k l =
      let q1 = set_cmd c (record (q.cmds c) { offset = (q.cmds c).offset + n }) q in
      let l1 : IsWithin q1 = ground arith in
      elim (Bool-cases (n == 0)) [
        | inl t ↦ rw (header_sent, t) l
        | inr t ↦ elim (Bool-cases (len - n == 0)) [
          | inl u ↦ rw (header_sent, t, u) (k q1 l1)
          | inr u ↦ rw (header_sent, t, u) l1
        ]
      ]

  send_header-IsWithin :
      (p : Piece) (q q' : Queue) (a : Answer)
      → IsWithin q
      → send_header s p q ≡ some (q', a)
      → IsWithin q'
  unfolding send_header
  send_header-IsWithin p q q' a l e =
      ground (arith, submit-IsWithin p.len (p ∷ []) q l, load-IsWithin p q)

  pub try_send_data_pdu-IsWithin :
      (c : ℕ) (q : Queue) → IsWithin q → IsWithin (try_send_data_pdu s c q).0
  unfolding try_send_data_pdu
  try_send_data_pdu-IsWithin c q l =
      let p = data_header s c q in
      elim (Option-cases (send_header s p q)) [
        | inl n ↦ rw (try_send_data_pdu, n) (ground arith)
        | inr ((q', took n), e) ↦
            rw (try_send_data_pdu, e)
              (header_sent-IsWithin c p.len n (to_data s c) q' (λ x m. ground arith)
                (send_header-IsWithin p q q' (took n) l e))
        | inr ((q', refused x), e) ↦
            rw (try_send_data_pdu, e) (send_header-IsWithin p q q' (refused x) l e)
      ]

  pub try_send_r2t-IsWithin : (c : ℕ) (q : Queue) → IsWithin q → IsWithin (try_send_r2t s c q).0
  unfolding try_send_r2t
  try_send_r2t-IsWithin c q l =
      let p = r2t_piece s c q in
      elim (Option-cases (send_header s p q)) [
        | inl n ↦ rw (try_send_r2t, n) (ground arith)
        | inr ((q', took n), e) ↦
            rw (try_send_r2t, e)
              (header_sent-IsWithin c p.len n (λ x. record x { snd_cmd = none }) q'
                (λ x m. ground arith) (send_header-IsWithin p q q' (took n) l e))
        | inr ((q', refused x), e) ↦
            rw (try_send_r2t, e) (send_header-IsWithin p q q' (refused x) l e)
      ]
