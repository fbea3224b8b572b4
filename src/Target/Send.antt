-- ===== src/Target/Send.antt =====
-- drivers/nvme/target/tcp.c: nvmet_try_send_data_pdu, nvmet_try_send_data, nvmet_try_send_response,
-- nvmet_try_send_r2t and nvmet_try_send_ddgst. The flags of a message change no state.
pub mod Batch
use blk_switch.Common.{
  ℕ, zero, suc, Bool, Option, List, [], ◌∷◌, ◌++◌, none, some, true, false, not, ◌+◌, ◌-◌, ◌*◌,
  ◌&&◌, ◌||◌, ltb, leb, ◌==◌, if◌then◌else◌, min,
}
use blk_switch.Tcp.Send.{Answer, took, refused, Errno, eagain, Ret, one, nothing, failed}
use blk_switch.Target.{
  SendState, send_data_pdu, send_data, send_r2t, send_ddgst, send_response, Cmd, Part, data_hdr,
  r2t_hdr, rsp_hdr, payload, ddgst, Piece, Queue, Link, set_cmd, put_cmd, is_admin_queue,
  is_caravan_full, free_sg,
}
use blk_switch.Target.Respond.{hdgst_len, setup_response_pdu}

-- The first `n` bytes of some pieces.
abbrev pub cut : ℕ → List Piece → List Piece
cut n [] = []
cut n (p ∷ ps) = record p { len = min n p.len } ∷ cut (n - p.len) ps

-- A call of the socket with `len` bytes, those of some pieces, which takes the bytes that it answers.
unfoldable pub submit : Link → (len : ℕ) → List Piece → Queue → Queue × Answer
submit s len ps q = elim (s.answer q.calls len) [
  | took n ↦ (record q { out = q.out ++ cut n ps; calls = q.calls + 1 }, took n)
  | refused e ↦ (record q { calls = q.calls + 1 }, refused e)
]

-- One more entry of the caravan.
unfoldable pub load : Piece → Queue → Queue
load p q = record q {
  caravan_iovs = q.caravan_iovs ++ p ∷ [];
  nr_iovs = q.nr_iovs + 1;
  caravan_len = q.caravan_len + p.len;
}

module _ (s : Link) where
  -- Does the queue aggregate?
  unfoldable pub is_aggregated : Queue → Bool
  is_aggregated q = s.aggr && not (is_admin_queue q)

  -- A header to the socket or into the caravan; `none` where the caravan is full.
  unfoldable pub send_header : Piece → Queue → Option (Queue × Answer)
  send_header p q =
      if is_aggregated q
      then (if is_caravan_full q then none else some (load p q, took p.len))
      else some (submit s p.len (p ∷ []) q)

  -- Behind a header of which `n` of the remaining `len` bytes were sent; `next` follows the last one.
  unfoldable pub header_sent : ℕ → (len n : ℕ) → (next : Queue → Queue) → Queue → Queue × Ret
  header_sent c len n next q =
      if n == 0
      then (q, nothing)
      else (let sent = set_cmd c (record (q.cmds c) { offset = (q.cmds c).offset + n }) q in
          if len - n == 0 then (next sent, one) else (sent, failed eagain))

  unfoldable pub data_header : ℕ → Queue → Piece
  data_header c q = record {
    part = data_hdr c;
    start = (q.cmds c).offset;
    len = s.data_pdu_size + hdgst_len s q - (q.cmds c).offset;
  }

  abbrev pub to_data : ℕ → Queue → Queue
  to_data c q = set_cmd c (record (q.cmds c) { state = send_data; offset = 0 }) q

  -- `nvmet_try_send_data_pdu`
  unfoldable pub try_send_data_pdu : ℕ → Queue → Queue × Ret
  unfolding send_header header_sent data_header
  try_send_data_pdu c q =
      let p = data_header c q in
      elim (send_header p q) [
        | none ↦ (record q { send_now = true }, one)
        | some (q', a) ↦ elim a [
          | took n ↦ header_sent c p.len n (to_data c) q'
          | refused e ↦ (q', failed e)
        ]
      ]

  -- Behind the last entry of the scatterlist.
  unfoldable pub data_done : ℕ → Queue → Queue
  data_done c q =
      let sent =
        if q.data_digest
        then set_cmd c (record (q.cmds c) { state = send_ddgst; offset = 0 }) q
        else if q.sqhd_disabled
        then put_cmd c (record q { snd_cmd = none })
        else setup_response_pdu s c q in
      if q.sqhd_disabled then free_sg c sent else sent

  -- Behind `n` bytes of an entry of length `l`, with the entries `ls` behind it.
  unfoldable pub data_advance : ℕ → (n l : ℕ) → (ls : List ℕ) → Queue → Queue
  data_advance c n l ls q =
      let x = q.cmds c in
      if x.offset + n == l
      then set_cmd c (record x { wbytes_done = x.wbytes_done + n; cur_sg = ls; offset = 0 }) q
      else set_cmd c (record x { wbytes_done = x.wbytes_done + n; offset = x.offset + n }) q

  -- The rest of an entry of length `l`.
  unfoldable pub data_piece : ℕ → ℕ → Queue → Piece
  data_piece c l q = record {
    part = payload c;
    start = (q.cmds c).wbytes_done;
    len = l - (q.cmds c).offset;
  }

  -- A piece that was offered; `none` in the place of the result where the loop goes on.
  unfoldable pub data_sent : ℕ → (l : ℕ) → (ls : List ℕ) → Queue × Answer → Queue × Option Ret
  unfolding data_advance
  data_sent c l ls (q, refused e) = (q, some (failed e))
  data_sent c l ls (q, took n) =
      if n == 0 then (q, some nothing) else (data_advance c n l ls q, none)

  -- One round of the loop, for the scatterlist that is left.
  unfoldable pub data_round : ℕ → List ℕ → Queue → Queue × Option Ret
  unfolding data_sent data_piece data_done
  data_round c [] q = (data_done c q, some one)
  data_round c (l ∷ ls) q =
      let p = data_piece c l q in
      if is_aggregated q
      then (if is_caravan_full q
          then (record q { send_now = true }, some one)
          else data_sent c l ls
              (record (load p q) { nr_caravan_mapped = q.nr_caravan_mapped + 1 }, took p.len))
      else data_sent c l ls (submit s p.len (p ∷ []) q)

  -- `nvmet_try_send_data`, with fuel for the rounds.
  unfoldable pub try_send_data : (fuel : ℕ) → ℕ → Queue → Option (Queue × Ret)
  try_send_data zero c q = none
  try_send_data (suc fuel) c q =
      let (q', ret) = data_round c (q.cmds c).cur_sg q in
      elim ret [ some result ↦ some (q', result) | none ↦ try_send_data fuel c q' ]

  unfoldable pub rsp_header : ℕ → Queue → Piece
  rsp_header c q = record {
    part = rsp_hdr c;
    start = (q.cmds c).offset;
    len = s.rsp_pdu_size + hdgst_len s q - (q.cmds c).offset;
  }

  -- A response that the socket has taken.
  unfoldable pub response_done : ℕ → Queue → Queue
  response_done c q = put_cmd c (free_sg c (record q { snd_cmd = none }))

  -- `nvmet_try_send_response`
  unfoldable pub try_send_response : ℕ → Queue → Queue × Ret
  unfolding rsp_header response_done header_sent
  try_send_response c q =
      let p = rsp_header c q in
      if is_aggregated q
      then (if is_caravan_full q then (record q { send_now = true }, one) else (
        set_cmd c (record (q.cmds c) { offset = (q.cmds c).offset + p.len })
            (record (load p q) {
              caravan_cmds = q.caravan_cmds ++ c ∷ [];
              nr_caravan_cmds = q.nr_caravan_cmds + 1;
              snd_cmd = none;
            }),
        one,
      ))
      else (let (q', a) = submit s p.len (p ∷ []) q in
          elim a [
            | took n ↦ header_sent c p.len n (response_done c) q'
            | refused e ↦ (q', failed e)
          ])

  unfoldable pub r2t_piece : ℕ → Queue → Piece
  r2t_piece c q = record {
    part = r2t_hdr c;
    start = (q.cmds c).offset;
    len = s.r2t_pdu_size + hdgst_len s q - (q.cmds c).offset;
  }

  -- `nvmet_try_send_r2t`
  unfoldable pub try_send_r2t : ℕ → Queue → Queue × Ret
  unfolding r2t_piece header_sent send_header
  try_send_r2t c q =
      let p = r2t_piece c q in
      elim (send_header p q) [
        | none ↦ (record q { send_now = true }, one)
        | some (q', a) ↦ elim a [
          | took n ↦ header_sent c p.len n (λ x. record x { snd_cmd = none }) q'
          | refused e ↦ (q', failed e)
        ]
      ]

  -- The pointer of the `iov` moves by whole digests.
  unfoldable pub ddgst_piece : ℕ → Queue → Piece
  ddgst_piece c q = record {
    part = ddgst c;
    start = (q.cmds c).offset * s.digest_size;
    len = s.digest_size - (q.cmds c).offset;
  }

  -- Behind a digest.
  unfoldable pub ddgst_done : ℕ → Queue → Queue
  ddgst_done c q =
      if q.sqhd_disabled then put_cmd c (record q { snd_cmd = none }) else setup_response_pdu s c q

  -- `nvmet_try_send_ddgst`: a part of a digest is taken for the whole.
  unfoldable pub try_send_ddgst : ℕ → Queue → Queue × Ret
  unfolding ddgst_piece ddgst_done
  try_send_ddgst c q =
      let x = q.cmds c in
      let p = ddgst_piece c q in
      let (q', a) = submit s p.len (p ∷ []) q in
      elim a [
        | refused e ↦ (q', failed e)
        | took n ↦
            if n == 0
            then (q', nothing)
            else (ddgst_done c (set_cmd c (record x { offset = x.offset + n }) q'), one)
      ]
