-- ===== src/Tcp/Send/Parts.antt =====
-- drivers/nvme/host/tcp.c: nvme_tcp_try_send_cmd_pdu, nvme_tcp_try_send_data_pdu,
-- nvme_tcp_try_send_data and nvme_tcp_try_send_ddgst.
use blk_switch.Common.{
  ℕ, zero, suc, Bool, Option, List, [], ◌∷◌, ◌++◌, none, some, true, ◌+◌, ◌-◌, ◌*◌, ◌&&◌, ◌||◌, not,
  ltb, leb, ◌==◌, if◌then◌else◌, min,
}
use blk_switch.Tcp.{send_data, send_ddgst}
use blk_switch.Tcp.Doorbell.{Host, Sent, is_legacy_path, is_nodelay_path}
use blk_switch.Tcp.Send.{
  cmd_pdu, h2c_pdu, payload, ddgst, Chunk, eagain, Answer, took, refused, Ret, one, nothing, failed,
  Outgoing, Sender, Socket, set_req, done_send_req, is_caravan_full, load, submit,
}

-- `nvme_tcp_has_inline_data`
unfoldable pub has_inline_data : Sender → Outgoing → Bool
has_inline_data q r =
    not r.is_async && r.is_write && not (r.data_len == 0) && leb r.data_len q.inline_data_size

-- `nvme_tcp_req_cur_length`
unfoldable pub cur_length : Outgoing → ℕ
cur_length r = elim (r.segments) [ [] ↦ 0 | s ∷ _ ↦ min s (r.pdu_len - r.pdu_sent) ]

-- `nvme_tcp_pdu_last_send`
unfoldable pub is_last_send : Outgoing → ℕ → Bool
is_last_send r len = leb (if r.is_write then r.pdu_len - r.pdu_sent else 0) len

-- `iov_iter_advance`, across bios
unfoldable pub skip : ℕ → List ℕ → List ℕ
skip n [] = []
skip n (s ∷ ss) = let rest = skip (n - s) ss in if ltb n s then (s - n) ∷ ss else rest

-- `nvme_tcp_advance_req`
unfoldable pub advance_req : ℕ → Outgoing → Outgoing
advance_req len r = record r {
  data_sent = r.data_sent + len;
  pdu_sent = r.pdu_sent + len;
  segments = skip len r.segments;
}

module _ (h : Host) (s : Socket) where
  unfoldable pub send_hdgst_len : Sender → ℕ
  send_hdgst_len q = if q.hdr_digest then s.digest_size else 0

  -- A PDU to the socket or into the caravan; `none` where the caravan is full.
  unfoldable pub send_pdu : Sent → Chunk → Sender → Option (Sender × Answer)
  send_pdu r c q =
      if is_legacy_path h q.bell
      then some (submit s c.len (c ∷ []) q)
      else if is_caravan_full q
      then none
      else some (load c q, took c.len)

  -- Behind a command PDU of which `n` of the remaining `len` bytes were sent.
  unfoldable pub cmd_pdu_sent : Sent → (len n : ℕ) → Sender → Sender × Ret
  unfolding has_inline_data
  cmd_pdu_sent r len n q =
      let req = q.reqs r.tag in
      if n == 0
      then (q, nothing)
      else if len - n == 0
      then (if has_inline_data q req
          then (
            record (set_req r.tag (record req { state = send_data }) q) {
              snd_hash = if q.data_digest then [] else q.snd_hash;
            },
            one,
          )
          else (done_send_req q, one))
      else (set_req r.tag (record req { offset = req.offset + n }) q, failed eagain)

  -- What is left of a command PDU.
  unfoldable pub cmd_chunk : Sent → Sender → Chunk
  unfolding send_hdgst_len
  cmd_chunk r q =
      let req = q.reqs r.tag in
      record {
        part = cmd_pdu r.tag;
        start = req.offset;
        len = s.cmd_pdu_size + send_hdgst_len q - req.offset;
      }

  -- `nvme_tcp_try_send_cmd_pdu`
  unfoldable pub try_send_cmd_pdu : Sent → Sender → Sender × Ret
  unfolding cmd_chunk send_pdu cmd_pdu_sent
  try_send_cmd_pdu r q =
      let c = cmd_chunk r q in
      elim (send_pdu r c q) [
        | none ↦ (record q { send_now = true }, one)
        | some (q', a) ↦
            let marked = record q' {
              send_now = (not (is_legacy_path h q.bell) && is_nodelay_path h r) || q'.send_now;
            } in
            elim a [ took n ↦ cmd_pdu_sent r c.len n marked | refused e ↦ (marked, failed e) ]
      ]

  -- Behind a data PDU of which `n` of the remaining `len` bytes were sent.
  unfoldable pub data_pdu_sent : Sent → (len n : ℕ) → Sender → Sender × Ret
  data_pdu_sent r len n q =
      let req = q.reqs r.tag in
      if n == 0
      then (q, nothing)
      else if len - n == 0
      then (
        record (set_req r.tag (record req { state = send_data }) q) {
          snd_hash = if q.data_digest then [] else q.snd_hash;
        },
        one,
      )
      else (set_req r.tag (record req { offset = req.offset + n }) q, failed eagain)

  -- What is left of a data PDU's header.
  unfoldable pub h2c_chunk : Sent → Sender → Chunk
  unfolding send_hdgst_len
  h2c_chunk r q =
      let req = q.reqs r.tag in
      record {
        part = h2c_pdu r.tag;
        start = req.offset;
        len = s.data_pdu_size + send_hdgst_len q - req.offset;
      }

  -- `nvme_tcp_try_send_data_pdu`
  unfoldable pub try_send_data_pdu : Sent → Sender → Sender × Ret
  unfolding h2c_chunk send_pdu data_pdu_sent
  try_send_data_pdu r q =
      let c = h2c_chunk r q in
      elim (send_pdu r c q) [
        | none ↦ (record q { send_now = true }, one)
        | some (q', a) ↦ elim a [ took n ↦ data_pdu_sent r c.len n q' | refused e ↦ (q', failed e) ]
      ]

  -- Behind the last byte of a PDU's data.
  unfoldable pub data_complete : Sent → Sender → Sender
  data_complete r q =
      if q.data_digest
      then set_req r.tag
          (record (q.reqs r.tag) { state = send_ddgst; offset = 0; ddgst = q.snd_hash }) q
      else done_send_req q

  -- Behind `n` of the `len` bytes of a piece of data.
  unfoldable pub data_advance : Sent → Chunk → ℕ → Sender → Sender
  unfolding advance_req
  data_advance r c n q = record (set_req r.tag (advance_req n (q.reqs r.tag)) q) {
    snd_hash = if q.data_digest then q.snd_hash ++ record c { len = n } ∷ [] else q.snd_hash;
  }

  -- The piece of data that is sent next.
  unfoldable pub cur_chunk : Sent → Sender → Chunk
  unfolding cur_length
  cur_chunk r q =
      let req = q.reqs r.tag in
      record { part = payload r.tag; start = req.data_sent; len = cur_length req }

  -- One round of the loop of `nvme_tcp_try_send_data`, for a piece that was offered, up to the
  -- test of the last write; `true` is for a next round.
  unfoldable pub data_sent_some : Sent → Chunk → Sender → Answer → Sender × Option Ret
  unfolding data_complete data_advance is_last_send
  data_sent_some r c q a = elim a [
    | refused e ↦ (q, some (failed e))
    | took n ↦
        let next = data_advance r c n q in
        if n == 0
        then (q, some nothing)
        else if is_last_send (q.reqs r.tag) c.len && n == c.len
        then (data_complete r next, some one)
        else (next, none)
  ]

  unfoldable pub data_round : Sent → Sender → Sender × Option Ret
  unfolding data_sent_some cur_chunk
  data_round r q =
      let c = cur_chunk r q in
      if is_legacy_path h q.bell
      then data_sent_some r c (submit s c.len (c ∷ []) q).0 (submit s c.len (c ∷ []) q).1
      else if is_caravan_full q
      then (record q { send_now = true }, some one)
      else data_sent_some r c (record (load c q) { nr_mapped = q.nr_mapped + 1 }) (took c.len)

  -- `nvme_tcp_try_send_data`, with fuel for the rounds.
  unfoldable pub try_send_data : (fuel : ℕ) → Sent → Sender → Option (Sender × Ret)
  try_send_data zero r q = none
  try_send_data (suc fuel) r q =
      let (q', ret) = data_round r q in
      elim ret [ some result ↦ some (q', result) | none ↦ try_send_data fuel r q' ]

  -- The `iov` of `nvme_tcp_try_send_ddgst`. The pointer moves by whole digests, so that a second
  -- part of a digest is read behind it: such a part starts at `offset` digests.
  unfoldable pub ddgst_chunk : Sent → Outgoing → Chunk
  ddgst_chunk r req = record {
    part = ddgst r.tag;
    start = req.offset * s.digest_size;
    len = s.digest_size - req.offset;
  }

  -- `nvme_tcp_try_send_ddgst`
  unfoldable pub try_send_ddgst : Sent → Sender → Sender × Ret
  try_send_ddgst r q =
      let req = q.reqs r.tag in
      let (q', a) = submit s (ddgst_chunk r req).len (ddgst_chunk r req ∷ []) q in
      elim a [
        | refused e ↦ (q', failed e)
        | took n ↦
            if n == 0
            then (q', nothing)
            else if req.offset + n == s.digest_size
            then (done_send_req q', one)
            else (set_req r.tag (record req { offset = req.offset + n }) q', failed eagain)
      ]
