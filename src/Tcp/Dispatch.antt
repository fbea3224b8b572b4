-- ===== src/Tcp/Dispatch.antt =====
-- drivers/nvme/host/tcp.c: what a queue does with a PDU that is complete.
pub mod H2c
use blk_switch.Common.{
  ℕ, Bool, Option, List, [], ◌∷◌, ◌++◌, none, some, true, false, not, ◌+◌, ◌-◌, ◌*◌, ◌^◌, ◌&&◌, ltb,
  leb, ◌==◌, if◌then◌else◌, u32, take, drop,
}
use blk_switch.Common.Map.{update}
use blk_switch.Tcp.{
  Pdu, PduType, c2h_data, rsp, r2t, other, Wire, DataPdu, Req, Event, send_h2c_pdu, completed,
  async_event, queued, recovery, Error, enoent, eio, eproto, einval, Queue, Result, ok, err, ◌>>=◌,
  tag_to_rq, same_bytes,
}

abbrev pub log : Event → Queue → Queue
log e q = record q { events = q.events ++ e ∷ [] }

abbrev pub set_rq : ℕ → Req → Queue → Queue
set_rq tag r q = record q { rqs = update q.rqs tag (some r) }

module _ (w : Wire) where
  unfoldable pub hdgst_len : Queue → ℕ
  hdgst_len q = if q.hdr_digest then w.digest_size else 0

  unfoldable pub ddgst_len : Queue → ℕ
  ddgst_len q = if q.data_digest then w.digest_size else 0

  -- `nvme_tcp_init_recv_ctx`; -1 as a `size_t`
  unfoldable pub init_recv_ctx : Queue → Queue
  unfolding hdgst_len
  init_recv_ctx q = record q {
    pdu = [];
    pdu_remaining = w.rsp_size + hdgst_len q;
    data_remaining = 2 ^ 64 - 1;
    ddgst_remaining = 0;
  }

  -- `nvme_tcp_verify_hdgst`, over the bytes received. The digest that the code writes over the received
  -- one is the same where the check succeeds.
  unfoldable pub verify_hdgst : Queue → Pdu → Result Queue
  verify_hdgst q p =
      if not p.hdgst_flag
      then err eproto q.events
      else if same_bytes (take w.digest_size (drop p.hlen q.pdu)) (w.digest (take p.hlen q.pdu))
      then ok q
      else err eio q.events

  -- `nvme_tcp_check_ddgst`: on success the hash is begun anew.
  unfoldable pub check_ddgst : Queue → Pdu → Result Queue
  unfolding hdgst_len
  check_ddgst q p =
      let len = u32 (p.plen + 2 * 2 ^ 32 - p.hlen - (if p.hdgst_flag then hdgst_len q else 0)) in
      if not (len == 0) && not p.ddgst_flag
      then err eproto q.events
      else ok (record q { hash = [] })

  -- `nvme_tcp_handle_c2h_data`
  unfoldable pub handle_c2h_data : Queue → Pdu → Result Queue
  handle_c2h_data q p = elim (tag_to_rq q p.command_id) [
    | none ↦ err enoent q.events
    | some rq ↦
        if rq.payload == 0
        then err eio q.events
        else if p.success_flag && not p.last_flag
        then err eproto (q.events ++ recovery ∷ [])
        else ok (record q { data_remaining = p.data_length })
  ]

  -- `nvme_tcp_process_nvme_cqe`
  unfoldable pub process_nvme_cqe : Queue → Pdu → Result Queue
  process_nvme_cqe q p = elim (tag_to_rq q p.command_id) [
    | none ↦ err einval (q.events ++ recovery ∷ [])
    | some rq ↦
        ok (record (log (completed p.command_id p.status) q) { nr_cqe = u32 (q.nr_cqe + 1) })
  ]

  -- `nvme_tcp_handle_comp`
  unfoldable pub handle_comp : Queue → Pdu → Result Queue
  unfolding process_nvme_cqe
  handle_comp q p =
      if q.queue_id == 0 && leb w.aq_depth p.command_id
      then ok (log (async_event p.status) q)
      else process_nvme_cqe q p

  -- The header that `nvme_tcp_setup_h2c_data_pdu` writes.
  unfoldable pub h2c_header : Queue → Req → Pdu → DataPdu
  unfolding hdgst_len ddgst_len
  h2c_header q req p = record {
    hdgst_flag = q.hdr_digest;
    ddgst_flag = q.data_digest;
    hlen = w.data_pdu_size;
    pdo = w.data_pdu_size + hdgst_len q;
    plen = u32 (w.data_pdu_size + hdgst_len q + p.r2t_length + ddgst_len q);
    ttag = p.ttag;
    command_id = p.command_id;
    data_offset = u32 req.data_sent;
    data_length = p.r2t_length;
  }

  -- `nvme_tcp_setup_h2c_data_pdu`: `none` is -EPROTO.
  unfoldable pub setup_h2c_data_pdu : Queue → Req → Pdu → Option Req
  unfolding h2c_header
  setup_h2c_data_pdu q req p =
      if ltb req.data_len (req.data_sent + p.r2t_length)
      then none
      else if ltb p.r2t_offset req.data_sent
      then none
      else some
          (record req { pdu_len = p.r2t_length; pdu_sent = 0; h2c = some (h2c_header q req p) })

  -- `nvme_tcp_handle_r2t`
  unfoldable pub handle_r2t : Queue → Pdu → Result Queue
  unfolding setup_h2c_data_pdu
  handle_r2t q p = elim (tag_to_rq q p.command_id) [
    | none ↦ err enoent q.events
    | some req ↦ elim (setup_h2c_data_pdu q req p) [
      | none ↦ err eproto q.events
      | some req' ↦
          let ready = record req' { state = send_h2c_pdu; offset = 0 } in
          ok (log (queued p.command_id) (set_rq p.command_id ready q))
    ]
  ]

  -- The switch at the end of `nvme_tcp_recv_pdu`.
  unfoldable pub dispatch : PduType → Queue → Pdu → Result Queue
  dispatch c2h_data q p = handle_c2h_data q p
  dispatch rsp q p = handle_comp (init_recv_ctx q) p
  dispatch r2t q p = handle_r2t (init_recv_ctx q) p
  dispatch other q p = err einval q.events

  -- What `nvme_tcp_recv_pdu` does with the last byte of a PDU.
  unfoldable pub pdu_done : Queue → Result Queue
  pdu_done q =
      let p = w.parse q.pdu in
      (if q.hdr_digest then verify_hdgst q p else ok q) >>= λ checked.
      (if checked.data_digest then check_ddgst checked p else ok checked) >>= λ begun.
      dispatch p.pdu_type begun p
