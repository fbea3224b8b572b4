-- ===== src/Target/Respond.antt =====
-- drivers/nvme/target/tcp.c: the PDUs that a command sends, and the lists of responses:
-- nvmet_tcp_queue_response, nvmet_tcp_process_resp_list and nvmet_tcp_fetch_cmd.
pub mod Order
use blk_switch.Common.{
  ℕ, zero, suc, Bool, Option, List, [], ◌∷◌, ◌++◌, none, some, true, false, not, ◌+◌, ◌-◌, ◌&&◌,
  ◌||◌, if◌then◌else◌, u32,
}
use blk_switch.Target.{
  Header, SendState, send_data_pdu, send_r2t, send_response, Cmd, Queue, Link, set_cmd,
  need_data_in, need_data_out, is_latency,
}

module _ (s : Link) where
  unfoldable pub hdgst_len : Queue → ℕ
  hdgst_len q = if q.hdr_digest then s.digest_size else 0

  unfoldable pub ddgst_len : Queue → ℕ
  ddgst_len q = if q.data_digest then s.digest_size else 0

  -- The header of the PDU of `nvmet_setup_c2h_data_pdu`
  unfoldable pub c2h_header : Queue → Cmd → Header
  unfolding hdgst_len ddgst_len
  c2h_header q x = record {
    flag_last = true;
    flag_success = q.sqhd_disabled;
    flag_ddgst = q.data_digest;
    flag_hdgst = q.hdr_digest;
    hlen = s.data_pdu_size;
    pdo = s.data_pdu_size + hdgst_len q;
    plen = u32 (s.data_pdu_size + hdgst_len q + x.transfer_len + ddgst_len q);
    command_id = x.command_id;
    ttag = 0;
    data_length = x.transfer_len;
    data_offset = x.wbytes_done;
  }

  -- `nvmet_setup_c2h_data_pdu`
  unfoldable pub setup_c2h_data_pdu : ℕ → Queue → Queue
  setup_c2h_data_pdu c q =
      let x = q.cmds c in
      set_cmd c (record x { offset = 0; state = send_data_pdu; data_pdu = c2h_header q x }) q

  -- The header of the PDU of `nvmet_setup_r2t_pdu`, with the length and the offset of what is asked
  -- for; it is set up only where some of the transfer is missing.
  unfoldable pub r2t_header : ℕ → Queue → Cmd → Header
  unfolding hdgst_len
  r2t_header c q x = record {
    flag_last = false;
    flag_success = false;
    flag_ddgst = false;
    flag_hdgst = q.hdr_digest;
    hlen = s.r2t_pdu_size;
    pdo = 0;
    plen = u32 (s.r2t_pdu_size + hdgst_len q);
    command_id = x.command_id;
    ttag = c;
    data_length = x.transfer_len - x.rbytes_done;
    data_offset = x.rbytes_done;
  }

  -- `nvmet_setup_r2t_pdu`
  unfoldable pub setup_r2t_pdu : ℕ → Queue → Queue
  setup_r2t_pdu c q =
      let x = q.cmds c in
      set_cmd c (record x { offset = 0; state = send_r2t; r2t_pdu = r2t_header c q x }) q

  -- `nvmet_setup_response_pdu`
  unfoldable pub setup_response_pdu : ℕ → Queue → Queue
  unfolding hdgst_len
  setup_response_pdu c q =
      let x = q.cmds c in
      set_cmd c
        (record x {
          offset = 0;
          state = send_response;
          rsp_pdu = record {
            flag_last = false;
            flag_success = false;
            flag_ddgst = false;
            flag_hdgst = q.hdr_digest;
            hlen = s.rsp_pdu_size;
            pdo = 0;
            plen = u32 (s.rsp_pdu_size + hdgst_len q);
            command_id = x.command_id;
            ttag = 0;
            data_length = 0;
            data_offset = 0;
          };
        })
        q

  -- Which of the three PDUs a command sends first.
  unfoldable pub setup_pdu : ℕ → Queue → Queue
  unfolding setup_c2h_data_pdu setup_r2t_pdu setup_response_pdu
  setup_pdu c q =
      if need_data_out (q.cmds c)
      then setup_c2h_data_pdu c q
      else if need_data_in (q.cmds c)
      then setup_r2t_pdu c q
      else setup_response_pdu c q

-- The loop of `nvmet_tcp_process_resp_list` over the list that it has taken.
unfoldable pub move_responses : List ℕ → Queue → Queue
move_responses [] q = q
move_responses (c ∷ cs) q =
    move_responses cs
      (record q { resp_send_list = c ∷ q.resp_send_list; send_list_len = q.send_list_len + 1 })

-- `nvmet_tcp_process_resp_list`
unfoldable pub process_resp_list : Queue → Queue
process_resp_list q = move_responses q.resp_list (record q { resp_list = [] })

-- `nvmet_tcp_queue_response`
unfoldable pub queue_response : ℕ → Queue → Queue
queue_response c q =
    let listed = record q { resp_list = c ∷ q.resp_list } in
    if is_latency q then record listed { work_lat = true } else record listed { work = true }

-- With nothing to send, the responses are moved.
unfoldable pub refill : Queue → Queue
unfolding process_resp_list
refill q = elim (q.resp_send_list) [ [] ↦ process_resp_list q | c ∷ cs ↦ q ]

-- The first command of a send list is taken from it, and its PDU is set up.
unfoldable pub take_first : Link → List ℕ → Queue → Queue
take_first s [] q = record q { snd_cmd = none }
take_first s (c ∷ cs) q =
    setup_pdu s c
      (record q { snd_cmd = some c; resp_send_list = cs; send_list_len = q.send_list_len - 1 })

-- `nvmet_tcp_fetch_cmd`, and the command that it returns, which `snd_cmd` is then, too.
unfoldable pub fetch_cmd : Link → Queue → Queue
unfolding refill take_first
fetch_cmd s q = take_first s (refill q).resp_send_list (refill q)
