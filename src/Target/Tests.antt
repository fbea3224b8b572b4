-- ===== src/Target/Tests.antt =====
-- A data queue of the target with two commands: a read of two pages and a write.
mod Recv
mod Steer
use blk_switch.Common.{ℕ, Option, List, [], ◌∷◌, ◌++◌, none, some, true, false, ◌≡◌, arith, refl}
use blk_switch.Tcp.Send.{took, refused, other, Ret, one, nothing}
use blk_switch.Target.{
  send_data_pdu, send_data, Header, Cmd, Queue, Link, Piece, Part, payload, data_hdr, live,
  is_caravan_full, need_data_out, put_cmd,
}
use blk_switch.Target.Respond.Order.{
  Op, respond, fetch, run, run_fifo, waiting, IsCounted, run-eq-run_fifo,
}
use blk_switch.Target.Send.{
  try_send_data, data_piece, is_aggregated, try_send_data_pdu, data_round, submit, load,
  data_advance, data_done,
}
use blk_switch.Target.Respond.{fetch_cmd, move_responses, setup_pdu, hdgst_len, c2h_header}
use blk_switch.Target.Send.Batch.{
  try_send, send_caravan, is_due, try_send_one, put_cmds, from_data, send_parts,
}
use blk_switch.Target.Send.Batch.Within.{IsWithin}
use blk_switch.Target.Send.Batch.Bounds.{try_send-IsWithin}
use blk_switch.Target.Send.Batch.Total.{TakesAtMost, Within}
use blk_switch.Target.Send.Batch.Returns.{try_send-returns}
use blk_switch.Target.Send.Batch.Faults.{returned, send_caravan-refused, data_freed}

abbrev pub header : Header
header = record {
  flag_last = false;
  flag_success = false;
  flag_ddgst = false;
  flag_hdgst = false;
  hlen = 0;
  pdo = 0;
  plen = 0;
  command_id = 0;
  ttag = 0;
  data_length = 0;
  data_offset = 0;
}

abbrev pub read : Cmd
read = record {
  is_write = false;
  command_id = 7;
  status = 0;
  data_len = 8192;
  transfer_len = 8192;
  sg = 4096 ∷ 4096 ∷ [];
  freed = false;
  rbytes_done = 0;
  wbytes_done = 0;
  pdu_len = 0;
  pdu_recv = 0;
  init_failed = false;
  offset = 0;
  cur_sg = 4096 ∷ 4096 ∷ [];
  state = send_data_pdu;
  data_pdu = header;
  r2t_pdu = header;
  rsp_pdu = header;
}

abbrev pub queue : Queue
queue = record {
  cmds = λ c. read;
  nr_cmds = 4;
  free_list = 2 ∷ 3 ∷ [];
  resp_list = [];
  resp_send_list = [];
  send_list_len = 0;
  snd_cmd = none;
  state = live;
  qid = 1;
  prio_class = 0;
  sqhd_disabled = true;
  hdr_digest = false;
  data_digest = false;
  work = false;
  work_lat = false;
  caravan_iovs = [];
  nr_iovs = 0;
  caravan_len = 0;
  caravan_cmds = [];
  nr_caravan_cmds = 0;
  nr_caravan_mapped = 0;
  send_now = false;
  no_space = false;
  out = [];
  calls = 0;
}

abbrev pub link : Link
link = record {
  data_pdu_size = 24;
  r2t_pdu_size = 24;
  rsp_pdu_size = 24;
  digest_size = 4;
  answer = λ i l. took l;
  wspace = λ i. 100000;
  aggr = true;
}

abbrev piece : Part → ℕ → ℕ → Piece
piece p start len = record { part = p; start = start; len = len }

abbrev ops : List Op
ops = respond 0 ∷ respond 1 ∷ fetch ∷ respond 2 ∷ fetch ∷ fetch ∷ fetch ∷ []

-- Three responses come out in the order in which they were queued.
in_order : (run_fifo ops (waiting queue)).1 ≡ some 0 ∷ some 1 ∷ some 2 ∷ none ∷ []
unfolding run_fifo waiting
in_order = refl

run-eq-run_fifo_example :
    ((run link ops queue).1 ≡ (run_fifo ops (waiting queue)).1)
    × (waiting (run link ops queue).0 ≡ (run_fifo ops (waiting queue)).0)
    × IsCounted (run link ops queue).0
unfolding IsCounted
run-eq-run_fifo_example = run-eq-run_fifo link ops queue refl

-- The read of command 1 is fetched and sent in a caravan.
abbrev reading : Queue
reading = record queue { resp_list = 1 ∷ [] }

abbrev state_of : Option (Queue × Ret × ℕ) → Queue
state_of none = queue
state_of (some (q, ret, n)) = q

abbrev sent : Queue
sent = state_of (try_send link 9 1 reading nothing)

sent_all :
    sent.out ≡ piece (data_hdr 1) 0 24 ∷ piece (payload 1) 0 4096 ∷ piece (payload 1) 4096 4096 ∷ []
unfolding try_send try_send_one fetch_cmd move_responses setup_pdu need_data_out try_send_data_pdu
    is_aggregated try_send_data data_round put_cmds put_cmd send_caravan submit load is_caravan_full
    from_data data_advance hdgst_len c2h_header data_done send_parts
sent_all = refl

sending : try_send link 9 1 reading nothing ≡ some (sent, one, 1)
unfolding try_send try_send_one fetch_cmd move_responses setup_pdu need_data_out try_send_data_pdu
    is_aggregated try_send_data data_round put_cmds put_cmd send_caravan submit load is_caravan_full
    from_data data_advance hdgst_len c2h_header data_done send_parts
sending = refl

try_send-IsWithin_example : IsWithin sent
try_send-IsWithin_example =
    try_send-IsWithin link 9 1 1 reading sent nothing one
      (record {
        counted = refl;
        cmds_counted = refl;
        iovs_fit = omega arith;
        cmds_fit = omega arith;
        mapped_fit = omega arith;
      })
      sending

try_send-returns_example :
    (q' : Queue) × (ret' : Ret) × (n : ℕ) × (try_send link 20000 2 reading nothing
      ≡ some (q', ret', n))
unfolding TakesAtMost Within
try_send-returns_example =
    try_send-returns link 20000 2 reading nothing (λ i l n e. ground arith) (λ c. omega arith)

-- The second page of the read of command 1.
abbrev halfway : Queue
halfway = record queue {
  cmds = λ c. record read { state = send_data; wbytes_done = 4096; cur_sg = 4096 ∷ [] };
}

data_freed_example :
    (q' : Queue) × (try_send_data link 2 1 halfway ≡ some (q', one))
    × (q'.caravan_iovs ≡ [] ++ data_piece link 1 4096 halfway ∷ [])
    × ((q'.cmds 1).freed ≡ true)
    × (q'.free_list ≡ (2 ∷ 3 ∷ []) ++ 1 ∷ [])
unfolding is_aggregated is_caravan_full
data_freed_example =
    data_freed link 0 1 4096 halfway refl refl refl refl (λ e. omega arith) refl (omega arith)
