-- ===== src/Target/Tests/Recv.antt =====
-- A queue of the target that receives: a write of two pages, and a connection request.
use blk_switch.Common.{
  ℕ, List, [], ◌∷◌, ◌++◌, none, some, true, false, ◌≤◌, ◌<◌, ◌≡◌, arith, refl, drop, length,
}
use blk_switch.Tcp.{Req, Wire, send_data}
use blk_switch.Tcp.Send.{took}
use blk_switch.Target.{Cmd, recv_pdu, recv_data, connecting}
use blk_switch.Target.Tests.{read, queue}
use blk_switch.Target.Recv.{icreq, Pdu, executed, Receiver, Peer, map_pdu_iovec}
use blk_switch.Target.Recv.Iovec.{total, map_pdu_iovec_lem}
use blk_switch.Target.Recv.Work.{try_recv_data}
use blk_switch.Target.Recv.Work.Complete.{Delivers, try_recv_data-executed}

-- A write that has received its first page.
abbrev write : Cmd
write = record read { is_write = true; rbytes_done = 4096; pdu_len = 4096 }

map_pdu_iovec_lem_example :
    (4096 ≤ total (drop 1 write.sg)
      → (iov : List ℕ) × (map_pdu_iovec write ≡ some iov) × (total iov ≡ 4096) × (length iov ≡ 1))
    × (total (drop 1 write.sg) < 4096 → map_pdu_iovec write ≡ none)
map_pdu_iovec_lem_example = map_pdu_iovec_lem write 1 (refl, omega arith) refl

abbrev request : Pdu
request = record {
  pdu_type = icreq;
  hlen = 128;
  plen = 100;
  hdgst_flag = false;
  ddgst_flag = false;
  pfv = 0;
  hpda = 0;
  hdr_digest_enable = true;
  data_digest_enable = false;
  is_write = false;
  command_id = 0;
  inline_sgl = false;
  sgl_length = 0;
  ttag = 0;
  data_offset = 0;
  data_length = 0;
}

-- A peer that sends connection requests and delivers what there is space for.
abbrev peer : Peer
peer = record {
  hdr_size = 8;
  pdu_size = λ t. 128;
  digest_size = 4;
  pdu = λ n. request;
  hdgst_matches = λ n. true;
  ddgst_matches = λ n. true;
  sgl_alloc = λ n. some (n ∷ []);
  answer = λ i l. took l;
  has_memory = true;
  has_hashes = true;
  icresp_sent = none;
  inline_data_size = 16384;
  req_init = λ x. (x, true);
  invalid_field = 2;
  invalid_offset = 22;
  internal = 6;
}

abbrev receiver : Receiver
receiver = record {
  queue = record queue { cmds = λ c. write };
  offset = 0;
  left = 0;
  rcv_state = recv_data;
  cmd = some 1;
  number = 0;
  iov = 4096 ∷ [];
  missing = 4096;
  calls = 0;
  fatal = false;
  events = [];
}

try_recv_data-executed_example :
    (r' : Receiver) × (try_recv_data peer 5000 1 receiver ≡ some (r', none))
    × (r'.events ≡ [] ++ executed 1 ∷ [])
    × (r'.rcv_state ≡ recv_pdu)
    × ((r'.queue.cmds 1).rbytes_done ≡ 8192)
unfolding Delivers
try_recv_data-executed_example =
    try_recv_data-executed peer 5000 1 receiver (λ i l h. (l, refl, h, omega arith))
      (record { taken = refl; rest = omega arith; narrow = omega arith; undigested = refl })
      (omega arith)

abbrev new : Receiver
new = record receiver { queue = record queue { state = connecting } }

-- The host's side of a write of two pages, and the R2T for all of it.
abbrev write_req : Req
write_req = record {
  payload = 8192;
  data_len = 8192;
  data_sent = 0;
  pdu_len = 0;
  pdu_sent = 0;
  h2c = none;
  state = send_data;
  offset = 0;
  iter = 8192;
  bios = [];
  received = [];
}

abbrev r2t_pdu : blk_switch.Tcp.Pdu
r2t_pdu = record {
  pdu_type = blk_switch.Tcp.r2t;
  hdgst_flag = false;
  ddgst_flag = false;
  success_flag = false;
  last_flag = false;
  hlen = 24;
  plen = 24;
  command_id = 7;
  data_length = 0;
  status = 0;
  ttag = 1;
  r2t_offset = 0;
  r2t_length = 8192;
}

abbrev wire : Wire
wire = record {
  rsp_size = 24;
  data_pdu_size = 24;
  digest_size = 4;
  aq_depth = 31;
  parse = λ bytes. r2t_pdu;
  digest = λ bytes. [];
}

abbrev host_queue : blk_switch.Tcp.Queue
host_queue = record {
  queue_id = 1;
  hdr_digest = false;
  data_digest = false;
  pdu = [];
  pdu_remaining = 24;
  data_remaining = 0;
  ddgst_remaining = 0;
  hash = [];
  exp_ddgst = [];
  recv_ddgst = [];
  nr_cqe = 0;
  nr_tags = 4;
  rqs = λ t. some write_req;
  events = [];
}

abbrev waiting : Receiver
waiting = record receiver { queue = record queue { cmds = λ c. record write { rbytes_done = 0 } } }
