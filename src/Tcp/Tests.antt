-- ===== src/Tcp/Tests.antt =====
-- drivers/nvme/host/tcp.c: the receive path on concrete PDUs, with the layout of linux/nvme-tcp.h.
use blk_switch.Common.{
  true, ℕ, zero, suc, Bool, Option, List, [], ◌∷◌, ◌++◌, none, some, false, ◌+◌, ◌*◌, ◌/◌, ◌%◌, ◌≤◌,
  ◌<◌, ◌≡◌, ◌⊎◌, ◌==◌, if◌then◌else◌, refl, length, arith,
}
use blk_switch.Tcp.{
  Wire, Queue, Req, Pdu, DataPdu, PduType, c2h_data, rsp, r2t, other, send_data, completed, Result,
  ok, err, tag_to_rq,
}
use blk_switch.Tcp.Dispatch.{setup_h2c_data_pdu, h2c_header}
use blk_switch.Tcp.Dispatch.H2c.{setup_h2c_data_pdu_lem}
use blk_switch.Tcp.Recv.{recv_skb, receive, copy_to_bios}
use blk_switch.Tcp.Recv.Bytewise.{outcome}
use blk_switch.Tcp.Recv.Loop.{recv_skb-outcome, recv_skb-append}
use blk_switch.Tcp.Recv.Room.{room, receive_lem}
use blk_switch.Tcp.Recv.Transfer.{recv_skb-c2h_data}
use blk_switch.Tcp.Doorbell.{
  Host, Sent, Bell, queue_request, doorbell_timeout, count_request, is_legacy_path, is_nodelay_path,
}
use blk_switch.Tcp.Doorbell.Awake.{IsAwake, start, queued, fired, Rings-IsAwake}

abbrev byte : ℕ → List ℕ → ℕ
byte i [] = 0
byte zero (x ∷ xs) = x
byte (suc i) (x ∷ xs) = byte i xs

abbrev le16 : ℕ → List ℕ → ℕ
le16 i xs = byte i xs + 256 * byte (i + 1) xs

abbrev le32 : ℕ → List ℕ → ℕ
le32 i xs = le16 i xs + 65536 * le16 (i + 2) xs

abbrev flag : ℕ → List ℕ → Bool
flag n xs = byte 1 xs / n % 2 == 1

abbrev type_of : ℕ → PduType
type_of n = if n == 7 then c2h_data else if n == 5 then rsp else if n == 9 then r2t else other

abbrev parse_pdu : List ℕ → Pdu
parse_pdu xs = record {
  pdu_type = type_of (byte 0 xs);
  hdgst_flag = flag 1 xs;
  ddgst_flag = flag 2 xs;
  last_flag = flag 4 xs;
  success_flag = flag 8 xs;
  hlen = byte 2 xs;
  plen = le32 4 xs;
  command_id = if byte 0 xs == 5 then le16 20 xs else le16 8 xs;
  data_length = le32 16 xs;
  status = le16 22 xs;
  ttag = le16 10 xs;
  r2t_offset = le32 12 xs;
  r2t_length = le32 16 xs;
}

abbrev sum_of : List ℕ → ℕ
sum_of [] = 0
sum_of (x ∷ xs) = x + sum_of xs

abbrev checksum : List ℕ → List ℕ
checksum xs = sum_of xs % 256 ∷ 0 ∷ 0 ∷ 0 ∷ []

abbrev wire : Wire
wire = record {
  rsp_size = 24;
  data_pdu_size = 24;
  digest_size = 4;
  aq_depth = 31;
  parse = parse_pdu;
  digest = checksum;
}

-- A read of 4 bytes that has them in two bios, and an empty write of 8.
abbrev read_req : Req
read_req = record {
  payload = 4;
  data_len = 4;
  data_sent = 0;
  pdu_len = 0;
  pdu_sent = 0;
  h2c = none;
  state = send_data;
  offset = 0;
  iter = 3;
  bios = 1 ∷ [];
  received = [];
}

abbrev write_req : Req
write_req = record {
  payload = 8;
  data_len = 8;
  data_sent = 2;
  pdu_len = 0;
  pdu_sent = 0;
  h2c = none;
  state = send_data;
  offset = 0;
  iter = 8;
  bios = [];
  received = [];
}

abbrev queue : Queue
queue = record {
  queue_id = 1;
  hdr_digest = false;
  data_digest = false;
  pdu = [];
  pdu_remaining = 24;
  data_remaining = 0;
  ddgst_remaining = 0;
  hash = [];
  exp_ddgst = [];
  recv_ddgst = [];
  nr_cqe = 0;
  nr_tags = 4;
  rqs = λ t. if t == 2 then some read_req else none;
  events = [];
}

-- A data PDU with 4 bytes for command 2, marked LAST and SUCCESS.
abbrev header_tail : List ℕ
header_tail =
    12 ∷ 24 ∷ 24 ∷ 28 ∷ 0 ∷ 0 ∷ 0 ∷ 2 ∷ 0 ∷ 0 ∷ 0 ∷ 0 ∷ 0 ∷ 0 ∷ 0 ∷ 4 ∷ 0 ∷ 0 ∷ 0 ∷ 0 ∷ 0 ∷ 0 ∷ 0
    ∷ []

abbrev header : List ℕ
header = 7 ∷ header_tail

abbrev body : List ℕ
body = 10 ∷ 20 ∷ 30 ∷ 40 ∷ []

found : tag_to_rq queue 2 ≡ some read_req
unfolding tag_to_rq
found = refl

recv_skb-c2h_data_example :
    (q' : Queue) × (rq' : Req) × (recv_skb wire queue (header ++ body) ≡ some (ok q'))
    × (tag_to_rq q' 2 ≡ some rq')
    × (rq'.received ≡ body)
    × (q'.pdu ≡ [])
    × (q'.pdu_remaining ≡ 24)
    × (q'.events ≡ completed 2 0 ∷ [])
recv_skb-c2h_data_example =
    recv_skb-c2h_data wire (omega arith) (omega arith) queue 7 header_tail 10 (20 ∷ 30 ∷ 40 ∷ [])
      read_req refl refl refl refl refl refl refl refl found refl (omega arith)

recv_skb-outcome_example :
    recv_skb wire queue (header ++ body) ≡ some (outcome wire queue (header ++ body))
recv_skb-outcome_example = recv_skb-outcome wire (omega arith) (omega arith) queue (header ++ body)

recv_skb-append_example :
    recv_skb wire queue (header ++ body)
    ≡ elim (recv_skb wire queue header) as (λ x. Option (Result Queue)) [
      | none ↦ none
      | some (ok q') ↦ recv_skb wire q' body
      | some (err e l) ↦ some (err e l)
    ]
recv_skb-append_example = recv_skb-append wire (omega arith) (omega arith) queue header body

receive_lem_example :
    ((length body ≤ room read_req)
      × (rq' : Req) × (receive read_req body ≡ some rq')
      × (rq'.received ≡ body)
      × (room rq' + length body ≡ room read_req))
    ⊎ ((room read_req < length body) × (receive read_req body ≡ none))
receive_lem_example = receive_lem read_req body

-- An R2T for the last 6 bytes of the write.
abbrev r2t_pdu : Pdu
r2t_pdu = record (parse_pdu header) { pdu_type = r2t; r2t_offset = 2; r2t_length = 6 }

abbrev answered : Req
answered = record write_req {
  pdu_len = 6;
  pdu_sent = 0;
  h2c = some (h2c_header wire queue write_req r2t_pdu);
}

accepted : setup_h2c_data_pdu wire queue write_req r2t_pdu ≡ some answered
unfolding setup_h2c_data_pdu
accepted = refl

setup_h2c_data_pdu_lem_example :
    let made = setup_h2c_data_pdu wire queue write_req r2t_pdu in
    (((8 < 2 + 6) ⊎ (2 < 2)) × (made ≡ none))
    ⊎ ((2 ≤ 2)
        × (req' : Req) × (d : DataPdu) × (made ≡ some req')
        × (req'.h2c ≡ some d)
        × (d.ttag ≡ r2t_pdu.ttag)
        × (d.data_offset ≡ 2)
        × (d.data_length ≡ 6)
        × (d.data_offset + d.data_length ≤ 8)
        × (req'.pdu_len ≡ d.data_length)
        × (req'.pdu_sent ≡ 0))
setup_h2c_data_pdu_lem_example = setup_h2c_data_pdu_lem wire queue write_req r2t_pdu (omega arith)

-- A fifth byte does not fit.
no_room : receive read_req (50 ∷ body) ≡ none
unfolding receive copy_to_bios
no_room = refl

-- A data queue of 4 cores with the delay that is the default, and a read of bios without other flags.
abbrev host : Host
host = record { delayed_doorbell_us = 50; online_cpus = 4; has_other_flag = λ flags. flags == 1 }

abbrev bell : Bell
bell = record {
  queue_id = 2;
  prio_class = 0;
  send_list = [];
  nr_req = 0;
  timer_active = false;
  timer_set = 0;
  work = false;
  work_lat = false;
}

abbrev delayed : ℕ → Sent
delayed t = record { tag = t; curr_bio = some 0 }

-- The first delayed request starts the timer, and rings no work.
first_starts : (queue_request host bell (delayed 3)).timer_active ≡ true
unfolding queue_request count_request is_legacy_path is_nodelay_path
first_starts = refl

timed : (queue_request host (queue_request host bell (delayed 3)) (delayed 5)).timer_active ≡ true
unfolding queue_request count_request is_legacy_path is_nodelay_path
timed = refl

Rings-IsAwake_example :
    IsAwake
      (doorbell_timeout (queue_request host (queue_request host bell (delayed 3)) (delayed 5)))
Rings-IsAwake_example =
    Rings-IsAwake host bell
      (doorbell_timeout (queue_request host (queue_request host bell (delayed 3)) (delayed 5)))
      (refl, refl, refl, refl) (fired timed (queued (delayed 5) (queued (delayed 3) start)))
