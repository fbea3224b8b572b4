-- ===== src/Tcp/Send/Tests.antt =====
-- A data queue with two write requests: the one with inline data goes into the caravan.
use blk_switch.Common.{ℕ, List, [], ◌∷◌, ◌++◌, none, some, true, false, ◌≡◌, arith, refl, ◌==◌}
use blk_switch.Common.Map.{update}
use blk_switch.Tcp.{send_cmd_pdu, send_data}
use blk_switch.Tcp.Doorbell.{Host, Bell, Sent, is_legacy_path, is_nodelay_path}
use blk_switch.Tcp.Send.{
  Chunk, Part, cmd_pdu, payload, ddgst, took, refused, Ret, one, other, Outgoing, Sender, Socket,
  submit, load, is_caravan_full,
}
use blk_switch.Tcp.Send.Parts.{
  cur_chunk, cur_length, is_last_send, try_send_cmd_pdu, try_send_data, data_round, skip,
}
use blk_switch.Tcp.Send.Try.{from_data, try_send}
use blk_switch.Tcp.Send.Work.{Rounds}
use blk_switch.Tcp.Send.Bounds.{IsLoaded, try_send-IsLoaded}
use blk_switch.Tcp.Send.Refine.{IsReady, Extends, try_send-Extends}
use blk_switch.Tcp.Send.Total.{TakesAtMost, Within, try_send-Returns}
use blk_switch.Tcp.Send.Faults.{digest_overtakes}

abbrev host : Host
host = record { delayed_doorbell_us = 50; online_cpus = 4; has_other_flag = λ flags. flags == 1 }

abbrev write_8k : Outgoing
write_8k = record {
  is_async = false;
  is_write = true;
  state = send_cmd_pdu;
  offset = 0;
  data_len = 8;
  data_sent = 0;
  pdu_len = 8;
  pdu_sent = 0;
  segments = 4 ∷ 4 ∷ [];
  ddgst = [];
}

abbrev req : ℕ → Sent
req t = record { tag = t; curr_bio = some 0 }

abbrev bell : Bell
bell = record {
  queue_id = 2;
  prio_class = 0;
  send_list = req 3 ∷ [];
  nr_req = 1;
  timer_active = true;
  timer_set = 1;
  work = false;
  work_lat = false;
}

abbrev queue : Sender
queue = record {
  bell = bell;
  reqs = λ t. write_8k;
  request = none;
  hdr_digest = false;
  data_digest = false;
  inline_data_size = 8;
  caravan_iovs = [];
  nr_iovs = 0;
  caravan_len = 0;
  nr_mapped = 0;
  send_now = false;
  nr_caravan_req = 0;
  snd_hash = [];
  no_space = false;
  out = [];
  calls = 0;
}

abbrev chunk : Part → ℕ → ℕ → Chunk
chunk p start len = record { part = p; start = start; len = len }

-- A socket that takes all.
abbrev socket : Socket
socket = record {
  cmd_pdu_size = 72;
  data_pdu_size = 24;
  digest_size = 4;
  answer = λ i l. took l;
  wspace = λ i. 1000;
}

empty-IsLoaded : IsLoaded queue
empty-IsLoaded = record {
  counted = refl;
  weighed = refl;
  iovs_fit = omega arith;
  mapped_fit = omega arith;
}

-- The caravan of a command with its 8 bytes of data.
abbrev loaded : List Chunk
loaded = chunk (cmd_pdu 3) 0 72 ∷ chunk (payload 3) 0 4 ∷ chunk (payload 3) 4 4 ∷ []

abbrev after : Sender
after = record queue {
  bell = record bell { send_list = [] };
  reqs =
      update
        (update (update queue.reqs 3 (record write_8k { state = send_data })) 3
          (record write_8k { state = send_data; data_sent = 4; pdu_sent = 4; segments = 4 ∷ [] }))
        3 (record write_8k { state = send_data; data_sent = 8; pdu_sent = 8; segments = [] });
  caravan_iovs = loaded;
  nr_iovs = 3;
  caravan_len = 80;
  nr_mapped = 2;
  nr_caravan_req = 1;
}

sending : try_send host socket 9 queue ≡ some (after, one)
unfolding try_send try_send_cmd_pdu is_legacy_path is_caravan_full load try_send_data data_round
    skip is_nodelay_path
sending = refl

try_send-IsLoaded_example : IsLoaded after
try_send-IsLoaded_example = try_send-IsLoaded host socket 9 queue after one empty-IsLoaded sending

try_send-Returns_example :
    (q' : Sender) × (ret : Ret) × (try_send host socket 9 queue ≡ some (q', ret))
unfolding TakesAtMost Within
try_send-Returns_example =
    try_send-Returns host socket 9 queue (λ i l n e. ground arith) (λ t. omega arith)

-- The queue that was filled, with one more request to send and its caravan due.
abbrev due : Sender
due = record after { bell = bell; reqs = queue.reqs; send_now = true }

abbrev after_due : Sender
after_due = record after {
  bell = record bell { send_list = [] };
  nr_caravan_req = 2;
  out = loaded;
  calls = 1;
}

due-IsReady : IsReady host socket due
unfolding is_legacy_path
due-IsReady = record {
  caravans = refl;
  undigested = refl;
  no_digest = λ t. refl;
  weighed = refl;
  whole = λ n e. ground arith;
}

sending_due : try_send host socket 9 due ≡ some (after_due, one)
unfolding try_send submit try_send_cmd_pdu is_legacy_path is_caravan_full load try_send_data
    data_round skip is_nodelay_path
sending_due = refl

try_send-Extends_example : Extends host socket due after_due
try_send-Extends_example = try_send-Extends host socket 9 due after_due one due-IsReady sending_due

-- A socket without memory, a caravan that no timer waits for, and a round without anything received.
abbrev broken : Socket
broken = record socket { answer = λ i l. refused other }

abbrev quiet : Sender
quiet = record due { bell = record bell { send_list = []; timer_active = false } }

abbrev rounds : Rounds
rounds = record { try_recv = λ i q. (q, false); is_late = λ i. false }

-- The last half of the data of a request, with a digest to follow it.
abbrev digested : Sender
digested = record after {
  data_digest = true;
  reqs = λ t. record write_8k { state = send_data; data_sent = 4; pdu_sent = 4; segments = 4 ∷ [] };
}

digest_overtakes_example :
    (q' : Sender) × (from_data host socket 9 (req 3) digested one ≡ some (q', one))
    × (q'.caravan_iovs ≡ loaded ++ chunk (payload 3) 4 4 ∷ [])
    × (q'.out ≡ [] ++ chunk (ddgst 3) 0 4 ∷ [])
    × (q'.request ≡ none)
unfolding cur_chunk cur_length is_legacy_path is_caravan_full is_last_send
digest_overtakes_example =
    digest_overtakes host socket 8 (req 3) digested one refl refl refl refl (omega arith) refl
      (omega arith) refl
