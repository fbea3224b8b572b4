-- ===== src/Target/Recv.antt =====
-- drivers/nvme/target/tcp.c: the receive state of a queue, the data that a command expects, and what is
-- done with a PDU that is complete.
pub mod Iovec
pub mod Work
use blk_switch.Common.{
  ℕ, zero, suc, Bool, Option, List, [], ◌∷◌, ◌++◌, none, some, true, false, not, ◌+◌, ◌-◌, ◌/◌, ◌%◌,
  ◌^◌, ◌&&◌, ◌||◌, ltb, leb, ◌==◌, if◌then◌else◌, min, u32, drop, take,
}
use blk_switch.Target.{
  RecvState, recv_pdu, recv_data, recv_ddgst, recv_err, QueueState, connecting, live, Cmd, Queue,
  set_cmd, get_cmd, has_data_in, need_data_in, has_inline_data,
}
use blk_switch.Tcp.Send.{Answer, Errno}

abbrev pub page_size : ℕ
page_size = 4096

-- What `nvmet_tcp_done_recv_pdu` tells apart, and any other type.
pub data PduType : Type 0 where
  icreq cmd h2c_data other : PduType

-- A received PDU, with the fields of the connection request, of the command and its SGL, and of the
-- data. `inline_sgl` tells that the SGL describes data of the PDU.
pub record Pdu : Type 0 where
  pub pdu_type : PduType
  pub hlen : ℕ
  pub plen : ℕ
  pub hdgst_flag : Bool
  pub ddgst_flag : Bool
  pub pfv : ℕ
  pub hpda : ℕ
  pub hdr_digest_enable : Bool
  pub data_digest_enable : Bool
  pub is_write : Bool
  pub command_id : ℕ
  pub inline_sgl : Bool
  pub sgl_length : ℕ
  pub ttag : ℕ
  pub data_offset : ℕ
  pub data_length : ℕ

-- The errors of the receive path: its own, and those of the socket.
pub data Fault : Type 0 where
  eproto eio enomem : Fault
  socket : Errno → Fault

-- What the core of the target is asked for a command: to execute it, to complete it with a status, or
-- to uninitialise it.
pub data Event : Type 0 where
  executed uninit : (c : ℕ) → Event
  completed : (c status : ℕ) → Event

-- The receive state of `struct nvmet_tcp_queue`, with what the core was asked for. `iov` is what
-- the iterator of the command was given, `missing` how much of it is not filled, and `number`
-- counts the PDUs.
pub record Receiver : Type 0 where
  pub queue : Queue
  pub offset : ℕ
  pub left : ℕ
  pub rcv_state : RecvState
  pub cmd : Option ℕ
  pub number : ℕ
  pub iov : List ℕ
  pub missing : ℕ
  pub calls : ℕ
  pub fatal : Bool
  pub events : List Event

-- The sizes of `struct nvme_tcp_hdr`, of the PDUs by their type and of a digest, the PDUs that come,
-- whether the digests of the n-th PDU are right, what the socket answers to each call with space
-- for some bytes, the scatterlist for some bytes and whether memory for its entries and for the
-- hashes is found, whether the connection's response is sent, the limit for inline data, what
-- `nvmet_req_init` makes of a command and whether it takes it, and the three statuses.
pub record Peer : Type 0 where
  pub hdr_size : ℕ
  pub pdu_size : PduType → ℕ
  pub digest_size : ℕ
  pub pdu : ℕ → Pdu
  pub hdgst_matches : ℕ → Bool
  pub ddgst_matches : ℕ → Bool
  pub sgl_alloc : ℕ → Option (List ℕ)
  pub answer : (call space : ℕ) → Answer
  pub has_memory : Bool
  pub has_hashes : Bool
  pub icresp_sent : Option Errno
  pub inline_data_size : ℕ
  pub req_init : Cmd → Cmd × Bool
  pub invalid_field : ℕ
  pub invalid_offset : ℕ
  pub internal : ℕ

-- The lengths that the loop of `nvmet_tcp_map_pdu_iovec` stores, from some entries of the
-- scatterlist on; `none` where it runs past the last entry.
unfoldable pub walk : (sg : List ℕ) → (length sg_offset : ℕ) → Option (List ℕ)
walk [] length sg_offset = if length == 0 then some [] else none
walk (l ∷ sg) length sg_offset =
    let iov_len = min length (u32 (l + 2 ^ 32 - sg_offset)) in
    let rest = walk sg (length - iov_len) sg_offset in
    if length == 0 then some [] else elim rest [ none ↦ none | some iov ↦ some (iov_len ∷ iov) ]

-- `DIV_ROUND_UP(n, PAGE_SIZE)`
abbrev pub pages : ℕ → ℕ
pages n = (n + page_size - 1) / page_size

-- `nvmet_tcp_map_pdu_iovec`: the segments that the iterator is given. There are `nr_mapped` of them,
-- the pages of the data, however many the loop has stored; of more than it has stored none is
-- reached, as the iterator ends with the bytes of the PDU.
unfoldable pub map_pdu_iovec : Cmd → Option (List ℕ)
unfolding walk
map_pdu_iovec x =
    let nr_mapped = pages x.pdu_len in
    elim (walk (drop (pages x.rbytes_done) x.sg) x.pdu_len (x.rbytes_done % page_size)) [
      | none ↦ none
      | some iov ↦ some (take nr_mapped iov)
    ]

module _ (p : Peer) where
  -- `nvmet_prepare_receive_pdu`
  unfoldable pub prepare_receive_pdu : Receiver → Receiver
  prepare_receive_pdu r = record r {
    offset = 0;
    left = p.hdr_size;
    cmd = none;
    rcv_state = recv_pdu;
    number = r.number + 1;
  }

  -- `nvmet_tcp_fatal_error`
  abbrev pub fatal_error : Receiver → Receiver
  fatal_error r = record r { rcv_state = recv_err; fatal = true }

  abbrev pub event : Event → Receiver → Receiver
  event e r = record r { events = r.events ++ e ∷ [] }

  -- `nvmet_tcp_map_data`, with the status that it returns, 0 for success.
  unfoldable pub map_data : Pdu → Cmd → Cmd × ℕ
  map_data d x =
      if x.data_len == 0
      then (x, 0)
      else if d.inline_sgl && not x.is_write
      then (x, p.invalid_field)
      else if d.inline_sgl && ltb p.inline_data_size d.sgl_length
      then (x, p.invalid_offset)
      else (let y = record x {
        pdu_len = if d.inline_sgl then d.sgl_length else x.pdu_len;
        transfer_len = u32 (x.transfer_len + d.sgl_length);
      } in
          elim (p.sgl_alloc d.sgl_length) [
            | none ↦ (y, p.internal)
            | some sg ↦
                let z = record y { sg = sg; cur_sg = sg; freed = false } in
                if has_data_in z && not p.has_memory
                then (record z { freed = true }, p.internal)
                else (z, 0)
          ])

  -- The data of a command is received next; `none` where the scatterlist is overrun.
  unfoldable pub expect_data : ℕ → Receiver → Option Receiver
  expect_data c r = elim (map_pdu_iovec (r.queue.cmds c)) [
    | none ↦ none
    | some iov ↦ some (record r {
      rcv_state = recv_data;
      cmd = some c;
      iov = iov;
      missing = (r.queue.cmds c).pdu_len;
    })
  ]

  -- `nvmet_tcp_handle_h2c_data_pdu`, with the error that it returns. A `ttag` that is no index of
  -- the commands is not refused.
  unfoldable pub handle_h2c_data_pdu : Pdu → Receiver → Option (Receiver × Option Fault)
  unfolding expect_data
  handle_h2c_data_pdu d r =
      let x = r.queue.cmds d.ttag in
      if not (d.data_offset == x.rbytes_done)
      then some (event (completed d.ttag p.invalid_field) r, some eproto)
      else (let q = set_cmd d.ttag (record x { pdu_len = d.data_length; pdu_recv = 0 }) r.queue in
          elim (expect_data d.ttag (record r { queue = q })) [
            | none ↦ none
            | some r' ↦ some (r', none)
          ])
