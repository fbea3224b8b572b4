-- ===== src/Target.antt =====
-- drivers/nvme/target/tcp.c: a queue of the nvme-tcp target and its commands.
pub mod Respond
pub mod Send
pub mod Recv
pub mod Steer
mod Tests
use blk_switch.Common.{
  ℕ, zero, suc, Bool, Option, List, [], ◌∷◌, ◌++◌, none, some, true, false, not, ◌+◌, ◌-◌, ◌&&◌,
  ◌||◌, ltb, leb, ◌==◌, if◌then◌else◌, min,
}
use blk_switch.Common.Map.{update}
use blk_switch.Tcp.Send.{Answer, took, refused, Errno}

abbrev pub caravan_capacity : ℕ
caravan_capacity = 65536

abbrev pub send_budget : ℕ
send_budget = 16

-- `enum nvmet_tcp_send_state`
pub data SendState : Type 0 where
  send_data_pdu send_data send_r2t send_ddgst send_response : SendState

-- `enum nvmet_tcp_recv_state`
pub data RecvState : Type 0 where
  recv_pdu recv_data recv_ddgst recv_err : RecvState

-- `enum nvmet_tcp_queue_state`
pub data QueueState : Type 0 where
  connecting live disconnecting : QueueState

-- The fields of the three PDUs that a command sends. A field that a PDU has not is 0 or false.
pub record Header : Type 0 where
  pub flag_last : Bool
  pub flag_success : Bool
  pub flag_ddgst : Bool
  pub flag_hdgst : Bool
  pub hlen : ℕ
  pub pdo : ℕ
  pub plen : ℕ
  pub command_id : ℕ
  pub ttag : ℕ
  pub data_length : ℕ
  pub data_offset : ℕ

-- `struct nvmet_tcp_cmd` with the fields of its `struct nvmet_req` that the transport uses: the
-- direction, the identifier and the status of the command, and the lengths of its scatterlist. `cur_sg`
-- is what is left of that from the entry that is sent next. `iov` are the lengths of the entries that
-- the receive iterator has left, and `freed` tells that the scatterlist was freed.
pub record Cmd : Type 0 where
  pub is_write : Bool
  pub command_id : ℕ
  pub status : ℕ
  pub data_len : ℕ
  pub transfer_len : ℕ
  pub sg : List ℕ
  pub freed : Bool
  pub rbytes_done : ℕ
  pub wbytes_done : ℕ
  pub pdu_len : ℕ
  pub pdu_recv : ℕ
  pub init_failed : Bool
  pub offset : ℕ
  pub cur_sg : List ℕ
  pub state : SendState
  pub data_pdu : Header
  pub r2t_pdu : Header
  pub rsp_pdu : Header

-- What a piece of the byte stream belongs to, by the number of the command.
pub data Part : Type 0 where
  data_hdr r2t_hdr rsp_hdr payload ddgst : (c : ℕ) → Part

-- `len` bytes of a part, from `start` on.
pub record Piece : Type 0 where
  pub part : Part
  pub start : ℕ
  pub len : ℕ

-- `struct nvmet_tcp_queue`, without its receive state. The commands have their index in `cmds`, and
-- the connect command the number `nr_cmds`; `resp_list` has the newest response first. `out` is
-- what the socket has taken, and `calls` counts its calls.
pub record Queue : Type 0 where
  pub cmds : ℕ → Cmd
  pub nr_cmds : ℕ
  pub free_list : List ℕ
  pub resp_list : List ℕ
  pub resp_send_list : List ℕ
  pub send_list_len : ℕ
  pub snd_cmd : Option ℕ
  pub state : QueueState
  pub qid : ℕ
  pub prio_class : ℕ
  pub sqhd_disabled : Bool
  pub hdr_digest : Bool
  pub data_digest : Bool
  pub work : Bool
  pub work_lat : Bool
  pub caravan_iovs : List Piece
  pub nr_iovs : ℕ
  pub caravan_len : ℕ
  pub caravan_cmds : List ℕ
  pub nr_caravan_cmds : ℕ
  pub nr_caravan_mapped : ℕ
  pub send_now : Bool
  pub no_space : Bool
  pub out : List Piece
  pub calls : ℕ

-- The sizes of the PDUs and of a digest, what the socket answers to each call that offers it some
-- bytes, its `sk_stream_wspace` before it, and `nvmet_tcp_aggr`.
pub record Link : Type 0 where
  pub data_pdu_size : ℕ
  pub r2t_pdu_size : ℕ
  pub rsp_pdu_size : ℕ
  pub digest_size : ℕ
  pub answer : (call offered : ℕ) → Answer
  pub wspace : ℕ → ℕ
  pub aggr : Bool

abbrev pub set_cmd : ℕ → Cmd → Queue → Queue
set_cmd c x q = record q { cmds = update q.cmds c x }

-- `nvmet_tcp_has_data_in`
unfoldable pub has_data_in : Cmd → Bool
has_data_in c = c.is_write && ltb c.rbytes_done c.transfer_len

-- `nvmet_tcp_need_data_in`
unfoldable pub need_data_in : Cmd → Bool
unfolding has_data_in
need_data_in c = has_data_in c && c.status == 0

-- `nvmet_tcp_need_data_out`
unfoldable pub need_data_out : Cmd → Bool
need_data_out c = not c.is_write && ltb 0 c.transfer_len && c.status == 0

-- `nvmet_tcp_has_inline_data`
unfoldable pub has_inline_data : Cmd → Bool
has_inline_data c = c.is_write && not (c.pdu_len == 0) && c.rbytes_done == 0

-- `nvmet_tcp_get_cmd`
unfoldable pub get_cmd : Queue → Option (ℕ × Queue)
get_cmd q = elim (q.free_list) [
  | [] ↦ none
  | c ∷ rest ↦ some (
    c,
    set_cmd c
        (record (q.cmds c) {
          rbytes_done = 0;
          wbytes_done = 0;
          pdu_len = 0;
          pdu_recv = 0;
          init_failed = false;
        })
        (record q { free_list = rest }),
  )
]

-- `nvmet_tcp_put_cmd`
unfoldable pub put_cmd : ℕ → Queue → Queue
put_cmd c q = if c == q.nr_cmds then q else record q { free_list = q.free_list ++ c ∷ [] }

-- `i10_target_is_latency`
abbrev pub is_latency : Queue → Bool
is_latency q = q.prio_class == 1

-- `i10_target_is_admin_queue`
abbrev pub is_admin_queue : Queue → Bool
is_admin_queue q = q.qid == 0 || q.prio_class == 1

-- `i10_target_is_caravan_full`
unfoldable pub is_caravan_full : Queue → Bool
is_caravan_full q =
    leb caravan_capacity q.caravan_len
    || leb (send_budget + send_budget + send_budget) q.nr_iovs
    || leb send_budget q.nr_caravan_cmds
    || leb send_budget q.nr_caravan_mapped

-- `kfree(cmd->iov); sgl_free(cmd->req.sg);`
abbrev pub free_sg : ℕ → Queue → Queue
free_sg c q = set_cmd c (record (q.cmds c) { freed = true }) q
