-- ===== src/Tcp.antt =====
-- drivers/nvme/host/tcp.c: the state of a queue of the nvme-tcp host driver and of its requests, as
-- far as receiving goes. The layout of the PDUs and the digest are the kernel's, in the record Wire.
pub mod Dispatch
pub mod Recv
pub mod Doorbell
pub mod Send
mod Tests
use blk_switch.Common.{
  ℕ, Bool, Option, List, [], ◌∷◌, none, some, true, false, ltb, ◌==◌, ◌&&◌, if◌then◌else◌,
}

-- What the switch on `hdr->type` tells apart.
pub data PduType : Type 0 where
  c2h_data rsp r2t other : PduType

-- A received PDU as the structures of linux/nvme-tcp.h read it.
pub record Pdu : Type 0 where
  pub pdu_type : PduType
  pub hdgst_flag : Bool
  pub ddgst_flag : Bool
  pub success_flag : Bool
  pub last_flag : Bool
  pub hlen : ℕ
  pub plen : ℕ
  pub command_id : ℕ
  pub data_length : ℕ
  pub status : ℕ
  pub ttag : ℕ
  pub r2t_offset : ℕ
  pub r2t_length : ℕ

-- The sizes of `struct nvme_tcp_rsp_pdu`, of `struct nvme_tcp_data_pdu` and of a digest, the depth of
-- the admin queue, the reading of a PDU, and the digest of the bytes that were hashed since
-- `crypto_ahash_init`.
pub record Wire : Type 0 where
  pub rsp_size : ℕ
  pub data_pdu_size : ℕ
  pub digest_size : ℕ
  pub aq_depth : ℕ
  pub parse : List ℕ → Pdu
  pub digest : List ℕ → List ℕ

-- The header of the data PDU that `nvme_tcp_setup_h2c_data_pdu` writes; its type and the flag LAST
-- are always the same.
pub record DataPdu : Type 0 where
  pub hdgst_flag : Bool
  pub ddgst_flag : Bool
  pub hlen : ℕ
  pub pdo : ℕ
  pub plen : ℕ
  pub ttag : ℕ
  pub command_id : ℕ
  pub data_offset : ℕ
  pub data_length : ℕ

-- `enum nvme_tcp_send_state`
pub data SendState : Type 0 where
  send_cmd_pdu send_h2c_pdu send_data send_ddgst : SendState

-- `struct nvme_tcp_request`, with `blk_rq_payload_bytes` of its request. `iter` is
-- `iov_iter_count(&req->iter)`, `bios` the sizes of the bios behind `curr_bio`, and `received` the
-- bytes that were copied to the iterator.
pub record Req : Type 0 where
  pub payload : ℕ
  pub data_len : ℕ
  pub data_sent : ℕ
  pub pdu_len : ℕ
  pub pdu_sent : ℕ
  pub h2c : Option DataPdu
  pub state : SendState
  pub offset : ℕ
  pub iter : ℕ
  pub bios : List ℕ
  pub received : List ℕ

-- What a queue does to its surroundings: `nvme_end_request`, `nvme_complete_async_event`,
-- `nvme_tcp_queue_request` and `nvme_tcp_error_recovery`.
pub data Event : Type 0 where
  completed : (tag status : ℕ) → Event
  async_event : (status : ℕ) → Event
  queued : (tag : ℕ) → Event
  recovery : Event

pub data Error : Type 0 where
  enoent eio eproto einval : Error

-- The receive state of `struct nvme_tcp_queue`. `pdu` and `recv_ddgst` are the bytes received of the
-- present PDU and of its data digest, `hash` what `rcv_hash` has taken in.
pub record Queue : Type 0 where
  pub queue_id : ℕ
  pub hdr_digest : Bool
  pub data_digest : Bool
  pub pdu : List ℕ
  pub pdu_remaining : ℕ
  pub data_remaining : ℕ
  pub ddgst_remaining : ℕ
  pub hash : List ℕ
  pub exp_ddgst : List ℕ
  pub recv_ddgst : List ℕ
  pub nr_cqe : ℕ
  pub nr_tags : ℕ
  pub rqs : ℕ → Option Req
  pub events : List Event

-- An error comes with the events up to it: it clears `rd_enabled`, and the queue and its requests are
-- not read again before the reset.
pub data Result {ℓ} (A : Type ℓ) : Type ℓ where
  ok : A → Result A
  err : Error → List Event → Result A

infixl 5 ◌>>=◌
abbrev pub ◌>>=◌ {ℓ κ} : {A : Type ℓ} {B : Type κ} → Result A → (A → Result B) → Result B
ok a >>= f = f a
err e l >>= f = err e l

-- `blk_mq_tag_to_rq` (block/blk-mq.c); a request is found at the index of its tag
unfoldable pub tag_to_rq : Queue → ℕ → Option Req
tag_to_rq q tag = if ltb tag q.nr_tags then q.rqs tag else none

-- Are two strings of bytes equal?
unfoldable pub same_bytes : List ℕ → List ℕ → Bool
same_bytes [] [] = true
same_bytes (x ∷ xs) (y ∷ ys) = x == y && same_bytes xs ys
same_bytes _ _ = false
