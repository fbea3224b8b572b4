-- ===== src/Tcp/Send.antt =====
-- drivers/nvme/host/tcp.c: what a queue keeps to send, and how bytes get to its caravan or its socket.
pub mod Parts
pub mod Try
pub mod Work
pub mod Bounds
pub mod Loads
pub mod Stream
pub mod Refine
pub mod Total
pub mod Faults
mod Tests
use blk_switch.Common.{
  ℕ, zero, suc, Bool, Option, List, [], ◌∷◌, ◌++◌, none, some, true, false, ◌+◌, ◌-◌, ◌&&◌, ◌||◌,
  not, ltb, leb, ◌==◌, if◌then◌else◌, min, ◌≡◌, ◌⊎◌, inl, inr, refl,
}
use blk_switch.Common.Map.{update}
use blk_switch.Tcp.{SendState}
use blk_switch.Tcp.Doorbell.{Bell, Sent}

abbrev pub caravan_capacity : ℕ
caravan_capacity = 65536

abbrev pub max_aggregation_size : ℕ
max_aggregation_size = 32

-- What a piece of the byte stream belongs to, by the tag of the request.
pub data Part : Type 0 where
  cmd_pdu h2c_pdu payload ddgst : (tag : ℕ) → Part

-- A `struct kvec`, or the argument of a call of the socket: `len` bytes of a part, from `start` on.
pub record Chunk : Type 0 where
  pub part : Part
  pub start : ℕ
  pub len : ℕ

pub data Errno : Type 0 where
  eagain epipe econnreset other : Errno

-- What a call of the socket returns: a number of bytes, or an error.
pub data Answer : Type 0 where
  took : ℕ → Answer
  refused : Errno → Answer

pub Answer-cases : (a : Answer) → ((n : ℕ) × (a ≡ took n)) ⊎ ((e : Errno) × (a ≡ refused e))
Answer-cases (took n) = inl (n, refl)
Answer-cases (refused e) = inr (e, refl)

-- What the functions that send return: 1, 0, or an error.
pub data Ret : Type 0 where
  one nothing : Ret
  failed : Errno → Ret

-- `struct nvme_tcp_request`, as far as sending goes. `segments` are the lengths that the iterator and the
-- bios behind it have left: `nvme_tcp_init_iter` and `iov_iter_advance` walk through them. `ddgst` is
-- what the digest covers.
pub record Outgoing : Type 0 where
  pub is_async : Bool
  pub is_write : Bool
  pub state : SendState
  pub offset : ℕ
  pub data_len : ℕ
  pub data_sent : ℕ
  pub pdu_len : ℕ
  pub pdu_sent : ℕ
  pub segments : List ℕ
  pub ddgst : List Chunk

-- The send state of `struct nvme_tcp_queue`; the send list and the timer are in `bell`. `out` is what the
-- socket has taken, `calls` counts its calls, and `snd_hash` is what was hashed since
-- `crypto_ahash_init`. The caravan's length stays below 2 ^ 17, and `nr_caravan_req` below `nr_req`.
pub record Sender : Type 0 where
  pub bell : Bell
  pub reqs : ℕ → Outgoing
  pub request : Option Sent
  pub hdr_digest : Bool
  pub data_digest : Bool
  pub inline_data_size : ℕ
  pub caravan_iovs : List Chunk
  pub nr_iovs : ℕ
  pub caravan_len : ℕ
  pub nr_mapped : ℕ
  pub send_now : Bool
  pub nr_caravan_req : ℕ
  pub snd_hash : List Chunk
  pub no_space : Bool
  pub out : List Chunk
  pub calls : ℕ

-- The sizes of `struct nvme_tcp_cmd_pdu`, of `struct nvme_tcp_data_pdu` and of a digest, what the socket
-- answers to each call that offers it some bytes, and its `sk_stream_wspace` before it.
pub record Socket : Type 0 where
  pub cmd_pdu_size : ℕ
  pub data_pdu_size : ℕ
  pub digest_size : ℕ
  pub answer : (call offered : ℕ) → Answer
  pub wspace : ℕ → ℕ

-- The first `n` bytes of some chunks.
abbrev pub cut : ℕ → List Chunk → List Chunk
cut n [] = []
cut n (c ∷ cs) = record c { len = min n c.len } ∷ cut (n - c.len) cs

abbrev pub bytes_of : List Chunk → ℕ
bytes_of [] = 0
bytes_of (c ∷ cs) = c.len + bytes_of cs

abbrev pub set_req : ℕ → Outgoing → Sender → Sender
set_req tag r q = record q { reqs = update q.reqs tag r }

-- `nvme_tcp_done_send_req`
abbrev pub done_send_req : Sender → Sender
done_send_req q = record q { request = none }

-- `i10_host_is_caravan_full`
unfoldable pub is_caravan_full : Sender → Bool
is_caravan_full q =
    leb caravan_capacity q.caravan_len
    || leb (max_aggregation_size + max_aggregation_size) q.nr_iovs
    || leb max_aggregation_size q.nr_mapped

-- One more entry of the caravan.
unfoldable pub load : Chunk → Sender → Sender
load c q = record q {
  caravan_iovs = q.caravan_iovs ++ c ∷ [];
  nr_iovs = q.nr_iovs + 1;
  caravan_len = q.caravan_len + c.len;
}

-- A call of the socket with `len` bytes, those of some chunks, which takes the bytes that it answers.
unfoldable pub submit : Socket → (len : ℕ) → List Chunk → Sender → Sender × Answer
submit s len cs q = elim (s.answer q.calls len) [
  | took n ↦ (record q { out = q.out ++ cut n cs; calls = q.calls + 1 }, took n)
  | refused e ↦ (record q { calls = q.calls + 1 }, refused e)
]
