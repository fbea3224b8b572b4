-- ===== src/Target/Recv/Work.antt =====
-- drivers/nvme/target/tcp.c: nvmet_tcp_handle_icreq, nvmet_tcp_done_recv_pdu and nvmet_tcp_try_recv with
-- all that it calls.
pub mod Faults
pub mod Complete
use blk_switch.Common.{
  ℕ, zero, suc, Bool, Option, List, [], ◌∷◌, ◌++◌, none, some, true, false, not, ◌+◌, ◌-◌, ◌^◌,
  ◌&&◌, ◌||◌, ltb, leb, ◌==◌, if◌then◌else◌, min, u32,
}
use blk_switch.Tcp.Send.{Answer, took, refused, Errno, eagain}
use blk_switch.Target.{
  RecvState, recv_pdu, recv_data, recv_ddgst, recv_err, QueueState, connecting, live, disconnecting,
  Cmd, Queue, set_cmd, get_cmd, need_data_in, has_inline_data,
}
use blk_switch.Target.Respond.{queue_response}
use blk_switch.Target.Recv.{
  PduType, icreq, cmd, h2c_data, other, Pdu, Fault, eproto, eio, enomem, socket, Event, executed,
  uninit, completed, Receiver, Peer, prepare_receive_pdu, fatal_error, event, map_data, expect_data,
  handle_h2c_data_pdu,
}

-- What the functions that receive leave, and the error that they return; `none` where the
-- code reads or writes past an array, or the fuel ends.
abbrev pub Outcome : Type 0
Outcome = Option (Receiver × Option Fault)

abbrev pub is_connecting : QueueState → Bool
is_connecting connecting = true
is_connecting live = false
is_connecting disconnecting = false

abbrev pub is_type : PduType → PduType → Bool
is_type icreq icreq = true
is_type cmd cmd = true
is_type h2c_data h2c_data = true
is_type _ _ = false

abbrev pub is_state : RecvState → RecvState → Bool
is_state recv_pdu recv_pdu = true
is_state recv_data recv_data = true
is_state recv_ddgst recv_ddgst = true
is_state recv_err recv_err = true
is_state _ _ = false

-- `nvmet_tcp_pdu_valid`
abbrev pub pdu_valid : PduType → Bool
pdu_valid icreq = true
pdu_valid cmd = true
pdu_valid h2c_data = true
pdu_valid other = false

abbrev pub set_queue : Queue → Receiver → Receiver
set_queue q r = record r { queue = q }

-- What `nvmet_tcp_try_recv_one` returns: 1, 0 or an error.
pub data Polled : Type 0 where
  progress quiet : Polled
  broken : Fault → Polled

-- `done_recv`
abbrev pub done_recv : Option Fault → Polled
done_recv none = progress
done_recv (some (socket eagain)) = quiet
done_recv (some f) = broken f

module _ (p : Peer) where
  -- `nvmet_tcp_handle_icreq`
  unfoldable pub handle_icreq : Pdu → Receiver → Receiver × Option Fault
  handle_icreq d r =
      let checked = if d.plen == p.pdu_size icreq then r else fatal_error p r in
      let digests =
        set_queue
          (record r.queue { hdr_digest = d.hdr_digest_enable; data_digest = d.data_digest_enable })
          checked in
      if not (d.pfv == 0)
      then (checked, some eproto)
      else if not (d.hpda == 0)
      then (checked, some eproto)
      else if (d.hdr_digest_enable || d.data_digest_enable) && not p.has_hashes
      then (digests, some enomem)
      else elim (p.icresp_sent) [
        | some e ↦ (digests, some (socket e))
        | none ↦ (
          prepare_receive_pdu p (set_queue (record digests.queue { state = live }) digests),
          none,
        )
      ]

  -- `nvmet_tcp_handle_req_failure`, for the command `c`
  unfoldable pub handle_req_failure : Pdu → ℕ → Receiver → Option Receiver
  handle_req_failure d c r =
      let x = record (r.queue.cmds c) { data_len = d.sgl_length } in
      let (y, status) = map_data p d x in
      if not x.is_write || ltb p.inline_data_size d.sgl_length
      then some (prepare_receive_pdu p (set_queue (set_cmd c x r.queue) r))
      else if not (status == 0)
      then some (fatal_error p (set_queue (set_cmd c y r.queue) r))
      else elim (expect_data p c (set_queue (set_cmd c y r.queue) r)) [
        | none ↦ none
        | some r' ↦
            some
              (set_queue (set_cmd c (record (r'.queue.cmds c) { init_failed = true }) r'.queue) r')
      ]

  -- Behind `nvmet_tcp_map_data` of the command `c`, which gave a status.
  unfoldable pub mapped : ℕ → (status : ℕ) → Receiver → Outcome
  mapped c status r =
      let x = r.queue.cmds c in
      if not (status == 0)
      then some (
        prepare_receive_pdu p
            (if has_inline_data x then fatal_error p r else event p (completed c status) r),
        some (socket eagain),
      )
      else if need_data_in x
      then (if has_inline_data x
          then elim (expect_data p c r) [ none ↦ none | some r' ↦ some (r', none) ]
          else some (prepare_receive_pdu p (set_queue (queue_response c r.queue) r), none))
      else some (prepare_receive_pdu p (event p (executed c) r), none)

  -- A PDU that is a command.
  unfoldable pub handle_cmd : Pdu → Receiver → Outcome
  unfolding mapped handle_req_failure
  handle_cmd d r = elim (get_cmd r.queue) [
    | none ↦ some (fatal_error p (record r { cmd = none }), some enomem)
    | some (c, q) ↦
        let (x, taken) =
          p.req_init (record (q.cmds c) { is_write = d.is_write; command_id = d.command_id }) in
        let got = record r { queue = set_cmd c x q; cmd = some c } in
        let (y, status) = map_data p d x in
        if not taken
        then elim (handle_req_failure d c got) [
          | none ↦ none
          | some r' ↦ some (r', some (socket eagain))
        ]
        else mapped c status (set_queue (set_cmd c y got.queue) got)
  ]

  -- `nvmet_tcp_done_recv_pdu`
  unfoldable pub done_recv_pdu : Receiver → Outcome
  unfolding handle_icreq handle_cmd
  done_recv_pdu r =
      let d = p.pdu r.number in
      if is_connecting r.queue.state
      then (if is_type d.pdu_type icreq
          then some (handle_icreq d r)
          else some (fatal_error p r, some eproto))
      else if is_type d.pdu_type h2c_data
      then handle_h2c_data_pdu p d r
      else handle_cmd d r

  unfoldable pub hdgst_len : Receiver → ℕ
  hdgst_len r = if r.queue.hdr_digest then p.digest_size else 0

  -- `nvmet_tcp_verify_hdgst`: is there an error?
  unfoldable pub verify_hdgst : Pdu → Receiver → Bool
  verify_hdgst d r = not d.hdgst_flag || not (p.hdgst_matches r.number)

  -- `nvmet_tcp_check_ddgst`: is there an error?
  unfoldable pub check_ddgst : Pdu → Receiver → Bool
  unfolding hdgst_len
  check_ddgst d r =
      not (u32 (d.plen + 2 ^ 32 + 2 ^ 32 - d.hlen - (if d.hdgst_flag then hdgst_len r else 0)) == 0)
      && not d.ddgst_flag

  -- A PDU that is complete, up to its digests.
  unfoldable pub pdu_complete : Receiver → Outcome
  unfolding verify_hdgst check_ddgst
  pdu_complete r =
      let d = p.pdu r.number in
      if r.queue.hdr_digest && verify_hdgst d r
      then some (fatal_error p r, some eproto)
      else if r.queue.data_digest && check_ddgst d r
      then some (fatal_error p r, some eproto)
      else done_recv_pdu r

  -- `nvmet_tcp_try_recv_pdu`, with fuel for the jumps back.
  unfoldable pub try_recv_pdu : (fuel : ℕ) → Receiver → Outcome
  unfolding pdu_complete hdgst_len
  try_recv_pdu zero r = none
  try_recv_pdu (suc fuel) r = elim (p.answer r.calls r.left) [
    | refused e ↦ some (record r { calls = r.calls + 1 }, some (socket e))
    | took n ↦
        let got = record r { calls = r.calls + 1; offset = r.offset + n; left = r.left - n } in
        let d = p.pdu r.number in
        let again = try_recv_pdu fuel (record got { left = d.hlen + hdgst_len got - got.offset }) in
        if not (got.left == 0)
        then some (got, some (socket eagain))
        else if got.offset == p.hdr_size
        then (if not (pdu_valid d.pdu_type)
            then some (fatal_error p got, some eio)
            else if not (d.hlen == p.pdu_size d.pdu_type)
            then some (got, some eio)
            else again)
        else pdu_complete got
  ]

  -- `nvmet_tcp_prep_recv_ddgst`
  abbrev pub prep_recv_ddgst : Receiver → Receiver
  prep_recv_ddgst r = record r { offset = 0; left = p.digest_size; rcv_state = recv_ddgst }

  -- Behind the last byte of the data of the command `c`.
  unfoldable pub data_received : ℕ → Receiver → Receiver
  data_received c r =
      let x = r.queue.cmds c in
      if not x.init_failed && x.rbytes_done == x.transfer_len
      then (if r.queue.data_digest
          then prep_recv_ddgst r
          else prepare_receive_pdu p (event p (executed c) r))
      else prepare_receive_pdu p r

  -- Some bytes of data.
  unfoldable pub take_data : ℕ → ℕ → Receiver → Receiver
  take_data c n r =
      let x = r.queue.cmds c in
      record (set_queue
        (set_cmd c
          (record x { pdu_recv = u32 (x.pdu_recv + n); rbytes_done = u32 (x.rbytes_done + n) })
          r.queue)
        r) { missing = r.missing - n; calls = r.calls + 1 }

  -- `nvmet_tcp_try_recv_data` for the command `c`, with fuel for the calls of the socket.
  unfoldable pub try_recv_data : (fuel c : ℕ) → Receiver → Outcome
  unfolding data_received take_data
  try_recv_data zero c r = none
  try_recv_data (suc fuel) c r = elim (r.missing == 0) [
    | true ↦ some (data_received c r, none)
    | false ↦ elim (p.answer r.calls r.missing) [
      | refused e ↦ some (record r { calls = r.calls + 1 }, some (socket e))
      | took n ↦ elim (n == 0) [
        | true ↦ some (record r { calls = r.calls + 1 }, none)
        | false ↦ try_recv_data fuel c (take_data c n r)
      ]
    ]
  ]

  -- `nvmet_tcp_try_recv_ddgst` for the command `c`
  unfoldable pub try_recv_ddgst : ℕ → Receiver → Receiver × Option Fault
  try_recv_ddgst c r = elim (p.answer r.calls r.left) [
    | refused e ↦ (record r { calls = r.calls + 1 }, some (socket e))
    | took n ↦
        let got = record r { calls = r.calls + 1; offset = r.offset + n; left = r.left - n } in
        let x = r.queue.cmds c in
        if not (got.left == 0)
        then (got, some (socket eagain))
        else if r.queue.data_digest && not (p.ddgst_matches r.number)
        then (
          prepare_receive_pdu p (
              fatal_error p (
                event p (uninit c)
                  (set_queue (set_cmd c (record x { freed = true }) got.queue) got))),
          some eproto,
        )
        else if not x.init_failed && x.rbytes_done == x.transfer_len
        then (prepare_receive_pdu p (event p (executed c) got), none)
        else (prepare_receive_pdu p got, none)
  ]

  unfoldable pub from_ddgst : Receiver → Outcome
  unfolding try_recv_ddgst
  from_ddgst r =
      if is_state r.rcv_state recv_ddgst
      then elim (r.cmd) [ none ↦ none | some c ↦ some (try_recv_ddgst c r) ]
      else some (r, none)

  -- The next test, where there was no error.
  unfoldable pub and_then : Outcome → (Receiver → Outcome) → Outcome
  and_then none f = none
  and_then (some (r, some e)) f = some (r, some e)
  and_then (some (r, none)) f = f r

  unfoldable pub from_data : (fuel : ℕ) → Receiver → Outcome
  unfolding from_ddgst and_then
  from_data fuel r =
      if is_state r.rcv_state recv_data
      then elim (r.cmd) [ none ↦ none | some c ↦ and_then (try_recv_data fuel c r) from_ddgst ]
      else from_ddgst r

  -- `nvmet_tcp_try_recv_one` up to `done_recv`
  unfoldable pub recv_parts : (fuel : ℕ) → Receiver → Outcome
  unfolding from_data and_then
  recv_parts fuel r =
      if is_state r.rcv_state recv_pdu
      then and_then (try_recv_pdu fuel r) (from_data fuel)
      else from_data fuel r

  -- `nvmet_tcp_try_recv_one`, with fuel for its loops.
  unfoldable pub try_recv_one : (fuel : ℕ) → Receiver → Option (Receiver × Polled)
  unfolding recv_parts
  try_recv_one fuel r =
      if is_state r.rcv_state recv_err
      then some (r, quiet)
      else elim (recv_parts fuel r) [ none ↦ none | some (r', f) ↦ some (r', done_recv f) ]

  -- `nvmet_tcp_try_recv`, with the number that it adds to `recvs`.
  unfoldable pub try_recv : (fuel budget : ℕ) → Receiver → Polled → Option (Receiver × Polled × ℕ)
  try_recv fuel zero r polled = some (r, polled, 0)
  try_recv fuel (suc budget) r polled = elim (try_recv_one fuel r) [
    | none ↦ none
    | some (r', quiet) ↦ some (r', quiet, 0)
    | some (r', broken f) ↦ some (r', broken f, 0)
    | some (r', progress) ↦ elim (try_recv fuel budget r' progress) [
      | none ↦ none
      | some (r'', polled', n) ↦ some (r'', polled', n + 1)
    ]
  ]
