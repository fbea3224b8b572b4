-- ===== src/Tcp/Send/Try.antt =====
-- drivers/nvme/host/tcp.c: nvme_tcp_try_send: the next request, the caravan, and the parts of the request.
use blk_switch.Common.{
  ℕ, Bool, Option, List, [], ◌∷◌, none, some, true, false, ◌+◌, ◌-◌, ◌&&◌, ◌||◌, not, ltb, ◌==◌,
  if◌then◌else◌,
}
use blk_switch.Tcp.{SendState, send_cmd_pdu, send_h2c_pdu, send_data, send_ddgst}
use blk_switch.Tcp.Doorbell.{Host, Sent, is_legacy_path, is_nodelay_path}
use blk_switch.Tcp.Send.{eagain, took, refused, Ret, one, nothing, failed, Sender, Socket, submit}
use blk_switch.Tcp.Send.Parts.{
  has_inline_data, try_send_cmd_pdu, try_send_data_pdu, try_send_data, try_send_ddgst,
}

-- Which of the states is it?
abbrev pub is_state : SendState → SendState → Bool
is_state send_cmd_pdu send_cmd_pdu = true
is_state send_h2c_pdu send_h2c_pdu = true
is_state send_data send_data = true
is_state send_ddgst send_ddgst = true
is_state _ _ = false

-- `queue->request` as a condition
abbrev pub is_busy : Sender → Bool
is_busy q = elim (q.request) [ none ↦ false | some _ ↦ true ]

-- `ret > 0`
abbrev pub is_one : Ret → Bool
is_one one = true
is_one nothing = false
is_one (failed e) = false

-- `goto done` and what stands there
abbrev pub done : Ret → Ret
done one = one
done nothing = nothing
done (failed eagain) = nothing
done (failed e) = failed e

module _ (h : Host) (s : Socket) where
  -- A request at the head of the list is taken.
  unfoldable pub take_request : Sent → List Sent → Sender → Sender
  take_request r rs q = record q {
    bell = record q.bell { send_list = rs };
    request = some r;
    nr_caravan_req =
        if not (is_legacy_path h q.bell) && not (is_nodelay_path h r)
        then q.nr_caravan_req + 1
        else q.nr_caravan_req;
  }

  -- With an empty list, a caravan that no timer waits for is to be sent.
  unfoldable pub close_caravan : Sender → Sender
  close_caravan q =
      if (q.bell.timer_set == 0 || not q.bell.timer_active) && not (q.caravan_len == 0)
      then record q {
        bell = record q.bell { nr_req = q.bell.nr_req - q.nr_caravan_req; timer_set = 0 };
        nr_caravan_req = 0;
        send_now = true;
      }
      else q

  -- The first part of `nvme_tcp_try_send`.
  unfoldable pub fetch : Sender → Sender
  unfolding take_request close_caravan
  fetch q = elim (q.request) [
    | some _ ↦ q
    | none ↦ elim (q.bell.send_list) [ [] ↦ close_caravan q | r ∷ rs ↦ take_request r rs q ]
  ]

  -- A caravan that is sent; `none` in the place of the result where sending goes on.
  unfoldable pub flush : Sender → Sender × Option Ret
  flush q =
      if not q.send_now
      then (q, none)
      else if ltb (s.wspace q.calls) q.caravan_len
      then (record q { no_space = true }, some nothing)
      else let (q', a) = submit s q.caravan_len q.caravan_iovs q in
        elim a [
          | refused e ↦ (q', some (failed e))
          | took n ↦ if n == 0 then (q', some nothing) else (
            record q' {
              caravan_iovs = [];
              nr_iovs = 0;
              nr_mapped = 0;
              caravan_len = 0;
              send_now = false;
            },
            none,
          )
        ]

  -- The four tests of the state, from the last to the first.
  unfoldable pub from_ddgst : Sent → Sender → Ret → Sender × Ret
  from_ddgst r q ret =
      if is_state (q.reqs r.tag).state send_ddgst
      then ((try_send_ddgst h s r q).0, done (try_send_ddgst h s r q).1)
      else (q, done ret)

  unfoldable pub from_data : (fuel : ℕ) → Sent → Sender → Ret → Option (Sender × Ret)
  from_data fuel r q ret =
      if is_state (q.reqs r.tag).state send_data
      then elim (try_send_data h s fuel r q) [
        | none ↦ none
        | some (q', ret') ↦ some (if is_one ret' then from_ddgst r q' ret' else (q', done ret'))
      ]
      else some (from_ddgst r q ret)

  unfoldable pub from_h2c : (fuel : ℕ) → Sent → Sender → Ret → Option (Sender × Ret)
  from_h2c fuel r q ret =
      if is_state (q.reqs r.tag).state send_h2c_pdu
      then (let (q', ret') = try_send_data_pdu h s r q in
          if is_one ret' then from_data fuel r q' ret' else some (q', done ret'))
      else from_data fuel r q ret

  unfoldable pub send_parts : (fuel : ℕ) → Sent → Sender → Option (Sender × Ret)
  unfolding from_h2c from_data from_ddgst
  send_parts fuel r q =
      if is_state (q.reqs r.tag).state send_cmd_pdu
      then (let (q', ret) = try_send_cmd_pdu h s r q in
          if not (is_one ret)
          then some (q', done ret)
          else if not (has_inline_data q' (q'.reqs r.tag))
          then some (q', ret)
          else from_h2c fuel r q' ret)
      else from_h2c fuel r q one

  -- `nvme_tcp_try_send`, with fuel for the rounds of `nvme_tcp_try_send_data`.
  unfoldable pub try_send : (fuel : ℕ) → Sender → Option (Sender × Ret)
  unfolding send_parts fetch flush
  try_send fuel q =
      let fetched = fetch q in
      let (flushed, ret) = flush fetched in
      if not (is_busy fetched) && fetched.caravan_len == 0
      then some (fetched, nothing)
      else elim ret [
        | some result ↦ some (flushed, result)
        | none ↦ elim (flushed.request) [
          | none ↦ some (flushed, nothing)
          | some r ↦ send_parts fuel r flushed
        ]
      ]
