-- ===== src/Target/Send/Batch.antt =====
-- drivers/nvme/target/tcp.c: nvmet_tcp_try_send_one and nvmet_tcp_try_send.
pub mod Within
pub mod Bounds
pub mod Faults
pub mod Total
pub mod Returns
use blk_switch.Common.{
  ℕ, zero, suc, Bool, Option, List, [], ◌∷◌, ◌++◌, none, some, true, false, not, ◌+◌, ◌-◌, ◌&&◌,
  ◌||◌, ltb, ◌==◌, if◌then◌else◌,
}
use blk_switch.Tcp.Send.{Answer, took, refused, Errno, eagain, Ret, one, nothing, failed}
use blk_switch.Target.{
  SendState, send_data_pdu, send_data, send_r2t, send_ddgst, send_response, QueueState,
  disconnecting, connecting, live, Cmd, Queue, Link, set_cmd, put_cmd, free_sg,
}
use blk_switch.Target.Respond.{fetch_cmd}
use blk_switch.Target.Send.{
  submit, try_send_data_pdu, try_send_data, try_send_response, try_send_r2t, try_send_ddgst,
}

-- Which of the states is it?
abbrev pub is_state : SendState → SendState → Bool
is_state send_data_pdu send_data_pdu = true
is_state send_data send_data = true
is_state send_r2t send_r2t = true
is_state send_ddgst send_ddgst = true
is_state send_response send_response = true
is_state _ _ = false

abbrev pub is_disconnecting : QueueState → Bool
is_disconnecting disconnecting = true
is_disconnecting connecting = false
is_disconnecting live = false

-- `ret > 0`
abbrev pub is_one : Ret → Bool
is_one one = true
is_one nothing = false
is_one (failed e) = false

-- `done_send`
abbrev pub done_send : Ret → Ret
done_send one = one
done_send nothing = one
done_send (failed eagain) = nothing
done_send (failed e) = failed e

-- The commands of a caravan that was sent are freed and put back.
unfoldable pub put_cmds : List ℕ → Queue → Queue
put_cmds [] q = q
put_cmds (c ∷ cs) q = put_cmds cs (put_cmd c (free_sg c q))

-- A caravan that the socket was called for, whatever it has answered.
unfoldable pub settle : Queue → Queue
settle q = record (put_cmds q.caravan_cmds q) {
  caravan_iovs = [];
  nr_iovs = 0;
  caravan_cmds = [];
  nr_caravan_cmds = 0;
  nr_caravan_mapped = 0;
  caravan_len = 0;
  send_now = false;
}

module _ (s : Link) where
  -- The tests of the state, from the last to the first.
  unfoldable pub from_response : ℕ → Queue → Ret → Queue × Ret
  from_response c q ret =
      if is_state (q.cmds c).state send_response
      then ((try_send_response s c q).0, done_send (try_send_response s c q).1)
      else (q, done_send ret)

  unfoldable pub from_r2t : ℕ → Queue → Ret → Queue × Ret
  from_r2t c q ret =
      if is_state (q.cmds c).state send_r2t
      then (let (q', ret') = try_send_r2t s c q in
          if is_one ret' then from_response c q' ret' else (q', done_send ret'))
      else from_response c q ret

  unfoldable pub from_ddgst : ℕ → Queue → Ret → Queue × Ret
  from_ddgst c q ret =
      if is_state (q.cmds c).state send_ddgst
      then (let (q', ret') = try_send_ddgst s c q in
          if is_one ret' then from_r2t c q' ret' else (q', done_send ret'))
      else from_r2t c q ret

  unfoldable pub from_data : (fuel : ℕ) → ℕ → Queue → Ret → Option (Queue × Ret)
  from_data fuel c q ret =
      if is_state (q.cmds c).state send_data
      then elim (try_send_data s fuel c q) [
        | none ↦ none
        | some (q', ret') ↦
            some (if is_one ret' then from_ddgst c q' ret' else (q', done_send ret'))
      ]
      else some (from_ddgst c q ret)

  unfoldable pub send_parts : (fuel : ℕ) → ℕ → Queue → Option (Queue × Ret)
  unfolding from_data from_ddgst from_r2t from_response
  send_parts fuel c q =
      if is_state (q.cmds c).state send_data_pdu
      then (let (q', ret) = try_send_data_pdu s c q in
          if is_one ret then from_data fuel c q' ret else some (q', done_send ret))
      else from_data fuel c q nothing

  -- The command that a call goes on with.
  unfoldable pub current : Queue → Queue
  current q = elim (q.snd_cmd) [
    | none ↦ fetch_cmd s q
    | some c ↦ if is_disconnecting q.state then fetch_cmd s q else q
  ]

  -- `nvmet_tcp_try_send_one`, with fuel for the rounds of `nvmet_try_send_data`
  unfoldable pub try_send_one : (fuel : ℕ) → Queue → Option (Queue × Ret)
  unfolding current send_parts
  try_send_one fuel q =
      let fetched = current q in
      elim (fetched.snd_cmd) [ none ↦ some (fetched, nothing) | some c ↦ send_parts fuel c fetched ]

  -- Is the caravan sent behind a call that returned `ret`? `last` tells that the budget is used up.
  unfoldable pub is_due : Ret → (last : Bool) → Queue → Bool
  is_due ret last q = s.aggr && not (q.caravan_len == 0) && (q.send_now || not (is_one ret) || last)

  -- The caravan is sent if it is due; `false` where the socket has no space.
  unfoldable pub send_caravan : Ret → (last : Bool) → Queue → Queue × Bool
  unfolding settle is_due
  send_caravan ret last q =
      if not (is_due ret last q)
      then (q, true)
      else if ltb (s.wspace q.calls) q.caravan_len
      then (record q { no_space = true }, false)
      else (settle (submit s q.caravan_len q.caravan_iovs q).0, true)

  -- `nvmet_tcp_try_send` for a budget that is left, with the number of commands that it adds to `sends`.
  unfoldable pub try_send : (fuel budget : ℕ) → Queue → Ret → Option (Queue × Ret × ℕ)
  try_send fuel zero q ret = some (q, ret, 0)
  try_send fuel (suc budget) q ret = elim (try_send_one fuel q) [
    | none ↦ none
    | some (q', ret') ↦ elim ((send_caravan ret' (budget == 0) q').1) [
      | false ↦ some ((send_caravan ret' (budget == 0) q').0, nothing, 0)
      | true ↦ elim (is_one ret') [
        | false ↦ some ((send_caravan ret' (budget == 0) q').0, ret', 0)
        | true ↦ elim (try_send fuel budget (send_caravan ret' (budget == 0) q').0 ret') [
          | none ↦ none
          | some (q'', ret'', n) ↦ some (q'', ret'', n + 1)
        ]
      ]
    ]
  ]
