-- ===== src/Tcp/Send/Faults.antt =====
-- drivers/nvme/host/tcp.c: what becomes of a digest on the caravan path, and of a caravan that the socket
-- refuses.
use blk_switch.Common.{
  ℕ, suc, [], ◌∷◌, ◌++◌, none, some, true, false, not, ◌&&◌, ◌||◌, ◌+◌, ◌-◌, ◌≤◌, ◌≡◌, arith, refl,
  ap, ◌∙◌, ◌==◌, ==_refl,
}
use blk_switch.Tcp.{send_data, send_ddgst}
use blk_switch.Tcp.Doorbell.{Host, Sent, is_legacy_path}
use blk_switch.Tcp.Send.{
  ddgst, took, refused, Ret, one, failed, Errno, Sender, Socket, submit, load, is_caravan_full,
}
use blk_switch.Tcp.Send.Parts.{
  cur_chunk, is_last_send, data_round, data_sent_some, data_complete, data_advance, try_send_data,
  try_send_ddgst, ddgst_chunk,
}
use blk_switch.Tcp.Send.Try.{
  fetch, close_caravan, flush, from_data, from_ddgst, try_send, is_busy, is_state,
}
use blk_switch.Tcp.Send.Work.{Rounds, null_request, fails_request, send_failed, io_work}

module _ (h : Host) (s : Socket) where
  -- A caravan that no timer waits for, with nothing left to send.
  abbrev closed : Sender → Sender
  closed q = record q {
    bell = record q.bell { nr_req = q.bell.nr_req - q.nr_caravan_req; timer_set = 0 };
    nr_caravan_req = 0;
    send_now = true;
  }

  fetch-closed :
      (q : Sender)
      → q.request ≡ none
      → q.bell.send_list ≡ []
      → (q.bell.timer_set == 0 || not q.bell.timer_active) ≡ true
      → 1 ≤ q.caravan_len
      → fetch h s q ≡ closed q
  unfolding fetch close_caravan
  fetch-closed q r l t c = ground arith

  flush-refused :
      (q : Sender) (e : Errno)
      → q.send_now ≡ true
      → q.caravan_len ≤ s.wspace q.calls
      → s.answer q.calls q.caravan_len ≡ refused e
      → flush h s q ≡ (record q { calls = q.calls + 1 }, some (failed e))
  unfolding flush submit
  flush-refused q e t w a = ground arith

  -- A call that stops at the caravan.
  try_send-stops :
      (fuel : ℕ) (q : Sender) (x : Ret)
      → (not (is_busy (fetch h s q)) && (fetch h s q).caravan_len == 0) ≡ false
      → (flush h s (fetch h s q)).1 ≡ some x
      → try_send h s fuel q ≡ some ((flush h s (fetch h s q)).0, x)
  unfolding try_send
  try_send-stops fuel q x b p = rw (try_send, b, p)

  try_send-refused :
      (fuel : ℕ) (q : Sender) (e : Errno)
      → q.request ≡ none
      → q.bell.send_list ≡ []
      → (q.bell.timer_set == 0 || not q.bell.timer_active) ≡ true
      → 1 ≤ q.caravan_len
      → q.caravan_len ≤ s.wspace q.calls
      → s.answer q.calls q.caravan_len ≡ refused e
      → try_send h s fuel q ≡ some (record (closed q) { calls = q.calls + 1 }, failed e)
  try_send-refused fuel q e r l t c w a =
      let f = fetch-closed q r l t c in
      let g = flush-refused (closed q) e refl w a in
      let b : (not (is_busy (closed q)) && (closed q).caravan_len == 0) ≡ false = ground arith in
      let b' : (not (is_busy (fetch h s q)) && (fetch h s q).caravan_len == 0) ≡ false = rw f b in
      let g' : (flush h s (fetch h s q)).1 ≡ some (failed e) = rw (f, g) in
      try_send-stops fuel q (failed e) b' g' ∙ rw (f, g)

  -- An error of the socket for a caravan, other than a closed connection, where no request is being
  -- sent, makes the work fail the request at the address 0.
  pub io_work-null_request :
      (rs : Rounds) (data_fuel fuel i : ℕ) (q : Sender) (e : Errno)
      → q.request ≡ none
      → q.bell.send_list ≡ []
      → (q.bell.timer_set == 0 || not q.bell.timer_active) ≡ true
      → 1 ≤ q.caravan_len
      → q.caravan_len ≤ s.wspace q.calls
      → s.answer q.calls q.caravan_len ≡ refused e
      → fails_request e ≡ true
      → (q' : Sender) × (io_work h s rs data_fuel (suc fuel) i q ≡ some (q', null_request))
        × (q'.caravan_iovs ≡ q.caravan_iovs)
  unfolding io_work send_failed
  io_work-null_request rs data_fuel fuel i q e r l t c w a f =
      let q1 = record (closed q) { calls = q.calls + 1 } in
      (
        record q1 { request = none },
        rw (io_work, try_send-refused data_fuel q e r l t c w a) (ground arith),
        refl,
      )

  -- The last piece of data of a request, into the caravan.
  data_round-last :
      (r : Sent) (q : Sender)
      → is_legacy_path h q.bell ≡ false
      → is_caravan_full q ≡ false
      → 1 ≤ (cur_chunk h s r q).len
      → is_last_send (q.reqs r.tag) (cur_chunk h s r q).len ≡ true
      → data_round h s r q ≡ (
        data_complete h s r (
            data_advance h s r
              (cur_chunk h s r q)
              (cur_chunk h s r q).len
              (record (load (cur_chunk h s r q) q) { nr_mapped = q.nr_mapped + 1 })),
        some one,
      )
  unfolding data_round data_sent_some load
  data_round-last r q l f c la =
      let n = (cur_chunk h s r q).len in
      let z : (n == 0) ≡ false = ground arith in
      let e : (n == n) ≡ true = ==_refl n in ground (arith, l, f, la)

  try_last :
      (fuel : ℕ) (r : Sent) (q q' : Sender) (x : Ret)
      → data_round h s r q ≡ (q', some x)
      → try_send_data h s (suc fuel) r q ≡ some (q', x)
  unfolding try_send_data
  try_last fuel r q q' x e = rw (try_send_data, e) (ap (λ p. some (p.0, x)) e)

  -- The digest of a request goes to the socket, which takes it whole.
  ddgst_whole :
      (r : Sent) (q : Sender)
      → is_state (q.reqs r.tag).state send_ddgst ≡ true
      → (q.reqs r.tag).offset ≡ 0
      → 1 ≤ s.digest_size
      → s.answer q.calls s.digest_size ≡ took s.digest_size
      → ((from_ddgst h s r q one).1 ≡ one)
        × ((from_ddgst h s r q one).0.caravan_iovs ≡ q.caravan_iovs)
        × ((from_ddgst h s r q one).0.out
            ≡ q.out ++ record { part = ddgst r.tag; start = 0; len = s.digest_size } ∷ [])
        × ((from_ddgst h s r q one).0.request ≡ none)
  unfolding from_ddgst try_send_ddgst submit ddgst_chunk
  ddgst_whole r q t o z a = (ground arith, ground arith, ground arith, ground arith)

  complete-ddgst :
      (r : Sent) (q : Sender)
      → q.data_digest ≡ true
      → (is_state ((data_complete h s r q).reqs r.tag).state send_ddgst ≡ true)
        × (((data_complete h s r q).reqs r.tag).offset ≡ 0)
        × ((data_complete h s r q).caravan_iovs ≡ q.caravan_iovs)
        × ((data_complete h s r q).out ≡ q.out)
        × ((data_complete h s r q).calls ≡ q.calls)
  unfolding data_complete
  complete-ddgst r q d = (ground arith, ground arith, ground arith, ground arith, ground arith)

  -- On the caravan path with a data digest, a digest that the socket takes whole is on the socket
  -- before the data that it covers: that is still in the caravan when the request is done.
  pub digest_overtakes :
      (fuel : ℕ) (r : Sent) (q : Sender) (ret : Ret)
      → is_legacy_path h q.bell ≡ false
      → q.data_digest ≡ true
      → (q.reqs r.tag).state ≡ send_data
      → is_caravan_full q ≡ false
      → 1 ≤ (cur_chunk h s r q).len
      → is_last_send (q.reqs r.tag) (cur_chunk h s r q).len ≡ true
      → 1 ≤ s.digest_size
      → s.answer q.calls s.digest_size ≡ took s.digest_size
      → (q' : Sender) × (from_data h s (suc fuel) r q ret ≡ some (q', one))
        × (q'.caravan_iovs ≡ q.caravan_iovs ++ cur_chunk h s r q ∷ [])
        × (q'.out ≡ q.out ++ record { part = ddgst r.tag; start = 0; len = s.digest_size } ∷ [])
        × (q'.request ≡ none)
  unfolding from_data data_advance load
  digest_overtakes fuel r q ret l d st f c la z a =
      let k = cur_chunk h s r q in
      let t : is_state (q.reqs r.tag).state send_data ≡ true = rw st in
      let q0 = data_advance h s r k k.len (record (load k q) { nr_mapped = q.nr_mapped + 1 }) in
      let q1 = data_complete h s r q0 in
      let (st1, o1, c1, out1, n1) = complete-ddgst r q0 d in
      let (ret1, c2, out2, rq2) = ddgst_whole r q1 st1 o1 z (rw n1 a) in
      (
        (from_ddgst h s r q1 one).0,
        rw (from_data, t, try_last fuel r q q1 one (data_round-last r q l f c la))
            (ap (λ x. some ((from_ddgst h s r q1 one).0, x)) ret1),
        c2 ∙ c1,
        out2
            ∙ ap (λ x. x ++ record { part = ddgst r.tag; start = 0; len = s.digest_size } ∷ [])
                out1,
        rq2,
      )
