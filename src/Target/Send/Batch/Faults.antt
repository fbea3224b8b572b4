-- ===== src/Target/Send/Batch/Faults.antt =====
-- drivers/nvme/target/tcp.c: what becomes of the data of a caravan.
use blk_switch.Common.{
  ℕ, suc, Bool, List, [], ◌∷◌, ◌++◌, none, some, true, false, ◌+◌, ◌≡◌, ◌≢◌, ◌<◌, ◌≤◌, arith, refl,
  sym, ap, ◌∙◌, Bool-cases, inl, inr, ltb, ◌==◌, if◌then◌else◌,
}
use mathlib.Core.List.{append_assoc, append-nil}
use blk_switch.Tcp.Send.{refused, Errno, Ret, one}
use blk_switch.Target.{Queue, Link, Piece, put_cmd, free_sg, is_caravan_full}
use blk_switch.Target.Send.{
  submit, load, is_aggregated, data_round, data_sent, data_advance, data_piece, data_done,
  try_send_data,
}
use blk_switch.Target.Send.Batch.{send_caravan, settle, put_cmds, is_due}

-- The commands that go back to the free list: not the connect command.
unfoldable pub returned : ℕ → List ℕ → List ℕ
returned n [] = []
returned n (c ∷ cs) = if c == n then returned n cs else c ∷ returned n cs

put_cmds_lem :
    (cs : List ℕ) (q : Queue)
    → ((put_cmds cs q).free_list ≡ q.free_list ++ returned q.nr_cmds cs)
      × ((put_cmds cs q).out ≡ q.out)
unfolding put_cmds returned put_cmd
put_cmds_lem [] q = (sym (append-nil q.free_list), refl)
put_cmds_lem (c ∷ cs) q =
    let (f, o) = put_cmds_lem cs (put_cmd c (free_sg c q)) in
    elim (Bool-cases (c == q.nr_cmds)) [
      | inl t ↦ ground (arith, f, o)
      | inr t ↦ ground (arith, f, o, append_assoc q.free_list (c ∷ []) (returned q.nr_cmds cs))
    ]

submit-refused :
    (s : Link) (len : ℕ) (ps : List Piece) (q : Queue) (e : Errno)
    → s.answer q.calls len ≡ refused e
    → (submit s len ps q).0 ≡ record q { calls = q.calls + 1 }
unfolding submit
submit-refused s len ps q e a = rw (submit, a) refl

module _ (s : Link) where
  send_caravan-due :
      (ret : Ret) (last : Bool) (q : Queue)
      → is_due s ret last q ≡ true
      → q.caravan_len ≤ s.wspace q.calls
      → send_caravan s ret last q ≡ (settle (submit s q.caravan_len q.caravan_iovs q).0, true)
  unfolding send_caravan
  send_caravan-due ret last q d w =
      let l : ltb (s.wspace q.calls) q.caravan_len ≡ false = ground arith in
      rw (send_caravan, d, l) refl

  -- Where the socket refuses a caravan that is due, its bytes are dropped, and its commands go back to
  -- the free list as those of a caravan that was sent.
  pub send_caravan-refused :
      (ret : Ret) (last : Bool) (q : Queue) (e : Errno)
      → is_due s ret last q ≡ true
      → q.caravan_len ≤ s.wspace q.calls
      → s.answer q.calls q.caravan_len ≡ refused e
      → ((send_caravan s ret last q).1 ≡ true)
        × ((send_caravan s ret last q).0.out ≡ q.out)
        × ((send_caravan s ret last q).0.caravan_iovs ≡ [])
        × ((send_caravan s ret last q).0.free_list
            ≡ q.free_list ++ returned q.nr_cmds q.caravan_cmds)
  unfolding settle
  send_caravan-refused ret last q e d w a =
      let q1 = record q { calls = q.calls + 1 } in
      let (f, o) = put_cmds_lem q.caravan_cmds q1 in
      let k =
        send_caravan-due ret last q d w
        ∙ ap (λ x. (settle x, true)) (submit-refused s q.caravan_len q.caravan_iovs q e a) in
      (
        ap (λ x. x.1) k,
        ap (λ x. x.0.out) k ∙ o,
        ap (λ x. x.0.caravan_iovs) k,
        ap (λ x. x.0.free_list) k ∙ f,
      )

  -- The last entry of a scatterlist, into the caravan.
  abbrev loaded_last : ℕ → ℕ → Queue → Queue
  loaded_last c l q =
      data_advance s c (data_piece s c l q).len l []
        (record (load (data_piece s c l q) q) { nr_caravan_mapped = q.nr_caravan_mapped + 1 })

  data_round-last :
      (c l : ℕ) (q : Queue)
      → is_aggregated s q ≡ true
      → is_caravan_full q ≡ false
      → (q.cmds c).offset < l
      → data_round s c (l ∷ []) q ≡ (loaded_last c l q, none)
  unfolding data_round data_sent data_piece
  data_round-last c l q g f o = ground arith

  loaded_last_lem :
      (c l : ℕ) (q : Queue)
      → (q.cmds c).offset < l
      → (((loaded_last c l q).cmds c).cur_sg ≡ [])
        × ((loaded_last c l q).caravan_iovs ≡ q.caravan_iovs ++ data_piece s c l q ∷ [])
        × ((loaded_last c l q).free_list ≡ q.free_list)
        × ((loaded_last c l q).nr_cmds ≡ q.nr_cmds)
        × ((loaded_last c l q).data_digest ≡ q.data_digest)
        × ((loaded_last c l q).sqhd_disabled ≡ q.sqhd_disabled)
  unfolding data_advance data_piece load
  loaded_last_lem c l q o =
      (ground arith, ground arith, ground arith, ground arith, ground arith, ground arith)

  try_send_data-more :
      (fuel c : ℕ) (q q' : Queue)
      → data_round s c (q.cmds c).cur_sg q ≡ (q', none)
      → try_send_data s (suc fuel) c q ≡ try_send_data s fuel c q'
  unfolding try_send_data
  try_send_data-more fuel c q q' e =
      rw (try_send_data, ap (λ p. p.1) e) (ap (λ p. try_send_data s fuel c p.0) e)

  try_send_data-ends :
      (fuel c : ℕ) (q q' : Queue) (x : Ret)
      → data_round s c (q.cmds c).cur_sg q ≡ (q', some x)
      → try_send_data s (suc fuel) c q ≡ some (q', x)
  unfolding try_send_data
  try_send_data-ends fuel c q q' x e =
      rw (try_send_data, ap (λ p. p.1) e) (ap (λ p. some (p.0, x)) e)

  data_round-empty :
      (c : ℕ) (q : Queue)
      → (q.cmds c).cur_sg ≡ []
      → data_round s c (q.cmds c).cur_sg q ≡ (data_done s c q, some one)
  unfolding data_round
  data_round-empty c q e = ap (λ l. data_round s c l q) e

  data_done-freed :
      (c : ℕ) (q : Queue)
      → q.data_digest ≡ false
      → q.sqhd_disabled ≡ true
      → c ≢ q.nr_cmds
      → ((data_done s c q).caravan_iovs ≡ q.caravan_iovs)
        × (((data_done s c q).cmds c).freed ≡ true)
        × ((data_done s c q).free_list ≡ q.free_list ++ c ∷ [])
  unfolding data_done put_cmd
  data_done-freed c q d z n = (ground arith, ground arith, ground arith)

  -- On a queue that aggregates, without a data digest and with the flow control of the submission queue
  -- disabled, the last entry of a command's scatterlist goes into the caravan, and the scatterlist is
  -- freed and the command put back while the caravan holds it.
  pub data_freed :
      (fuel c l : ℕ) (q : Queue)
      → is_aggregated s q ≡ true
      → is_caravan_full q ≡ false
      → q.data_digest ≡ false
      → q.sqhd_disabled ≡ true
      → c ≢ q.nr_cmds
      → (q.cmds c).cur_sg ≡ l ∷ []
      → (q.cmds c).offset < l
      → (q' : Queue) × (try_send_data s (suc (suc fuel)) c q ≡ some (q', one))
        × (q'.caravan_iovs ≡ q.caravan_iovs ++ data_piece s c l q ∷ [])
        × ((q'.cmds c).freed ≡ true)
        × (q'.free_list ≡ q.free_list ++ c ∷ [])
  data_freed fuel c l q g f d z n sg o =
      let q1 = loaded_last c l q in
      let (k, iovs, fl, nr, dd, sq) = loaded_last_lem c l q o in
      let r : data_round s c (q.cmds c).cur_sg q ≡ (q1, none) =
        ap (λ x. data_round s c x q) sg ∙ data_round-last c l q g f o in
      let (a1, a2, a3) = data_done-freed c q1 (dd ∙ d) (sq ∙ z) (λ e. n (e ∙ nr)) in
      (
        data_done s c q1,
        try_send_data-more (suc fuel) c q q1 r
            ∙ try_send_data-ends fuel c q1 (data_done s c q1) one (data_round-empty c q1 k),
        a1 ∙ iovs,
        a2,
        a3 ∙ ap (λ x. x ++ c ∷ []) fl,
      )
