-- ===== src/Target/Recv/Work/Complete.antt =====
-- drivers/nvme/target/tcp.c: nvmet_tcp_try_recv_data receives the data of a write and has it executed.
use blk_switch.Common.{
  ℕ, zero, suc, [], ◌∷◌, ◌++◌, none, some, false, ◌+◌, ◌-◌, ◌^◌, ◌≡◌, ◌≤◌, ◌<◌, arith, refl, sym,
  ap, ◌∙◌, Bool-cases, inl, inr, ◌==◌, ==_refl, u32,
}
use mathlib.Core.Path.{subst}
use blk_switch.Tcp.Send.{took}
use blk_switch.Target.{recv_pdu}
use blk_switch.Target.Recv.{Receiver, Peer, executed, prepare_receive_pdu}
use blk_switch.Target.Recv.Work.{try_recv_data, take_data, data_received}

-- A socket that delivers a byte at least to each call with space for one, and no more than the space.
unfoldable pub Delivers : Peer → Type 0
Delivers p = (i l : ℕ) → 1 ≤ l → (n : ℕ) × (p.answer i l ≡ took n) × (1 ≤ n) × (n ≤ l)

module _ (p : Peer) where
  -- The data of the command `c` is missing, no more and no less.
  pub record Waits (c : ℕ) (r : Receiver) : Type 0 where
    pub taken : (r.queue.cmds c).init_failed ≡ false
    pub rest : (r.queue.cmds c).rbytes_done + r.missing ≡ (r.queue.cmds c).transfer_len
    pub narrow : (r.queue.cmds c).transfer_len < 2 ^ 32
    pub undigested : r.queue.data_digest ≡ false

  take_data-Waits :
      (c n : ℕ) (r : Receiver)
      → Waits c r
      → n ≤ r.missing
      → Waits c (take_data p c n r)
        × ((take_data p c n r).missing ≡ r.missing - n)
        × ((take_data p c n r).events ≡ r.events)
        × (((take_data p c n r).queue.cmds c).transfer_len ≡ (r.queue.cmds c).transfer_len)
  unfolding take_data
  take_data-Waits c n r w h =
      let x = r.queue.cmds c in
      let y = record x { pdu_recv = u32 (x.pdu_recv + n); rbytes_done = u32 (x.rbytes_done + n) } in
      let k : (take_data p c n r).queue.cmds c ≡ y = rw (==_refl c) refl in
      let u : u32 (x.rbytes_done + n) ≡ x.rbytes_done + n = omega (arith, w.rest, w.narrow) in
      (
        record {
          taken = ap (λ v. v.init_failed) k ∙ w.taken;
          rest =
              ap (λ v. v.rbytes_done + (r.missing - n)) k
              ∙ (omega (arith, w.rest) ∙ sym (ap (λ v. v.transfer_len) k));
          narrow = subst (λ v. v.transfer_len < 2 ^ 32) (sym k) w.narrow;
          undigested = w.undigested;
        },
        refl,
        refl,
        ap (λ v. v.transfer_len) k,
      )

  data_received_lem :
      (c : ℕ) (r : Receiver)
      → Waits c r
      → r.missing ≡ 0
      → ((data_received p c r).events ≡ r.events ++ executed c ∷ [])
        × ((data_received p c r).rcv_state ≡ recv_pdu)
        × (((data_received p c r).queue.cmds c).rbytes_done ≡ (r.queue.cmds c).transfer_len)
  unfolding data_received prepare_receive_pdu
  data_received_lem c r w z =
      let d : (r.queue.cmds c).rbytes_done ≡ (r.queue.cmds c).transfer_len =
        omega (arith, w.rest) in
      (ground (arith, w.taken, w.undigested), ground (arith, w.taken, w.undigested), ground arith)

  -- Where the socket delivers, the data that is missing is received in full, the command is executed,
  -- once, and the queue waits for the next PDU: for a command that the core has taken, of less than
  -- 4 GB, without a data digest. More fuel than bytes are missing is enough.
  pub try_recv_data-executed :
      (fuel c : ℕ) (r : Receiver)
      → Delivers p
      → Waits c r
      → r.missing < fuel
      → (r' : Receiver) × (try_recv_data p fuel c r ≡ some (r', none))
        × (r'.events ≡ r.events ++ executed c ∷ [])
        × (r'.rcv_state ≡ recv_pdu)
        × ((r'.queue.cmds c).rbytes_done ≡ (r.queue.cmds c).transfer_len)
  unfolding try_recv_data Delivers
  try_recv_data-executed zero c r v w l = elim l [ ]
  try_recv_data-executed (suc fuel) c r v w l = elim (Bool-cases (r.missing == 0)) [
    | inl z ↦
        let (e, st, d) = data_received_lem c r w (ground arith) in
        (data_received p c r, rw (try_recv_data, z) refl, e, st, d)
    | inr z ↦
        let (n, a, lo, hi) = v r.calls r.missing (ground arith) in
        let (w1, m, e, t) = take_data-Waits c n r w hi in
        let y : (n == 0) ≡ false = ground arith in
        let (r', run, e', st, d) =
          try_recv_data-executed fuel c (take_data p c n r) v w1 (omega arith) in
        (r', rw (try_recv_data, z, a, y) run, e' ∙ ap (λ x. x ++ executed c ∷ []) e, st, d ∙ t)
  ]
