-- ===== src/Target/Recv/Work/Faults.antt =====
-- drivers/nvme/target/tcp.c: a fatal error that does not stop the queue.
use blk_switch.Common.{none, some, true, false, ◌≡◌, ◌≢◌, arith, refl, ◌==◌}
use blk_switch.Target.{recv_pdu, connecting, live}
use blk_switch.Target.Recv.{icreq, Receiver, Peer, prepare_receive_pdu}
use blk_switch.Target.Recv.Work.{is_connecting, is_type, handle_icreq, done_recv_pdu}

module _ (p : Peer) where
  -- A connection request of a wrong length, with a right version and alignment, whose hashes are
  -- allocated and whose response is sent, is a fatal error, and yet the queue goes live with the digests
  -- that it asks for, and waits for the next PDU, without an error.
  pub done_recv_pdu-bad_length :
      (r : Receiver)
      → r.queue.state ≡ connecting
      → (p.pdu r.number).pdu_type ≡ icreq
      → (p.pdu r.number).plen ≢ p.pdu_size icreq
      → (p.pdu r.number).pfv ≡ 0
      → (p.pdu r.number).hpda ≡ 0
      → p.has_hashes ≡ true
      → p.icresp_sent ≡ none
      → (r' : Receiver) × (done_recv_pdu p r ≡ some (r', none))
        × (r'.fatal ≡ true)
        × (r'.queue.state ≡ live)
        × (r'.rcv_state ≡ recv_pdu)
        × (r'.queue.hdr_digest ≡ (p.pdu r.number).hdr_digest_enable)
        × (r'.queue.data_digest ≡ (p.pdu r.number).data_digest_enable)
  unfolding done_recv_pdu handle_icreq prepare_receive_pdu
  done_recv_pdu-bad_length r c t n v a h i =
      let d = p.pdu r.number in
      let k : is_connecting r.queue.state ≡ true = rw c refl in
      let y : is_type d.pdu_type icreq ≡ true = rw t refl in
      let f : (d.plen == p.pdu_size icreq) ≡ false = ground arith in
      let x = (handle_icreq p d r).0 in
      (x, ground arith, ground arith, ground arith, ground arith, ground arith, ground arith)
