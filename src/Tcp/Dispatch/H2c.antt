-- ===== src/Tcp/Dispatch/H2c.antt =====
-- drivers/nvme/host/tcp.c: the data PDU that answers an R2T.
use blk_switch.Common.{
  none, some, ◌+◌, ◌^◌, ◌≤◌, ◌<◌, ◌≡◌, ◌⊎◌, inl, inr, refl, arith, Bool-cases, ltb, ◌||◌,
}
use blk_switch.Tcp.{Wire, Queue, Req, Pdu, DataPdu}
use blk_switch.Tcp.Dispatch.{setup_h2c_data_pdu, h2c_header}

-- For a request of less than 4 GB, an R2T is refused exactly if it asks for more data than is left, or
-- for data that was sent. Else it gives a data PDU for the request that starts where sending stopped,
-- which may be before the data that the R2T asks for, has as much data as it asks for, and lies
-- within the data of the request; nothing of it is sent yet.
pub setup_h2c_data_pdu_lem :
    (w : Wire) (q : Queue) (req : Req) (p : Pdu)
    → req.data_len < 2 ^ 32
    → (((req.data_len < req.data_sent + p.r2t_length) ⊎ (p.r2t_offset < req.data_sent))
        × (setup_h2c_data_pdu w q req p ≡ none))
      ⊎ ((req.data_sent ≤ p.r2t_offset)
          × (req' : Req) × (d : DataPdu) × (setup_h2c_data_pdu w q req p ≡ some req')
          × (req'.h2c ≡ some d)
          × (d.ttag ≡ p.ttag)
          × (d.data_offset ≡ req.data_sent)
          × (d.data_length ≡ p.r2t_length)
          × (d.data_offset + d.data_length ≤ req.data_len)
          × (req'.pdu_len ≡ d.data_length)
          × (req'.pdu_sent ≡ 0))
unfolding setup_h2c_data_pdu h2c_header
setup_h2c_data_pdu_lem w q req p h =
    elim (Bool-cases
      (ltb req.data_len (req.data_sent + p.r2t_length) || ltb p.r2t_offset req.data_sent)) [
        | inl t ↦ inl (ground arith, ground arith)
        | inr f ↦ inr (
          ground arith,
          record req { pdu_len = p.r2t_length; pdu_sent = 0; h2c = some (h2c_header w q req p) },
          h2c_header w q req p,
          ground arith,
          refl,
          refl,
          ground arith,
          refl,
          ground arith,
          refl,
          refl,
        )
      ]
