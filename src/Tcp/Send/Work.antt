-- ===== src/Tcp/Send/Work.antt =====
-- drivers/nvme/host/tcp.c: nvme_tcp_io_work and nvme_tcp_io_work_lat, which differ in the work that is
-- queued again.
use blk_switch.Common.{ℕ, zero, suc, Bool, Option, none, some, true, false, ◌+◌, if◌then◌else◌}
use blk_switch.Tcp.Doorbell.{Host}
use blk_switch.Tcp.Send.{
  Errno, epipe, econnreset, eagain, other, one, nothing, failed, Sender, Socket, done_send_req,
}
use blk_switch.Tcp.Send.Try.{try_send}

-- How a work ends: with nothing left to do, queued again at its deadline, or behind an error. There the
-- request of the queue was failed (`nvme_tcp_fail_request`), or left to the error recovery; with no
-- request, the code fails the request at the address 0.
pub data Ending : Type 0 where
  idle requeued left_to_recovery null_request : Ending
  failed_request : (tag : ℕ) → Ending

-- `(result != -EPIPE) && (result != -ECONNRESET)`
abbrev pub fails_request : Errno → Bool
fails_request epipe = false
fails_request econnreset = false
fails_request eagain = true
fails_request other = true

-- What a work does with an error.
unfoldable pub send_failed : Errno → Sender → Sender × Ending
send_failed e q =
    if fails_request e
    then elim (q.request) [
      | none ↦ (done_send_req q, null_request)
      | some r ↦ (done_send_req q, failed_request r.tag)
    ]
    else (done_send_req q, left_to_recovery)

-- `nvme_tcp_try_recv` in round `i`, with what it does to the queue and whether it returns more than 0,
-- and whether the deadline has passed behind round `i`.
pub record Rounds : Type 0 where
  pub try_recv : ℕ → Sender → Sender × Bool
  pub is_late : ℕ → Bool

module _ (h : Host) (s : Socket) (rs : Rounds) (data_fuel : ℕ) where
  -- The loop, from round `i` on, with fuel for the rounds.
  unfoldable pub io_work : (fuel i : ℕ) → Sender → Option (Sender × Ending)
  unfolding send_failed
  io_work zero i q = none
  io_work (suc fuel) i q = elim (try_send h s data_fuel q) [
    | none ↦ none
    | some (q', failed e) ↦ some (send_failed e q')
    | some (q', one) ↦
        let (q'', more) = rs.try_recv i q' in
        elim (rs.is_late i) [ true ↦ some (q'', requeued) | false ↦ io_work fuel (i + 1) q'' ]
    | some (q', nothing) ↦
        let (q'', more) = rs.try_recv i q' in
        elim more [
          | false ↦ some (q'', idle)
          | true ↦ elim (rs.is_late i) [
            | true ↦ some (q'', requeued)
            | false ↦ io_work fuel (i + 1) q''
          ]
        ]
  ]
