-- ===== src/Tcp/Recv/Room.antt =====
-- drivers/nvme/host/tcp.c: nvme_tcp_recv_data and the space of a request.
use blk_switch.Common.{
  ℕ, zero, suc, List, [], ◌∷◌, ◌++◌, none, some, true, false, ◌+◌, ◌-◌, ◌≤◌, ◌<◌, ◌≡◌, ◌⊎◌, inl,
  inr, refl, length, drop, is_empty, arith,
}
use blk_switch.Tcp.{Req}
use blk_switch.Tcp.Recv.{receive, copy_to_bios}

abbrev pub sum : List ℕ → ℕ
sum [] = 0
sum (b ∷ bs) = b + sum bs

-- The space in the present iterator and in the bios behind it.
abbrev pub room : Req → ℕ
room rq = rq.iter + sum rq.bios

-- A buffer fits into the iterator, or the rest of it goes on.
split :
    (n : ℕ) (xs : List ℕ)
    → ((is_empty (drop n xs) ≡ true) × (length xs ≤ n))
      ⊎ ((is_empty (drop n xs) ≡ false) × (n + length (drop n xs) ≡ length xs) × (n < length xs))
split zero [] = inl (refl, omega arith)
split (suc n) [] = inl (refl, omega arith)
split zero (x ∷ xs) = inr (refl, omega arith, omega arith)
split (suc n) (x ∷ xs) = elim (split n xs) [
  | inl (e, l) ↦ inl (e, omega arith)
  | inr (e, s, l) ↦ inr (e, omega arith, omega arith)
]

copy_room :
    (iter : ℕ) (bios bytes : List ℕ)
    → ((length bytes ≤ iter + sum bios)
        × (i : ℕ) × (bs : List ℕ) × (copy_to_bios iter bios bytes ≡ some (i, bs))
        × (i + sum bs + length bytes ≡ iter + sum bios))
      ⊎ ((iter + sum bios < length bytes) × (copy_to_bios iter bios bytes ≡ none))
unfolding copy_to_bios
copy_room iter [] bytes = elim (split iter bytes) [
  | inl (e, l) ↦ inl (omega arith, iter - length bytes, [], rw e, omega arith)
  | inr (e, s, l) ↦ inr (omega arith, rw e)
]
copy_room iter (b ∷ bs) bytes = elim (split iter bytes) [
  | inl (e, l) ↦ inl (omega arith, iter - length bytes, b ∷ bs, rw e, omega arith)
  | inr (e, s, l) ↦ elim (copy_room b bs (drop iter bytes)) [
    | inl (l', i, bs', e', s') ↦ inl (omega arith, i, bs', rw (copy_to_bios, e, e'), omega arith)
    | inr (l', e') ↦ inr (omega arith, rw (copy_to_bios, e, e'))
  ]
]

-- A request takes a buffer exactly when its iterator and the bios behind it have the space: then the
-- bytes follow those received before, in order, and the space shrinks by their number; otherwise the
-- loop ends with an error.
pub receive_lem :
    (rq : Req) (bytes : List ℕ)
    → ((length bytes ≤ room rq)
        × (rq' : Req) × (receive rq bytes ≡ some rq')
        × (rq'.received ≡ rq.received ++ bytes)
        × (room rq' + length bytes ≡ room rq))
      ⊎ ((room rq < length bytes) × (receive rq bytes ≡ none))
unfolding receive
receive_lem rq bytes = elim (copy_room rq.iter rq.bios bytes) [
  | inl (l, i, bs, e, s) ↦ inl (
    l,
    record rq { iter = i; bios = bs; received = rq.received ++ bytes },
    rw (receive, e),
    refl,
    s,
  )
  | inr (l, e) ↦ inr (l, rw (receive, e))
]
