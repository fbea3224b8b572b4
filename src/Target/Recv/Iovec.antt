-- ===== src/Target/Recv/Iovec.antt =====
-- drivers/nvme/target/tcp.c: which data nvmet_tcp_map_pdu_iovec can map, and an R2T of the target that the
-- host of drivers/nvme/host/tcp.c answers.
use blk_switch.Common.{
  ℕ, zero, suc, List, [], ◌∷◌, none, some, true, false, ◌+◌, ◌-◌, ◌*◌, ◌%◌, ◌^◌, ◌≡◌, ◌≢◌, ◌≤◌, ◌<◌,
  arith, refl, sym, ap, ◌∙◌, Bool-cases, inl, inr, ◌==◌, min, u32, drop, take, length,
}
use blk_switch.Tcp.{DataPdu}
use blk_switch.Target.{recv_data, Cmd, Queue, Link}
use blk_switch.Target.Respond.{r2t_header}
use blk_switch.Target.Recv.{
  page_size, walk, pages, map_pdu_iovec, Pdu, Receiver, Peer, handle_h2c_data_pdu,
}

abbrev pub total : List ℕ → ℕ
total [] = 0
total (l ∷ ls) = l + total ls

-- Entries with lengths of 32 bits.
abbrev pub Narrow : List ℕ → Type 0
Narrow [] = Unit
Narrow (l ∷ ls) = (l < 2 ^ 32) × Narrow ls

walk-none : (sg : List ℕ) (n : ℕ) → Narrow sg → total sg < n → walk sg n 0 ≡ none
unfolding walk
walk-none [] n w h = ground arith
walk-none (l ∷ sg) n (s, w) h =
    let k = min n (u32 (l + 2 ^ 32 - 0)) in
    let e : walk sg (n - k) 0 ≡ none = walk-none sg (n - k) w (omega arith) in
    let z : (n == 0) ≡ false = ground arith in rw (walk, z, e) refl

-- Entries that are whole pages, but for the last one: what `sgl_alloc` makes.
abbrev pub Paged : List ℕ → Type 0
Paged [] = Unit
Paged (l ∷ []) = l ≤ page_size
Paged (l ∷ m ∷ ls) = (l ≡ page_size) × Paged (m ∷ ls)

Paged-Narrow : (sg : List ℕ) → Paged sg → Narrow sg
Paged-Narrow [] w = tt
Paged-Narrow (l ∷ []) w = (omega arith, tt)
Paged-Narrow (l ∷ m ∷ sg) (e, w) = (omega arith, Paged-Narrow (m ∷ sg) w)

Paged-head : (l : ℕ) (sg : List ℕ) → Paged (l ∷ sg) → l ≤ page_size
Paged-head l [] w = w
Paged-head l (m ∷ sg) (e, w) = omega arith

Paged-drop : (k : ℕ) (sg : List ℕ) → Paged sg → Paged (drop k sg)
Paged-drop zero sg w = w
Paged-drop (suc k) [] w = w
Paged-drop (suc k) (l ∷ []) w = Paged-drop k [] tt
Paged-drop (suc k) (l ∷ m ∷ sg) (e, w) = Paged-drop k (m ∷ sg) w

-- An entry takes the data of one page.
pages-step :
    (l : ℕ) (sg : List ℕ) (n : ℕ)
    → Paged (l ∷ sg)
    → n ≢ 0
    → n ≤ total (l ∷ sg)
    → pages n ≡ suc (pages (n - min n (u32 (l + 2 ^ 32 - 0))))
pages-step l [] n p z h = omega arith
pages-step l (m ∷ sg) n (e, p) z h = omega arith

-- Over whole pages, the loop stores one length for each page of the data.
walk-pages :
    (sg : List ℕ) (n : ℕ)
    → Paged sg
    → n ≤ total sg
    → (iov : List ℕ) × (walk sg n 0 ≡ some iov) × (total iov ≡ n) × (length iov ≡ pages n)
unfolding walk
walk-pages [] n w h =
    let z : (n == 0) ≡ true = ground arith in ([], rw (walk, z) refl, omega arith, omega arith)
walk-pages (l ∷ sg) n w h =
    let k = min n (u32 (l + 2 ^ 32 - 0)) in
    let fits : l ≤ page_size = Paged-head l sg w in
    let (iov, e, t, len) = walk-pages sg (n - k) (Paged-drop 1 (l ∷ sg) w) (omega arith) in
    elim (Bool-cases (n == 0)) [
      | inl z ↦ ([], rw (walk, z) refl, ground arith, ground arith)
      | inr z ↦ (
        k ∷ iov,
        rw (walk, z, e) refl,
        omega arith,
        ap suc len ∙ sym (pages-step l sg n w (ground arith) h),
      )
    ]

take-length {ℓ} : {A : Type ℓ} (k : ℕ) (xs : List A) → length xs ≡ k → take k xs ≡ xs
take-length zero [] e = refl
take-length zero (x ∷ xs) e = absurd (omega arith)
take-length (suc k) [] e = absurd (omega arith)
take-length (suc k) (x ∷ xs) e = ap (λ l. x ∷ l) (take-length k xs (omega arith))

-- What the loop is given for a command that has received whole pages
walk_from :
    (x : Cmd) (k : ℕ)
    → x.rbytes_done ≡ k * 4096
    → walk (drop (pages x.rbytes_done) x.sg) x.pdu_len (x.rbytes_done % page_size)
      ≡ walk (drop k x.sg) x.pdu_len 0
walk_from x k e =
    let a : pages x.rbytes_done ≡ k = omega arith in
    let b : x.rbytes_done % page_size ≡ 0 = omega arith in
    ap (λ i. walk (drop i x.sg) x.pdu_len (x.rbytes_done % page_size)) a
    ∙ ap (λ i. walk (drop k x.sg) x.pdu_len i) b

map_pdu_iovec-some :
    (x : Cmd) (k : ℕ) (iov : List ℕ)
    → x.rbytes_done ≡ k * 4096
    → walk (drop k x.sg) x.pdu_len 0 ≡ some iov
    → map_pdu_iovec x ≡ some (take (pages x.pdu_len) iov)
unfolding map_pdu_iovec
map_pdu_iovec-some x k iov e f = let g = walk_from x k e ∙ f in rw (map_pdu_iovec, g) refl

-- A scatterlist of whole pages but for its last entry, and a command that has received whole pages,
-- `k` of them: if the entries from the page `k` on have the space for the PDU, the iterator is given
-- exactly its data, in one segment for each of its pages; else the loop runs past the last entry.
pub map_pdu_iovec_lem :
    (x : Cmd) (k : ℕ)
    → Paged x.sg
    → x.rbytes_done ≡ k * 4096
    → (x.pdu_len ≤ total (drop k x.sg)
        → (iov : List ℕ) × (map_pdu_iovec x ≡ some iov)
          × (total iov ≡ x.pdu_len)
          × (length iov ≡ pages x.pdu_len))
      × (total (drop k x.sg) < x.pdu_len → map_pdu_iovec x ≡ none)
unfolding map_pdu_iovec
map_pdu_iovec_lem x k w e =
    let v = Paged-drop k x.sg w in
    let narrow = Paged-Narrow (drop k x.sg) v in
    (
      λ h.
          let (iov, f, t, n) = walk-pages (drop k x.sg) x.pdu_len v h in
          (
            iov,
            map_pdu_iovec-some x k iov e f ∙ ap some (take-length (pages x.pdu_len) iov n),
            t,
            n,
          ),
      λ h.
          let f = walk_from x k e ∙ walk-none (drop k x.sg) x.pdu_len narrow h in
          rw (map_pdu_iovec, f) refl,
    )

-- A data PDU of a host as the target reads it.
abbrev pub as_received : DataPdu → Pdu → Pdu
as_received d p = record p {
  ttag = d.ttag;
  data_offset = d.data_offset;
  data_length = d.data_length;
}

-- The R2T of the target as the host reads it: see `setup_h2c_data_pdu` of the host.
pub record IsR2t (s : Link) (c : ℕ) (q : Queue) (p : blk_switch.Tcp.Pdu) : Type 0 where
  pub ttag : p.ttag ≡ (r2t_header s c q (q.cmds c)).ttag
  pub r2t_length : p.r2t_length ≡ (r2t_header s c q (q.cmds c)).data_length
  pub r2t_offset : p.r2t_offset ≡ (r2t_header s c q (q.cmds c)).data_offset

module _ (p : Peer) where
  -- The data PDU is taken for the command `c`, with all of its data.
  pub Takes : ℕ → Receiver → Pdu → Type 0
  Takes c r d =
      (r' : Receiver) × (handle_h2c_data_pdu p d r ≡ some (r', none))
      × (r'.cmd ≡ some c)
      × (r'.rcv_state ≡ recv_data)
      × (r'.missing ≡ (r.queue.cmds c).transfer_len)
