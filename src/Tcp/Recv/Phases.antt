-- ===== src/Tcp/Recv/Phases.antt =====
-- drivers/nvme/host/tcp.c: in each of its three states the receive path takes several bytes at once as
-- it would take them one by one.
use blk_switch.Common.{
  ℕ, zero, suc, Bool, Option, List, [], ◌∷◌, ◌++◌, none, some, true, false, ◌+◌, ◌-◌, ◌≤◌, ◌≡◌, ◌⊎◌,
  inl, inr, if◌then◌else◌, refl, Option-cases, length, drop, arith,
}
use blk_switch.Tcp.{Wire, enoent, eio, Queue, Req, Error, Event, ok, err, tag_to_rq}
use blk_switch.Common.Map.{update}
use mathlib.Core.Path.{fun_ext}
use blk_switch.Tcp.Dispatch.{set_rq}
use blk_switch.Tcp.Recv.{take_pdu, take_ddgst, take_data, receive, copy_to_bios}
use blk_switch.Tcp.Recv.Bytewise.{feed, feeds, takes-feeds}

abbrev pub InPdu : Queue → Type 0
InPdu q = Unit

abbrev pub InDdgst : Queue → Type 0
InDdgst q = q.pdu_remaining ≡ 0

abbrev pub InData : Queue → Type 0
InData q = (q.pdu_remaining ≡ 0) × (q.ddgst_remaining ≡ 0)

append_one : (xs : List ℕ) (b : ℕ) (c : List ℕ) → (xs ++ b ∷ []) ++ c ≡ xs ++ b ∷ c
append_one [] b c = refl
append_one (x ∷ xs) b c = rw (append_one xs b c)

drop_nil : (n : ℕ) → drop {A = ℕ} n [] ≡ []
drop_nil zero = refl
drop_nil (suc n) = refl

pred_suc : (n : ℕ) → suc n - 1 ≡ n
pred_suc n = omega arith

sub_suc : (m n : ℕ) → suc m - suc n ≡ m - n
sub_suc m n = omega arith

sub_one : (m n : ℕ) → m - suc n ≡ m - 1 - n
sub_one m n = omega arith

-- What fits after a byte: the copy of more bytes goes on where the copy of the first one ended.
copy-cons :
    (iter : ℕ) (bios : List ℕ) (b : ℕ) (c : List ℕ)
    → copy_to_bios iter bios (b ∷ c)
      ≡ elim (copy_to_bios iter bios (b ∷ [])) as (λ x. Option (ℕ × List ℕ)) [
        | none ↦ none
        | some (i, bs) ↦ copy_to_bios i bs c
      ]
unfolding copy_to_bios
copy-cons zero [] b c = refl
copy-cons zero (x ∷ bs) b c = copy-cons x bs b c
copy-cons (suc i) [] b c = rw (copy_to_bios, drop_nil i, pred_suc i, sub_suc i (length c))
copy-cons (suc i) (x ∷ bs) b c = rw (copy_to_bios, drop_nil i, pred_suc i, sub_suc i (length c))

receive-cons :
    (rq : Req) (b : ℕ) (c : List ℕ)
    → receive rq (b ∷ c)
      ≡ elim (receive rq (b ∷ [])) as (λ x. Option Req) [ none ↦ none | some r ↦ receive r c ]
unfolding receive
receive-cons rq b c = elim (Option-cases (copy_to_bios rq.iter rq.bios (b ∷ []))) [
  | inl n ↦ rw (receive, copy-cons rq.iter rq.bios b c, n)
  | inr ((i, bs), e) ↦ elim (Option-cases (copy_to_bios i bs c)) [
    | inl n ↦ rw (receive, copy-cons rq.iter rq.bios b c, e, n)
    | inr ((i', bs'), e') ↦
        rw (receive, copy-cons rq.iter rq.bios b c, e, e', append_one rq.received b c)
  ]
]

update_twice : {A : Type 0} (f : ℕ → A) (i : ℕ) (a b : A) → update (update f i a) i b ≡ update f i b
update_twice f i a b = fun_ext (λ j. ground arith)

abbrev received_byte : Queue → ℕ → Req → ℕ → Queue
received_byte q id rq b = record (set_rq id rq q) {
  hash = if q.data_digest then q.hash ++ b ∷ [] else q.hash;
  data_remaining = q.data_remaining - 1;
}

tag-received_byte :
    (q : Queue) (id : ℕ) (rq rq' : Req) (b : ℕ)
    → tag_to_rq q id ≡ some rq
    → tag_to_rq (received_byte q id rq' b) id ≡ some rq'
unfolding tag_to_rq
tag-received_byte q id rq rq' b e = ground arith

hash_twice :
    (d : Bool) (h : List ℕ) (b : ℕ) (c : List ℕ)
    → (if d then (if d then h ++ b ∷ [] else h) ++ c else (if d then h ++ b ∷ [] else h))
      ≡ (if d then h ++ b ∷ c else h)
hash_twice true h b c = append_one h b c
hash_twice false h b c = refl

module _ (w : Wire) where
  one_pdu : (q : Queue) (b : ℕ) → InPdu q → 1 ≤ q.pdu_remaining → feed w q b ≡ take_pdu w q (b ∷ [])
  unfolding feed
  one_pdu q b p h = ground arith

  more_pdu :
      (q : Queue) (b : ℕ)
      → InPdu q
      → 2 ≤ q.pdu_remaining
      → ((q' : Queue) × (take_pdu w q (b ∷ []) ≡ ok q')
          × InPdu q'
          × (q'.pdu_remaining + 1 ≡ q.pdu_remaining)
          × ((c : List ℕ) → take_pdu w q (b ∷ c) ≡ take_pdu w q' c))
        ⊎ ((e : Error) × (l : List Event) × ((c : List ℕ) → take_pdu w q (b ∷ c) ≡ err e l))
  unfolding take_pdu
  more_pdu q b p h = inl (
    record q { pdu = q.pdu ++ b ∷ []; pdu_remaining = q.pdu_remaining - 1 },
    ground arith,
    tt,
    omega arith,
    λ c. rw (take_pdu, append_one q.pdu b c, sub_one q.pdu_remaining (length c)),
  )

  one_ddgst :
      (q : Queue) (b : ℕ) → InDdgst q → 1 ≤ q.ddgst_remaining → feed w q b ≡ take_ddgst w q (b ∷ [])
  unfolding feed
  one_ddgst q b p h = ground arith

  more_ddgst :
      (q : Queue) (b : ℕ)
      → InDdgst q
      → 2 ≤ q.ddgst_remaining
      → ((q' : Queue) × (take_ddgst w q (b ∷ []) ≡ ok q')
          × InDdgst q'
          × (q'.ddgst_remaining + 1 ≡ q.ddgst_remaining)
          × ((c : List ℕ) → take_ddgst w q (b ∷ c) ≡ take_ddgst w q' c))
        ⊎ ((e : Error) × (l : List Event) × ((c : List ℕ) → take_ddgst w q (b ∷ c) ≡ err e l))
  unfolding take_ddgst
  more_ddgst q b p h = inl (
    record q { recv_ddgst = q.recv_ddgst ++ b ∷ []; ddgst_remaining = q.ddgst_remaining - 1 },
    ground arith,
    p,
    omega arith,
    λ c. rw (take_ddgst, append_one q.recv_ddgst b c, sub_one q.ddgst_remaining (length c)),
  )

  one_data :
      (q : Queue) (b : ℕ) → InData q → 1 ≤ q.data_remaining → feed w q b ≡ take_data w q (b ∷ [])
  unfolding feed
  one_data q b p h = ground arith

  first_byte :
      (q : Queue) (b : ℕ) (rq rq' : Req)
      → tag_to_rq q (w.parse q.pdu).command_id ≡ some rq
      → receive rq (b ∷ []) ≡ some rq'
      → 2 ≤ q.data_remaining
      → take_data w q (b ∷ []) ≡ ok (received_byte q (w.parse q.pdu).command_id rq' b)
  unfolding take_data
  first_byte q b rq rq' e r h = rw (take_data, e, r) (ground arith)

  next_bytes :
      (q : Queue) (b : ℕ) (c : List ℕ) (rq rq' : Req)
      → tag_to_rq q (w.parse q.pdu).command_id ≡ some rq
      → receive rq (b ∷ []) ≡ some rq'
      → take_data w q (b ∷ c) ≡ take_data w (received_byte q (w.parse q.pdu).command_id rq' b) c
  unfolding take_data
  next_bytes q b c rq rq' e r =
      let id = (w.parse q.pdu).command_id in
      let t = tag-received_byte q id rq rq' b e in
      elim (Option-cases (receive rq' c)) [
        | inl n ↦ rw (take_data, e, receive-cons rq b c, r, t, n)
        | inr (rq'', r') ↦ rw (
          take_data,
          e,
          receive-cons rq b c,
          r,
          t,
          r',
          update_twice q.rqs id (some rq') (some rq''),
          hash_twice q.data_digest q.hash b c,
          sub_one q.data_remaining (length c),
        )
      ]

  more_data :
      (q : Queue) (b : ℕ)
      → InData q
      → 2 ≤ q.data_remaining
      → ((q' : Queue) × (take_data w q (b ∷ []) ≡ ok q')
          × InData q'
          × (q'.data_remaining + 1 ≡ q.data_remaining)
          × ((c : List ℕ) → take_data w q (b ∷ c) ≡ take_data w q' c))
        ⊎ ((e : Error) × (l : List Event) × ((c : List ℕ) → take_data w q (b ∷ c) ≡ err e l))
  unfolding take_data
  more_data q b p h =
      let id = (w.parse q.pdu).command_id in
      elim (Option-cases (tag_to_rq q id)) [
        | inl n ↦ inr (enoent, q.events, λ c. rw (take_data, n))
        | inr (rq, e) ↦ elim (Option-cases (receive rq (b ∷ []))) [
          | inl n ↦ inr (eio, q.events, λ c. rw (take_data, e, receive-cons rq b c, n))
          | inr (rq', r) ↦ inl (
            received_byte q id rq' b,
            first_byte q b rq rq' e r h,
            p,
            omega arith,
            λ c. next_bytes q b c rq rq' e r,
          )
        ]
      ]

  pub pdu-feeds :
      (q : Queue) (b : ℕ) (c : List ℕ)
      → InPdu q
      → length (b ∷ c) ≤ q.pdu_remaining
      → take_pdu w q (b ∷ c) ≡ feeds w q (b ∷ c)
  pdu-feeds = takes-feeds w (take_pdu w) (λ q. q.pdu_remaining) InPdu one_pdu more_pdu

  pub ddgst-feeds :
      (q : Queue) (b : ℕ) (c : List ℕ)
      → InDdgst q
      → length (b ∷ c) ≤ q.ddgst_remaining
      → take_ddgst w q (b ∷ c) ≡ feeds w q (b ∷ c)
  ddgst-feeds = takes-feeds w (take_ddgst w) (λ q. q.ddgst_remaining) InDdgst one_ddgst more_ddgst

  pub data-feeds :
      (q : Queue) (b : ℕ) (c : List ℕ)
      → InData q
      → length (b ∷ c) ≤ q.data_remaining
      → take_data w q (b ∷ c) ≡ feeds w q (b ∷ c)
  data-feeds = takes-feeds w (take_data w) (λ q. q.data_remaining) InData one_data more_data
