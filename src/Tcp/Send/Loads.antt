-- ===== src/Tcp/Send/Loads.antt =====
-- drivers/nvme/host/tcp.c: a PDU that is sent extends the byte stream of the socket at its end.
use blk_switch.Common.{
  ℕ, Option, List, [], ◌∷◌, ◌++◌, none, some, true, false, ◌+◌, ◌≡◌, arith, Bool-cases, inl, inr,
  refl, ◌||◌, sym, ◌∙◌,
}
use mathlib.Core.List.{append_assoc, append-nil}
use blk_switch.Tcp.{send_ddgst}
use blk_switch.Tcp.Doorbell.{Host, Sent, is_legacy_path, is_nodelay_path}
use blk_switch.Tcp.Send.{
  Part, cmd_pdu, h2c_pdu, payload, ddgst, Chunk, Ret, one, Sender, Socket, load, is_caravan_full,
}
use blk_switch.Tcp.Send.Parts.{
  send_pdu, try_send_cmd_pdu, cmd_pdu_sent, try_send_data_pdu, data_pdu_sent, cmd_chunk, h2c_chunk,
}
use blk_switch.Tcp.Send.Try.{is_state}

-- The stream as it leaves in the end.
abbrev pub stream : Sender → List Chunk
stream q = q.out ++ q.caravan_iovs

-- A part of the request `t`, which starts at the position `a` of its data; a digest is none.
abbrev pub Fits : Part → (t a start : ℕ) → Type 0
Fits (payload t') t a start = (t' ≡ t) × (start ≡ a)
Fits (cmd_pdu t') t a start = t' ≡ t
Fits (h2c_pdu t') t a start = t' ≡ t
Fits (ddgst t') t a start = ⊥

-- The position behind a part.
abbrev pub past : Part → (a len : ℕ) → ℕ
past (payload t) a len = a + len
past (cmd_pdu t) a len = a
past (h2c_pdu t) a len = a
past (ddgst t) a len = a

-- Chunks of the request `t` alone, with its data from `a` to `b` in order and without a gap, and no
-- digest.
abbrev pub Covers : (t a b : ℕ) → List Chunk → Type 0
Covers t a b [] = a ≡ b
Covers t a b (c ∷ cs) = Fits c.part t a c.start × Covers t (past c.part a c.len) b cs

Covers-append :
    (t a b c : ℕ) (xs ys : List Chunk) → Covers t a b xs → Covers t b c ys → Covers t a c (xs ++ ys)
Covers-append t a b c [] ys p q = rw p q
Covers-append t a b c (x ∷ xs) ys (f, p) q =
    (f, Covers-append t (past x.part a x.len) b c xs ys p q)

-- What holds of the state that an operation leaves, where it ends.
abbrev pub Leaves : (Sender → Type 0) → Option (Sender × Ret) → Type 0
Leaves P none = Unit
Leaves P (some (q, ret)) = P q

pub Leaves-map :
    {P Q : Sender → Type 0} (o : Option (Sender × Ret))
    → ((q : Sender) → P q → Q q)
    → Leaves P o
    → Leaves Q o
Leaves-map none f l = tt
Leaves-map (some (q, ret)) f l = f q l

module _ (h : Host) (s : Socket) (r : Sent) where
  -- A queue of the caravan path that digests no data, with a request that waits for no digest.
  abbrev pub IsPlain : Sender → Type 0
  IsPlain q =
      (is_legacy_path h q.bell ≡ false)
      × (q.data_digest ≡ false)
      × (is_state (q.reqs r.tag).state send_ddgst ≡ false)

  -- The chunks that were loaded between two states, and no more.
  pub record Loaded (q q' : Sender) (new : List Chunk) : Type 0 where
    pub out : q'.out ≡ q.out
    pub caravan : q'.caravan_iovs ≡ q.caravan_iovs ++ new
    pub covers : Covers r.tag (q.reqs r.tag).data_sent (q'.reqs r.tag).data_sent new

  -- An operation that loads what it sends.
  abbrev pub Loads : Sender → Sender → Type 0
  Loads q q' = IsPlain q' × (new : List Chunk) × Loaded q q' new

  pub Loads-trans : (q q1 q2 : Sender) → Loads q q1 → Loads q1 q2 → Loads q q2
  Loads-trans q q1 q2 (_, n1, l1) (p, n2, l2) = (
    p,
    n1 ++ n2,
    record {
      out = l2.out ∙ l1.out;
      caravan = rw (l2.caravan, l1.caravan) (append_assoc q.caravan_iovs n1 n2);
      covers = Covers-append r.tag _ _ _ n1 n2 l1.covers l2.covers;
    },
  )

  -- Nothing is loaded where the caravan and the position stay.
  pub Loads-none :
      (q q' : Sender)
      → IsPlain q'
      → q'.out ≡ q.out
      → q'.caravan_iovs ≡ q.caravan_iovs
      → (q'.reqs r.tag).data_sent ≡ (q.reqs r.tag).data_sent
      → Loads q q'
  Loads-none q q' p o c d =
      (p, [], record { out = o; caravan = c ∙ sym (append-nil q.caravan_iovs); covers = sym d })

  cmd_pdu_sent-Loads : (len n : ℕ) (q : Sender) → IsPlain q → Loads q (cmd_pdu_sent h s r len n q).0
  unfolding cmd_pdu_sent
  cmd_pdu_sent-Loads len n q p =
      Loads-none q (cmd_pdu_sent h s r len n q).0 (ground arith) (ground arith) (ground arith)
        (ground arith)

  data_pdu_sent-Loads :
      (len n : ℕ) (q : Sender) → IsPlain q → Loads q (data_pdu_sent h s r len n q).0
  unfolding data_pdu_sent
  data_pdu_sent-Loads len n q p =
      Loads-none q (data_pdu_sent h s r len n q).0 (ground arith) (ground arith) (ground arith)
        (ground arith)

  pub load-Loads :
      (c : Chunk) (q q' : Sender)
      → IsPlain q
      → IsPlain q'
      → q'.out ≡ q.out
      → q'.caravan_iovs ≡ (load c q).caravan_iovs
      → Fits c.part r.tag (q.reqs r.tag).data_sent c.start
      → (q'.reqs r.tag).data_sent ≡ past c.part (q.reqs r.tag).data_sent c.len
      → Loads q q'
  unfolding load
  load-Loads c q q' p p' o cv f d =
      (p', c ∷ [], record { out = o; caravan = cv; covers = (f, sym d) })

  -- What `nvme_tcp_try_send_cmd_pdu` leaves for the part behind the test of `ret`.
  abbrev cmd_loaded : Sender → Sender
  cmd_loaded q = record (load (cmd_chunk h s r q) q) {
    send_now = is_nodelay_path h r || q.send_now;
  }

  cmd_loads :
      (q : Sender)
      → IsPlain q
      → is_caravan_full q ≡ false
      → try_send_cmd_pdu h s r q
        ≡ cmd_pdu_sent h s r (cmd_chunk h s r q).len (cmd_chunk h s r q).len (cmd_loaded q)
  unfolding try_send_cmd_pdu send_pdu load
  cmd_loads q (l, _, _) f = rw (try_send_cmd_pdu, send_pdu, l, f, l)

  cmd_waits :
      (q : Sender)
      → IsPlain q
      → is_caravan_full q ≡ true
      → try_send_cmd_pdu h s r q ≡ (record q { send_now = true }, one)
  unfolding try_send_cmd_pdu send_pdu
  cmd_waits q (l, _, _) f = rw (try_send_cmd_pdu, send_pdu, l, f)

  pub try_send_cmd_pdu-Loads : (q : Sender) → IsPlain q → Loads q (try_send_cmd_pdu h s r q).0
  unfolding cmd_chunk load
  try_send_cmd_pdu-Loads q p = elim (Bool-cases (is_caravan_full q)) [
    | inl f ↦ rw (cmd_waits q p f) (Loads-none q (record q { send_now = true }) p refl refl refl)
    | inr f ↦ rw (cmd_loads q p f) (
        Loads-trans q (cmd_loaded q)
          (cmd_pdu_sent h s r (cmd_chunk h s r q).len (cmd_chunk h s r q).len (cmd_loaded q)).0
          (load-Loads (cmd_chunk h s r q) q (cmd_loaded q) p p refl refl refl refl)
          (cmd_pdu_sent-Loads (cmd_chunk h s r q).len (cmd_chunk h s r q).len (cmd_loaded q) p))
  ]

  h2c_loads :
      (q : Sender)
      → IsPlain q
      → is_caravan_full q ≡ false
      → try_send_data_pdu h s r q
        ≡ data_pdu_sent h s r
            (h2c_chunk h s r q).len
            (h2c_chunk h s r q).len
            (load (h2c_chunk h s r q) q)
  unfolding try_send_data_pdu send_pdu
  h2c_loads q (l, _, _) f = rw (try_send_data_pdu, send_pdu, l, f)

  h2c_waits :
      (q : Sender)
      → IsPlain q
      → is_caravan_full q ≡ true
      → try_send_data_pdu h s r q ≡ (record q { send_now = true }, one)
  unfolding try_send_data_pdu send_pdu
  h2c_waits q (l, _, _) f = rw (try_send_data_pdu, send_pdu, l, f)

  pub try_send_data_pdu-Loads : (q : Sender) → IsPlain q → Loads q (try_send_data_pdu h s r q).0
  unfolding h2c_chunk load
  try_send_data_pdu-Loads q p = elim (Bool-cases (is_caravan_full q)) [
    | inl f ↦ rw (h2c_waits q p f) (Loads-none q (record q { send_now = true }) p refl refl refl)
    | inr f ↦ rw (h2c_loads q p f) (
        Loads-trans q (load (h2c_chunk h s r q) q)
          (data_pdu_sent h s r (h2c_chunk h s r q).len (h2c_chunk h s r q).len
            (load (h2c_chunk h s r q) q)).0
          (load-Loads (h2c_chunk h s r q) q (load (h2c_chunk h s r q) q) p p refl refl refl refl)
          (data_pdu_sent-Loads (h2c_chunk h s r q).len (h2c_chunk h s r q).len
            (load (h2c_chunk h s r q) q) p))
  ]
