-- ===== src/Tcp/Send/Stream.antt =====
-- drivers/nvme/host/tcp.c: the caravan as a byte stream. What the socket has taken and what the caravan
-- holds grow at the end only, by the PDUs and the data of one request, in order and without a gap.
use blk_switch.Common.{
  ℕ, zero, suc, Option, List, [], ◌∷◌, none, some, true, false, ◌+◌, ◌≡◌, arith, Bool-cases,
  Option-cases, inl, inr, refl, min, ◌-◌, if◌then◌else◌,
}
use blk_switch.Tcp.{send_cmd_pdu, send_h2c_pdu, send_data}
use blk_switch.Tcp.Doorbell.{Host, Sent}
use blk_switch.Tcp.Send.{
  Chunk, took, Ret, one, nothing, failed, Sender, Socket, load, is_caravan_full, cut, bytes_of,
}
use blk_switch.Tcp.Send.Parts.{
  try_send_cmd_pdu, try_send_data_pdu, data_round, data_sent_some, data_complete, data_advance,
  try_send_data, has_inline_data, cur_chunk,
}
use blk_switch.Tcp.Send.Try.{is_state, is_one, done, from_ddgst, from_data, from_h2c, send_parts}
use blk_switch.Tcp.Send.Loads.{
  Leaves, Leaves-map, IsPlain, Loads, Loads-trans, Loads-none, load-Loads, try_send_cmd_pdu-Loads,
  try_send_data_pdu-Loads,
}

module _ (h : Host) (s : Socket) (r : Sent) where
  -- A round of the data loop that has the space.
  abbrev data_loaded : Sender → Sender
  data_loaded q = record (load (cur_chunk h s r q) q) { nr_mapped = q.nr_mapped + 1 }

  data_loads :
      (q : Sender)
      → IsPlain h s r q
      → is_caravan_full q ≡ false
      → data_round h s r q
        ≡ data_sent_some h s r (cur_chunk h s r q) (data_loaded q) (took (cur_chunk h s r q).len)
  unfolding data_round
  data_loads q (l, _, _) f = rw (data_round, l, f)

  data_waits :
      (q : Sender)
      → IsPlain h s r q
      → is_caravan_full q ≡ true
      → data_round h s r q ≡ (record q { send_now = true }, some one)
  unfolding data_round
  data_waits q (l, _, _) f = rw (data_round, l, f)

  data_sent_some-Loads :
      (q : Sender)
      → IsPlain h s r q
      → Loads h s r q
          (data_sent_some h s r
            (cur_chunk h s r q)
            (data_loaded q)
            (took (cur_chunk h s r q).len)).0
  unfolding data_sent_some data_complete data_advance cur_chunk load
  data_sent_some-Loads q (l, d, st) =
      load-Loads h s r (cur_chunk h s r q) q
        (data_sent_some h s r (cur_chunk h s r q) (data_loaded q) (took (cur_chunk h s r q).len)).0
        (l, d, st) (ground arith, ground arith, ground arith) (ground arith) (ground arith)
        (refl, refl) (ground arith)

  data_round-Loads : (q : Sender) → IsPlain h s r q → Loads h s r q (data_round h s r q).0
  data_round-Loads q p = elim (Bool-cases (is_caravan_full q)) [
    | inl f ↦
        rw (data_waits q p f) (Loads-none h s r q (record q { send_now = true }) p refl refl refl)
    | inr f ↦ rw (data_loads q p f) (data_sent_some-Loads q p)
  ]

  try_send_data-Loads :
      (fuel : ℕ) (q : Sender)
      → IsPlain h s r q
      → Leaves (Loads h s r q) (try_send_data h s fuel r q)
  unfolding try_send_data
  try_send_data-Loads zero q p = tt
  try_send_data-Loads (suc fuel) q p =
      let l = data_round-Loads q p in
      let q1 = (data_round h s r q).0 in
      elim (Option-cases (data_round h s r q).1) [
        | inl n ↦
            rw (try_send_data, n)
              (Leaves-map (try_send_data h s fuel r q1) (λ q2. Loads-trans h s r q q1 q2 l)
                (try_send_data-Loads fuel q1 l.0))
        | inr (x, n) ↦ rw (try_send_data, n) l
      ]

  from_ddgst-plain : (q : Sender) (ret : Ret) → IsPlain h s r q → (from_ddgst h s r q ret).0 ≡ q
  unfolding from_ddgst
  from_ddgst-plain q ret (_, _, st) = rw (from_ddgst, st)

  from_ddgst-Loads :
      (q : Sender) (ret : Ret) → IsPlain h s r q → Loads h s r q (from_ddgst h s r q ret).0
  from_ddgst-Loads q ret p = rw (from_ddgst-plain q ret p) (Loads-none h s r q q p refl refl refl)

  behind_data :
      (o : Option (Sender × Ret)) (q : Sender)
      → Leaves (Loads h s r q) o
      → Leaves (Loads h s r q) (elim o as (λ x. Option (Sender × Ret)) [
        | none ↦ none
        | some (q', ret') ↦ some (if is_one ret' then from_ddgst h s r q' ret' else (q', done ret'))
      ])
  behind_data none q l = tt
  behind_data (some (q', one)) q l =
      Loads-trans h s r q q' (from_ddgst h s r q' one).0 l (from_ddgst-Loads q' one l.0)
  behind_data (some (q', nothing)) q l = l
  behind_data (some (q', failed e)) q l = l

  from_data-Loads :
      (fuel : ℕ) (q : Sender) (ret : Ret)
      → IsPlain h s r q
      → Leaves (Loads h s r q) (from_data h s fuel r q ret)
  unfolding from_data
  from_data-Loads fuel q ret p = elim (Bool-cases (is_state (q.reqs r.tag).state send_data)) [
    | inr n ↦ rw (from_data, n) (from_ddgst-Loads q ret p)
    | inl t ↦
        rw (from_data, t)
          (behind_data (try_send_data h s fuel r q) q (try_send_data-Loads fuel q p))
  ]

  from_h2c-Loads :
      (fuel : ℕ) (q : Sender) (ret : Ret)
      → IsPlain h s r q
      → Leaves (Loads h s r q) (from_h2c h s fuel r q ret)
  unfolding from_h2c
  from_h2c-Loads fuel q ret p =
      let l = try_send_data_pdu-Loads h s r q p in
      let q1 = (try_send_data_pdu h s r q).0 in
      elim (Bool-cases (is_state (q.reqs r.tag).state send_h2c_pdu)) [
        | inr n ↦ rw (from_h2c, n) (from_data-Loads fuel q ret p)
        | inl t ↦ elim (Bool-cases (is_one (try_send_data_pdu h s r q).1)) [
          | inr n ↦ rw (from_h2c, t, n) l
          | inl o ↦
              rw (from_h2c, t, o)
                (Leaves-map (from_data h s fuel r q1 (try_send_data_pdu h s r q).1)
                  (λ q2. Loads-trans h s r q q1 q2 l)
                  (from_data-Loads fuel q1 (try_send_data_pdu h s r q).1 l.0))
        ]
      ]

  pub send_parts-Loads :
      (fuel : ℕ) (q : Sender) → IsPlain h s r q → Leaves (Loads h s r q) (send_parts h s fuel r q)
  unfolding send_parts
  send_parts-Loads fuel q p =
      let l = try_send_cmd_pdu-Loads h s r q p in
      let q1 = (try_send_cmd_pdu h s r q).0 in
      elim (Bool-cases (is_state (q.reqs r.tag).state send_cmd_pdu)) [
        | inr n ↦ rw (send_parts, n) (from_h2c-Loads fuel q one p)
        | inl t ↦ elim (Bool-cases (is_one (try_send_cmd_pdu h s r q).1)) [
          | inr n ↦ rw (send_parts, t, n) l
          | inl o ↦ elim (Bool-cases (has_inline_data q1 (q1.reqs r.tag))) [
            | inr n ↦ rw (send_parts, t, o, n) l
            | inl i ↦
                rw (send_parts, t, o, i)
                  (Leaves-map (from_h2c h s fuel r q1 (try_send_cmd_pdu h s r q).1)
                    (λ q2. Loads-trans h s r q q1 q2 l)
                    (from_h2c-Loads fuel q1 (try_send_cmd_pdu h s r q).1 l.0))
          ]
        ]
      ]

pub cut_all : (cs : List Chunk) → cut (bytes_of cs) cs ≡ cs
cut_all [] = refl
cut_all (c ∷ cs) =
    let m : min (c.len + bytes_of cs) c.len ≡ c.len = omega arith in
    let d : c.len + bytes_of cs - c.len ≡ bytes_of cs = omega arith in rw (m, d, cut_all cs)
