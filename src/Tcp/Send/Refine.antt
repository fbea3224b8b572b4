-- ===== src/Tcp/Send/Refine.antt =====
-- drivers/nvme/host/tcp.c: nvme_tcp_try_send, with its caravan, implements a byte stream.
use blk_switch.Common.{
  ℕ, List, [], ◌++◌, none, some, false, not, ◌&&◌, ◌≤◌, ◌≡◌, inl, inr, arith, refl, sym, ◌∙◌, ap,
  Bool-cases, Option-cases, ltb, ◌==◌,
}
use mathlib.Core.Path.{subst}
use mathlib.Core.List.{append_assoc, append-nil}
use blk_switch.Tcp.{send_ddgst}
use blk_switch.Tcp.Doorbell.{Host, Sent, is_legacy_path}
use blk_switch.Tcp.Send.{Chunk, Answer-cases, took, Ret, Sender, Socket, submit, cut, bytes_of}
use blk_switch.Tcp.Send.Try.{is_state, is_busy, fetch, flush, send_parts, try_send}
use blk_switch.Tcp.Send.Loads.{stream, Covers, Loads, Leaves, Leaves-map}
use blk_switch.Tcp.Send.Stream.{send_parts-Loads, cut_all}

module _ (h : Host) (s : Socket) where
  -- What a call starts from: a queue of the caravan path that digests no data, and a caravan that the
  -- socket takes whole, if it takes it.
  pub record IsReady (q : Sender) : Type 0 where
    pub caravans : is_legacy_path h q.bell ≡ false
    pub undigested : q.data_digest ≡ false
    pub no_digest : (t : ℕ) → is_state (q.reqs t).state send_ddgst ≡ false
    pub weighed : q.caravan_len ≡ bytes_of q.caravan_iovs
    pub whole : (n : ℕ) → s.answer q.calls q.caravan_len ≡ took n → (1 ≤ n) × (n ≡ q.caravan_len)

  fetch-IsReady : (q : Sender) → IsReady q → IsReady (fetch h s q)
  unfolding fetch is_legacy_path
  fetch-IsReady q ready = record {
    caravans = ground (arith, ready.caravans);
    undigested = ground arith;
    no_digest = λ t. ground (arith, ready.no_digest t);
    weighed = ground arith;
    whole = λ n a. ground (arith, ready.whole n);
  }

  stream-fetch : (q : Sender) → stream (fetch h s q) ≡ stream q
  unfolding fetch
  stream-fetch q = ground arith

  reqs-fetch : (q : Sender) → (fetch h s q).reqs ≡ q.reqs
  unfolding fetch
  reqs-fetch q = ground arith

  submit-keeps :
      (len : ℕ) (cs : List Chunk) (q : Sender)
      → ((submit s len cs q).0.reqs ≡ q.reqs)
        × ((submit s len cs q).0.bell ≡ q.bell)
        × ((submit s len cs q).0.data_digest ≡ q.data_digest)
        × ((submit s len cs q).0.request ≡ q.request)
  unfolding submit
  submit-keeps len cs q = elim (Answer-cases (s.answer q.calls len)) [
    | inl (n, a) ↦ rw (submit, a) (refl, refl, refl, refl)
    | inr (e, a) ↦ rw (submit, a) (refl, refl, refl, refl)
  ]

  submit-took :
      (len : ℕ) (cs : List Chunk) (q : Sender) (n : ℕ)
      → s.answer q.calls len ≡ took n
      → ((submit s len cs q).1 ≡ took n) × ((submit s len cs q).0.out ≡ q.out ++ cut n cs)
  unfolding submit
  submit-took len cs q n a = rw (submit, a) (refl, refl)

  -- A flush that leaves the stream, the requests and the path as they are.
  abbrev Kept : Sender → Sender → Type 0
  Kept q q' =
      (stream q' ≡ stream q)
      × (q'.reqs ≡ q.reqs)
      × (q'.bell ≡ q.bell)
      × (q'.data_digest ≡ q.data_digest)
      × (q'.request ≡ q.request)

  flush-Kept : (q : Sender) → IsReady q → Kept q (flush h s q).0
  unfolding flush submit
  flush-Kept q ready = elim (Answer-cases (s.answer q.calls q.caravan_len)) [
    | inr (e, a) ↦ rw (flush, submit, a) (ground arith)
    | inl (n, a) ↦
        let (lo, hi) = ready.whole n a in
        let c : cut n q.caravan_iovs ≡ q.caravan_iovs =
          rw (hi, ready.weighed) (cut_all q.caravan_iovs) in
        let sent = (submit s q.caravan_len q.caravan_iovs q).0 in
        let (took_n, out) = submit-took q.caravan_len q.caravan_iovs q n a in
        let keeps = submit-keeps q.caravan_len q.caravan_iovs q in
        let z : (n == 0) ≡ false = ground arith in
        elim (Bool-cases q.send_now) [
          | inr f ↦ rw (flush, f) (refl, refl, refl, refl, refl)
          | inl t ↦ elim (Bool-cases (ltb (s.wspace q.calls) q.caravan_len)) [
            | inl b ↦ rw (flush, t, b) (refl, refl, refl, refl, refl)
            | inr b ↦
                rw (flush, t, b, took_n, z)
                  (
                    append-nil sent.out ∙ out ∙ ap (λ x. q.out ++ x) c,
                    keeps.0,
                    keeps.1,
                    keeps.2,
                    keeps.3,
                  )
          ]
        ]
  ]

  -- The specification of a call: the stream grows at its end by the PDUs and the data of the request
  -- that the queue sends, or stays as it is where there is none.
  pub record Extends (q q' : Sender) : Type 0 where
    pub new : List Chunk
    pub grows : stream q' ≡ stream q ++ new
    pub none_new : (fetch h s q).request ≡ none → new ≡ []
    pub covers :
        (r : Sent)
        → (fetch h s q).request ≡ some r
        → Covers r.tag (q.reqs r.tag).data_sent (q'.reqs r.tag).data_sent new

  -- Where sending stops before a part of a request.
  Extends-stop : (q q' : Sender) → stream q' ≡ stream q → q'.reqs ≡ q.reqs → Extends q q'
  Extends-stop q q' e f = record {
    new = [];
    grows = e ∙ sym (append-nil (stream q));
    none_new = λ _. refl;
    covers = λ r _. ap (λ x. (x r.tag).data_sent) (sym f);
  }

  -- The parts of a request behind a flush.
  Extends-parts :
      (q q1 q' : Sender) (r : Sent)
      → stream q1 ≡ stream q
      → q1.reqs ≡ q.reqs
      → (fetch h s q).request ≡ some r
      → Loads h s r q1 q'
      → Extends q q'
  Extends-parts q q1 q' r e f g (_, new, l) = record {
    new = new;
    grows =
        rw (l.out, l.caravan)
          (sym (append_assoc q1.out q1.caravan_iovs new) ∙ ap (λ x. x ++ new) e);
    none_new = λ n. cc;
    covers = λ r' g'.
        let same : r ≡ r' = cc in
        subst (λ x. Covers x.tag (q.reqs x.tag).data_sent (q'.reqs x.tag).data_sent new) same
          (subst (λ x. Covers r.tag (x r.tag).data_sent (q'.reqs r.tag).data_sent new) f l.covers);
  }

  try_send-Leaves : (fuel : ℕ) (q : Sender) → IsReady q → Leaves (Extends q) (try_send h s fuel q)
  unfolding try_send
  try_send-Leaves fuel q ready =
      let f = fetch h s q in
      let g = (flush h s f).0 in
      let fr = fetch-IsReady q ready in
      let (st, rq, bl, dd, rt) = flush-Kept f fr in
      let e = st ∙ stream-fetch q in
      let k = rq ∙ reqs-fetch q in
      elim (Bool-cases (not (is_busy f) && f.caravan_len == 0)) [
        | inl t ↦ rw (try_send, t) (Extends-stop q f (stream-fetch q) (reqs-fetch q))
        | inr t ↦ elim (Option-cases (flush h s f).1) [
          | inr (x, p) ↦ rw (try_send, t, p) (Extends-stop q g e k)
          | inl p ↦ elim (Option-cases g.request) [
            | inl n ↦ rw (try_send, t, p, n) (Extends-stop q g e k)
            | inr (r, n) ↦
                rw (try_send, t, p, n)
                  (Leaves-map (send_parts h s fuel r g)
                    (λ q'. Extends-parts q g q' r e k (sym rt ∙ n))
                    (send_parts-Loads h s r fuel g
                      (rw bl fr.caravans, dd ∙ fr.undigested, rw k (ready.no_digest r.tag))))
          ]
        ]
      ]

  -- On the caravan path without a data digest and without a request that has a digest to send, with
  -- a caravan of the length that its chunks have, which the socket takes whole, if it takes it:
  -- whatever else happens, a call of `nvme_tcp_try_send` extends the byte stream, that is what the
  -- socket has taken and what the caravan holds, at its end alone, by the PDUs and the data of the
  -- request that the queue sends, whose data goes on where it stopped, in order and without a gap; with
  -- no request to send the stream stays as it is.
  pub try_send-Extends :
      (fuel : ℕ) (q q' : Sender) (ret : Ret)
      → IsReady q
      → try_send h s fuel q ≡ some (q', ret)
      → Extends q q'
  try_send-Extends fuel q q' ret ready e =
      subst (λ o. Leaves (Extends q) o) e (try_send-Leaves fuel q ready)
