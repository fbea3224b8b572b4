-- ===== src/Target/Respond/Order.antt =====
-- drivers/nvme/target/tcp.c: the two lists of responses implement a queue.
use blk_switch.Common.{
  ℕ, Option, List, [], ◌∷◌, ◌++◌, none, some, ◌+◌, ◌-◌, ◌≡◌, ◌∙◌, ◌⊎◌, inl, inr, List-cases, sym,
  ap, arith, refl, length,
}
use mathlib.Core.Path.{subst}
use mathlib.Core.List.{append_assoc, append-nil}
use blk_switch.Target.{Queue, Link}
use blk_switch.Target.Respond.{
  take_first, move_responses, process_resp_list, refill, queue_response, setup_pdu,
  setup_c2h_data_pdu, setup_r2t_pdu, setup_response_pdu, fetch_cmd,
}

-- A list from its last element to its first, in front of another.
abbrev onto : List ℕ → List ℕ → List ℕ
onto [] ys = ys
onto (x ∷ xs) ys = onto xs (x ∷ ys)

onto-append : (xs ys zs : List ℕ) → onto xs (ys ++ zs) ≡ onto xs ys ++ zs
onto-append [] ys zs = refl
onto-append (x ∷ xs) ys zs = onto-append xs (x ∷ ys) zs

-- The commands that wait to be sent, the one that is sent next first.
unfoldable pub waiting : Queue → List ℕ
waiting q = q.resp_send_list ++ onto q.resp_list []

-- The length of the send list is counted.
unfoldable pub IsCounted : Queue → Type 0
IsCounted q = q.send_list_len ≡ length q.resp_send_list

move_responses_lem :
    (cs : List ℕ) (q : Queue)
    → ((move_responses cs q).resp_send_list ≡ onto cs q.resp_send_list)
      × ((move_responses cs q).resp_list ≡ q.resp_list)
unfolding move_responses
move_responses_lem [] q = (refl, refl)
move_responses_lem (c ∷ cs) q =
    move_responses_lem cs
      (record q { resp_send_list = c ∷ q.resp_send_list; send_list_len = q.send_list_len + 1 })

move_responses-IsCounted : (cs : List ℕ) (q : Queue) → IsCounted q → IsCounted (move_responses cs q)
unfolding move_responses IsCounted
move_responses-IsCounted [] q k = k
move_responses-IsCounted (c ∷ cs) q k =
    move_responses-IsCounted cs
      (record q { resp_send_list = c ∷ q.resp_send_list; send_list_len = q.send_list_len + 1 })
      (ground arith)

process_lem : (q : Queue) → q.resp_send_list ≡ [] → (waiting (process_resp_list q) ≡ waiting q)
unfolding waiting process_resp_list
process_lem q e =
    let (a, b) = move_responses_lem q.resp_list (record q { resp_list = [] }) in
    rw (a, b, e) (append-nil (onto q.resp_list []))

refill-waiting : (q : Queue) → waiting (refill q) ≡ waiting q
unfolding refill
refill-waiting q = elim (List-cases q.resp_send_list) [
  | inl e ↦ ground (arith, process_lem q e)
  | inr (c, cs, e) ↦ ground arith
]

refill-IsCounted : (q : Queue) → IsCounted q → IsCounted (refill q)
unfolding refill process_resp_list IsCounted
refill-IsCounted q k = elim (List-cases q.resp_send_list) [
  | inl e ↦ rw (refill, e) (move_responses-IsCounted q.resp_list (record q { resp_list = [] }) k)
  | inr (c, cs, e) ↦ rw (refill, e) k
]

-- Behind a refill, nothing waits in the second list if nothing waits in the first.
refill-settled : (q : Queue) → (refill q).resp_send_list ≡ [] → (refill q).resp_list ≡ []
unfolding refill process_resp_list
refill-settled q = elim (List-cases q.resp_send_list) [
  | inl e ↦ rw (refill, e) (λ _. (move_responses_lem q.resp_list (record q { resp_list = [] })).1)
  | inr (c, cs, e) ↦ λ n. ground arith
]

setup_pdu-keeps :
    (s : Link) (c : ℕ) (q : Queue)
    → (waiting (setup_pdu s c q) ≡ waiting q)
      × ((setup_pdu s c q).snd_cmd ≡ q.snd_cmd)
      × (IsCounted q → IsCounted (setup_pdu s c q))
unfolding setup_pdu setup_c2h_data_pdu setup_r2t_pdu setup_response_pdu waiting IsCounted
setup_pdu-keeps s c q = (ground arith, ground arith, ground arith)

-- A call of one of the two functions, for a response and for the next command.
pub data Op : Type 0 where
  respond : (c : ℕ) → Op
  fetch : Op

-- What a queue gives for some calls: the state behind them, and what was fetched.
unfoldable pub run : Link → List Op → Queue → Queue × List (Option ℕ)
run s [] q = (q, [])
run s (respond c ∷ ops) q = run s ops (queue_response c q)
run s (fetch ∷ ops) q =
    let next = fetch_cmd s q in let (q', fetched) = run s ops next in (q', next.snd_cmd ∷ fetched)

-- The same for a queue that is first in, first out.
unfoldable pub run_fifo : List Op → List ℕ → List ℕ × List (Option ℕ)
run_fifo [] w = (w, [])
run_fifo (respond c ∷ ops) w = run_fifo ops (w ++ c ∷ [])
run_fifo (fetch ∷ ops) [] = let (w', fetched) = run_fifo ops [] in (w', none ∷ fetched)
run_fifo (fetch ∷ ops) (c ∷ cs) = let (w', fetched) = run_fifo ops cs in (w', some c ∷ fetched)

queue_response-waiting : (c : ℕ) (q : Queue) → waiting (queue_response c q) ≡ waiting q ++ c ∷ []
unfolding waiting queue_response
queue_response-waiting c q = ground (
  arith,
  onto-append q.resp_list [] (c ∷ []),
  append_assoc q.resp_send_list (onto q.resp_list []) (c ∷ []),
)

queue_response-IsCounted : (c : ℕ) (q : Queue) → IsCounted q → IsCounted (queue_response c q)
unfolding queue_response IsCounted
queue_response-IsCounted c q k = ground arith

-- What a call fetches is the first command that waits.
fetch_cmd_lem :
    (s : Link) (q : Queue)
    → ((waiting q ≡ []) × ((fetch_cmd s q).snd_cmd ≡ none) × (waiting (fetch_cmd s q) ≡ []))
      ⊎ ((c : ℕ) × (cs : List ℕ) × (waiting q ≡ c ∷ cs)
          × ((fetch_cmd s q).snd_cmd ≡ some c)
          × (waiting (fetch_cmd s q) ≡ cs))
unfolding fetch_cmd waiting take_first
fetch_cmd_lem s q =
    let f = refill q in
    let w = refill-waiting q in
    elim (List-cases f.resp_send_list) [
      | inl e ↦
          let n = refill-settled q e in
          let z : waiting f ≡ [] = rw (e, n) refl in
          let t : fetch_cmd s q ≡ take_first s [] f = ap (λ l. take_first s l f) e in
          inl (sym w ∙ z, ap (λ x. x.snd_cmd) t, ap waiting t ∙ z)
      | inr (c, cs, e) ↦
          let taken = record f {
            snd_cmd = some c;
            resp_send_list = cs;
            send_list_len = f.send_list_len - 1;
          } in
          let (k, l, _) = setup_pdu-keeps s c taken in
          let t : fetch_cmd s q ≡ take_first s (c ∷ cs) f = ap (λ l. take_first s l f) e in
          inr (
            c,
            cs ++ onto f.resp_list [],
            sym w ∙ ap (λ x. x ++ onto f.resp_list []) e,
            ap (λ x. x.snd_cmd) t ∙ l,
            ap waiting t ∙ k,
          )
    ]

fetch_cmd-IsCounted : (s : Link) (q : Queue) → IsCounted q → IsCounted (fetch_cmd s q)
unfolding fetch_cmd take_first IsCounted
fetch_cmd-IsCounted s q k =
    let f = refill q in
    let fk = refill-IsCounted q k in
    elim (List-cases f.resp_send_list) [
      | inl e ↦ subst (λ l. IsCounted (take_first s l f)) (sym e) fk
      | inr (c, cs, e) ↦
          let (_, _, i) = setup_pdu-keeps s c (record f {
            snd_cmd = some c;
            resp_send_list = cs;
            send_list_len = f.send_list_len - 1;
          }) in
          subst (λ l. IsCounted (take_first s l f)) (sym e) (i (ground arith))
    ]

-- The two lists of responses are a queue: whatever the order of the calls, the commands are fetched in
-- the order in which their responses were queued, each once, and the length of the send list is right.
pub run-eq-run_fifo :
    (s : Link) (ops : List Op) (q : Queue)
    → IsCounted q
    → ((run s ops q).1 ≡ (run_fifo ops (waiting q)).1)
      × (waiting (run s ops q).0 ≡ (run_fifo ops (waiting q)).0)
      × IsCounted (run s ops q).0
unfolding run run_fifo
run-eq-run_fifo s [] q k = (refl, refl, k)
run-eq-run_fifo s (respond c ∷ ops) q k =
    subst
      (λ w.
        ((run s ops (queue_response c q)).1 ≡ (run_fifo ops w).1)
        × (waiting (run s ops (queue_response c q)).0 ≡ (run_fifo ops w).0)
        × IsCounted (run s ops (queue_response c q)).0)
      (queue_response-waiting c q)
      (run-eq-run_fifo s ops (queue_response c q) (queue_response-IsCounted c q k))
run-eq-run_fifo s (fetch ∷ ops) q k =
    let (a, b, d) = run-eq-run_fifo s ops (fetch_cmd s q) (fetch_cmd-IsCounted s q k) in
    elim (fetch_cmd_lem s q) [
      | inl (e, n, z) ↦
          rw (run_fifo, e)
            (
              ap (λ x. x ∷ (run s ops (fetch_cmd s q)).1) n
                  ∙ ap (λ l. none ∷ l) (a ∙ ap (λ w. (run_fifo ops w).1) z),
              b ∙ ap (λ w. (run_fifo ops w).0) z,
              d,
            )
      | inr (c, cs, e, n, z) ↦
          rw (run_fifo, e)
            (
              ap (λ x. x ∷ (run s ops (fetch_cmd s q)).1) n
                  ∙ ap (λ l. some c ∷ l) (a ∙ ap (λ w. (run_fifo ops w).1) z),
              b ∙ ap (λ w. (run_fifo ops w).0) z,
              d,
            )
    ]
