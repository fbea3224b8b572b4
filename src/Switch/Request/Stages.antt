-- ===== src/Switch/Request/Stages.antt =====
-- The stages of an allocation: which of them can move a request, and that no stage but the last
-- touches the byte counters.
use blk_switch.Common.{
  ℕ, Bool, Option, none, some, false, not, ◌+◌, ◌*◌, ◌≡◌, inl, inr, refl, arith, ◌∙◌, Bool-cases,
  Option-cases, pos_part, sym, u32, ◌==◌, leb, ◌&&◌,
}
use mathlib.Core.Path.{subst}
use blk_switch.Common.Map.{update}
use blk_switch.Switch.{Switch, Params, Kernel, is_thru_request, is_switch_request}
use blk_switch.Switch.Reset.{cores_in_use}
use blk_switch.Switch.Metric.{update_metrics}
use blk_switch.Switch.AppTarget.{find_target, node_cores}
use blk_switch.Switch.AppSteer.{AppSteered, take_turn, drop_metric, leave, steer_app}
use blk_switch.Switch.Queue.{fabric_of, Queue, Flags, Place}
use blk_switch.Switch.ReqSteer.{ReqSteered, busy_target, has_room, place_at, steer_request}
use blk_switch.Switch.Request.{Call, app_stage, req_stage}

-- The byte counters of two states are the same.
abbrev pub SameBytes : Switch → Switch → Type 0
SameBytes s s' = (s.t_bytes ≡ s'.t_bytes) × (s.l_bytes ≡ s'.l_bytes)

SameBytes-trans : (a b c : Switch) → SameBytes a b → SameBytes b c → SameBytes a c
SameBytes-trans a b c h k = (h.0 ∙ k.0, h.1 ∙ k.1)

SameBytes-metrics :
    (thru : Bool) (size cpu : ℕ) (s : Switch) → SameBytes (update_metrics thru size cpu s) s
unfolding update_metrics
SameBytes-metrics thru size cpu s = (refl, refl)

SameBytes-turn :
    (k : Kernel) (nr tested set : ℕ) (s : Switch) → SameBytes (take_turn k nr tested set s) s
unfolding take_turn
SameBytes-turn k nr tested set s = ground arith

SameBytes-drop :
    (thru : Bool) (active cpu : ℕ) (s : Switch) → SameBytes (drop_metric thru active cpu s) s
unfolding drop_metric
SameBytes-drop thru active cpu s = ground arith

SameBytes-leave :
    (t : Option ℕ) (thru : Bool) (active cpu : ℕ) (s : Switch)
    → SameBytes (leave t thru active cpu s) s
SameBytes-leave none thru active cpu s = (refl, refl)
SameBytes-leave (some t) thru active cpu s = SameBytes-drop thru active cpu s

SameBytes-steer_app :
    (k : Kernel) (q : Queue) (f : Flags) (nr tested set : ℕ) (after : Option ℕ → ℕ) (thru : Bool)
    (size : ℕ) (place : Place) (s : Switch)
    → SameBytes (steer_app k q f nr tested set after thru size place s).switch s
unfolding steer_app
SameBytes-steer_app k q f nr tested set after thru size place s =
    let turned = take_turn k nr tested set (update_metrics thru size place.ctx s) in
    let h = q.hctx place.hctx in
    let target = find_target turned thru place.ctx (node_cores nr k.num_online_nodes h.numa_node) in
    let left = leave target thru h.active_queues place.ctx turned in
    let same =
      SameBytes-trans left turned s (SameBytes-leave target thru h.active_queues place.ctx turned) (
        SameBytes-trans turned (update_metrics thru size place.ctx s) s
          (SameBytes-turn k nr tested set (update_metrics thru size place.ctx s))
          (SameBytes-metrics thru size place.ctx s)) in
    elim (Bool-cases (after target == place.ctx)) [ inl t ↦ rw t same | inr n ↦ rw n same ]

SameBytes-place_at :
    (p : Params) (k : Kernel) (q : Queue) (random : ℕ → ℕ) (nr : ℕ) (f : Flags) (t : ℕ)
    (place : Place) (s : Switch)
    → SameBytes (place_at p k q random nr f t place s).switch s
unfolding place_at
SameBytes-place_at p k q random nr f t place s = ground arith

abbrev busy_count : Place → Switch → Switch
busy_count place s = record s {
  stats_str = update s.stats_str place.ctx (u32 (s.stats_str place.ctx + 1));
}

abbrev unsteered : AppSteered → ReqSteered
unsteered a = record { switch = a.switch; place = a.place; steered = false }

SameBytes-steer_request :
    (p : Params) (k : Kernel) (q : Queue) (random : ℕ → ℕ) (nr : ℕ) (f : Flags) (fuel : ℕ)
    (place : Place) (s : Switch) {r : ReqSteered}
    → steer_request p k q random nr f fuel place s ≡ some r
    → SameBytes r.switch s
unfolding steer_request
SameBytes-steer_request p k q random nr f fuel place s {r = r} h =
    elim (Bool-cases (has_room p k q random nr place)) [
      | inl t ↦
          let e : some (place_at p k q random nr f place.ctx place s) ≡ some r = rw t at h in
          let same : place_at p k q random nr f place.ctx place s ≡ r = cc in
          subst (λ x. SameBytes x.switch s) same
            (SameBytes-place_at p k q random nr f place.ctx place s)
      | inr n ↦ elim (Option-cases (busy_target p k q random nr fuel place (busy_count place s))) [
        | inl e ↦ absurd (ground arith)
        | inr (c, e) ↦
            let found : some (place_at p k q random nr f c place (busy_count place s)) ≡ some r =
              sym (rw (n, e, steer_request)) ∙ h in
            let same : place_at p k q random nr f c place (busy_count place s) ≡ r = cc in
            subst (λ x. SameBytes x.switch s) same
              (SameBytes-place_at p k q random nr f c place (busy_count place s))
      ]
    ]

module _ (p : Params) (k : Kernel) where
  SameBytes-app_stage :
      (c : Call) (q : Queue) (place : Place) (s : Switch)
      → SameBytes (app_stage p k c q place s).switch s
  unfolding app_stage
  SameBytes-app_stage c q place s =
      elim (Bool-cases (
        leb 2 (pos_part p.switch_on)
        && is_switch_request (fabric_of (q.hctx place.hctx).blk_switch) c.bio)) [
          | inl t ↦ rw t (SameBytes-steer_app k q c.flags _ _ _ _ _ _ place s)
          | inr n ↦ rw n (refl, refl)
        ]

  SameBytes-req_stage :
      (c : Call) (q : Queue) (a : AppSteered) {r : ReqSteered}
      → req_stage p k c q a ≡ some r
      → SameBytes r.switch a.switch
  unfolding req_stage
  SameBytes-req_stage c q a {r = r} h =
      elim (Bool-cases (
        leb 1 (pos_part p.switch_on)
        && is_switch_request (fabric_of (q.hctx a.place.hctx).blk_switch) c.bio
        && is_thru_request k c.bio
        && not a.moved
        && leb (k.num_online_nodes * 2) (cores_in_use p k))) [
          | inl t ↦
              SameBytes-steer_request p k q c.random (cores_in_use p k) c.flags c.fuel a.place
                a.switch (rw t at h)
          | inr n ↦
              let e : some (unsteered a) ≡ some r = rw n at h in
              let same : unsteered a ≡ r = cc in
              subst (λ x. SameBytes x.switch a.switch) same (refl, refl)
        ]

  -- Neither kind of steering touches the byte counters.
  pub SameBytes-stages :
      (c : Call) (q : Queue) (place : Place) (s : Switch) {r : ReqSteered}
      → req_stage p k c q (app_stage p k c q place s) ≡ some r
      → SameBytes r.switch s
  SameBytes-stages c q place s {r = r} h =
      SameBytes-trans r.switch (app_stage p k c q place s).switch s
        (SameBytes-req_stage c q (app_stage p k c q place s) h) (SameBytes-app_stage c q place s)

  -- With the module parameter at 0 or below no stage moves a request.
  pub stages_off :
      (c : Call) (q : Queue) (place : Place) (s : Switch)
      → pos_part p.switch_on ≡ 0
      → req_stage p k c q (app_stage p k c q place s)
        ≡ some (record { switch = s; place = place; steered = false })
  unfolding req_stage app_stage
  stages_off c q place s z = ground arith

  -- A request of an L-app is never moved to the queue of another core by itself.
  pub req_stage_l :
      (c : Call) (q : Queue) (a : AppSteered)
      → is_thru_request k c.bio ≡ false
      → req_stage p k c q a ≡ some (unsteered a)
  unfolding req_stage
  req_stage_l c q a l = ground arith
