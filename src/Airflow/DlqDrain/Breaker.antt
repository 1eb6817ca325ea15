-- ===== src/Airflow/DlqDrain/Breaker.antt =====
-- When the DAG of airflow/dags/dlq_drain.py runs a drain, and what it lets through.
use real_time_data_pipeline.Base.{
  ℕ, ◌+◌, ◌≡◌, refl, ap, ◌∙◌, String, true, ◌&&◌, not, List, ◌∷◌, arith, if◌then◌else◌, if_elim,
  Bool-cases, inl, inr,
}
use real_time_data_pipeline.Base.Dict.{Dict, lookup}
use real_time_data_pipeline.Base.Errors.{Exc, Outcome, returned, raised}
use real_time_data_pipeline.Value.{ℤ, pos, Value}
use real_time_data_pipeline.Value.Int.{is_le, same_int}
use real_time_data_pipeline.Bench.Act.{Act, after, pure, lift, ◌>>=◌}
use real_time_data_pipeline.Bench.Act.Sound.{Returns, Returns-weaken, after-Returns, Returns-any}
use real_time_data_pipeline.Bench.Act.Inversion.{after-keeps, after-returned}
use real_time_data_pipeline.Bench.Scenario.{runtime_error}
use real_time_data_pipeline.Airflow.{Services, Python, emit_alert}
use real_time_data_pipeline.Airflow.DlqDrain.{
  Report, Process, count_of, inspect_args, drain_args, run_dlq_tool, inspect_dlq, drain_dlq,
  report_drain, dlq_drain, lost, accounted, refused, as_values, count_at, parked_payload,
  oversize_payload,
}

abbrev in_container : List String → List String
in_container tool_args =
    "docker" ∷ "exec" ∷ "rtdp-producer" ∷ "python" ∷ "-m" ∷ "replay.dlq_tools" ∷ tool_args

module _ {W : Type 0} (services : Services W) (python : Python) (run : List String → Act W Process)
    (ceiling : ℤ) (drains : W → ℕ) where
  -- `drains` counts the drains that have been started: the tool's other command starts none, and the
  -- alert channels neither.
  pub record CountsDrains : Type 0 where
    pub inspects : (w : W) → drains (run (in_container inspect_args) w).1 ≡ drains w
    pub starts : (w : W) → drains (run (in_container drain_args) w).1 ≡ drains w + 1
    pub alerts :
        (kind : String) (payload : Dict Value) (w : W)
        → drains (emit_alert services python kind payload w).1 ≡ drains w

  -- A DAG run that inspects and finds so much starts a drain exactly where there is something to
  -- drain and no more than the ceiling.
  abbrev pub is_due : Report → ℕ
  is_due inspection =
      if is_le (count_of inspection "records") ceiling
        && not (same_int (count_of inspection "records") (pos 0))
      then 1
      else 0

  -- What a run of the DAG returns.
  abbrev pub IsLossless : Report → Type 0
  IsLossless r = same_int (count_of r "unaccounted") (pos 0) ≡ true

  lost-IsLossless :
      (r : Report) (w : W) → Returns IsLossless (lost services python run ceiling r w).0
  lost-IsLossless r w =
      after-Returns (λ _. Unit {0}) IsLossless (count_at r "unaccounted", w) _
        (Returns-any (count_at r "unaccounted"))
        (λ n u _.
          after-Returns (λ _. Unit {0}) IsLossless (count_at r "records_read", u) _
            (Returns-any (count_at r "records_read"))
            (λ m v _.
              after-Returns (λ _. Unit {0}) IsLossless (count_at r "accounted_for", v) _
                (Returns-any (count_at r "accounted_for")) (λ k x _. tt)))

  drain_dlq-IsLossless :
      (inspection : Report) (w : W)
      → Returns IsLossless (drain_dlq services python run ceiling inspection w).0
  unfolding drain_dlq count_of lookup same_int
  drain_dlq-IsLossless inspection w =
      if_elim (λ (m : Act W Report). Returns IsLossless (m w).0)
        (same_int (count_of inspection "records") (pos 0)) _ _ (λ _. refl)
        (λ _.
          after-Returns (λ _. Unit {0}) IsLossless
            (run_dlq_tool services python run ceiling drain_args w) _
            (Returns-any (run_dlq_tool services python run ceiling drain_args w).0)
            (λ r v _.
              if_elim (λ (m : Act W Report). Returns IsLossless (m v).0)
                (same_int (count_of r "unaccounted") (pos 0)) _ _ (λ e. e)
                (λ _.
                  after-Returns (λ _. Unit {0}) IsLossless
                    (emit_alert services python "dlq_drain_unaccounted" (as_values r.counts) v) _
                    (Returns-any
                      (emit_alert services python "dlq_drain_unaccounted" (as_values r.counts) v).0)
                    (λ _ x _. lost-IsLossless r x))))

  report_drain-IsLossless :
      (drained : Report) (w : W)
      → IsLossless drained
      → Returns IsLossless (report_drain services python run ceiling drained w).0
  unfolding report_drain
  report_drain-IsLossless drained w h =
      let alert =
        emit_alert services python "dlq_records_parked"
          (parked_payload services python run ceiling drained) w in
      if_elim (λ (m : Act W Report). Returns IsLossless (m w).0)
        (is_le (count_of drained "parked") (pos 0)) _ _ (λ _. h)
        (λ _. after-Returns (λ _. Unit {0}) IsLossless alert _ (Returns-any alert.0) (λ _ v _. h))

  -- A refusal ends the DAG.
  halted :
      (P : Report → Type 0) (m : Outcome (Unit {0}) × W) (e : Exc) (f : Report → Act W Report)
      → ((after (after m (λ _. lift (raised e))) f).1 ≡ m.1)
        × Returns P (after (after m (λ _. lift (raised e))) f).0
  halted P (returned u, w) e f = (refl, tt)
  halted P (raised d, w) e f = (refl, tt)

  module _ (counts : CountsDrains) where
    lost-drains : (r : Report) (w : W) → drains (lost services python run ceiling r w).1 ≡ drains w
    lost-drains r w =
        after-keeps drains (count_at r "unaccounted", w) _
          (λ n u.
            after-keeps drains (count_at r "records_read", u) _
              (λ m v. after-keeps drains (count_at r "accounted_for", v) _ (λ k x. refl)))

    accounted-drains :
        (r : Report) (w : W) → drains (accounted services python run ceiling r w).1 ≡ drains w
    accounted-drains r w =
        if_elim (λ (m : Act W Report). drains (m w).1 ≡ drains w)
          (same_int (count_of r "unaccounted") (pos 0)) _ _ (λ _. refl)
          (λ _.
            after-keeps drains
              (emit_alert services python "dlq_drain_unaccounted" (as_values r.counts) w)
              (λ _. lost services python run ceiling r) (λ _ v. lost-drains r v)
            ∙ counts.alerts "dlq_drain_unaccounted" (as_values r.counts) w)

    tool-drains :
        (args : List String) (w : W)
        → drains (run_dlq_tool services python run ceiling args w).1
          ≡ drains (run (in_container args) w).1
    unfolding run_dlq_tool
    tool-drains args w = after-keeps drains (run (in_container args) w) _ (λ _ _. refl)

    drain_dlq-drains :
        (inspection : Report) (w : W)
        → drains (drain_dlq services python run ceiling inspection w).1
          ≡ drains w + (if same_int (count_of inspection "records") (pos 0) then 0 else 1)
    unfolding drain_dlq
    drain_dlq-drains inspection w =
        elim (Bool-cases (same_int (count_of inspection "records") (pos 0))) [
          | inl e ↦ rw e (omega arith)
          | inr e ↦ rw e (
              after-keeps drains (run_dlq_tool services python run ceiling drain_args w)
                (λ r. accounted services python run ceiling r) (λ r v. accounted-drains r v)
              ∙ tool-drains drain_args w
              ∙ counts.starts w)
        ]

    report_drain-drains :
        (drained : Report) (w : W)
        → drains (report_drain services python run ceiling drained w).1 ≡ drains w
    unfolding report_drain
    report_drain-drains drained w =
        let payload = parked_payload services python run ceiling drained in
        if_elim (λ (m : Act W Report). drains (m w).1 ≡ drains w)
          (is_le (count_of drained "parked") (pos 0)) _ _ (λ _. refl)
          (λ _.
            after-keeps drains (emit_alert services python "dlq_records_parked" payload w)
              (λ _. pure drained) (λ _ _. refl)
            ∙ counts.alerts "dlq_records_parked" payload w)

    -- What follows an inspection that was let through.
    carried_on :
        (inspection : Report) (w : W)
        → let after_inspection =
            after
              (drain_dlq services python run ceiling inspection w)
              (report_drain services python run ceiling) in
          (drains after_inspection.1
            ≡ drains w + (if same_int (count_of inspection "records") (pos 0) then 0 else 1))
          × Returns IsLossless after_inspection.0
    carried_on inspection w = (
      after-keeps drains (drain_dlq services python run ceiling inspection w)
            (report_drain services python run ceiling) report_drain-drains
          ∙ drain_dlq-drains inspection w,
      after-Returns IsLossless IsLossless (drain_dlq services python run ceiling inspection w)
          (report_drain services python run ceiling) (drain_dlq-IsLossless inspection w)
          (λ r v h. report_drain-IsLossless r v h),
    )

    pub dlq_drain-IsLossless :
        (inspection : Report) (w : W)
        → (run_dlq_tool services python run ceiling inspect_args w).0 ≡ returned inspection
        → (drains (dlq_drain services python run ceiling w).1 ≡ drains w + is_due inspection)
          × Returns
              (λ r. (is_le (count_of inspection "records") ceiling ≡ true) × IsLossless r)
              (dlq_drain services python run ceiling w).0
    unfolding dlq_drain inspect_dlq
    dlq_drain-IsLossless inspection w h =
        let tool = run_dlq_tool services python run ceiling inspect_args w in
        let same : drains tool.1 ≡ drains w = tool-drains inspect_args w ∙ counts.inspects w in
        rw
          (after-returned tool
            (λ result.
              if is_le (count_of result "records") ceiling
              then pure result
              else refused services python run ceiling result)
            inspection h)
          (elim (Bool-cases (is_le (count_of inspection "records") ceiling)) [
            | inl e ↦
                let (a, b) = carried_on inspection tool.1 in
                rw e (ground (arith, a, same), Returns-weaken IsLossless _ _ (λ r k. (refl, k)) b)
            | inr e ↦
                let payload = oversize_payload services python run ceiling inspection in
                let alert = emit_alert services python "dlq_circuit_breaker" payload tool.1 in
                let (c, d) = halted _ alert (runtime_error "refusing to auto-drain") (λ i.
                  drain_dlq services python run ceiling i >>= λ r.
                  report_drain services python run ceiling r) in
                rw e (
                  omega (
                    arith,
                    ap drains c,
                    counts.alerts "dlq_circuit_breaker" payload tool.1,
                    same,
                  ),
                  d,
                )
          ])
