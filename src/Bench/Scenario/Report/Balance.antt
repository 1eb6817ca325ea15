-- ===== src/Bench/Scenario/Report/Balance.antt =====
-- The reconciliation of bench/run_scenario.py accounts for every event once.
use real_time_data_pipeline.Base.{◌≡◌, ◌⊎◌}
use real_time_data_pipeline.Value.{ℤ, pos}
use real_time_data_pipeline.Value.Int.{
  ◌+ℤ◌, ◌-ℤ◌, min_int-add-rest, min_int-add-excess, rest-or-excess,
}
use real_time_data_pipeline.Bench.Scenario.Report.{Reconciliation, reconcile}

-- A report that accounts for each event once: what was expected is accounted for or lost, what was
-- written or quarantined is accounted for or counted twice, and not both kinds of rest are there.
abbrev pub IsBalanced : Reconciliation → Type 0
IsBalanced r =
    (r.accounted_for +ℤ r.unaccounted ≡ r.expected_distinct)
    × (r.accounted_for +ℤ r.partial_write_overlap ≡ r.written_distinct +ℤ r.dlq_distinct)
    × ((r.unaccounted ≡ pos 0) ⊎ (r.partial_write_overlap ≡ pos 0))

-- Whatever the counts, negative ones and failed inspections included: expected events are accounted for
-- or reported as lost, written and quarantined ones are accounted for or reported as overlap, and loss
-- and overlap are never both reported.
pub reconcile-IsBalanced :
    (kafka_messages acked dupes written dlq_msgs dlq_info : ℤ)
    → IsBalanced (reconcile kafka_messages acked dupes written dlq_msgs dlq_info)
unfolding reconcile
reconcile-IsBalanced k a d w m i =
    let r = reconcile k a d w m i in
    let e = k -ℤ d in
    let x = w +ℤ r.dlq_distinct in
    (min_int-add-rest e x, min_int-add-excess e x, rest-or-excess (e -ℤ x))
