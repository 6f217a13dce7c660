-- ===== src/TestCycle/Dashboard/Shown.antt =====
-- pages/workflows/TestCycleDetail/TestCycleDetail.tsx: what the page shows after it has recorded a
-- result.
use testnexa.Base.{
  ◌≡◌, refl, ◌⊎◌, inl, inr, ℕ, String, Bool, false, none, some, List, [], ◌∷◌, map, All,
}
use testnexa.Workflow.{Failure, Reply, ok, failed, error_message, settle_load, map_reply}
use testnexa.TestCycle.{ExecutionResult, pass, fail, blocked, skipped, TestExecutionSummary}
use testnexa.TestCycle.Dashboard.{
  CreateExecutionPayload, Service, Dashboard, test_execution_results, totals, counts_of,
  settle_counts, sort_executions, fetch_counts, fetch_history, refresh_after_record, record_settled,
  on_submit_record,
}

Reply-cases :
    {A : Type 0} (reply : Reply A)
    → ((a : A) × (reply ≡ ok a)) ⊎ ((e : Failure) × (reply ≡ failed e))
Reply-cases (ok a) = inl (a, refl)
Reply-cases (failed e) = inr (e, refl)

-- All the counts are those of the service, or one of its requests has failed and all are as before.
abbrev pub IsCountsOutcome : (ExecutionResult → Reply ℕ) → Dashboard → Dashboard → Type 0
IsCountsOutcome total d d' =
    (((r : ExecutionResult) → (n : ℕ) × (total r ≡ ok n) × (d'.counts r ≡ some n))
      × (d'.counts_error ≡ none))
    ⊎ ((r : ExecutionResult) × (e : Failure) × (total r ≡ failed e)
        × (d'.counts ≡ d.counts)
        × (d'.counts_error ≡ some (error_message e)))

module _ (total : ExecutionResult → Reply ℕ) where
  totals-failed :
      (rs : List ExecutionResult)
      → All (λ r. (n : ℕ) × (total r ≡ ok n)) rs
        ⊎ ((r : ExecutionResult) × (e : Failure) × (total r ≡ failed e)
            × (totals total rs ≡ failed e))
  unfolding totals
  totals-failed [] = inl tt
  totals-failed (r ∷ rs) = elim (Reply-cases (total r)) [
    | inr (e, h) ↦ inr (r, e, h, rw (h, totals) refl)
    | inl (n, h) ↦ elim (totals-failed rs) [
      | inl all ↦ inl ((n, h), all)
      | inr (r', e, h', same) ↦ inr (r', e, h', rw (h, totals) (rw same refl))
    ]
  ]

  totals-ok :
      (n : ExecutionResult → ℕ) (rs : List ExecutionResult)
      → ((r : ExecutionResult) → total r ≡ ok (n r))
      → totals total rs ≡ ok (map (λ r. (r, n r)) rs)
  unfolding totals
  totals-ok n [] h = refl
  totals-ok n (r ∷ rs) h = rw (h r, totals) (rw (totals-ok n rs h) refl)

  -- One count of each of the four.
  abbrev count_of :
      All (λ r. (n : ℕ) × (total r ≡ ok n)) test_execution_results
      → (r : ExecutionResult) → (n : ℕ) × (total r ≡ ok n)
  count_of (p, _) pass = p
  count_of (_, (p, _)) fail = p
  count_of (_, (_, (p, _))) blocked = p
  count_of (_, (_, (_, (p, _)))) skipped = p

  counts_of-result :
      (n : ExecutionResult → ℕ) (r : ExecutionResult)
      → counts_of (map (λ r. (r, n r)) test_execution_results) r ≡ some (n r)
  unfolding counts_of
  counts_of-result n pass = refl
  counts_of-result n fail = refl
  counts_of-result n blocked = refl
  counts_of-result n skipped = refl

  counts-settled :
      (d : Dashboard)
      → IsCountsOutcome total d (settle_counts (totals total test_execution_results) d)
  unfolding settle_counts
  counts-settled d = elim (totals-failed test_execution_results) [
    | inl all ↦
        let n : ExecutionResult → ℕ = λ r. (count_of all r).0 in
        let h : (r : ExecutionResult) → total r ≡ ok (n r) = λ r. (count_of all r).1 in
        rw (totals-ok n test_execution_results h)
          (inl (λ r. (n r, h r, counts_of-result n r), refl))
    | inr (r, e, h, same) ↦ rw same (inr (r, e, h, refl, refl))
  ]

settle_counts-keeps :
    (reply : Reply (List (ExecutionResult × ℕ))) (d : Dashboard)
    → let d' = settle_counts reply d in
      (d'.show_record_modal ≡ d.show_record_modal)
      × (d'.record_error ≡ d.record_error)
      × (d'.history ≡ d.history)
unfolding settle_counts
settle_counts-keeps (ok entries) d = (refl, refl, refl)
settle_counts-keeps (failed e) d = (refl, refl, refl)

module _ (S : Service) (leq : String → String → Bool) where
  -- The table is that of the service, or its request has failed and it is as before.
  abbrev pub IsHistoryOutcome : Reply (List TestExecutionSummary) → Dashboard → Dashboard → Type 0
  IsHistoryOutcome (ok xs) d d' =
      d'.history ≡ record { value = sort_executions leq xs; loading = false; load_error = none }
  IsHistoryOutcome (failed e) d d' =
      d'.history
      ≡ record { value = d.history.value; loading = false; load_error = some (error_message e) }

  history-settled :
      (reply : Reply (List TestExecutionSummary)) (d d' : Dashboard)
      → d'.history ≡ d.history
      → IsHistoryOutcome reply d
          (record d' { history = settle_load (map_reply (sort_executions leq) reply) d'.history })
  unfolding settle_load
  history-settled (ok xs) d d' h = refl
  history-settled (failed e) d d' h = rw h refl

  -- What a submit leaves, by the answer to it and the state that it leaves.
  abbrev pub IsRecordOutcome : Reply (Unit {0}) → S.State → Dashboard → Dashboard → Type 0
  IsRecordOutcome (ok _) st d d' =
      (d'.show_record_modal ≡ false)
      × (d'.record_error ≡ none)
      × IsCountsOutcome (λ r. S.total_of r st) d d'
      × IsHistoryOutcome (S.executions st) d d'
  IsRecordOutcome (failed e) st d d' = d' ≡ record d { record_error = some (error_message e) }

  recorded :
      (reply : Reply (Unit {0})) (st : S.State) (d : Dashboard)
      → IsRecordOutcome reply st d
          (record_settled S leq reply st (record d { record_error = none }))
  unfolding record_settled refresh_after_record fetch_counts fetch_history
  recorded (failed e) st d = refl
  recorded (ok _) st d =
      let closed = record d { show_record_modal = false; record_error = none } in
      let reply = totals (λ r. S.total_of r st) test_execution_results in
      let (modal, error, history) = settle_counts-keeps reply closed in
      (
        modal,
        error,
        counts-settled (λ r. S.total_of r st) closed,
        history-settled (S.executions st) d (settle_counts reply closed) history,
      )

  -- The submit of a result asks the service once. When the service refuses it, the page is as before
  -- but for the message, which the dialog shows while it stays as it is. When the service takes it,
  -- the dialog is closed, and the page reads the state that the submit leaves: either all of the four
  -- counts are those of the service, or one of their requests has failed, all are as before and the
  -- error of a failed one is shown; and the table is the sorted answer, or as before with its error.
  pub on_submit_record-outcome :
      (payload : CreateExecutionPayload) (d : Dashboard) (st : S.State)
      → let (reply, st') = S.create_test_execution payload st in
        let (d', after) = on_submit_record S leq payload d st in
        (after ≡ st') × IsRecordOutcome reply st' d d'
  unfolding on_submit_record
  on_submit_record-outcome payload d st =
      let (reply, st') = S.create_test_execution payload st in (refl, recorded reply st' d)
