-- ===== src/Ingest/Invariant.antt =====
-- runtime/transactional_ingest.py: the well-formedness of the store, kept by the transactions on
-- tasks, attempts and leases.
use knoarbor.Prelude.{
  ℕ, String, ◌≡◌, refl, sym, ◌∙◌, true, false, Option, some, arith, str_eq, eq_iff, eq_refl,
  Bool-cases, inl, inr, Result, ok, err,
}
use knoarbor.Json.{Json}
use knoarbor.Table.{lookup, Rows, Unique, Unique-update_where}
use knoarbor.Ingest.State.{
  Task, AttemptLease, Store, TaskState, cancelled, is_running, is_queued, is_settled,
}
use knoarbor.Ingest.Tasks.{
  mark_claimed, mark_renewed, mark_cancelled, mark_failed, cancels_now, is_cancelled,
}
use knoarbor.Ingest.Recovery.{mark_finished}
use knoarbor.Ingest.Consistent.{TaskOk, both_updated, tasks_updated}
use knoarbor.Ingest.History.{after}

pub record IsConsistent (s : Store) : Type 0 where
  pub unique : Unique s.tasks
  pub tied : Rows (TaskOk s.attempts) s.tasks

not_cancelled : (state : TaskState) → is_settled state ≡ false → is_cancelled state ≡ false
not_cancelled cancelled h = cc
not_cancelled _ h = refl

module _ (s : Store) (v : IsConsistent s) (task_id : String) (t : Task)
    (e : lookup task_id s.tasks ≡ some t) where
  pub mark_claimed-IsConsistent :
      (attempt_id owner : String) (expires now : ℕ)
      → str_eq t.current_attempt_id attempt_id ≡ true
      → IsConsistent (mark_claimed task_id t attempt_id owner expires now s)
  unfolding mark_claimed
  mark_claimed-IsConsistent attempt_id owner expires now same =
      let row : TaskOk s.attempts task_id t = v.tied task_id t e in
      let here : t.current_attempt_id ≡ attempt_id =
        (eq_iff t.current_attempt_id attempt_id).0 same in
      record {
        unique = Unique-update_where _ _ s.tasks v.unique;
        tied =
            both_updated s.tasks s.attempts task_id t row.current _ _ _ _
              (
                e,
                λ k u h. (eq_iff k task_id).0 (ground arith),
                ground (arith, eq_refl task_id),
                row.found,
                λ k b h. (eq_iff k attempt_id).0 h ∙ sym here,
                same,
              )
              (refl, row.own, refl, refl) v.tied;
      }

  pub mark_renewed-IsConsistent :
      (expires now : ℕ)
      → is_running t.state ≡ true
      → IsConsistent (mark_renewed task_id expires now s)
  unfolding mark_renewed
  mark_renewed-IsConsistent expires now busy = record {
    unique = Unique-update_where _ _ s.tasks v.unique;
    tied =
        tasks_updated _ _ s.attempts s.tasks
          (λ k u found hit row. record {
            current = row.current;
            found = row.found;
            own = row.own;
            same_state = row.same_state;
            leased = cc ((eq_iff k task_id).0 hit, found, e, busy);
          })
          v.tied;
  }

  pub mark_failed-IsConsistent :
      (attempt_id error : String) (result : Option Json) (now : ℕ)
      → str_eq t.current_attempt_id attempt_id ≡ true
      → is_queued t.state ≡ true
      → IsConsistent (mark_failed task_id attempt_id error result now s)
  unfolding mark_failed
  mark_failed-IsConsistent attempt_id error result now same waiting =
      let row : TaskOk s.attempts task_id t = v.tied task_id t e in
      let here : t.current_attempt_id ≡ attempt_id =
        (eq_iff t.current_attempt_id attempt_id).0 same in
      record {
        unique = Unique-update_where _ _ s.tasks v.unique;
        tied =
            both_updated s.tasks s.attempts task_id t row.current _ _ _ _
              (
                e,
                λ k u h. (eq_iff k task_id).0 h,
                eq_refl task_id,
                row.found,
                λ k b h. (eq_iff k attempt_id).0 h ∙ sym here,
                same,
              )
              (refl, row.own, refl, ground (arith, row.leased)) v.tied;
      }

  pub mark_finished-IsConsistent :
      (lease : AttemptLease) (state : TaskState) (result : Option Json) (error : Option String)
      (now : ℕ)
      → lease.task_id ≡ task_id
      → str_eq t.current_attempt_id lease.attempt_id ≡ true
      → is_running state ≡ false
      → IsConsistent (mark_finished lease state result error now s)
  unfolding mark_finished
  mark_finished-IsConsistent lease state result error now at same over =
      let row : TaskOk s.attempts task_id t = v.tied task_id t e in
      let here : t.current_attempt_id ≡ lease.attempt_id =
        (eq_iff t.current_attempt_id lease.attempt_id).0 same in
      record {
        unique = Unique-update_where _ _ s.tasks v.unique;
        tied =
            both_updated s.tasks s.attempts task_id t row.current _ _ _ _
              (
                e,
                λ k u h. (eq_iff k lease.task_id).0 h ∙ at,
                (eq_iff task_id lease.task_id).1 (sym at),
                row.found,
                λ k b h. (eq_iff k lease.attempt_id).0 h ∙ sym here,
                same,
              )
              (refl, row.own, refl, over) v.tied;
      }

  pub mark_cancelled-IsConsistent :
      (now : ℕ) → is_settled t.state ≡ false → IsConsistent (mark_cancelled task_id t now s)
  unfolding mark_cancelled
  mark_cancelled-IsConsistent now open_task =
      let row : TaskOk s.attempts task_id t = v.tied task_id t e in
      elim (Bool-cases (cancels_now t.state)) [
        | inl at_once ↦ rw at_once (record {
          unique = Unique-update_where _ _ s.tasks v.unique;
          tied =
              both_updated s.tasks s.attempts task_id t row.current _ _ _ _
                (
                  e,
                  λ k u h. (eq_iff k task_id).0 h,
                  eq_refl task_id,
                  row.found,
                  λ k b h. (eq_iff k t.current_attempt_id).0 h,
                  eq_refl t.current_attempt_id,
                )
                (refl, row.own, refl, ground (arith, row.leased)) v.tied;
        })
        | inr later ↦
            rw (later, not_cancelled t.state open_task)
              (record {
                unique = Unique-update_where _ _ s.tasks v.unique;
                tied =
                    tasks_updated _ _ s.attempts s.tasks
                      (λ k u found hit row'. record {
                        current = row'.current;
                        found = row'.found;
                        own = row'.own;
                        same_state = cc ((eq_iff k task_id).0 hit, found, e, row'.same_state);
                        leased = cc ((eq_iff k task_id).0 hit, found, e);
                      })
                      v.tied;
              })
      ]

-- A transaction that raises leaves the store; one that returns is judged by its outcome.
pub after-IsConsistent :
    {A : Type 0} (s : Store) (r : Result (A × Store))
    → IsConsistent s
    → ((a : A) (s' : Store) → r ≡ ok (a, s') → IsConsistent s')
    → IsConsistent (after s r)
after-IsConsistent s (ok (a, s')) v h = h a s' refl
after-IsConsistent s (err x) v h = v
