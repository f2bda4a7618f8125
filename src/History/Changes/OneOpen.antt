-- ===== src/History/Changes/OneOpen.antt =====
-- Which runs of a workflow are open, over the transactions of `Changes`.
use mini_workflow.Prelude.{
  refl, ◌≡◌, sym, ap, ◌∙◌, true, false, none, some, List, [], ◌∷◌, arith, Bool-cases, inl, inr,
  eq_iff, ◌⊎◌,
}
use mini_workflow.History.Models.{RunKey, WorkflowExecution, same_run, same_run_iff}
use mini_workflow.History.Postgres.{Database, find_execution, first_running, is_running}
use mini_workflow.History.Postgres.Log.{find-Updated}
use mini_workflow.History.Postgres.Create.{find-Created}
use mini_workflow.History.Changes.{Change, Changes, same, after, created, updated, retimed}

-- A row of the table, by its key, that is running.
pub record IsOpen (db : Database) (k : RunKey) : Type 0 where
  pub row : WorkflowExecution
  pub found : find_execution k db.executions ≡ some row
  pub running : is_running row.status ≡ true

pub record IsSingle (db : Database) : Type 0 where
  pub same_key :
      (j k : RunKey)
      → IsOpen db j
      → IsOpen db k
      → j.namespace ≡ k.namespace
      → j.workflow_id ≡ k.workflow_id
      → j ≡ k

first_running-none :
    (k : RunKey) (rows : List WorkflowExecution) (e : WorkflowExecution)
    → first_running k.namespace k.workflow_id rows ≡ none
    → find_execution k rows ≡ some e
    → is_running e.status ≡ false
unfolding first_running find_execution
first_running-none k [] e h found = cc
first_running-none k (r ∷ rest) e h found = ground (
  arith,
  same_run_iff r.key k,
  eq_iff r.namespace k.namespace,
  eq_iff r.workflow_id k.workflow_id,
  first_running-none k rest e,
)

-- What is open after an update was open before.
Was-IsSingle :
    {db db' : Database} → ((k : RunKey) → IsOpen db' k → IsOpen db k) → IsSingle db → IsSingle db'
Was-IsSingle was s = record { same_key = λ j k i l. s.same_key j k (was j i) (was k l) }

-- What is open after the creation of a run is that run, or was open before, and then it is of
-- another workflow.
New-IsSingle :
    {db db' : Database} (n : RunKey)
    → first_running n.namespace n.workflow_id db.executions ≡ none
    → ((k : RunKey) → IsOpen db' k → (n ≡ k) ⊎ IsOpen db k)
    → IsSingle db
    → IsSingle db'
New-IsSingle {db} {db'} n alone was s = record {
  same_key = λ j k i l. both j k (was j i) (was k l);
}
  where
    clash :
        (k : RunKey) → IsOpen db k → n.namespace ≡ k.namespace → n.workflow_id ≡ k.workflow_id → ⊥
    clash k o ns wf =
        cc (first_running-none k db.executions o.row (rw (ns, wf) at alone) o.found, o.running)

    both :
        (j k : RunKey)
        → (n ≡ j) ⊎ IsOpen db j
        → (n ≡ k) ⊎ IsOpen db k
        → j.namespace ≡ k.namespace
        → j.workflow_id ≡ k.workflow_id
        → j ≡ k
    both j k (inl e) (inl f) ns wf = sym e ∙ f
    both j k (inl e) (inr o) ns wf =
        absurd (clash k o (ap (λ r. r.namespace) e ∙ ns) (ap (λ r. r.workflow_id) e ∙ wf))
    both j k (inr o) (inl f) ns wf =
        absurd (clash j o (ap (λ r. r.namespace) f ∙ sym ns) (ap (λ r. r.workflow_id) f ∙ sym wf))
    both j k (inr o) (inr p) ns wf = s.same_key j k o p ns wf

Change-IsSingle : {db db' : Database} → Change db db' → IsSingle db → IsSingle db'
Change-IsSingle (retimed x _ _ _) s =
    Was-IsSingle (λ k i. record { row = i.row; found = rw x at i.found; running = i.running }) s
Change-IsSingle {db} (updated now exec v es acts ts u _ stays) s =
    Was-IsSingle
      (λ k i. elim (Bool-cases (same_run exec.key k)) [
        | inl own ↦ record {
          row = u.row;
          found =
              ap (λ l. find_execution l db.executions) (sym ((same_run_iff exec.key k).0 own))
              ∙ u.found;
          running = stays (ground (arith, find-Updated u k, i.found, i.running));
        }
        | inr other ↦ record {
          row = i.row;
          found = ground (arith, find-Updated u k, i.found);
          running = i.running;
        }
      ])
      s
Change-IsSingle {db} (created now exec e c _ _ _ alone) s =
    New-IsSingle exec.key (alone refl)
      (λ k i. elim (Bool-cases (same_run exec.key k)) [
        | inl own ↦ inl ((same_run_iff exec.key k).0 own)
        | inr other ↦ inr (record {
          row = i.row;
          found = ground (arith, find-Created c k, i.found);
          running = i.running;
        })
      ])
      s

pub Changes-IsSingle : {db db' : Database} → Changes db db' → IsSingle db → IsSingle db'
Changes-IsSingle same s = s
Changes-IsSingle (after p c) s = Change-IsSingle c (Changes-IsSingle p s)
