-- ===== src/History/Changes/Growth.antt =====
-- The log and the runs of an earlier database in a later one, over the transactions of `Changes`.
use mini_workflow.Prelude.{
  Bool, ◌≤◌, ◌≡◌, sym, ap, ◌∙◌, true, some, List, [], ◌∷◌, ◌++◌, map, arith, Bool-cases, inl, inr,
}
use mathlib.Core.List.{append_assoc, append-nil}
use mini_workflow.History.Models.{RunKey, WorkflowExecution, HistoryEvent, same_run, same_run_iff}
use mini_workflow.History.Postgres.{Database, find_execution, is_running}
use mini_workflow.History.Postgres.Update.{stamp}
use mini_workflow.History.Postgres.Update
use mini_workflow.History.Postgres.Log.{find-Updated}
use mini_workflow.History.Postgres.Create.{find-Created}
use mini_workflow.History.Changes.{ChangeIf, ChangesIf, same, after, created, updated, retimed}

-- A later database has the run still, at no lower a version, as it was if the version is the same,
-- and still closed if it was.
pub record Later (k : RunKey) (row : WorkflowExecution) (db : Database) : Type 0 where
  pub now : WorkflowExecution
  pub found : find_execution k db.executions ≡ some now
  pub version : row.current_version ≤ now.current_version
  pub unchanged : now.current_version ≡ row.current_version → now ≡ row
  pub closed : is_running now.status ≡ true → is_running row.status ≡ true

Change-events :
    {apart : Bool} {db db' : Database}
    → ChangeIf apart db db'
    → (more : List HistoryEvent) × (db'.events ≡ db.events ++ more)
Change-events (created now exec e c _ _ _ _) = (stamp now e ∷ [], c.events)
Change-events (updated now exec v es acts ts u _ _) = (map (stamp now) es, u.events)
Change-events (retimed _ e _ _) = ([], e ∙ sym (append-nil _))

-- The log only grows, at its end.
pub Changes-events :
    {apart : Bool} {db db' : Database}
    → ChangesIf apart db db'
    → (more : List HistoryEvent) × (db'.events ≡ db.events ++ more)
Changes-events same = ([], sym (append-nil _))
Changes-events {apart} {db} (after p c) =
    let (xs, e) = Changes-events p in
    let (ys, f) = Change-events c in
    (xs ++ ys, f ∙ ap (λ l. l ++ ys) e ∙ append_assoc db.events xs ys)

module _ (k : RunKey) (row : WorkflowExecution) where
  Change-Later :
      {apart : Bool} {db db' : Database} → ChangeIf apart db db' → Later k row db → Later k row db'
  Change-Later (retimed x _ _ _) l = record {
    now = l.now;
    found = rw x l.found;
    version = l.version;
    unchanged = l.unchanged;
    closed = l.closed;
  }
  Change-Later (created now exec e c _ _ _ _) l = record {
    now = l.now;
    found = ground (arith, find-Created c k, l.found, c.fresh, same_run_iff exec.key k);
    version = l.version;
    unchanged = l.unchanged;
    closed = l.closed;
  }
  Change-Later {apart} {db} (updated now exec v es acts ts u _ stays) l =
      elim (Bool-cases (same_run exec.key k)) [
        | inl own ↦
            let at =
              ap (λ j. find_execution j db.executions) (sym ((same_run_iff exec.key k).0 own))
              ∙ u.found in
            let before : l.now ≡ u.row = cc (l.found, at) in
            record {
              now = Update.updated now exec u.row;
              found = ground (arith, find-Updated u k);
              version = omega (arith, ap (λ r. r.current_version) before, l.version);
              unchanged =
                  λ h. absurd (omega (arith, ap (λ r. r.current_version) before, l.version, h));
              closed = λ h. l.closed (ap (λ r. is_running r.status) before ∙ stays h);
            }
        | inr other ↦ record {
          now = l.now;
          found = ground (arith, find-Updated u k, l.found);
          version = l.version;
          unchanged = l.unchanged;
          closed = l.closed;
        }
      ]

  pub Changes-Later :
      {apart : Bool} {db db' : Database} → ChangesIf apart db db' → Later k row db → Later k row db'
  Changes-Later same l = l
  Changes-Later (after p c) l = Change-Later c (Changes-Later p l)
