-- ===== src/History/Overlap/Rests.antt =====
-- What waits of a handler of history/internal/service, against the specification `Changes` of what is
-- done to the database in the meantime.
use mini_workflow.Prelude.{String, arith, ◌≡◌, refl, ap, ◌∙◌, Bool, some}
use mini_workflow.Result.{Result, ok, err}
use mini_workflow.Api.{Status}
use mini_workflow.History.Models.{RunKey, WorkflowExecution}
use mini_workflow.History.Postgres.{Database, find_execution, get_workflow_execution}
use mini_workflow.History.Postgres.Find.{find_execution-key}
use mini_workflow.History.Changes.{ChangesIf, Changes-trans, same}
use mini_workflow.History.Changes.Growth.{Changes-Later}
use mini_workflow.History.World.{continue, World, Exec}
use mini_workflow.History.Service.Rules.{get_workflow_execution-ok}
use mini_workflow.History.Service.Evolution.{Current}
use mini_workflow.Prelude.{Option}
use mini_workflow.History.Handler.{Reply, replied}

-- The run that was read is still the one there, if that has its version.
pub Changes-Current :
    {apart : Bool} (exec : WorkflowExecution) {db db' : Database}
    → find_execution exec.key db.executions ≡ some exec
    → ChangesIf apart db db'
    → Current exec db'
Changes-Current exec found c row at version =
    let l = Changes-Later exec.key exec c (record {
      now = exec;
      found = found;
      version = omega arith;
      unchanged = λ h. refl;
      closed = λ h. h;
    }) in
    let here : l.now ≡ row = cc (l.found, at) in
    rw (← here) (l.unchanged (ap (λ (r : WorkflowExecution). r.current_version) here ∙ version))

pub found_itself :
    (run : RunKey) (fault : Option String) (db : Database) {exec : WorkflowExecution}
    → get_workflow_execution fault run db ≡ ok exec
    → find_execution exec.key db.executions ≡ some exec
found_itself run fault db {exec} h =
    let at = get_workflow_execution-ok fault run db h in
    ap (λ k. find_execution k db.executions) (find_execution-key run db.executions exec at) ∙ at

-- What may wait from `db` on.
abbrev pub IsSafe : Bool → Database → Exec Reply → Type 0
IsSafe apart db rest = (w : World) → ChangesIf apart db w.db → ChangesIf apart w.db (rest w).1.db

-- What is known when a handler has begun, or has been refused.
abbrev pub Begun : Bool → World → Result Status (Exec Reply) × World → Type 0
Begun apart w (ok rest, w') = ChangesIf apart w.db w'.db × IsSafe apart w'.db rest
Begun apart w (err e, w') = ChangesIf apart w.db w'.db

pub replied-world :
    {A : Type 0} (reply : A → Reply) (r : Result Status A × World) → (replied reply r).1 ≡ r.1
replied-world reply (ok a, w) = refl
replied-world reply (err e, w) = refl

-- A rest that follows at once.
pub at_once :
    {apart : Bool} (w : World) (r : Result Status (Exec Reply) × World)
    → Begun apart w r
    → ChangesIf apart w.db (continue r (λ rest. rest)).1.db
at_once w (ok rest, w') (c, safe) = Changes-trans c (safe w' same)
at_once w (err e, w') c = c
