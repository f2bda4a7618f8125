-- ===== src/History/Changes/Timers.antt =====
-- The rows of timers over the transactions of `Changes`.
use mini_workflow.Prelude.{Bool, sym, subst}
use mini_workflow.History.Postgres.{Database}
use mini_workflow.History.Postgres.TimerRows.{AllKept, AllKept-refl, AllKept-trans}
use mini_workflow.History.Changes.{ChangeIf, ChangesIf, same, after, created, updated, retimed}

Change-AllKept :
    {apart : Bool} {db db' : Database} → ChangeIf apart db db' → AllKept db.timers db'.timers
Change-AllKept {apart} {db} (created now exec e c _ _ _ _) =
    subst (AllKept db.timers) (sym c.timers) (AllKept-refl db.timers)
Change-AllKept (updated now exec v es acts ts u _ _) = u.timers_kept
Change-AllKept (retimed _ _ _ kept) = kept

pub Changes-AllKept :
    {apart : Bool} {db db' : Database} → ChangesIf apart db db' → AllKept db.timers db'.timers
Changes-AllKept {apart} {db} same = AllKept-refl db.timers
Changes-AllKept (after p c) = AllKept-trans (Changes-AllKept p) (Change-AllKept c)
