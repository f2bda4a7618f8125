-- ===== src/History/Postgres/Log.antt =====
-- The numbers of the events in the log of a run, in the order in which they were inserted.
use mathlib.Core.List.{append-nil, map-append}
use mini_workflow.Prelude.{
  ℕ, zero, suc, ◌+◌, ◌<◌, ◌≡◌, refl, ap, ◌∙◌, false, none, some, List, [], ◌∷◌, ◌++◌, map, arith,
  keep-append, length, if◌then◌else◌, Bool-cases, inl, inr,
}
use mini_workflow.Prelude.Int.{ℤ, inc64, inc64_lem, int64_mod}
use mini_workflow.History.Models.{
  RunKey, WorkflowExecution, HistoryEvent, ActivityState, Timer, same_run, same_run_iff,
}
use mini_workflow.History.Postgres.{Database, find_execution, events_of}
use mini_workflow.History.Postgres.Find.{find_execution-replace, find_execution-key}
use mini_workflow.History.Postgres.Update.{stamp, updated, Updated}

unfoldable pub ids_of : RunKey → List HistoryEvent → List ℕ
unfolding events_of
ids_of k events = map (λ e. e.event_id) (events_of k events)

-- `n, n + 1, …`, `count` of them.
abbrev pub ids_from : ℕ → ℕ → List ℕ
ids_from n zero = []
ids_from n (suc count) = n ∷ ids_from (suc n) count

pub record IsGapless (db : Database) : Type 0 where
  pub logged :
      (k : RunKey) (e : WorkflowExecution)
      → find_execution k db.executions ≡ some e
      → (count : ℕ) × (ids_of k db.events ≡ ids_from 1 count) × (e.next_event_id ≡ suc count)
  pub unlogged : (k : RunKey) → find_execution k db.executions ≡ none → ids_of k db.events ≡ []

-- The events of one run, numbered from `n` as the handlers number them; `m` is the next number.
abbrev pub Numbered : RunKey → ℕ → List HistoryEvent → ℕ → Type 0
Numbered k n [] m = m ≡ n
Numbered k n (e ∷ es) m = (e.key ≡ k) × (e.event_id ≡ n) × Numbered k (inc64 n) es m

ids_from-start : (n m c : ℕ) → n ≡ m → ids_from n c ≡ ids_from m c
ids_from-start n m c e = ap (λ j. ids_from j c) e

ids_from-count : (n c d : ℕ) → c ≡ d → ids_from n c ≡ ids_from n d
ids_from-count n c d e = ap (ids_from n) e

pub ids_from-append : (n a c : ℕ) → ids_from n a ++ ids_from (n + a) c ≡ ids_from n (a + c)
ids_from-append n zero c =
    cc (ids_from-start (n + 0) n c (omega arith), ids_from-count n (0 + c) c (omega arith))
ids_from-append n (suc a) c = cc (
  ids_from-start (n + suc a) (suc n + a) c (omega arith),
  ids_from-count n (suc a + c) (suc (a + c)) (omega arith),
  ids_from-append (suc n) a c,
)

pub ids_of-append :
    (k : RunKey) (xs ys : List HistoryEvent) → ids_of k (xs ++ ys) ≡ ids_of k xs ++ ids_of k ys
unfolding ids_of
ids_of-append k xs ys =
    ap (map (λ e. e.event_id)) (keep-append (λ e. same_run e.key k) xs ys)
    ∙ map-append (λ e. e.event_id) (events_of k xs) (events_of k ys)

-- The events of one run are none of another's.
pub ids_of-other :
    (now : ℤ) (j k : RunKey) (n m : ℕ) (es : List HistoryEvent)
    → same_run j k ≡ false
    → Numbered j n es m
    → ids_of k (map (stamp now) es) ≡ []
unfolding ids_of
ids_of-other now j k n m [] h p = refl
ids_of-other now j k n m (e ∷ es) h p =
    ground (arith, ids_of-other now j k (inc64 n) m es h, p.0, p.2)

pub ids_of-Numbered :
    (now : ℤ) (k : RunKey) (n m : ℕ) (es : List HistoryEvent)
    → n + length es < int64_mod
    → Numbered k n es m
    → (ids_of k (map (stamp now) es) ≡ ids_from n (length es)) × (m ≡ n + length es)
unfolding ids_of
ids_of-Numbered now k n m [] h p = (refl, omega arith)
ids_of-Numbered now k n m (e ∷ es) h (p, q, r) =
    let next : inc64 n ≡ suc n = omega (arith, inc64_lem n (omega arith)) in
    let (ids, last) = ids_of-Numbered now k (suc n) m es (omega arith) (rw next at r) in
    (ground (arith, same_run_iff e.key k), omega arith)

module _ {now : ℤ} {exec : WorkflowExecution} {v : ℕ} {es : List HistoryEvent}
    {acts : List ActivityState} {ts : List Timer} {db db' : Database}
    (u : Updated now exec v es acts ts db db') where
  open u use {row}

  row-key : row.key ≡ exec.key
  row-key = find_execution-key exec.key db.executions row u.found

  -- What a lookup finds after the update.
  pub find-Updated :
      (k : RunKey)
      → find_execution k db'.executions ≡ (
          if same_run exec.key k
          then some (updated now exec row)
          else find_execution k db.executions)
  find-Updated k = ground (
    arith,
    u.executions,
    row-key,
    u.found,
    find_execution-replace (updated now exec row) k db.executions,
  )

  ids_of-Updated :
      (k : RunKey) → ids_of k db'.events ≡ ids_of k db.events ++ ids_of k (map (stamp now) es)
  ids_of-Updated k = ap (ids_of k) u.events ∙ ids_of-append k db.events (map (stamp now) es)

  module _ (gapless : IsGapless db)
      (numbered : Numbered exec.key row.next_event_id es exec.next_event_id)
      (bounded : row.next_event_id + length es < int64_mod) where
    own_ids :
        (count : ℕ) × (ids_of exec.key db'.events ≡ ids_from 1 count)
        × (exec.next_event_id ≡ suc count)
    own_ids =
        let (count, ids, next) = gapless.logged exec.key row u.found in
        let (new, last) =
          ids_of-Numbered now exec.key row.next_event_id exec.next_event_id es bounded numbered in
        (
          count + length es,
          cc (
            ids_of-Updated exec.key,
            ids,
            new,
            ids_from-start row.next_event_id (1 + count) (length es) (omega arith),
            ids_from-append 1 count (length es),
          ),
          omega arith,
        )

    same_ids : (k : RunKey) → same_run exec.key k ≡ false → ids_of k db'.events ≡ ids_of k db.events
    same_ids k other = cc (
      ids_of-Updated k,
      ids_of-other now exec.key k row.next_event_id exec.next_event_id es other numbered,
      append-nil (ids_of k db.events),
    )

    -- A transaction that numbers its events from the run's `next_event_id` leaves no gap.
    pub Updated-IsGapless : IsGapless db'
    Updated-IsGapless = record {
      logged = λ k e h. elim (Bool-cases (same_run exec.key k)) [
        | inl same ↦
            let same_key : exec.key ≡ k = (same_run_iff exec.key k).0 same in
            (
              own_ids.0,
              cc (own_ids.1, ap (λ j. ids_of j db'.events) same_key),
              ground (arith, find-Updated k, own_ids.2),
            )
        | inr other ↦
            let (count, ids, next) = gapless.logged k e (ground (arith, find-Updated k)) in
            (count, cc (same_ids k other, ids), next)
      ];
      unlogged = λ k h. elim (Bool-cases (same_run exec.key k)) [
        | inl same ↦ absurd (ground (arith, find-Updated k))
        | inr other ↦ cc (same_ids k other, gapless.unlogged k (ground (arith, find-Updated k)))
      ];
    }
