-- ===== src/History/TimerStore/Due.antt =====
-- The timers that the scavenger of history/internal/service/timer_processor.go reads, and their times
-- in the set of Redis after RebuildFromDB.
use mini_workflow.Prelude.{
  ◌≡◌, refl, sym, ap, ◌∙◌, Bool, true, false, Option, none, some, List, [], ◌∷◌, arith, str_eq,
  eq_iff, eq_refl, ◌==◌, ==_iff, keep, Bool-cases, inl, inr, if◌then◌else◌,
}
use mini_workflow.Prelude.Int.{ℤ, ltz, unix_milli}
use mini_workflow.History.Models.{Uuid, Timer}
use mini_workflow.History.Backend.{Backend}
use mini_workflow.History.Postgres.{find_timer}
use mini_workflow.History.Postgres.Timers.{insert_by_time, order_by_time}
use mini_workflow.History.TimerStore.Schedule.{set_to}
use mini_workflow.History.Postgres.TimerRows.{IsKeyed}

find_timer-insert :
    (t : Timer) (j : Uuid) (rows : List Timer)
    → find_timer t.timer_id rows ≡ none
    → find_timer j (insert_by_time t rows) ≡ (if t.timer_id == j then some t else find_timer j rows)
unfolding find_timer insert_by_time
find_timer-insert t j [] h = refl
find_timer-insert t j (u ∷ rest) h = ground (arith, find_timer-insert t j rest)

absent_rest :
    (j : Uuid) (u : Timer) (rest : List Timer)
    → find_timer j (u ∷ rest) ≡ none
    → ((j == u.timer_id) ≡ false) × (find_timer j rest ≡ none)
unfolding find_timer
absent_rest j u rest h = (ground arith, ground arith)

insert_by_time-IsKeyed :
    (t : Timer) (rows : List Timer)
    → find_timer t.timer_id rows ≡ none
    → IsKeyed rows
    → IsKeyed (insert_by_time t rows)
unfolding find_timer insert_by_time
insert_by_time-IsKeyed t [] h k = (refl, tt)
insert_by_time-IsKeyed t (u ∷ rest) h (fresh, k) =
    let (other, absent) = absent_rest t.timer_id u rest h in
    elim (Bool-cases (ltz u.fire_time t.fire_time)) [
      | inl first ↦ rw first (
        find_timer-insert t u.timer_id rest absent
            ∙ ap (λ c. if c then some t else find_timer u.timer_id rest) other
            ∙ fresh,
        insert_by_time-IsKeyed t rest absent k,
      )
      | inr after ↦ rw after (h, (fresh, k))
    ]

pub find_timer-keep :
    (p : Timer → Bool) (j : Uuid) (rows : List Timer) (t : Timer)
    → find_timer j rows ≡ some t
    → p t ≡ true
    → find_timer j (keep p rows) ≡ some t
unfolding find_timer
find_timer-keep p j [] t h good = cc
find_timer-keep p j (u ∷ rest) t h good = ground (arith, find_timer-keep p j rest t)

find_timer-keep-none :
    (p : Timer → Bool) (j : Uuid) (rows : List Timer)
    → find_timer j rows ≡ none
    → find_timer j (keep p rows) ≡ none
unfolding find_timer
find_timer-keep-none p j [] h = refl
find_timer-keep-none p j (u ∷ rest) h = ground (arith, find_timer-keep-none p j rest)

pub keep-IsKeyed : (p : Timer → Bool) (rows : List Timer) → IsKeyed rows → IsKeyed (keep p rows)
keep-IsKeyed p [] k = tt
keep-IsKeyed p (u ∷ rest) (fresh, k) = elim (Bool-cases (p u)) [
  | inl kept ↦ rw kept (find_timer-keep-none p u.timer_id rest fresh, keep-IsKeyed p rest k)
  | inr dropped ↦ rw dropped (keep-IsKeyed p rest k)
]

-- The order changes no lookup.
pub order_by_time-lem :
    (rows : List Timer)
    → IsKeyed rows
    → IsKeyed (order_by_time rows)
      × ((j : Uuid) → find_timer j (order_by_time rows) ≡ find_timer j rows)
unfolding find_timer order_by_time
order_by_time-lem [] k = (tt, λ j. refl)
order_by_time-lem (t ∷ rest) (fresh, k) =
    let (keyed, same) = order_by_time-lem rest k in
    let absent = same t.timer_id ∙ fresh in
    (
      insert_by_time-IsKeyed t (order_by_time rest) absent keyed,
      λ j.
          find_timer-insert t j (order_by_time rest) absent
          ∙ ap (λ o. if t.timer_id == j then some t else o) (same j),
    )

module _ ⦃b : Backend⦄ where
  some-inj : {u v : Timer} → some u ≡ some v → u ≡ v
  some-inj h = cc h

  some-eq : {u v : Uuid} → some u ≡ some v → u ≡ v
  some-eq h = cc h

  same_id : (u v : Uuid) → str_eq (b.print_uuid u) (b.print_uuid v) ≡ (u == v)
  same_id u v = elim (Bool-cases (u == v)) [
    | inl same ↦ rw ((==_iff u v).0 same) (eq_refl (b.print_uuid v) ∙ sym ((==_iff v v).1 refl))
    | inr differ ↦ elim (Bool-cases (str_eq (b.print_uuid u) (b.print_uuid v))) [
      | inr apart ↦ apart ∙ sym differ
      | inl alike ↦
          let one : u ≡ v = some-eq (
            sym (b.parse_uuid-print_uuid u)
            ∙ ap b.parse_uuid ((eq_iff (b.print_uuid u) (b.print_uuid v)).0 alike)
            ∙ b.parse_uuid-print_uuid v) in
          cc (sym differ ∙ (==_iff u v).1 one)
    ]
  ]

  set_to-other :
      (j : Uuid) (rows : List Timer) (old : Option ℤ)
      → find_timer j rows ≡ none
      → set_to (b.print_uuid j) rows old ≡ old
  unfolding find_timer
  set_to-other j [] old h = refl
  set_to-other j (t ∷ rest) old h = elim (Bool-cases (t.timer_id == j)) [
    | inl own ↦ cc (rw own at h)
    | inr other ↦ rw (same_id t.timer_id j, other) (set_to-other j rest old (rw other at h))
  ]

  -- The time that a rebuild leaves of a timer in its list.
  pub set_to-find :
      (j : Uuid) (rows : List Timer) (old : Option ℤ) (t : Timer)
      → IsKeyed rows
      → find_timer j rows ≡ some t
      → set_to (b.print_uuid j) rows old ≡ some (unix_milli t.fire_time)
  unfolding find_timer
  set_to-find j [] old t k h = cc
  set_to-find j (u ∷ rest) old t (fresh, k) h = elim (Bool-cases (u.timer_id == j)) [
    | inl own ↦
        let one = (==_iff u.timer_id j).0 own in
        let it : u ≡ t = some-inj (rw own at h) in
        rw (same_id u.timer_id j, own)
          (set_to-other j rest (some (unix_milli u.fire_time))
              (ap (λ i. find_timer i rest) (sym one) ∙ fresh)
            ∙ ap (λ (x : Timer). some (unix_milli x.fire_time)) it)
    | inr other ↦ rw (same_id u.timer_id j, other) (set_to-find j rest old t k (rw other at h))
  ]
