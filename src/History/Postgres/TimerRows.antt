-- ===== src/History/Postgres/TimerRows.antt =====
-- The rows of the `timers` table under the statements of repository.go.
use mini_workflow.Prelude.{
  ◌≡◌, refl, sym, ap, subst, String, ◌∙◌, true, false, none, some, List, [], ◌∷◌, ◌++◌, arith, ◌==◌,
  ==_iff, Bool-cases, inl, inr, if◌then◌else◌,
}
use mini_workflow.Result.{Result, ok, >>=-eq-ok, refuse_if}
use mini_workflow.History.Models.{Uuid, Timer}
use mini_workflow.History.Backend.{Backend}
use mini_workflow.History.Postgres.{find_timer, insert_timers, not_refused, is_some, duplicate_key}
use mini_workflow.History.Postgres.Timers.{alter_timer}

-- The primary key of the table.
abbrev pub IsKeyed : List Timer → Type 0
IsKeyed [] = Unit
IsKeyed (t ∷ rest) = (find_timer t.timer_id rest ≡ none) × IsKeyed rest

-- A later row of a timer: only its time may differ, and a mark that has been set stays.
pub record Kept (t u : Timer) : Type 0 where
  pub timer_id : u.timer_id ≡ t.timer_id
  pub key : u.key ≡ t.key
  pub timer_type : u.timer_type ≡ t.timer_type
  pub task_token : u.task_token ≡ t.task_token
  pub is_fired : t.is_fired ≡ true → u.is_fired ≡ true

pub record AllKept (rows rows' : List Timer) : Type 0 where
  pub keyed : IsKeyed rows → IsKeyed rows'
  pub stays :
      (j : Uuid) (t : Timer)
      → find_timer j rows ≡ some t
      → (u : Timer) × (find_timer j rows' ≡ some u) × Kept t u

some-inj : {t u : Timer} → some t ≡ some u → t ≡ u
some-inj h = cc h

ok-inj : {a c : List Timer} → ◌≡◌ {A = Result String (List Timer)} (ok a) (ok c) → a ≡ c
ok-inj h = cc h

Kept-refl : (t : Timer) → Kept t t
Kept-refl t = record {
  timer_id = refl;
  key = refl;
  timer_type = refl;
  task_token = refl;
  is_fired = λ h. h;
}

pub AllKept-refl : (rows : List Timer) → AllKept rows rows
AllKept-refl rows = record { keyed = λ k. k; stays = λ j t h. (t, h, Kept-refl t) }

pub AllKept-trans : {a m z : List Timer} → AllKept a m → AllKept m z → AllKept a z
AllKept-trans p q = record {
  keyed = λ k. q.keyed (p.keyed k);
  stays = λ j t h.
      let (u, at, one) = p.stays j t h in
      let (v, there, two) = q.stays j u at in
      (
        v,
        there,
        record {
          timer_id = two.timer_id ∙ one.timer_id;
          key = two.key ∙ one.key;
          timer_type = two.timer_type ∙ one.timer_type;
          task_token = two.task_token ∙ one.task_token;
          is_fired = λ f. two.is_fired (one.is_fired f);
        },
      );
}

find_timer-append :
    (j : Uuid) (t : Timer) (rows : List Timer)
    → find_timer j rows ≡ none
    → (t.timer_id == j) ≡ false
    → find_timer j (rows ++ t ∷ []) ≡ none
unfolding find_timer
find_timer-append j t [] h apart = ground arith
find_timer-append j t (u ∷ rest) h apart = ground (arith, find_timer-append j t rest)

find_timer-stays :
    (j : Uuid) (t u : Timer) (rows : List Timer)
    → find_timer j rows ≡ some u
    → find_timer j (rows ++ t ∷ []) ≡ some u
unfolding find_timer
find_timer-stays j t u [] h = cc
find_timer-stays j t u (r ∷ rest) h = ground (arith, find_timer-stays j t u rest)

differ-sym : (x y : Uuid) → (x == y) ≡ false → (y == x) ≡ false
differ-sym x y h = elim (Bool-cases (y == x)) [
  | inl same ↦ cc (sym h ∙ ap (λ z. z == y) (sym ((==_iff y x).0 same)) ∙ (==_iff y y).1 refl)
  | inr differ ↦ differ
]

append-IsKeyed :
    (t : Timer) (rows : List Timer)
    → find_timer t.timer_id rows ≡ none
    → IsKeyed rows
    → IsKeyed (rows ++ t ∷ [])
unfolding find_timer
append-IsKeyed t [] h k = (refl, tt)
append-IsKeyed t (u ∷ rest) h (apart, k) = elim (Bool-cases (u.timer_id == t.timer_id)) [
  | inl own ↦ cc (rw own at h)
  | inr other ↦ (
    find_timer-append u.timer_id t rest apart (differ-sym u.timer_id t.timer_id other),
    append-IsKeyed t rest (rw other at h) k,
  )
]

-- A row with a new id is added at the end.
append-AllKept :
    (t : Timer) (rows : List Timer)
    → find_timer t.timer_id rows ≡ none
    → AllKept rows (rows ++ t ∷ [])
append-AllKept t rows fresh = record {
  keyed = append-IsKeyed t rows fresh;
  stays = λ j u h. (u, find_timer-stays j t u rows h, Kept-refl u);
}

pub insert_timers-AllKept :
    ⦃b : Backend⦄ (ts rows : List Timer) {rows' : List Timer}
    → insert_timers ts rows ≡ ok rows'
    → AllKept rows rows'
unfolding insert_timers
insert_timers-AllKept ⦃b⦄ [] rows h = subst (AllKept rows) (ok-inj h) (AllKept-refl rows)
insert_timers-AllKept ⦃b⦄ (t ∷ ts) rows h =
    let (_, _, more) = >>=-eq-ok (not_refused (b.refuses_timer t)) _ h in
    let (_, absent, rest) =
      >>=-eq-ok (refuse_if (is_some (find_timer t.timer_id rows)) duplicate_key) _ more in
    AllKept-trans (append-AllKept t rows (ground arith))
      (insert_timers-AllKept ts (rows ++ t ∷ []) rest)

module _ (id : Uuid) (f : Timer → Timer) (keeps : (t : Timer) → Kept t (f t)) where
  abbrev altered : Timer → Timer
  altered r = if r.timer_id == id then f r else r

  altered-Kept : (r : Timer) → Kept r (altered r)
  altered-Kept r = elim (Bool-cases (r.timer_id == id)) [
    | inl own ↦ rw own (keeps r)
    | inr other ↦ rw other (Kept-refl r)
  ]

  same_test : (r : Timer) (j : Uuid) → ((altered r).timer_id == j) ≡ (r.timer_id == j)
  same_test r j = ap (λ i. i == j) (altered-Kept r).timer_id

  find_timer-alter :
      (j : Uuid) (rows : List Timer) (t : Timer)
      → find_timer j rows ≡ some t
      → (u : Timer) × (find_timer j (alter_timer id f rows) ≡ some u) × Kept t u
  unfolding find_timer alter_timer
  find_timer-alter j [] t h = cc
  find_timer-alter j (r ∷ rest) t h = elim (Bool-cases (r.timer_id == j)) [
    | inl own ↦
        let it : r ≡ t = some-inj (rw own at h) in
        rw (same_test, own) (altered r, refl, subst (λ x. Kept x (altered r)) it (altered-Kept r))
    | inr other ↦ rw (same_test, other) (find_timer-alter j rest t (rw other at h))
  ]

  find_timer-alter_none :
      (j : Uuid) (rows : List Timer)
      → find_timer j rows ≡ none
      → find_timer j (alter_timer id f rows) ≡ none
  unfolding find_timer alter_timer
  find_timer-alter_none j [] h = refl
  find_timer-alter_none j (r ∷ rest) h = elim (Bool-cases (r.timer_id == j)) [
    | inl own ↦ cc (rw own at h)
    | inr other ↦ rw (same_test, other) (find_timer-alter_none j rest (rw other at h))
  ]

  alter_timer-IsKeyed : (rows : List Timer) → IsKeyed rows → IsKeyed (alter_timer id f rows)
  unfolding alter_timer
  alter_timer-IsKeyed [] k = tt
  alter_timer-IsKeyed (r ∷ rest) (apart, k) = (
    ap (λ i. find_timer i (alter_timer id f rest)) (altered-Kept r).timer_id
        ∙ find_timer-alter_none r.timer_id rest apart,
    alter_timer-IsKeyed rest k,
  )

  -- Rows of one id are altered.
  pub alter_timer-AllKept : (rows : List Timer) → AllKept rows (alter_timer id f rows)
  alter_timer-AllKept rows = record {
    keyed = alter_timer-IsKeyed rows;
    stays = λ j t. find_timer-alter j rows t;
  }
