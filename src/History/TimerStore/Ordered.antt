-- ===== src/History/TimerStore/Ordered.antt =====
-- The order of the sorted set in history/internal/adapters/redis/timer_store.go: by time.
use mini_workflow.Prelude.{
  ℕ, zero, suc, ◌≡◌, String, Bool, true, false, not, List, [], ◌∷◌, arith, ◌⊎◌, take, keep, All,
  str_eq, eq_refl, Bool-cases, inl, inr,
}
use mini_workflow.Prelude.Int.{ℤ, ltz}
use mini_workflow.History.Models.{Timer}
use mini_workflow.History.Backend.{Backend}
use mini_workflow.History.TimerStore.{Entry, before, insert_entry, without, zadd, is_in, add_all}

-- Not later than.
abbrev pub NotAfter : Entry → Entry → Type 0
NotAfter d e = ltz e.score d.score ≡ false

abbrev pub IsOrdered : List Entry → Type 0
IsOrdered [] = Unit
IsOrdered (e ∷ rest) = All (NotAfter e) rest × IsOrdered rest

ltz_trans : (x y z : ℤ) → ltz y x ≡ false → ltz z y ≡ false → ltz z x ≡ false
ltz_trans x y z p q = ground arith

before-NotAfter : (d e : Entry) → before d e ≡ true → NotAfter d e
unfolding before
before-NotAfter d e h = ground arith

after-NotAfter : (d e : Entry) → before d e ≡ false → NotAfter e d
unfolding before
after-NotAfter d e h = ground arith

module _ (P : Entry → Type 0) where
  insert_entry-All :
      (e : Entry) (rows : List Entry) → P e → All P rows → All P (insert_entry e rows)
  unfolding insert_entry
  insert_entry-All e [] a h = (a, tt)
  insert_entry-All e (f ∷ rest) a (own, h) = elim (Bool-cases (before f e)) [
    | inl first ↦ rw first (own, insert_entry-All e rest a h)
    | inr later ↦ rw later (a, (own, h))
  ]

  keep-All : (p : Entry → Bool) (rows : List Entry) → All P rows → All P (keep p rows)
  keep-All p [] h = tt
  keep-All p (e ∷ rest) (own, h) = elim (Bool-cases (p e)) [
    | inl kept ↦ rw kept (own, keep-All p rest h)
    | inr left ↦ rw left (keep-All p rest h)
  ]

  weaken-All :
      (Q : Entry → Type 0) (rows : List Entry) → ((e : Entry) → P e → Q e) → All P rows → All Q rows
  weaken-All Q [] f h = tt
  weaken-All Q (e ∷ rest) f (own, h) = (f e own, weaken-All Q rest f h)

insert_entry-IsOrdered :
    (e : Entry) (rows : List Entry) → IsOrdered rows → IsOrdered (insert_entry e rows)
unfolding insert_entry
insert_entry-IsOrdered e [] h = (tt, tt)
insert_entry-IsOrdered e (f ∷ rest) (all, h) = elim (Bool-cases (before f e)) [
  | inl first ↦ rw first (
    insert_entry-All (NotAfter f) e rest (before-NotAfter f e first) all,
    insert_entry-IsOrdered e rest h,
  )
  | inr later ↦
      let near = after-NotAfter f e later in
      rw later (
        (
          near,
          weaken-All (NotAfter f) (NotAfter e) rest
              (λ g far. ltz_trans e.score f.score g.score near far) all,
        ),
        (all, h),
      )
]

pub keep-IsOrdered :
    (p : Entry → Bool) (rows : List Entry) → IsOrdered rows → IsOrdered (keep p rows)
keep-IsOrdered p [] h = tt
keep-IsOrdered p (e ∷ rest) (all, h) = elim (Bool-cases (p e)) [
  | inl kept ↦ rw kept (keep-All (NotAfter e) p rest all, keep-IsOrdered p rest h)
  | inr left ↦ rw left (keep-IsOrdered p rest h)
]

pub zadd-IsOrdered :
    (at : ℤ) (m : String) (rows : List Entry) → IsOrdered rows → IsOrdered (zadd at m rows)
unfolding zadd without
zadd-IsOrdered at m rows h =
    insert_entry-IsOrdered _ (keep (λ e. not (str_eq e.member m)) rows)
      (keep-IsOrdered (λ e. not (str_eq e.member m)) rows h)

pub add_all-IsOrdered :
    ⦃b : Backend⦄ (ts : List Timer) (rows : List Entry)
    → IsOrdered rows
    → IsOrdered (add_all ts rows)
unfolding add_all
add_all-IsOrdered [] rows h = h
add_all-IsOrdered (t ∷ ts) rows h = add_all-IsOrdered ts _ (zadd-IsOrdered _ _ rows h)

-- The first entries of an ordered list are not after the others.
abbrev IsFirst : List Entry → Entry → Type 0
IsFirst c e = (is_in e.member c ≡ true) ⊎ All (λ d. NotAfter d e) c

IsFirst-more :
    (x : Entry) (c : List Entry) (e : Entry) → NotAfter x e → IsFirst c e → IsFirst (x ∷ c) e
unfolding is_in
IsFirst-more x c e near (inl taken) = inl (ground arith)
IsFirst-more x c e near (inr far) = inr (near, far)

All-IsFirst-more :
    (x : Entry) (c rows : List Entry)
    → All (NotAfter x) rows
    → All (IsFirst c) rows
    → All (IsFirst (x ∷ c)) rows
All-IsFirst-more x c [] n h = tt
All-IsFirst-more x c (e ∷ rest) (near, n) (own, h) =
    (IsFirst-more x c e near own, All-IsFirst-more x c rest n h)

take-IsFirst : (n : ℕ) (rows : List Entry) → IsOrdered rows → All (IsFirst (take n rows)) rows
unfolding is_in
take-IsFirst n [] h = tt
take-IsFirst zero (x ∷ xs) (all, h) = (inr tt, take-IsFirst zero xs h)
take-IsFirst (suc n) (x ∷ xs) (all, h) = (
  inl (ground (arith, eq_refl x.member)),
  All-IsFirst-more x (take n xs) xs all (take-IsFirst n xs h),
)

module _ (p : Entry → Bool) (c : List Entry) where
  abbrev pub NotBefore : Entry → Type 0
  NotBefore e = p e ≡ true → All (λ d. NotAfter d e) c

  keep-IsFirst :
      (rows : List Entry) → All (IsFirst c) (keep p rows) → All (λ e. p e ≡ true → IsFirst c e) rows
  keep-IsFirst [] h = tt
  keep-IsFirst (e ∷ rest) h = elim (Bool-cases (p e)) [
    | inl kept ↦ let (own, others) = rw kept at h in ((λ _. own), keep-IsFirst rest others)
    | inr out ↦ ((λ kept. cc), keep-IsFirst rest (rw out at h))
  ]

  left-NotBefore :
      (rows : List Entry)
      → All (λ e. p e ≡ true → IsFirst c e) rows
      → All NotBefore (keep (λ e. not (is_in e.member c)) rows)
  left-NotBefore [] h = tt
  left-NotBefore (e ∷ rest) (own, h) = elim (Bool-cases (is_in e.member c)) [
    | inl taken ↦ rw taken (left-NotBefore rest h)
    | inr left ↦
        rw left
          ((λ kept. elim (own kept) [ inl taken ↦ cc | inr far ↦ far ]), left-NotBefore rest h)
  ]

-- What is taken from an ordered list is not after what is left of the same kind.
pub take-NotBefore :
    (p : Entry → Bool) (n : ℕ) (rows : List Entry)
    → IsOrdered rows
    → All
        (NotBefore p (take n (keep p rows)))
        (keep (λ e. not (is_in e.member (take n (keep p rows)))) rows)
take-NotBefore p n rows h = left-NotBefore p (take n (keep p rows)) rows (
    keep-IsFirst p (take n (keep p rows)) rows
      (take-IsFirst n (keep p rows) (keep-IsOrdered p rows h)))
