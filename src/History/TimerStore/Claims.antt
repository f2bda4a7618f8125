-- ===== src/History/TimerStore/Claims.antt =====
-- ClaimExpired of history/internal/adapters/redis/timer_store.go: what it takes and what it leaves.
use mini_workflow.Prelude.{
  ◌≡◌, refl, String, Bool, true, false, not, Option, none, some, List, [], ◌∷◌, arith, keep, str_eq,
  eq_iff, Bool-cases, inl, inr, if◌then◌else◌,
}
use mini_workflow.Prelude.Int.{ℤ}
use mini_workflow.History.TimerStore.{Entry, TimerStore, is_expired, is_in}

-- The score of a member, if it is there.
unfoldable pub score_of : String → List Entry → Option ℤ
score_of m [] = none
score_of m (e ∷ rest) = if str_eq e.member m then some e.score else score_of m rest

pub score_of-keep :
    (p : Entry → Bool) (m : String) (xs : List Entry)
    → ((e : Entry) → str_eq e.member m ≡ true → p e ≡ true)
    → score_of m (keep p xs) ≡ score_of m xs
unfolding score_of
score_of-keep p m [] h = refl
score_of-keep p m (e ∷ rest) h = ground (arith, score_of-keep p m rest h, h e)

pub score_of-keep-none :
    (p : Entry → Bool) (m : String) (xs : List Entry)
    → ((e : Entry) → str_eq e.member m ≡ true → p e ≡ false)
    → score_of m (keep p xs) ≡ none
unfolding score_of
score_of-keep-none p m [] h = refl
score_of-keep-none p m (e ∷ rest) h = ground (arith, score_of-keep-none p m rest h, h e)

module _ (now : ℤ) where
  abbrev InIf : List Entry → Entry → Type 0
  InIf c e = is_expired now e ≡ true → is_in e.member c ≡ true

  pub left_score :
      (c : List Entry) (m : String) (xs : List Entry)
      → score_of m (keep (λ e. not (is_in e.member c)) xs)
        ≡ (if is_in m c then none else score_of m xs)
  left_score c m xs = elim (Bool-cases (is_in m c)) [
    | inl taken ↦ rw taken (
        score_of-keep-none (λ e. not (is_in e.member c)) m xs
          (λ e same. ground (arith, (eq_iff e.member m).0 same)))
    | inr left ↦ rw left (
        score_of-keep (λ e. not (is_in e.member c)) m xs
          (λ e same. ground (arith, (eq_iff e.member m).0 same)))
  ]
