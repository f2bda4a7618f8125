-- ===== src/History/TimerProcessor/Claimed.antt =====
-- `processExpired` of history/internal/service/timer_processor.go: the mark of one timer while a list
-- of claimed timers is dispatched.
use mini_workflow.Prelude.{
  ℕ, ◌+◌, ◌≡◌, refl, sym, ap, ◌∙◌, subst, String, Bool, true, false, Option, none, some, List, [],
  ◌∷◌, map, str_eq, eq_iff, ◌==◌, ==_iff, Bool-cases, Option-cases, inl, inr, if◌then◌else◌,
}
use mini_workflow.History.Models.{Uuid, Timer}
use mini_workflow.History.Backend.{Backend}
use mini_workflow.History.Postgres.{find_timer}
use mini_workflow.History.Postgres.Timers.{get_timer_by_id}
use mini_workflow.History.TimerStore.{Entry, is_in}
use mini_workflow.History.World.{World, Env}
use mini_workflow.History.TimerProcessor.{dispatch}
use mini_workflow.History.TimerProcessor.Dispatch.{dispatch-fired}
use mini_workflow.History.TimerProcessor.Loop.{dispatched, dispatch_all}

-- The read of a timer and its marking succeed.
abbrev pub Answers : Env → Type 0
Answers env = (env.db_fault 0 ≡ none) × (env.db_fault 1 ≡ none)

module _ ⦃b : Backend⦄ where
  module _ (id : Uuid) (t : Timer) where
    abbrev pub Has : Bool → World → Type 0
    Has fired w = find_timer id w.db.timers ≡ some (record t { is_fired = fired })

    dispatch-own :
        (env : Env) (fired : Bool) (w : World)
        → Answers env
        → Has fired w
        → Has true (dispatch env id w).1
    dispatch-own env fired w (read, marked) has =
        dispatch-fired env id id (record t { is_fired = fired }) w read marked has
        ∙ ap (λ c. if c then some (record t { is_fired = true }) else find_timer id w.db.timers)
            ((==_iff id id).1 refl)

    dispatch-other :
        (env : Env) (j : Uuid) (w : World)
        → Answers env
        → (j == id) ≡ false
        → find_timer id (dispatch env j w).1.db.timers ≡ find_timer id w.db.timers
    unfolding dispatch get_timer_by_id
    dispatch-other env j w (read, marked) other = elim (Option-cases (find_timer j w.db.timers)) [
      | inl absent ↦ rw (read, absent) refl
      | inr (u, found) ↦
          dispatch-fired env j id u w read marked found
          ∙ ap (λ c. if c then some (record u { is_fired = true }) else find_timer id w.db.timers)
              other
    ]

    -- A dispatch never takes the mark off.
    dispatched-Has :
        (env : Env) (o : Option Uuid) (fired : Bool) (w : World)
        → Answers env
        → Has fired w
        → (f : Bool) × (fired ≡ true → f ≡ true) × Has f (dispatched env o w)
    dispatched-Has env none fired w up has = (fired, (λ h. h), has)
    dispatched-Has env (some j) fired w up has = elim (Bool-cases (j == id)) [
      | inl own ↦
          let one = (==_iff j id).0 own in
          (
            true,
            (λ h. refl),
            subst (λ k. Has true (dispatch env k w).1) (sym one) (dispatch-own env fired w up has),
          )
      | inr other ↦ (fired, (λ h. h), dispatch-other env j w up other ∙ has)
    ]

    stays_fired :
        (envs : ℕ → Env) (ids : List String) (w : World)
        → ((k : ℕ) → Answers (envs k))
        → Has true w
        → Has true (dispatch_all envs ids w)
    unfolding dispatch_all
    stays_fired envs [] w up has = has
    stays_fired envs (x ∷ rest) w up has =
        let (f, keeps, now) = dispatched-Has (envs 0) (b.parse_uuid x) true w (up 0) has in
        stays_fired (λ k. envs (k + 1)) rest _ (λ k. up (k + 1))
          (subst (λ c. Has c (dispatched (envs 0) (b.parse_uuid x) w)) (keeps refl) now)

    -- A timer that has been claimed is fired.
    pub fires_claimed :
        (envs : ℕ → Env) (c : List Entry) (fired : Bool) (w : World)
        → ((k : ℕ) → Answers (envs k))
        → Has fired w
        → is_in (b.print_uuid id) c ≡ true
        → Has true (dispatch_all envs (map (λ e. e.member) c) w)
    unfolding dispatch_all is_in
    fires_claimed envs [] fired w up has claim = cc
    fires_claimed envs (e ∷ rest) fired w up has claim =
        elim (Bool-cases (str_eq e.member (b.print_uuid id))) [
          | inl own ↦
              let it : b.parse_uuid e.member ≡ some id =
                ap b.parse_uuid ((eq_iff e.member (b.print_uuid id)).0 own)
                ∙ b.parse_uuid-print_uuid id in
              stays_fired (λ k. envs (k + 1)) (map (λ f. f.member) rest) _ (λ k. up (k + 1))
                (subst (λ o. Has true (dispatched (envs 0) o w)) (sym it)
                  (dispatch-own (envs 0) fired w (up 0) has))
          | inr other ↦
              let (f, _, now) =
                dispatched-Has (envs 0) (b.parse_uuid e.member) fired w (up 0) has in
              fires_claimed (λ k. envs (k + 1)) rest f _ (λ k. up (k + 1)) now (rw other at claim)
        ]
