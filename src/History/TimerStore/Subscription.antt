-- ===== src/History/TimerStore/Subscription.antt =====
-- `Subscribe` of history/internal/adapters/redis/timer_store.go: the channel with one place that the
-- loop of the timer processor reads, and the goroutine that fills it.
use mini_workflow.Prelude.{
  ℕ, zero, suc, ◌+◌, ◌-◌, ◌≤◌, ◌≡◌, refl, ap, String, Bool, true, false, List, [], ◌∷◌, ◌++◌, All,
  if◌then◌else◌, Bool-cases, Option-cases, inl, inr, arith,
}
use mini_workflow.Prelude.Int.{ℤ}
use mini_workflow.Result.{ok}
use mini_workflow.History.Postgres.{Fault}
use mini_workflow.History.TimerStore.{TimerStore, schedule_timer, is_earliest, zadd}

-- What the goroutine takes from its `select`: a message of Redis, the end of the messages, or the
-- end of the context; and a read of the channel by the loop.
pub data Event : Type 0 where
  message closed cancelled received : Event

pub record Subscription : Type 0 where
  -- a wake-up waits in the channel
  pub full : Bool
  -- the goroutine has not returned
  pub running : Bool

abbrev pub subscribe : Subscription
subscribe = record { full = false; running = true }

-- The send has a `default`: where a wake-up waits already, the message goes away.
unfoldable pub follow : Event → Subscription → Subscription
follow message c = if c.running then record c { full = true } else c
follow closed c = record c { running = false }
follow cancelled c = record c { running = false }
follow received c = record c { full = false }

abbrev pub follow_all : List Event → Subscription → Subscription
follow_all [] c = c
follow_all (e ∷ rest) c = follow_all rest (follow e c)

-- The reads that find a wake-up; the others wait.
abbrev pub reads_woken : List Event → Subscription → ℕ
reads_woken [] c = 0
reads_woken (received ∷ rest) c =
    let n = reads_woken rest (follow received c) in if c.full then suc n else n
reads_woken (message ∷ rest) c = reads_woken rest (follow message c)
reads_woken (closed ∷ rest) c = reads_woken rest (follow closed c)
reads_woken (cancelled ∷ rest) c = reads_woken rest (follow cancelled c)

abbrev pub sent : List Event → ℕ
sent [] = 0
sent (message ∷ rest) = suc (sent rest)
sent (closed ∷ rest) = sent rest
sent (cancelled ∷ rest) = sent rest
sent (received ∷ rest) = sent rest

-- Neither the messages nor the context have ended.
abbrev pub is_open : Event → Bool
is_open message = true
is_open received = true
is_open closed = false
is_open cancelled = false

abbrev pub is_read : Event → Bool
is_read received = true
is_read message = false
is_read closed = false
is_read cancelled = false

-- The messages that a change of the store has published.
abbrev pub messages : ℕ → List Event
messages zero = []
messages (suc n) = message ∷ messages n

abbrev pub published_by : TimerStore → TimerStore → List Event
published_by s s' = messages (s'.wakeups - s.wakeups)

abbrev bit : Bool → ℕ
bit true = 1
bit false = 0

follow_all-append :
    (before after : List Event) (c : Subscription)
    → follow_all (before ++ after) c ≡ follow_all after (follow_all before c)
follow_all-append [] after c = refl
follow_all-append (e ∷ before) after c = follow_all-append before after (follow e c)

follow-running :
    (e : Event) (c : Subscription)
    → is_open e ≡ true
    → c.running ≡ true
    → (follow e c).running ≡ true
unfolding follow
follow-running message c going up = rw up refl
follow-running received c going up = up
follow-running closed c going up = cc
follow-running cancelled c going up = cc

follow_all-running :
    (before : List Event) (c : Subscription)
    → All (λ e. is_open e ≡ true) before
    → c.running ≡ true
    → (follow_all before c).running ≡ true
follow_all-running [] c going up = up
follow_all-running (e ∷ before) c (now, going) up =
    follow_all-running before (follow e c) going (follow-running e c now up)

follow-full :
    (e : Event) (c : Subscription) → is_read e ≡ false → c.full ≡ true → (follow e c).full ≡ true
unfolding follow
follow-full message c unread h = elim (Bool-cases c.running) [
  | inl up ↦ rw up refl
  | inr down ↦ rw down h
]
follow-full closed c unread h = h
follow-full cancelled c unread h = h
follow-full received c unread h = cc

follow_all-full :
    (after : List Event) (c : Subscription)
    → All (λ e. is_read e ≡ false) after
    → c.full ≡ true
    → (follow_all after c).full ≡ true
follow_all-full [] c unread h = h
follow_all-full (e ∷ after) c (now, unread) h =
    follow_all-full after (follow e c) unread (follow-full e c now h)

bit-message : (c : Subscription) → bit (follow message c).full ≤ suc (bit c.full)
unfolding follow
bit-message c = elim (Bool-cases c.running) [
  | inl up ↦ rw up (omega arith)
  | inr down ↦ rw down (omega arith)
]

reads_woken-bound :
    (events : List Event) (c : Subscription) → reads_woken events c ≤ sent events + bit c.full
unfolding follow
reads_woken-bound [] c = omega arith
reads_woken-bound (message ∷ rest) c =
    omega (arith, reads_woken-bound rest (follow message c), bit-message c)
reads_woken-bound (closed ∷ rest) c = reads_woken-bound rest (follow closed c)
reads_woken-bound (cancelled ∷ rest) c = reads_woken-bound rest (follow cancelled c)
reads_woken-bound (received ∷ rest) c = elim (Bool-cases c.full) [
  | inl h ↦ rw h (omega (arith, reads_woken-bound rest (follow received c)))
  | inr h ↦ rw h (omega (arith, reads_woken-bound rest (follow received c)))
]

filled : (c : Subscription) → c.running ≡ true → (follow message c).full ≡ true
unfolding follow
filled c up = rw up refl

one_message : (n : ℕ) → messages (n + 1 - n) ≡ message ∷ []
one_message n = let one : n + 1 - n ≡ 1 = omega arith in ap messages one

scheduled-published_by :
    (faults : ℕ → Fault) (id : String) (at : ℤ) (s : TimerStore)
    → (schedule_timer faults id at s).0 ≡ ok tt
    → is_earliest id (schedule_timer faults id at s).1.active ≡ true
    → published_by s (schedule_timer faults id at s).1 ≡ message ∷ []
unfolding schedule_timer
scheduled-published_by faults id at s success first = elim (Option-cases (faults 0)) [
  | inr (e, h) ↦ cc (rw h at success)
  | inl h ↦ elim (Option-cases (faults 1)) [
    | inr (e, g) ↦ cc (rw (h, g) at success)
    | inl g ↦ elim (Bool-cases (is_earliest id (zadd at id s.active))) [
      | inr later ↦ cc (later, rw (h, g, later) at first)
      | inl now ↦ elim (Option-cases (faults 2)) [
        | inr (e, f) ↦ cc (rw (h, g, now, f) at success)
        | inl f ↦ rw (h, g, now, f) (one_message s.wakeups)
      ]
    ]
  ]
]

-- A timer that is scheduled and is then the first wakes the loop: among any other messages and
-- reads, if the goroutine has not returned before and the loop does not read in between, a wake-up
-- waits for its next read. However many messages come, no more reads find one than were sent.
pub schedule_timer-follow :
    (faults : ℕ → Fault) (id : String) (at : ℤ) (s : TimerStore) (before after : List Event)
    → (schedule_timer faults id at s).0 ≡ ok tt
    → is_earliest id (schedule_timer faults id at s).1.active ≡ true
    → All (λ e. is_open e ≡ true) before
    → All (λ e. is_read e ≡ false) after
    → let events = before ++ (published_by s (schedule_timer faults id at s).1 ++ after) in
      ((follow_all events subscribe).full ≡ true) × (reads_woken events subscribe ≤ sent events)
schedule_timer-follow faults id at s before after success first going unread =
    let now = follow_all before subscribe in
    let up = follow_all-running before subscribe going refl in
    (
      rw (scheduled-published_by faults id at s success first, follow_all-append before)
          (follow_all-full after (follow message now) unread (filled now up)),
      omega (
        arith,
        reads_woken-bound (before ++ (published_by s (schedule_timer faults id at s).1 ++ after))
            subscribe,
      ),
    )
