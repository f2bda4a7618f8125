-- ===== src/History/TimerStore/Earliest.antt =====
-- The order of the sorted set under each operation of history/internal/adapters/redis/timer_store.go,
-- and which timers a claim takes.
use mini_workflow.History.Backend.{Backend}
use mini_workflow.History.TimerStore.{TimerStore}
