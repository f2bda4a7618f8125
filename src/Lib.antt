-- ===== src/Lib.antt =====
-- A model of Mini-Workflow, a workflow engine of three services over PostgreSQL and Redis, and the
-- theorems that make it correct.
--
-- The frontend takes the requests of clients and workers and calls the other two. The history
-- service keeps the runs, their logs of events, their activities and their timers in PostgreSQL,
-- and its timer processor fires the timers that Redis holds by time. The matching service keeps
-- the queues of tasks in Redis; the history service adds to them and workers poll them.
--
-- - Prelude, Result: numbers, texts, lists, and results of calls that fail. Prelude.Int has the
--   signed integers, their wrap-around, instants and durations in nanoseconds.
-- - Codec: encoding/json and encoding/base64. A byte string stands for the operation that made it.
-- - Api: the messages of api/workflow.pb.go.
-- - History.Models, History.Postgres, History.TimerStore: history/internal/domain and
--   history/internal/adapters. Tables are lists of rows in order of insertion, with the unique
--   constraints tested on insertion; the sorted set of Redis is a sorted list, and
--   History.TimerStore.Subscription is the channel of its wake-ups. Postgres.Update and
--   Postgres.Create say what a transaction that succeeds has done, Postgres.TimerRows what becomes
--   of the rows of timers, and History.Changes what any sequence of transactions can do: the
--   specification of the handlers.
-- - History.World, History.Service, History.Handler: history/internal/service and the gRPC adapter
--   before it. A handler is a function of the database, the timers and the queues (World) and of
--   what its surroundings answer (Env): the clock, new UUIDs, and the failure of each call. What
--   follows the transaction of a handler is made for its effect, as the code only logs its errors.
--   History.Service.Queued describes the queues after a task has been sent, apart from that code.
-- - History.TimerProcessor: history/internal/service/timer_processor.go; the loop is run on a list
--   of rounds, each with the signal that ended its wait.
-- - History.Overlap, History.System: the steps of the whole history service. A handler that reads
--   its run, or looks for one as a start does, is in two parts, up to the read (`begin`) and the
--   rest, and other steps come between; whether they do for a start is a parameter of the steps.
--   History.Service.Effects is about a handler that succeeds, History.Races about starts that
--   overlap, History.Recovery about the timers that Redis has lost.
-- - Matching: matching/internal; Matching.Order is any sequence of its requests. Frontend:
--   frontend/internal, over any history and matching client, with its gRPC adapter in
--   Frontend.Handler. Services: the clients of frontend/internal/adapters/grpc, which put the
--   frontend before the other two services.
-- - Scenarios: the theorems at concrete inputs.
--
-- Bounds. An int64 event number or version is its bit pattern, with `% 2 ^ 64` where the code adds
-- to it; the theorems on numbers assume that the table has less than 2 ^ 63 - 1 events. No
-- recursion runs on fuel: loops are over lists.
--
-- Not modelled. A transaction commits or has no effect: a commit whose answer is lost counts as
-- its failure. Requests overlap between the read of their run and the rest, which is made in one go:
-- what follows the transaction of a handler, and the statements of a heartbeat after its own, follow
-- at once.
-- `FindRunningWorkflow` has no order, and gives the first row. Instants keep their nanoseconds
-- where the columns of PostgreSQL round to microseconds; which tokens of timers are like the id
-- of an activity is for the database to say. Of the codes of gRPC only those that the three
-- services return are there. Scores in Redis are float64, exact below 2 ^ 53 milliseconds. Error
-- texts leave out quotation marks and the wrapped prefixes of the repository. The `id` column of
-- the events, gRPC transport, contexts, logs, configuration and generated code are left out.
-- UUIDs, and what PostgreSQL decides by the types of columns, are History.Backend.
pub mod Prelude
pub mod Result
pub mod Codec
pub mod Api
pub mod History
pub mod Matching
pub mod Frontend
pub mod Services
mod Scenarios
