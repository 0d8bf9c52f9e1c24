-- ===== src/Lib.antt =====
-- AntFlow server: a workflow engine in Go. Clients register workflows (CHAIN, INDEPENDENT or
-- SAGA) and start executions of them; workers stream tasks from queues and report on them; a
-- failed saga is rolled back by compensation tasks. All state but the signals and the wake-ups
-- is in PostgreSQL.
--
-- Parts, and where they are modelled:
-- - domain/workflow: Domain (States for statemechine.go, Errors for errors.go, Events for
--   Events.go, Types for the records of workflow.go); Machine proves what the state machine
--   allows, Moves names what the server makes of it.
-- - usecase/broker.go: Broker, a channel being its number. Broker/Channels has the runs of a
--   broker.
-- - usecase/signal.go: Signals, a blocked Wait being the number of its channel, and the select
--   of Wait three operations. Signals/Delivery, Signals/Draining and Signals/Channels are about
--   the orders of calls.
-- - infrastructure/persistence: Store, one module for each repository (Namespaces, Definitions,
--   Steps, Executions, Tasks, CompensationTasks, History, Checkpoints). A table is a list of
--   rows, a WHERE clause a Boolean test; the constraints that Migrate declares are tests on the
--   insert. Store/World has db.go and transactionManager.go: the committed tables, the working
--   copy of an open transaction, and the actions on them.
-- - usecase/registration.go, execution.go, task.go, saga.go, service.go, history.go:
--   Usecase/Registration, Execution, Completion, Saga and Service, one action for each method,
--   in which each branch of a long method is a definition of its own.
-- - interface/grpc: Handler for the unary handlers and their status codes, Handler/Streams for
--   one turn of the loop of each stream.
-- - The server as a whole: System, any sequence of calls of the service.
-- - The Migrate of each repository, and the loop of main.go over them: Migrations, a schema
--   being the names of its extensions, tables, columns, named constraints and indexes.
--
-- How the proofs are made:
-- - Store/Frame has an interface, a relation between tables that every single statement
--   respects; Usecase/Frames (with its child Reporting) shows once that every method of the
--   service then respects it, and the files of System fill the interface. An update of the
--   state of an execution comes with the evidence of Domain/Moves that the state it finds may
--   become the state it writes; Store/Frame/Guarded carries that state from the SELECT to the
--   UPDATE. Store/Keys has the keys of the tables and that every statement keeps them.
--   Store/Covered does the same as Store/Frame for what a transaction hides.
-- - Store/Inversion and Store/Returns read off what an action that returned has done, and
--   Store/Leaves what tables it left; Usecase/Registered is built on the last.
-- - Store/Calm has what an action does on a database that answers, one equation for each way to
--   build an action: Usecase/Progress, Advancing, Undoing, Expiring and Recovering are the
--   methods of the service on such a database, and System/Completing, System/RollingBack and
--   System/Unwinding the workflows and the rollbacks on one.
--
-- Choices and bounds:
-- - Times are seconds, as natural numbers. Counts and timeouts that are negative act in the
--   code as 0 does, and are natural numbers too. A nullable column is an Option. Bytes that are
--   empty stand for nil, as protobuf decodes an absent field; lib/pq writes nil as NULL, which
--   a NOT NULL column refuses.
-- - Calls of the service run one at a time, each to its end, at a time of its own that nothing
--   orders. So no two transactions overlap, and SKIP LOCKED skips nothing.
-- - Each statement, BEGIN and COMMIT included, may fail as the list of faults of the call says;
--   a failed statement aborts its transaction. A COMMIT that fails has not committed.
-- - uuid.New and json.Marshal are parameters, the fields of Env. Nothing is assumed of either,
--   but that the ids drawn are new and differ, where a result says so.
-- - Ids are any texts, where PostgreSQL refuses one that is no uuid. Rows that tie in an ORDER
--   BY come in the order of the table. The texts of the driver's errors, and those of gRPC
--   statuses, are left out; of an error the code builds, the parts that name an id are.
-- - The ids of history and checkpoints are sequences, which a rollback does not take back.
-- - The deadline of an execution wraps around as the int64 of time.Duration does.
-- - Fuel stands only in Usecase/Retries, where it counts the runs of a task; one more than the
--   attempts is shown to be enough.
--
-- Not modelled: api/grpc/pb (generated), the listener, the tickers and the shutdown of main.go,
-- the connection pool and Close of db.go, the types, the defaults and the primary keys in the
-- DDL of Migrate beyond the tests on the inserts, logging, and what a client does with a
-- stream.
pub mod Base
pub mod Domain
pub mod Signals
pub mod Broker
pub mod Store
pub mod Usecase
pub mod System
pub mod Handler
pub mod Migrations
pub mod Tests
