-- ===== src/Usecase/Recovering.antt =====
-- usecase/service.go: what RecoverWorkflows schedules, on a database that answers.
use antflow_server.Store.World.{World}
use antflow_server.Store.Steps
use antflow_server.Store.Tasks
use antflow_server.Store.Checkpoints
use antflow_server.Broker
