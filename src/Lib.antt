-- ===== src/Lib.antt =====
-- A model of the cloud-native platform of this repository and of the operator that rolls it back, with
-- the theorems that make its control logic correct.
--
-- The program has two halves. The operator (internal/operator, cmd/operator) receives alerts, keeps an
-- incident for each, decides by policies, reports and the history of rollbacks whether to act, and
-- carries a rollback out through Helm, with verification and retries. The platform is three services
-- (services/order-service, inventory-service, payment-service) behind a gateway: an order is a saga
-- that reserves stock, takes a payment, and releases the stock if anything fails; internal/shared
-- holds what they share.
--
-- The operator, in Operator. The paths are below internal/operator:
--   Operator/Models.antt        models/models.go
--   Operator/StateMachine.antt  state/machine.go, the table of moves and Transition
--   Operator/Incidents.antt     storage/inmemory.go, the store of incidents with its clones
--   Operator/Manager.antt       incident/manager.go, ProcessAlert, in the source's sections, each a
--                               function of what the one before answered
--   Operator/Pipeline.antt      incident/manager.go, runRecoveryPipeline: its attempts, and the two
--                               ways in which it closes an incident; Pipeline/Peers joins it to the
--                               coordinator of peers, Pipeline/Verified to Operator/Verification
--   Operator/Decision.antt      decision/engine.go, MakeDecision, over the reports of
--   Operator/Reports.antt       the reports of slo/engine.go, budget/manager.go, burnrate/engine.go and
--                               rootcause/analyzer.go, and the interfaces that answer them
--   Operator/Engines.antt       the same engines: Evaluate, EvaluateBudget and CalculateBurnRate, over the
--                               golden signals that prometheus/client.go reads
--   Operator/RootCause.antt     rootcause/analyzer.go, Analyze, over the graph and the targets
--   Operator/Intake.antt        alert/parser.go, and what webhook/handler.go hands on
--   Operator/Dependency.antt    dependency/graph.go, the graph of services and its searches
--   Operator/Jaeger.antt        dependency/jaeger.go, the graph refreshed from observed calls
--   Operator/Coordinator.antt   dependency/coordinator.go, the rollback of peers, over the gate of
--                               Operator/Cooldown and what Helm answers
--   Operator/Retry.antt         retry/engine.go
--   Operator/Risk.antt          progressive/guard.go, risk.go and analysis.go
--   Operator/Rollouts.antt      progressive/manager.go, the records of rollouts and the calls that create
--                               and monitor them; Rollouts/Aborts is the recovery that an abort starts, by
--                               the model of the executor
--   Operator/Verification.antt  verification/engine.go, and VerifyRelease of progressive/verification.go;
--                               Verification/Health is about the manager's check
--   Operator/Reliability.antt   reliability/engine.go, CalculateMTTR with its sort of the incidents;
--                               Reliability/Scores is CalculateReliability
--   Operator/Policies.antt      policy/engine.go
--   Operator/Planner.antt       planner/planner.go
--   Operator/Cooldown.antt      utils/cooldown.go
--   Operator/Executor.antt      executor/executor.go, over what Helm answers
--   Operator/Helm.antt          helm/manager.go, the choice of the last healthy revision; the calls
--                               of the Helm SDK are arguments
--
-- The platform, in Shared and Services:
--   Shared/Breaker.antt         internal/shared/breaker/breaker.go, each region under its lock one
--                               function, so that interleavings are lists of them
--   Shared/HttpClient.antt      internal/shared/httpclient/httpclient.go, the retries and the way
--                               through the breaker
--   Shared/Limiter.antt         internal/shared/limiter/limiter.go, the buckets of the clients over the
--                               bucket of golang.org/x/time/rate, an argument
--   Shared/AppErrors.antt       internal/shared/apperrors/errors.go
--   Services/Inventory.antt     services/inventory-service: models, repository, service, and what
--                               Redis caches for it
--   Services/Payments.antt      services/payment-service, likewise
--   Services/Orders.antt        services/order-service: models, repository, validation and total
--   Services/Orders/Remote.antt services/order-service/service/service.go, the replies of the remote
--                               services, the idempotency keys, the states of an order
--   Services/Orders/Saga.antt   the same file's CreateOrder, over a record
--                               of the three remote calls; Saga/Calls.antt records the calls of any
--                               services, Saga/Stock.antt fills it by the model of the inventory
-- The files below each of these state and prove what it guarantees, and its Examples run it.
--
-- Prelude holds what all share: tests on numbers, signed integers over native ones, texts and what
-- Sprintf builds, maps as association lists, and a record for Go's float64 with the operations and the
-- laws that the code relies on, filled by thousandths in Prelude.Milli.
--
-- Conventions. A clock reading, a random draw, an answer of Helm, of the signal engines or of a remote
-- service, and whether Redis answers, are arguments of the function that uses them. Times and
-- durations are signed numbers of nanoseconds without a bound, and so are Go's int counters, which stay
-- small; but the durations that the reliability engine adds up are int64, at whose ends Time.Sub stops and
-- in which sums wrap, and so are the amounts of orders. Go visits a map in any order; an association
-- list has one of them. Text conversion of numbers is fuelled by the number itself, which has no more
-- digits; the attempts of the pipeline and of the retry engine are structural recursions on their number.
-- The search of the dependency graph is fuelled by the number of its nodes and one more: each level of
-- the recursion has visited one more node. The order in which Go ranges over a map is an argument of the
-- search, anything that meets each node, and so is the number that a float64 outside int64 converts to.
-- The exchange sort of incidents makes as many turns as there are of them. The reading of a nil pointer
-- is a result of its own in Risk. Logs, metrics, spans, timelines and JSON are left out.
--
-- Not modelled: of the rate limiter the reading of the address; of the reliability engine its texts,
-- recommendations, knowledge base and timeline; of progressive delivery the methods that only pass a
-- call on to Argo, and two calls of MonitorRollout that interleave; the chaos experiments; and, as pure
-- input and output, the Postgres store, the clients of other systems, the handlers, the gateway,
-- middleware and programs.
pub mod Operator
pub mod Prelude
pub mod Services
pub mod Shared
