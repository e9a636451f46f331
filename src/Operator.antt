-- ===== src/Operator.antt =====
-- The rollback operator (internal/operator): one module for each of its packages.
pub mod Models
pub mod StateMachine
pub mod Cooldown
pub mod Retry
pub mod Intake
pub mod Dependency
pub mod Jaeger
pub mod Coordinator
pub mod Reports
pub mod Engines
pub mod RootCause
pub mod Risk
pub mod Rollouts
pub mod Decision
pub mod Policies
pub mod Planner
pub mod Helm
pub mod Executor
pub mod Incidents
pub mod Manager
pub mod Pipeline
pub mod Reliability
pub mod Verification
mod Samples
