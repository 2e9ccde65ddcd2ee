-- ===== src/Control.antt =====
-- The controlled operation lifecycle (app/control): the firewall, the risk score, the approval
-- decision, the only place where actions are executed, and the loop over a plan of actions.
pub mod State
pub mod Policy
pub mod Risk
pub mod Permissions
pub mod Host
pub mod Actions
pub mod Rollback
pub mod Verification
pub mod Session
pub mod Planner
pub mod Evidence
pub mod Recovery
pub mod Loop
mod Examples
