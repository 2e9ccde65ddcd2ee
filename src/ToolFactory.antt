-- ===== src/ToolFactory.antt =====
-- The tool factory (app/tool_factory): tools that users define. A definition is validated, versioned,
-- approved and activated before it may run.
pub mod Json
pub mod Schema
pub mod Input
pub mod Template
pub mod Validation
pub mod Repository
pub mod Service
pub mod Activation
pub mod Requests
pub mod Execution
pub mod Versions
mod Examples
