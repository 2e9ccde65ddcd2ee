-- ===== src/Terminal.antt =====
-- Terminal sessions in the browser (app/terminal/): one SSH session, the manager that holds at most
-- five of them, and the frames in which the output is sent. The local PTY session is not modelled.
pub mod Session
pub mod Manager
pub mod Capacity
pub mod Kept
pub mod Lost
pub mod Output
mod Examples
