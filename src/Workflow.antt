-- ===== src/Workflow.antt =====
-- The workflow engine (src/modules/workflow): instances with their transitions, and two queues of work
-- (commands, outbox messages) that workers claim, complete or lose.
pub mod Queue
pub mod Commands
pub mod Keys
pub mod Instances
pub mod Outbox
