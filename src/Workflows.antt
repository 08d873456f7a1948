-- ===== src/Workflows.antt =====
-- Workflows (src/modules/workflows, src/workers/workflow.worker.ts): the engine that runs the
-- published workflows of a workspace.
mod Values
mod Config
mod Conditions
mod World
mod Runs
mod Lookups
mod Answers
mod Questions
mod Handlers
mod Delivery
mod Assignment
mod Sending
mod Router
mod Engine
mod Resume
mod Triggers
mod Machine
mod Tables
mod Safety
mod Samples
mod Tests
mod Recent
mod Once
mod Groups
mod Jumps
