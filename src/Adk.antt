-- ===== src/Adk.antt =====
-- adklaya: nodes of a workflow that ask a model, and routing by a choice. The workflow engine is not
-- part of the repository.
pub mod Nodes
pub mod Accepted
pub mod Routing
