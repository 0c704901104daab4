-- ===== src/Registry.antt =====
-- src/core/action-registry.ts: the registry that every nested tool call goes through. The names of
-- resources and references, and ids, are numbers that are only compared.
pub mod Resources
pub mod Invocation
mod Tests
