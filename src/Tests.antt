-- ===== src/Tests.antt =====
-- Concrete inputs of each part, and the theorems on them.
pub mod Samples
pub mod RelationExamples
pub mod TableExamples
pub mod MemoryExamples
pub mod IndexExamples
pub mod SchemaExamples
pub mod KvExamples
pub mod ThreadExamples
pub mod OperatorExamples
pub mod BagExamples
