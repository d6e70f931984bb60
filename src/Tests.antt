-- ===== src/Tests.antt =====
-- Concrete runs of the definitions, and the theorems at concrete inputs.
mod Numbers
mod Sample
mod VectorIndex
mod Config
mod Fusion
mod Forgetter
mod Store
mod Scheduler
mod Server
mod Graph
mod System
mod Consolidators
mod Embedders
mod Migration
