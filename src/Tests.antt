-- ===== src/Tests.antt =====
-- Runs of the theorems on concrete inputs.
mod Durable
mod Graph
mod Query
mod Layered
mod Parsing
mod Json
