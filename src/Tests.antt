-- ===== src/Tests.antt =====
-- Concrete runs of the program, and each theorem at an input that meets its hypotheses.
mod Data
mod Runs
mod Text
mod Instances
mod Interfaces
mod Split
mod Tree
mod Grown
mod Room
