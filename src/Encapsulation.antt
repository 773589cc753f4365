-- ===== src/Encapsulation.antt =====
-- lib/Transforms/SymbolicEncapsulation.cpp: the harness around a function.
mod Sizes
pub mod Arguments
pub mod Declarations
pub mod Assertions
pub mod Calls
pub mod Memory
pub mod Harness
pub mod Filling
pub mod WholeModule
pub mod Loops
pub mod Defaults
pub mod Keeps
mod Tests
