-- ===== src/Llvm.antt =====
-- What the program asks of LLVM. LLVM itself is not modelled: a run of the code is the sequence of
-- calls that it makes, and what a call returned is named by the call's position. The questions that
-- the code asks (`getType`, `getTerminator`, `isa`, ...) are a parameter over that sequence.
mod Types
mod Calls
mod Queries
mod Monad
pub mod Keeps
pub mod Scope
pub mod Concrete
unfoldable pub use Types.*
unfoldable pub use Calls.*
pub use Queries.*
unfoldable pub use Monad.*
