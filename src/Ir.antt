-- ===== src/Ir.antt =====
-- The meaning of the IR that a sequence of calls asks for, after LLVM's language reference: which
-- instructions a block holds, and what a block does when control reaches it. It is the
-- specification that the generated code is held against, and models no file of the repository.
mod Blocks
mod Machine
pub mod Visits
pub mod Reaches
pub mod Frame
pub mod Fills
pub mod Kept
pub mod Laws
pub mod Positions
unfoldable pub use Blocks.*
unfoldable pub use Machine.*
