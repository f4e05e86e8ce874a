-- ===== src/FuncUnit.antt =====
-- The functional units of src/Processor/Component/FuncUnit: what each computes from the operands of an
-- instruction. Ints reads words as signed numbers; Alu, MulDiv, Bru, Csr and LoadAddr
-- hold the units, LoadResponse takes the answer to a load; Branching, Dividing and Misaligned are
-- proofs.
pub mod Ints
pub mod Alu
pub mod MulDiv
pub mod Bru
pub mod Csr
pub mod LoadAddr
pub mod LoadResponse
pub mod Branching
pub mod Dividing
pub mod Misaligned
mod Tests
