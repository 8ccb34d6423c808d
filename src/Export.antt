-- ===== src/Export.antt =====
-- pass/Easy.cpp (RegisterBitcode), the pass that runs when the program is compiled, and MapGlobals of
-- runtime/Function.cpp, which reads at run time what the pass wrote.
pub mod Referenced
pub mod Register
pub mod Linkage
pub mod Collect
pub mod Trace
mod Tests
