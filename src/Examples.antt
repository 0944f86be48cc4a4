-- ===== src/Examples.antt =====
-- Applications of the theorems to concrete inputs.
pub mod Data
pub mod Rules
pub mod Money
pub mod Operations
pub mod Contact
pub mod Client
pub mod Services
