-- ===== src/Client/Entities.antt =====
-- The records of src/domain/entities.ts. A text that stands for an id is a number, and so is a
-- causation id, which is an id or a text made of one: they are only compared. A record from texts to
-- values is a list of pairs. A confidence is only compared, and kept in millionths.
mod Base
mod People
mod Work
pub use Base.*
pub use People.*
pub use Work.*
