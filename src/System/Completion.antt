-- ===== src/System/Completion.antt =====
-- What ProcessBatch comes to where no call of the database fails and the handlers succeed.
pub mod Finish
pub mod Loop
pub mod Reading
pub mod Claiming
pub mod Batch
