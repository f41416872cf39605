-- ===== src/State.antt =====
-- The tables over the life of the server: what every operation of both services keeps of them, and the
-- states that sequences of calls reach.
pub mod Stable
pub mod Accounts
pub mod Keys
pub mod Calls
pub mod History
pub mod Sessions
pub mod NewPassword
