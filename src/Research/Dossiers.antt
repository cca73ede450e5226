-- ===== src/Research/Dossiers.antt =====
-- The dossiers of the research and what happens to them: admission, commands and jobs.
pub mod Model
pub mod Limits
pub mod Numbers
pub mod Commands
pub mod Jobs
mod Tests
