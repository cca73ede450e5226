-- ===== src/Research.antt =====
-- Research dossiers: the selection of evidence and the jobs (research/).
pub mod Papers
pub mod Retrieval
pub mod Dossiers
pub mod Investigation
