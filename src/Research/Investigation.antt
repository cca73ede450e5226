-- ===== src/Research/Investigation.antt =====
-- An investigation of a dossier: the decisions of the model, the evidence that is collected and the
-- papers that are added (research/investigator.py, research/investigation.py).
pub mod Decisions
pub mod Evidence
pub mod Perform
mod Tests
