-- ===== src/Catalogues.antt =====
-- Private catalogues of publications (catalogues/).
pub mod Model
pub mod Services
