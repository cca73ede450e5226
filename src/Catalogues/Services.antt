-- ===== src/Catalogues/Services.antt =====
-- The catalogue workflow (catalogues/services.py): `Access` has the guards, `Decide`, `Selections` and
-- `Edit` the operations, `Projection` the values of a merged record.
pub mod Access
pub mod Projection
pub mod Decide
pub mod Selections
pub mod Edit
