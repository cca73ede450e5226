-- ===== src/Records/Normalization.antt =====
-- Validation and normalization of a provider's record (records/normalization.py): `Doi` has the
-- identifiers and the titles, `Dates` the dates, `Record` the whole of `normalize_record`.
mod Checked
mod Doi
mod Dates
mod Record
mod Tests
unfoldable pub use Checked.*
unfoldable pub use Doi.*
unfoldable pub use Dates.*
unfoldable pub use Record.*
