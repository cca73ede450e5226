-- ===== src/Lib.antt =====
-- The research desk: a Django program with which a researcher reviews bibliographic records,
-- keeps private catalogues of them, and asks a language model for reports whose every citation is
-- checked.
--
-- The parts of the program and the files about them:
-- - records/normalization.py turns a raw record of a provider into normalized metadata, and
--   records/matching.py compares two normalized records: Records/Normalization.antt
--   (normalize_doi, normalize_title, normalize_record) and Records/Matching.antt
--   (compare_metadata). records/ingestion.py leases the import runs to workers:
--   Records/Imports.antt (claim_run, _locked, heartbeat, retry_run).
-- - records/models.py and records/services.py keep the records of the providers, the publications
--   they are grouped into, and the review of pairs: Records/Models.antt has the tables,
--   Records/Services/Compare.antt compare_pair, Ingest.antt ingest_record, Candidates.antt
--   candidate_ids and generate_candidates, Components.antt _components, Projection.antt _project,
--   Regroup.antt _regroup, Checks.antt the checks of a decision (_idempotent, _check_revision),
--   Reviews.antt decide and withdraw, Preview.antt withdrawal_preview. Records/Sets.antt has
--   Python's sets and dicts of ids, and Transactions.antt what a transaction is. The publications
--   after _regroup are worked out under Regroup/, the agreement of publications and decisions
--   under Reviews/, where Reachable.antt has every state that these operations make of the empty
--   database.
-- - catalogues/models.py and catalogues/services.py keep the catalogues: Catalogues/Model.antt
--   has the tables as lists of rows in the order of creation and a transaction as a function from
--   the database to a result and a new database; Catalogues/Services/Access.antt has _catalogue,
--   _entry, _revision, _bump, effective, _snapshot and _deduplicate, Projection.antt has
--   projection and group_comparison, Decide.antt has decide, Selections.antt has
--   create_catalogue, create_selection and confirm_selection, Edit.antt has edit_fields.
-- - research/models.py, states.py, limits.py, commands.py, jobs.py, runs.py and heartbeat.py keep
--   the dossiers and their jobs: Research/Dossiers/Model.antt has the tables and the states,
--   Limits.antt has consume and admit_job, Commands.antt has apply_command, Jobs.antt has
--   save_progress, claim, finish, publish_report and refresh; Jobs/Later.antt has what any
--   sequence of them makes of a database.
-- - research/retrieval.py chooses the passages that a model is given: Research/Retrieval.antt
--   (select_evidence) with Retrieval/Chunks.antt (_chunks) and Retrieval/Ranking.antt (_tokens,
--   the candidates and their order).
-- - research/investigator.py and investigation.py collect more evidence within limits:
--   Research/Investigation/Decisions.antt (validate), Evidence.antt (merge_evidence),
--   Perform.antt (perform, and the checks of inspire.search).
-- - research/evidence.py highlights the quotes of a report in a source text: Evidence.antt
--   (passages).
-- - srr/rate_limits.py limits requests before a view is called: RateLimits.antt (check), and a
--   sequence of requests in RateLimits/Writes.antt.
--
-- How they interact: a decision or a withdrawal of a review makes the publications again from the
-- groups of records that accepted pairs connect; catalogues call the comparison of records on the
-- effective metadata of their entries; what is compared has been normalized. Commands admit a job
-- through the limits and give the dossier a new run_id; a worker claims it and writes only
-- through save_progress, which asks for that run_id; investigations pass the papers that they
-- collect to the choice of passages.
--
-- Texts are lists of code points (Prelude/Characters.antt), JSON values a data type (Json.antt),
-- tables lists of rows known by a key (Table.antt). Python's tables of Unicode (lower, casefold,
-- NFKC, unquote, decimal digits and word characters) and the str of a value that is no text are a
-- record of functions (Unicode.antt) that the definitions take; the rapidfuzz ratio, the trigram
-- distance of PostgreSQL, the SHA-256 of a request or of a record and the clock are arguments
-- too. Similarities and scores are counted in millionths.
--
-- Loops are structural recursion on the list they read. Two loops have fuel: the cutting of a
-- page into chunks (Retrieval/Chunks.antt) has one unit for each character, and a chunk takes at
-- least one; the digits of a number n (Dossiers/Numbers.antt) have n + 1 units, and there are no
-- more digits than that. An operation in a database transaction is a function of the whole state,
-- so an error leaves no change; what different processes do is a sequence of such operations.
--
-- Not modelled: HTTP views, forms, serializers, templates, command line glue, settings, network
-- connectors, PDF extraction and the calls of Elasticsearch. Row locks are not modelled, since a
-- transaction is one step of the model.
pub mod Prelude
pub mod Json
pub mod Unicode
pub mod Table
pub mod Transactions
pub mod Evidence
pub mod Records
pub mod Catalogues
pub mod Research
pub mod RateLimits
