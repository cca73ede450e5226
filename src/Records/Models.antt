-- ===== src/Records/Models.antt =====
-- The tables of the review of records (records/models.py, without those of imports and benchmarks).
-- A row is known by its primary key, a number that orders as its UUID does. The proposals and the
-- decisions are listed as their `Meta.ordering` says, the newest first; other tables are listed in
-- the order of creation. Times are left out, but the end of a membership is kept.
use research_desk.Prelude.{ℕ, Option, none, some, List, Text, ◌==◌}
use Prim.Native.String.{String}
use research_desk.Json.{Json, Fields}
use research_desk.Records.Matching.{Comparison}
use research_desk.Table.{find_row, find_where, set_row}

pub data PublicationState : Type 0 where
  active replaced : PublicationState

-- One field of a projection: its "value", the version it was read from, and the field of that
-- version that its "path" names. Its "policy" is always the same.
pub record Projected : Type 0 where
  pub key : String
  pub value : Json
  pub version_id : Option ℕ

pub record CanonicalPublication : Type 0 where
  pub id : ℕ
  pub revision : ℕ
  pub state : PublicationState
  pub successors : List ℕ
  pub projection : List Projected

pub record SourceRecord : Type 0 where
  pub id : ℕ
  pub provider : String
  pub external_id : Text
  pub current_version : Option ℕ
  pub publication : ℕ
  pub doi : Text
  pub title_key : Text

pub record SourceRecordVersion : Type 0 where
  pub id : ℕ
  pub record_id : ℕ
  pub raw : Json
  pub normalized : Fields
  pub content_hash : ℕ

-- "state" of a pair: a recommendation is one of the states.
pub data PairState : Type 0 where
  pending review insufficient_evidence needs_reassessment : PairState
  accepted rejected deferred : PairState

pub record CandidatePair : Type 0 where
  pub id : ℕ
  pub left : ℕ
  pub right : ℕ
  pub revision : ℕ
  pub state : PairState

-- The "config" of a proposal is known by a number.
pub record MatchProposal : Type 0 where
  pub id : ℕ
  pub pair : ℕ
  pub left_version : Option ℕ
  pub right_version : Option ℕ
  pub config : ℕ
  pub result : Comparison

-- "action" of a decision; `withdraw` is the action of its withdrawal only.
pub data Action : Type 0 where
  accept reject defer withdraw : Action

pub record ReviewDecision : Type 0 where
  pub id : ℕ
  pub pair : ℕ
  pub proposal : ℕ
  pub action : Action
  pub actor : Text
  pub reason : Text
  pub expected_revision : Option ℕ
  pub idempotency_key : Text
  pub request_hash : ℕ
  pub withdrawal_of : Option ℕ

-- "origin" of a membership.
pub data Origin : Type 0 where
  ingest : Origin
  by_decision by_withdrawal : ℕ → Origin

pub record Membership : Type 0 where
  pub publication : ℕ
  pub record_id : ℕ
  pub origin : Origin
  pub valid_until : Option ℕ

pub record Db : Type 0 where
  pub publications : List CanonicalPublication
  pub records : List SourceRecord
  pub versions : List SourceRecordVersion
  pub pairs : List CandidatePair
  pub proposals : List MatchProposal
  pub decisions : List ReviewDecision
  pub memberships : List Membership
  -- The next primary key: `uuid4` gives one that no row has.
  pub next_id : ℕ

abbrev pub publication_id : CanonicalPublication → ℕ
publication_id p = p.id

abbrev pub source_id : SourceRecord → ℕ
source_id r = r.id

abbrev pub version_id : SourceRecordVersion → ℕ
version_id v = v.id

abbrev pub pair_id : CandidatePair → ℕ
pair_id p = p.id

abbrev pub decision_id : ReviewDecision → ℕ
decision_id d = d.id

abbrev pub find_publication : Db → ℕ → Option CanonicalPublication
find_publication db pk = find_row publication_id pk db.publications

abbrev pub find_record : Db → ℕ → Option SourceRecord
find_record db pk = find_row source_id pk db.records

abbrev pub find_pair : Db → ℕ → Option CandidatePair
find_pair db pk = find_row pair_id pk db.pairs

abbrev pub find_decision : Db → ℕ → Option ReviewDecision
find_decision db pk = find_row decision_id pk db.decisions

abbrev pub find_version : Db → Option ℕ → Option SourceRecordVersion
find_version db none = none
find_version db (some pk) = find_row version_id pk db.versions

-- `first()` of the proposals of a pair: the newest one.
abbrev pub latest_proposal : Db → ℕ → Option MatchProposal
latest_proposal db pair = find_where (λ (p : MatchProposal). p.pair == pair) db.proposals

abbrev pub save_pair : CandidatePair → Db → Db
save_pair p db = record db { pairs = set_row pair_id p db.pairs }
