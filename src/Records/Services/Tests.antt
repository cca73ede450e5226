-- ===== src/Records/Services/Tests.antt =====
-- Runs of the review of records on a small database.
use mathlib.Core.Path.{subst}
use research_desk.Prelude.{
  ℕ, ◌+◌, ◌≡◌, refl, none, some, List, [], ◌∷◌, Text, codes, arith, ◌==◌, ◌⊎◌, inl, inr, Bool-cases,
  is_space,
}
use research_desk.Json.{truthy, get}
use research_desk.Table.{find_row, set_row, find_where}
use research_desk.Records.Sets.{look_up, insert}
use research_desk.Transactions.{ok, err}
use research_desk.Records.Matching.{Signal, Comparison, Recommendation}
use research_desk.Records.Models.{
  Db, SourceRecord, CanonicalPublication, Membership, ReviewDecision, active, replaced, pending,
  accepted, accept, ingest, by_decision, by_withdrawal, needs_reassessment, Action,
  PublicationState,
}
use research_desk.Records.Services.{links, record_ids, stale_revision}
use research_desk.Records.Services.Components.{components}
use research_desk.Records.Services.Components.Partition.{AreComponents, components-AreComponents}
use research_desk.Records.Services.Checks.{Payload, decide_payload, withdraw_payload, choice}
use research_desk.Records.Services.Regroup.{new_publication}
use research_desk.Records.Services.Regroup.Assigned.{pub_of}
use research_desk.Records.Services.Reviews.{decide, withdraw}
use research_desk.Records.Services.Reviews.Consistent.{IsConsistent}
use research_desk.Records.Services.Components.Connected.{Linked, self}
use research_desk.Records.Services.Reviews.Decided.{decide-IsConsistent}
use research_desk.Records.Services.Reviews.Again.{decide_twice}
use research_desk.Records.Services.Reviews.Stale.{decide-stale}

-- Records 1, 2 and 3 are linked through 2, and 4 stands alone.
some_groups :
    components (1 ∷ 2 ∷ 3 ∷ 4 ∷ []) ((3, 2) ∷ (1, 2) ∷ (4, 9) ∷ [])
    ≡ (1 ∷ 2 ∷ 3 ∷ []) ∷ (4 ∷ []) ∷ []
unfolding components look_up insert
some_groups = refl

components-AreComponents_example :
    AreComponents
      (1 ∷ 2 ∷ 3 ∷ 4 ∷ [])
      ((3, 2) ∷ (1, 2) ∷ (4, 9) ∷ [])
      (components (1 ∷ 2 ∷ 3 ∷ 4 ∷ []) ((3, 2) ∷ (1, 2) ∷ (4, 9) ∷ []))
components-AreComponents_example =
    components-AreComponents (1 ∷ 2 ∷ 3 ∷ 4 ∷ []) ((3, 2) ∷ (1, 2) ∷ (4, 9) ∷ [])

abbrev source : ℕ → ℕ → Text → SourceRecord
source pk publication external_id = record {
  id = pk;
  provider = "crossref";
  external_id = external_id;
  current_version = none;
  publication = publication;
  doi = [];
  title_key = [];
}

abbrev comparison : Comparison
comparison = record {
  doi = Signal.missing;
  title_similarity = none;
  author_similarity = none;
  kind = Signal.missing;
  year = Signal.missing;
  warnings = [];
  ranking_score = 0;
  recommendation = Recommendation.insufficient_evidence;
}

abbrev member_of : ℕ → ℕ → Membership
member_of record_id publication = record {
  publication = publication;
  record_id = record_id;
  origin = ingest;
  valid_until = none;
}

-- Two records of two publications, and their pair with a proposal.
abbrev two_records : Db
two_records = record {
  publications = new_publication 1 ∷ new_publication 2 ∷ [];
  records = source 3 1 (codes "a") ∷ source 4 2 (codes "b") ∷ [];
  versions = [];
  pairs = record { id = 5; left = 3; right = 4; revision = 1; state = pending } ∷ [];
  proposals =
      record {
        id = 6;
        pair = 5;
        left_version = none;
        right_version = none;
        config = 1;
        result = comparison;
      }
      ∷ [];
  decisions = [];
  memberships = member_of 3 1 ∷ member_of 4 2 ∷ [];
  next_id = 7;
}

-- The hash of a request, for these runs.
abbrev hash : Payload → ℕ
hash (decide_payload pair _ _ _) = pair
hash (withdraw_payload decision _ _) = 100 + decision

abbrev first_decision : ReviewDecision
first_decision = record {
  id = 7;
  pair = 5;
  proposal = 6;
  action = accept;
  actor = codes "ann";
  reason = codes "same work";
  expected_revision = some 1;
  idempotency_key = codes "k";
  request_hash = 5;
  withdrawal_of = none;
}

abbrev publication : ℕ → ℕ → PublicationState → List ℕ → CanonicalPublication
publication pk revision state successors = record {
  id = pk;
  revision = revision;
  state = state;
  successors = successors;
  projection = [];
}

abbrev past : ℕ → ℕ → Membership
past record_id of = record {
  publication = of;
  record_id = record_id;
  origin = ingest;
  valid_until = some 0;
}

abbrev accepted_db : Db
accepted_db = record {
  publications =
      publication 1 1 replaced (8 ∷ [])
      ∷ publication 2 1 replaced (8 ∷ [])
      ∷ publication 8 2 active []
      ∷ [];
  records = source 3 8 (codes "a") ∷ source 4 8 (codes "b") ∷ [];
  versions = [];
  pairs = record { id = 5; left = 3; right = 4; revision = 3; state = accepted } ∷ [];
  proposals = two_records.proposals;
  decisions = first_decision ∷ [];
  memberships =
      past 3 1
      ∷ past 4 2
      ∷ record { publication = 8; record_id = 3; origin = by_decision 7; valid_until = none }
      ∷ record { publication = 8; record_id = 4; origin = by_decision 7; valid_until = none }
      ∷ [];
  next_id = 9;
}

-- The first decision on the pair.
decide-accepted :
    decide hash 5
      (codes "accept")
      (codes "ann")
      (codes " same work")
      (some 1)
      (codes "k")
      0
      two_records
    ≡ ok (first_decision, accepted_db)
unfolding decide find_row truthy get is_space set_row
decide-accepted = refl

pub_of-two_records :
    (a p : ℕ) → pub_of a two_records.records ≡ some p → ((a ≡ 3) × (p ≡ 1)) ⊎ (a ≡ 4) × (p ≡ 2)
unfolding pub_of
pub_of-two_records a p h = elim (Bool-cases (3 == a)) [
  | inl e ↦ inl (ground (arith, e), ground (arith, e, h))
  | inr e ↦ elim (Bool-cases (4 == a)) [
    | inl f ↦ inr (ground (arith, f), ground (arith, e, f, h))
    | inr f ↦ ground (arith, e, f, h)
  ]
]

two_records-IsConsistent : IsConsistent two_records
unfolding pub_of
two_records-IsConsistent = record {
  distinct = (refl, (refl, tt));
  bounded = λ a p h. elim (pub_of-two_records a p h) [
    | inl (x, y) ↦ omega (arith, y)
    | inr (x, y) ↦ omega (arith, y)
  ];
  decisions = tt;
  decided = tt;
  accepted = λ a b h. elim h.listed [ ];
  rejected = λ a b h. elim h.listed [ ];
  connected = λ a b p h k.
      let same : a ≡ b = one_record a b p (pub_of-two_records a p h) (pub_of-two_records b p k) in
      subst (λ (x : ℕ). Linked (record_ids two_records.records) (links two_records none) a x) same
        self;
}
  where
    one_record :
        (a b p : ℕ)
        → ((a ≡ 3) × (p ≡ 1)) ⊎ (a ≡ 4) × (p ≡ 2)
        → ((b ≡ 3) × (p ≡ 1)) ⊎ (b ≡ 4) × (p ≡ 2)
        → a ≡ b
    one_record a b p (inl h) (inl k) = omega (arith, h, k)
    one_record a b p (inl h) (inr k) = omega (arith, h, k)
    one_record a b p (inr h) (inl k) = omega (arith, h, k)
    one_record a b p (inr h) (inr k) = omega (arith, h, k)

decide-IsConsistent_example : IsConsistent accepted_db
decide-IsConsistent_example =
    decide-IsConsistent hash 5 (codes "accept") (codes "ann") (codes " same work") (some 1)
      (codes "k") 0 two_records two_records-IsConsistent decide-accepted

decide_twice_example :
    decide hash 5
      (codes "accept")
      (codes "ann")
      (codes " same work")
      (some 1)
      (codes "k")
      60
      accepted_db
    ≡ ok (first_decision, accepted_db)
decide_twice_example =
    decide_twice hash 5 (codes "accept") (codes "ann") (codes " same work") (some 1) (codes "k") 0
      60 two_records decide-accepted

-- Ben saw revision 1 as well.
decide-stale_example :
    decide hash 5 (codes "reject") (codes "ben") (codes "") (some 1) (codes "b") 60 accepted_db
    ≡ err stale_revision
unfolding find_where choice
decide-stale_example =
    decide-stale hash 5 (codes "accept") (codes "ann") (codes " same work") (some 1) (codes "k") 0
      (codes "reject") (codes "ben") (codes "") (codes "b") 60 two_records decide-accepted refl refl
      refl refl

abbrev second_decision : ReviewDecision
second_decision = record {
  id = 9;
  pair = 5;
  proposal = 6;
  action = Action.withdraw;
  actor = codes "ben";
  reason = codes "two works";
  expected_revision = some 3;
  idempotency_key = codes "w";
  request_hash = 107;
  withdrawal_of = some 7;
}

abbrev withdrawn_db : Db
withdrawn_db = record accepted_db {
  publications =
      publication 1 1 replaced (8 ∷ [])
      ∷ publication 2 1 replaced (8 ∷ [])
      ∷ publication 8 2 replaced (10 ∷ 11 ∷ [])
      ∷ publication 10 2 active []
      ∷ publication 11 2 active []
      ∷ [];
  records = source 3 10 (codes "a") ∷ source 4 11 (codes "b") ∷ [];
  pairs = record { id = 5; left = 3; right = 4; revision = 5; state = needs_reassessment } ∷ [];
  decisions = second_decision ∷ first_decision ∷ [];
  memberships =
      past 3 1
      ∷ past 4 2
      ∷ record { publication = 8; record_id = 3; origin = by_decision 7; valid_until = some 60 }
      ∷ record { publication = 8; record_id = 4; origin = by_decision 7; valid_until = some 60 }
      ∷ record { publication = 10; record_id = 3; origin = by_withdrawal 9; valid_until = none }
      ∷ record { publication = 11; record_id = 4; origin = by_withdrawal 9; valid_until = none }
      ∷ [];
  next_id = 12;
}

withdraw-accepted :
    withdraw hash 7 (codes "ben") (codes "two works") (some 3) (codes "w") 60 accepted_db
    ≡ ok (second_decision, withdrawn_db)
unfolding withdraw find_row truthy get is_space set_row
withdraw-accepted = refl
