-- ===== src/Records/Services/Regroup/Frame.antt =====
-- What `_project`, the loops of `_regroup` and the saving of a pair leave as it is.
use research_desk.Prelude.{
  ℕ, ◌≡◌, refl, ◌∙◌, Option, none, some, List, [], ◌∷◌, arith, Bool-cases, inl, inr,
}
use research_desk.Table.{find_row}
use research_desk.Records.Models.{
  Db, CanonicalPublication, CandidatePair, Projected, pair_id, find_publication,
}
use research_desk.Records.Sets.{eq_set}
use research_desk.Records.Services.{endpoints, bump_pairs}
use research_desk.Records.Services.Components.{Groups}
use research_desk.Records.Services.Projection.{project, save_projection}
use research_desk.Records.Services.Regroup.{replace, retire, successors_of}

-- The parts of the tables that the groups of records depend on, apart from the records.
pub record Keeps (db db' : Db) : Type 0 where
  pub decisions : db'.decisions ≡ db.decisions
  pub pairs : db'.pairs ≡ db.pairs

-- Nothing but the publications and their fields.
pub record KeepsAll (db db' : Db) : Type 0 where
  pub kept : Keeps db db'
  pub records : db'.records ≡ db.records
  pub next_id : db'.next_id ≡ db.next_id

keeps_all : (db : Db) → KeepsAll db db
keeps_all db = record {
  kept = record { decisions = refl; pairs = refl };
  records = refl;
  next_id = refl;
}

keeps-then : (a b c : Db) → KeepsAll a b → KeepsAll b c → KeepsAll a c
keeps-then a b c h k = record {
  kept = record {
    decisions = k.kept.decisions ∙ h.kept.decisions;
    pairs = k.kept.pairs ∙ h.kept.pairs;
  };
  records = k.records ∙ h.records;
  next_id = k.next_id ∙ h.next_id;
}

save_projection-KeepsAll :
    (fields : List Projected) (o : Option CanonicalPublication) (db : Db)
    → KeepsAll db (save_projection fields o db)
unfolding save_projection
save_projection-KeepsAll fields none db = keeps_all db
save_projection-KeepsAll fields (some p) db = record {
  kept = record { decisions = refl; pairs = refl };
  records = refl;
  next_id = refl;
}

pub project-KeepsAll : (pk : ℕ) (db : Db) → KeepsAll db (project pk db)
unfolding project
project-KeepsAll pk db = save_projection-KeepsAll _ (find_publication db pk) db

replace-KeepsAll :
    (successors : List ℕ) (o : Option CanonicalPublication) (db : Db)
    → KeepsAll db (replace successors o db)
unfolding replace
replace-KeepsAll successors none db = keeps_all db
replace-KeepsAll successors (some p) db = record {
  kept = record { decisions = refl; pairs = refl };
  records = refl;
  next_id = refl;
}

pub retire-KeepsAll :
    (mapping : List (ℕ × ℕ)) (old : Groups) (db : Db) → KeepsAll db (retire mapping old db)
unfolding retire
retire-KeepsAll mapping [] db = keeps_all db
retire-KeepsAll mapping ((pk, members) ∷ old) db =
    let successors = successors_of mapping members in
    elim (Bool-cases (eq_set successors (pk ∷ []))) [
      | inl e ↦ rw e (retire-KeepsAll mapping old db)
      | inr e ↦ rw e (
          keeps-then db (replace successors (find_publication db pk) db) _
            (replace-KeepsAll successors (find_publication db pk) db)
            (retire-KeepsAll mapping old (replace successors (find_publication db pk) db)))
    ]

pub endpoints-bump_pairs :
    (ids : List ℕ) (pk : ℕ) (ps : List CandidatePair)
    → endpoints (find_row pair_id pk (bump_pairs ids ps)) ≡ endpoints (find_row pair_id pk ps)
unfolding find_row bump_pairs
endpoints-bump_pairs ids pk [] = refl
endpoints-bump_pairs ids pk (p ∷ ps) = ground (arith, endpoints-bump_pairs ids pk ps)
