-- ===== src/Catalogues/Services/Decide/Tests.antt =====
-- Decisions on a small catalogue.
use research_desk.Prelude.{
  ℕ, ◌≡◌, refl, true, Option, none, some, [], ◌∷◌, Text, codes, arith, ◌⊎◌, strip, split,
  join_spaces, is_space,
}
use research_desk.Json.{Fields, str, field, end, truthy, get, put, update, eq_json, items}
use research_desk.Unicode.{ascii, elem, runs}
use research_desk.Table.{find_row, set_row, find_where}
use research_desk.Records.Matching.{one, compare_metadata, below_conflict, signal, warnings_for}
use research_desk.Records.Normalization.{normalize_title}
use research_desk.Catalogues.Model.{
  of_entry, pending, kept, merged, decided, baseline, incoming, User, Entry, Action, merge, Db,
  Result, ok, err, reason_required, dependent_merges, exclude,
}
use research_desk.Catalogues.Services.Access.{
  Payload, get_entry, get_catalogue, check_revision, bump, snapshot, effective, deduplicate,
}
use research_desk.Catalogues.Services.Projection.{
  merged_entries, gives, has_override, first_giving, sources, projection, root_comparison,
  group_warnings,
}
use research_desk.Catalogues.Services.Decide.{
  decide, decide_new, choose_target, new_status, write_decision,
}
use research_desk.Catalogues.Services.Decide.Merges.{decide-IsFlat}
use research_desk.Catalogues.Services.Decide.Flat.{IsFlat}
use research_desk.Catalogues.Services.Decide.Audit.{
  Repeated, Recorded, decide-Recorded, decide_again,
}

abbrev full : Text → Text → ℕ
full s t = one

-- A hash that is the number of the revision.
abbrev hash : Payload → ℕ
hash p = 7

abbrev ada : User
ada = record { pk = 1; is_authenticated = true }

abbrev titled : Text → Fields
titled t = field "title" (str t) (field "title_key" (str t) end)

abbrev root : Entry
root = record {
  id = 100;
  catalogue = 10;
  selection = 20;
  position = 0;
  origin = baseline;
  provider = codes "csv";
  external_id = codes "a";
  local_id = [];
  raw = end;
  normalized = titled (codes "decay");
  status = kept;
  merge_target = none;
  overrides = [];
}

abbrev found : Entry
found = record {
  id = 101;
  catalogue = 10;
  selection = 21;
  position = 0;
  origin = incoming;
  provider = codes "inspire";
  external_id = codes "7";
  local_id = [];
  raw = end;
  normalized = titled (codes "no decay");
  status = pending;
  merge_target = none;
  overrides = [];
}

abbrev db : Db
db = record {
  catalogues = record { id = 10; owner = 1; name = codes "mine"; revision = 3 } ∷ [];
  selections = [];
  entries = root ∷ found ∷ [];
  events = [];
  next_id = 200;
}

-- The entry and the database after a merge with a reason.
abbrev merged_found : Entry
merged_found = record found { status = merged; merge_target = some 100 }

abbrev merged_db : Db
merged_db = record {
  catalogues = record { id = 10; owner = 1; name = codes "mine"; revision = 4 } ∷ [];
  selections = [];
  entries = root ∷ merged_found ∷ [];
  events =
      record {
        id = 200;
        catalogue = 10;
        entry = some 101;
        actor = 1;
        action = decided merge;
        reason = codes "same";
        before = some (record { status = pending; merge_target = none; overrides = [] });
        after =
            some (of_entry (record { status = merged; merge_target = some 100; overrides = [] }));
        idempotency_key = codes "k";
        request_hash = some 7;
      }
      ∷ [];
  next_id = 201;
}

-- A run of `decide`, with all that it calls open.
run : ℕ → Action → ℕ → Option ℕ → Text → Text → Db → Result (Entry × Db)
unfolding decide get_entry find_row get_catalogue deduplicate find_where decide_new check_revision
    choose_target group_warnings compare_metadata truthy get effective update elem runs bump
    snapshot new_status write_decision first_giving gives has_override merged_entries projection
    root_comparison sources eq_json items put is_space join_spaces split strip below_conflict signal
    warnings_for normalize_title set_row
run pk action expected target_id reason key =
    decide ascii full hash ada pk action expected target_id reason key

-- Without a reason the conflicting titles are refused.
refused_run : run 101 merge 3 (some 100) (codes " ") (codes "k") db ≡ err reason_required
unfolding run
refused_run = refl

merge-run : run 101 merge 3 (some 100) (codes "same") (codes "k") db ≡ ok (merged_found, merged_db)
unfolding run
merge-run = refl

-- A record that another one is merged into cannot be excluded.
dependent_run : run 100 exclude 4 none (codes "no") (codes "l") merged_db ≡ err dependent_merges
unfolding run
dependent_run = refl

decide_run :
    decide ascii full hash ada 101 merge 3 (some 100) (codes "same") (codes "k") db
    ≡ ok (merged_found, merged_db)
unfolding run
decide_run = merge-run

db-IsFlat : IsFlat db.entries
unfolding find_row
db-IsFlat = record {
  at = λ i e h. record { alone = λ _ m. ground arith; merged_one = λ t m. absurd (ground arith) };
}

decide-IsFlat_example : IsFlat merged_db.entries
decide-IsFlat_example =
    decide-IsFlat ascii full hash ada 101 merge 3 (some 100) (codes "same") (codes "k") db db-IsFlat
      decide_run

decide-Recorded_example :
    Repeated 101 (codes "k") 7 db merged_found merged_db
    ⊎ Recorded ada 101 merge 3 (codes "same") (codes "k") db merged_found merged_db
decide-Recorded_example =
    decide-Recorded ascii full hash ada 101 merge 3 (some 100) (codes "same") (codes "k") db
      decide_run

decide_again_example :
    decide ascii full hash ada 101 merge 3 (some 100) (codes "same") (codes "k") merged_db
    ≡ ok (merged_found, merged_db)
decide_again_example =
    decide_again ascii full hash ada 101 merge 3 (some 100) (codes "same") 107 [] db decide_run
