-- ===== src/Research/Dossiers/Jobs/Writing.antt =====
-- What the changes of `save_progress` leave of a dossier.
use research_desk.Prelude.{◌≡◌, refl, ◌∙◌, List, [], ◌∷◌}
use research_desk.Research.Dossiers.Model.{Dossier}
use research_desk.Research.Dossiers.Jobs.{
  Change, set_status, set_stage, set_plan, set_papers, set_report_papers, set_selected,
  set_report_selected, set_report, set_investigation, set_report_focus, set_error, set_versions,
  set_field, set_fields,
}

-- A field is set, and what is no field of the changes stays.
pub record Same (d d' : Dossier) : Type 0 where
  pub id : d'.id ≡ d.id
  owner : d'.owner ≡ d.owner
  pub run_id : d'.run_id ≡ d.run_id
  pub events : d'.events ≡ d.events
  question : d'.question ≡ d.question

set_field-Same : (c : Change) (d : Dossier) → Same d (set_field c d)
unfolding set_field
set_field-Same (set_status v) d = record {
  id = refl;
  owner = refl;
  run_id = refl;
  events = refl;
  question = refl;
}
set_field-Same (set_stage v) d = record {
  id = refl;
  owner = refl;
  run_id = refl;
  events = refl;
  question = refl;
}
set_field-Same (set_plan v) d = record {
  id = refl;
  owner = refl;
  run_id = refl;
  events = refl;
  question = refl;
}
set_field-Same (set_papers v) d = record {
  id = refl;
  owner = refl;
  run_id = refl;
  events = refl;
  question = refl;
}
set_field-Same (set_report_papers v) d = record {
  id = refl;
  owner = refl;
  run_id = refl;
  events = refl;
  question = refl;
}
set_field-Same (set_selected v) d = record {
  id = refl;
  owner = refl;
  run_id = refl;
  events = refl;
  question = refl;
}
set_field-Same (set_report_selected v) d = record {
  id = refl;
  owner = refl;
  run_id = refl;
  events = refl;
  question = refl;
}
set_field-Same (set_report v) d = record {
  id = refl;
  owner = refl;
  run_id = refl;
  events = refl;
  question = refl;
}
set_field-Same (set_investigation v) d = record {
  id = refl;
  owner = refl;
  run_id = refl;
  events = refl;
  question = refl;
}
set_field-Same (set_report_focus v) d = record {
  id = refl;
  owner = refl;
  run_id = refl;
  events = refl;
  question = refl;
}
set_field-Same (set_error v) d = record {
  id = refl;
  owner = refl;
  run_id = refl;
  events = refl;
  question = refl;
}
set_field-Same (set_versions v) d = record {
  id = refl;
  owner = refl;
  run_id = refl;
  events = refl;
  question = refl;
}

pub set_fields-Same : (cs : List Change) (d : Dossier) → Same d (set_fields cs d)
unfolding set_fields
set_fields-Same [] d = record {
  id = refl;
  owner = refl;
  run_id = refl;
  events = refl;
  question = refl;
}
set_fields-Same (c ∷ cs) d =
    let one = set_field-Same c d in
    let more = set_fields-Same cs (set_field c d) in
    record {
      id = more.id ∙ one.id;
      owner = more.owner ∙ one.owner;
      run_id = more.run_id ∙ one.run_id;
      events = more.events ∙ one.events;
      question = more.question ∙ one.question;
    }
