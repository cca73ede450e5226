-- ===== src/Research/Investigation/Perform/Bounds.antt =====
-- No action takes an investigation over its limits of papers.
use research_desk.Prelude.{
  ℕ, ◌+◌, ◌≤◌, ◌≡◌, min, refl, true, Option, none, some, List, [], ◌∷◌, ◌++◌, take, length,
  length-append, length-take, ◌==◌, Text, eq_text, arith, Bool-cases, Option-cases, inl, inr,
}
use research_desk.Unicode.{elem}
use research_desk.Research.Papers.{Document, Paper, ids}
use research_desk.Research.Investigation.Decisions.{
  Action, search, reference, citations, read_pdf, read_page, passages, finish, Decision, find_paper,
}
use research_desk.Research.Investigation.Perform.{
  each_once, first_hits, Inspire, search_papers, Collection, count_new, capacity, to_add, add_found,
  set_document, attach, look_up, perform_action, perform, query_of,
}

length-each_once :
    (seen : List Text) (hits : List Paper) → length (each_once seen hits) ≤ length hits
unfolding each_once
length-each_once seen [] = omega arith
length-each_once seen (p ∷ hits) =
    ground (arith, length-each_once seen hits, length-each_once (p.id ∷ seen) hits)

-- A search gives back at most as many papers as were asked for.
search_papers-le :
    (inspire : Inspire) (query : Text) (limit : ℕ) {found : List Paper}
    → search_papers inspire query limit ≡ some found
    → length found ≤ limit
unfolding search_papers first_hits
search_papers-le inspire query limit {found} h = elim (Option-cases (inspire query limit)) [
  | inl e ↦ absurd (ground (arith, h, e))
  | inr (hits, e) ↦
      ground (arith, h, e, length-each_once [] (take limit hits), length-take limit hits)
]

length-to_add :
    (d : Decision) (query : Text) (known : List Text) (found : List Paper)
    → length (to_add d query known found) ≤ length found
unfolding to_add
length-to_add d query known [] = omega arith
length-to_add d query known (p ∷ found) =
    ground (arith, length-to_add d query known found, length-to_add d query (p.id ∷ known) found)

elem-append :
    (t : Text) (ps qs : List Paper) → elem t (ids ps) ≡ true → elem t (ids (ps ++ qs)) ≡ true
unfolding elem
elem-append t [] qs h = cc
elem-append t (p ∷ ps) qs h = ground (arith, elem-append t ps qs)

count_new-le : (initial : List Text) (ps : List Paper) → count_new initial ps ≤ length ps
unfolding count_new
count_new-le initial [] = omega arith
count_new-le initial (p ∷ ps) = ground (arith, count_new-le initial ps)

count_new-append :
    (initial : List Text) (ps qs : List Paper)
    → count_new initial (ps ++ qs) ≤ count_new initial ps + length qs
unfolding count_new
count_new-append initial [] qs = omega (arith, count_new-le initial qs)
count_new-append initial (p ∷ ps) qs =
    ground (arith, count_new-append initial ps qs, elem-append p.id ps qs)

ids-set_document :
    (id : Text) (doc : Document) (ps : List Paper) → ids (set_document id doc ps) ≡ ids ps
unfolding set_document
ids-set_document id doc [] = refl
ids-set_document id doc (p ∷ ps) = elim (Bool-cases (eq_text p.id id)) [
  | inl e ↦ rw e
  | inr e ↦ rw (e, ids-set_document id doc ps)
]

-- What depends on the ids only.
count_new-ids :
    (initial : List Text) (ps qs : List Paper)
    → ids ps ≡ ids qs
    → (count_new initial ps ≡ count_new initial qs) × (length ps ≡ length qs)
unfolding count_new
count_new-ids initial [] [] h = (refl, refl)
count_new-ids initial [] (q ∷ qs) h = cc
count_new-ids initial (p ∷ ps) [] h = cc
count_new-ids initial (p ∷ ps) (q ∷ qs) h =
    let head : p.id ≡ q.id = cc in
    let tail : ids ps ≡ ids qs = cc in
    let (n, l) = count_new-ids initial ps qs tail in (rw (head, tail, n), omega (arith, l))

-- At most 20 papers, and at most 6 of them new.
pub record IsModest (initial : List Text) (c : Collection) : Type 0 where
  pub few : length c.papers ≤ 20
  pub few_new : count_new initial c.papers ≤ 6

more-IsModest :
    (initial : List Text) (c c' : Collection) (added : List Paper)
    → IsModest initial c
    → length added ≤ capacity initial c.papers
    → c'.papers ≡ c.papers ++ added
    → IsModest initial c'
unfolding capacity
more-IsModest initial c c' added m l e = rw e (record {
  few = omega (arith, m.few, l, length-append c.papers added);
  few_new = omega (arith, m.few_new, l, count_new-append initial c.papers added);
})

same-IsModest :
    (initial : List Text) (c c' : Collection)
    → IsModest initial c
    → ids c'.papers ≡ ids c.papers
    → IsModest initial c'
same-IsModest initial c c' m e =
    let (n, l) = count_new-ids initial c'.papers c.papers e in
    record { few = omega (arith, l, m.few); few_new = omega (arith, n, m.few_new) }

look_up-IsModest :
    (inspire : Inspire) (d : Decision) (initial : List Text) (year_from : ℕ) (c : Collection)
    {message : Text} {c' : Collection}
    → IsModest initial c
    → look_up inspire d initial year_from c ≡ some (message, c')
    → IsModest initial c'
unfolding look_up add_found
look_up-IsModest inspire d initial year_from c {message} {c'} m h =
    let query = query_of d d.action year_from in
    let room = capacity initial c.papers in
    elim (Bool-cases (room == 0)) [
      | inl e ↦ same-IsModest initial c c' m (ground (arith, h, e))
      | inr e ↦ elim (Option-cases (search_papers inspire query (min 2 room))) [
        | inl none_found ↦ absurd (ground (arith, h, e, none_found))
        | inr (found, f) ↦
            let added = to_add d query (ids c.papers) found in
            more-IsModest initial c c' added m
              (omega (
                arith,
                search_papers-le inspire query (min 2 room) f,
                length-to_add d query (ids c.papers) found,
              ))
              (ground (arith, h, e, f))
      ]
    ]

attach-IsModest :
    (fetch : Paper → Document) (initial : List Text) (c : Collection) (o : Option Paper)
    {message : Text} {c' : Collection}
    → IsModest initial c
    → attach fetch c o ≡ some (message, c')
    → IsModest initial c'
unfolding attach
attach-IsModest fetch initial c none m h = cc
attach-IsModest fetch initial c (some p) {message} {c'} m h = elim (Option-cases p.document) [
  | inl e ↦
      let same : c'.papers ≡ set_document p.id (fetch p) c.papers = ground (arith, h, e) in
      same-IsModest initial c c' m (rw same (ids-set_document p.id (fetch p) c.papers))
  | inr (doc, e) ↦ same-IsModest initial c c' m (ground (arith, h, e))
]

perform_action-IsModest :
    (fetch : Paper → Document) (inspire : Inspire) (d : Decision) (action : Action)
    (initial : List Text) (year_from : ℕ) (c : Collection) {message : Text} {c' : Collection}
    → IsModest initial c
    → perform_action fetch inspire d action initial year_from c ≡ some (message, c')
    → IsModest initial c'
unfolding perform_action
perform_action-IsModest fetch inspire d passages initial year_from c {message} {c'} m h =
    same-IsModest initial c c' m (ground arith)
perform_action-IsModest fetch inspire d read_pdf initial year_from c m h =
    attach-IsModest fetch initial c (find_paper d.paper_id c.papers) m h
perform_action-IsModest fetch inspire d search initial year_from c m h =
    look_up-IsModest inspire d initial year_from c m h
perform_action-IsModest fetch inspire d reference initial year_from c m h =
    look_up-IsModest inspire d initial year_from c m h
perform_action-IsModest fetch inspire d citations initial year_from c m h =
    look_up-IsModest inspire d initial year_from c m h
perform_action-IsModest fetch inspire d read_page initial year_from c m h =
    look_up-IsModest inspire d initial year_from c m h
perform_action-IsModest fetch inspire d finish initial year_from c m h =
    look_up-IsModest inspire d initial year_from c m h

-- With at most 20 papers, at most 6 of them new, an action that succeeds leaves at most 20 papers, and
-- at most 6 new ones, whatever INSPIRE answers.
pub perform-IsModest :
    (fetch : Paper → Document) (inspire : Inspire) (d : Decision) (initial : List Text)
    (year_from : ℕ) (c : Collection) {message : Text} {c' : Collection}
    → IsModest initial c
    → perform fetch inspire d initial year_from c ≡ some (message, c')
    → IsModest initial c'
unfolding perform
perform-IsModest fetch inspire d initial year_from c m h =
    perform_action-IsModest fetch inspire d d.action initial year_from c m h
