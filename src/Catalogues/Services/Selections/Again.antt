-- ===== src/Catalogues/Services/Selections/Again.antt =====
-- A confirmation that is sent again.
use research_desk.Prelude.{
  ℕ, ◌+◌, ◌≡◌, ap, ◌∙◌, true, Option, none, some, ◌==◌, arith, Option-cases, inl, inr,
}
use research_desk.Unicode.{Unicode}
use research_desk.Table.{find_row, find_row-set_self, key-find_row}
use research_desk.Catalogues.Model.{User, Catalogue, Selection, Db, ok}
use research_desk.Catalogues.Model.Inversion.{>>=-step}
use research_desk.Catalogues.Services.Access.{catalogue_id, find_catalogue, get_catalogue}
use research_desk.Catalogues.Services.Access.Laws.{Opened, get_catalogue-Opened}
use research_desk.Catalogues.Services.Selections.{
  selection_id, find_selection, owned_selection, unless_consumed, confirm_selection,
}
use research_desk.Catalogues.Services.Selections.Confirm.{confirm_selection-Confirmed}

owned_selection-found :
    (user : User) (db : Db) (o : Option Selection) {s : Selection}
    → owned_selection user db o ≡ some s
    → o ≡ some s
unfolding owned_selection
owned_selection-found user db none h = cc
owned_selection-found user db (some x) h = elim (Option-cases (find_catalogue db x.catalogue)) [
  | inl e ↦ absurd (ground (arith, e))
  | inr (c, e) ↦ ground (arith, e)
]

owned_selection-of :
    (user : User) (db : Db) (s : Selection) (c : Catalogue)
    → find_catalogue db s.catalogue ≡ some c
    → c.owner ≡ user.pk
    → owned_selection user db (some s) ≡ some s
unfolding owned_selection
owned_selection-of user db s c f o =
    let same : (c.owner == user.pk) ≡ true = ground (arith, o) in rw (owned_selection, f, same)

confirm_consumed :
    (u : Unicode) (user : User) (pk expected : ℕ) (db : Db) (s : Selection) (c : Catalogue)
    → find_selection db pk ≡ some s
    → Opened user db s.catalogue c
    → s.consumed ≡ true
    → confirm_selection u user pk expected db ≡ ok (s, db)
unfolding confirm_selection unless_consumed
confirm_consumed u user pk expected db s c f o done =
    let mine = owned_selection-of user db s c o.found o.owner in
    simp (o.signed_in, f, mine)
      (>>=-step (get_catalogue user s.catalogue) _ db (get_catalogue-Opened user s.catalogue db c o)
        ∙ rw done)

-- A selection that was confirmed can be confirmed again, for any revision, and nothing changes.
pub confirm_selection_again :
    (u : Unicode) (user : User) (pk expected later : ℕ) (db : Db) {s' : Selection} {db' : Db}
    → confirm_selection u user pk expected db ≡ ok (s', db')
    → confirm_selection u user pk later db' ≡ ok (s', db')
confirm_selection_again u user pk expected later db {s'} {db'} h =
    let (s, c, chosen, outcome) = confirm_selection-Confirmed u user pk expected db h in
    let f = owned_selection-found user db (find_selection db pk) chosen.owned in
    elim outcome [
      | inl (done, same_s, same_db) ↦
          simp (same_s, same_db) (confirm_consumed u user pk later db s c f chosen.opened done)
      | inr r ↦
          let is_pk : s'.id ≡ pk =
            ap (λ (x : Selection). x.id) r.closed ∙ key-find_row selection_id pk db.selections f in
          let same_c : s'.catalogue ≡ s.catalogue = ap (λ (x : Selection). x.catalogue) r.closed in
          let is_c = key-find_row catalogue_id s.catalogue db.catalogues chosen.opened.found in
          confirm_consumed u user pk later db' s' (record c { revision = c.revision + 1 })
            (ap (λ x. find_row selection_id pk x) r.selections
              ∙ find_row-set_self selection_id pk s' db.selections f is_pk)
            (record {
              signed_in = chosen.opened.signed_in;
              found =
                  ap (λ i. find_catalogue db' i) same_c
                  ∙ ap (λ x. find_row catalogue_id s.catalogue x) r.catalogues
                  ∙ find_row-set_self catalogue_id s.catalogue
                      (record c { revision = c.revision + 1 }) db.catalogues chosen.opened.found
                      is_c;
              owner = chosen.opened.owner;
            })
            (ap (λ (x : Selection). x.consumed) r.closed)
    ]
