-- ===== src/Catalogues/Services/Decide/Flat.antt =====
-- The table of entries stays flat when one row is written.
use research_desk.Prelude.{ℕ, ◌≡◌, ◌≢◌, refl, sym, ap, ◌∙◌, none, some, List, arith, ◌⊎◌, inl, inr}
use native.Mathlib.Decide.{ℕ_discrete}
use research_desk.Table.{find_row, set_row, find_row-set_ne, find_row-set_self}
use research_desk.Catalogues.Model.{kept, merged, Entry}
use research_desk.Catalogues.Services.Access.{entry_id}

-- The entry that another one is merged into.
pub record IsTarget (es : List Entry) (e : Entry) (t : ℕ) : Type 0 where
  pub root : Entry
  pub found : find_row entry_id t es ≡ some root
  pub included : root.status ≡ kept
  pub is_root : root.merge_target ≡ none
  pub same_catalogue : root.catalogue ≡ e.catalogue

-- An entry has a target exactly if it is merged, and the target is an included root.
pub record MergeOk (es : List Entry) (e : Entry) : Type 0 where
  pub alone : e.merge_target ≡ none → e.status ≢ merged
  pub merged_one : (t : ℕ) → e.merge_target ≡ some t → (e.status ≡ merged) × IsTarget es e t

pub record IsFlat (es : List Entry) : Type 0 where
  pub at : (i : ℕ) (e : Entry) → find_row entry_id i es ≡ some e → MergeOk es e

-- Nothing is merged into the row, or it stays an included root.
abbrev Harmless : List Entry → Entry → Type 0
Harmless es e' =
    ((j : ℕ) (x : Entry) → find_row entry_id j es ≡ some x → x.merge_target ≢ some e'.id)
    ⊎ ((e'.status ≡ kept) × (e'.merge_target ≡ none))

module _ (es : List Entry) (e e' : Entry) (flat : IsFlat es)
    (found : find_row entry_id e'.id es ≡ some e) (same : e'.catalogue ≡ e.catalogue)
    (fits : MergeOk es e') (other : (t : ℕ) → e'.merge_target ≡ some t → t ≢ e'.id)
    (harmless : Harmless es e') where
  -- A target that is another row is still there.
  kept-IsTarget :
      (x : Entry) (t : ℕ) → t ≢ e'.id → IsTarget es x t → IsTarget (set_row entry_id e' es) x t
  kept-IsTarget x t ne g = record {
    root = g.root;
    found = find_row-set_ne entry_id t e' es (λ p. ne (sym p)) ∙ g.found;
    included = g.included;
    is_root = g.is_root;
    same_catalogue = g.same_catalogue;
  }

  old-IsTarget :
      (j : ℕ) (x : Entry) (t : ℕ)
      → find_row entry_id j es ≡ some x
      → x.merge_target ≡ some t
      → IsTarget es x t
      → IsTarget (set_row entry_id e' es) x t
  old-IsTarget j x t h m g = elim (ℕ_discrete t e'.id) [
    | no ne ↦ kept-IsTarget x t ne g
    | yes p ↦ elim harmless [
      | inl free ↦ absurd (free j x h (m ∙ ap some p))
      | inr root ↦ record {
        root = e';
        found = rw p (find_row-set_self entry_id e'.id e' es found refl);
        included = root.0;
        is_root = root.1;
        same_catalogue = ground (arith, ap (λ i. find_row entry_id i es) p);
      }
    ]
  ]

  still_ok :
      (j : ℕ) (x : Entry) → find_row entry_id j es ≡ some x → MergeOk (set_row entry_id e' es) x
  still_ok j x h =
      let ok_x = flat.at j x h in
      record {
        alone = ok_x.alone;
        merged_one = λ t m. let (st, g) = ok_x.merged_one t m in (st, old-IsTarget j x t h m g);
      }

  pub set_row-IsFlat : IsFlat (set_row entry_id e' es)
  set_row-IsFlat = record {
    at = λ i x h. elim (ℕ_discrete e'.id i) [
      | no ne ↦ still_ok i x (sym (find_row-set_ne entry_id i e' es ne) ∙ h)
      | yes p ↦
          let q : some e' ≡ some x =
            sym (find_row-set_self entry_id i e' es (rw p at found) p) ∙ h in
          let r : e' ≡ x = cc in
          rw (← r) (record {
            alone = fits.alone;
            merged_one =
                λ t m. let (st, g) = fits.merged_one t m in (st, kept-IsTarget e' t (other t m) g);
          })
    ];
  }
