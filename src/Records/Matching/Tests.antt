-- ===== src/Records/Matching/Tests.antt =====
-- Comparisons of two small records.
use research_desk.Prelude.{ℕ, ◌≡◌, refl, [], ◌∷◌, Text, codes}
use research_desk.Json.{Fields, null, str, int, pos, field, end, truthy, get, eq_json}
use research_desk.Unicode.{ascii, elem, runs}
use research_desk.Records.Matching.{
  compare_metadata, below_conflict, one, different_type, negation_differs, numbers_differ,
}
use research_desk.Records.Matching.Symmetry.{
  IsComparable, compare_metadata-sym, warnings-compare_metadata_self,
}

-- A similarity that takes every two texts for equal.
abbrev full : Text → Text → ℕ
full s t = one

abbrev thesis : Fields
thesis = field "doi" (str (codes "10.1234/x")) (
    field "title_key" (str (codes "no decay in 2 modes"))
      (field "type" (str (codes "thesis")) (field "year" (int (pos 2020)) end)))

abbrev article : Fields
article = field "doi" (str (codes "10.1234/x")) (
    field "title_key" (str (codes "decay in modes"))
      (field "type" (str (codes "article")) (field "year" null end)))

thesis-IsComparable : IsComparable thesis
unfolding get
thesis-IsComparable = record { doi = tt; kind = tt; year = tt }

compare_run :
    (compare_metadata ascii full thesis article).warnings
    ≡ different_type ∷ negation_differs ∷ numbers_differ ∷ []
unfolding compare_metadata truthy get eq_json below_conflict elem runs
compare_run = refl

compare_metadata-sym_example :
    compare_metadata ascii full thesis article ≡ compare_metadata ascii full article thesis
compare_metadata-sym_example =
    compare_metadata-sym ascii full (λ s t. refl) thesis article thesis-IsComparable

warnings-compare_metadata_self_example : (compare_metadata ascii full thesis thesis).warnings ≡ []
warnings-compare_metadata_self_example =
    warnings-compare_metadata_self ascii full (λ s. refl) thesis thesis-IsComparable
