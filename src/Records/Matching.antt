-- ===== src/Records/Matching.antt =====
-- The lexical comparison of two normalized records (records/matching.py).
-- A similarity is a number of millionths: the source's float in [0, 1].
pub mod Symmetry
mod Tests
use research_desk.Prelude.{
  ℕ, ◌≡◌, Bool, true, false, not, ◌&&◌, ◌||◌, Option, none, some, List, [], ◌∷◌, ◌++◌, map, any,
  all, max, ltb, if◌then◌else◌, Text, codes, join_spaces,
}
use research_desk.Json.{Json, Fields, null, obj, str, truthy, get, eq_json, text_of, list_of}
use research_desk.Unicode.{str_of, Unicode, is_some, runs, elem}

pub data Signal : Type 0 where
  missing identical different : Signal

pub data Warning : Type 0 where
  different_doi different_type doi_title_conflict negation_differs numbers_differ dates_differ :
      Warning

pub data Recommendation : Type 0 where
  review insufficient_evidence : Recommendation

-- The dictionary that `compare_metadata` returns, with its "signals" flat.
pub record Comparison : Type 0 where
  pub doi : Signal
  pub title_similarity : Option ℕ
  pub author_similarity : Option ℕ
  pub kind : Signal
  pub year : Signal
  pub warnings : List Warning
  pub ranking_score : ℕ
  pub recommendation : Recommendation

-- 1.0, and `CONFIG["title_conflict"]`.
abbrev pub one : ℕ
one = 1000000

abbrev pub title_conflict : ℕ
title_conflict = 500000

-- "missing" unless both are there; then whether they are equal.
unfoldable pub signal : Json → Json → Signal
signal a b =
    if not (truthy a) || not (truthy b)
    then missing
    else (if eq_json a b then identical else different)

abbrev pub is_identical : Signal → Bool
is_identical identical = true
is_identical _ = false

abbrev pub is_different : Signal → Bool
is_different different = true
is_different _ = false

-- `warnings.append(w)` under a condition.
abbrev pub warn_if : Bool → Warning → List Warning
warn_if true w = w ∷ []
warn_if false w = []

negations : List Text
negations = codes "no" ∷ codes "not" ∷ codes "without" ∷ codes "non" ∷ codes "neither" ∷ []

-- `set(a) != set(b)`.
pub differ : List Text → List Text → Bool
differ a b = not (all (λ t. elem t b) a && all (λ t. elem t a) b)

-- `set(a) & negations != set(b) & negations`.
pub differ_on : List Text → List Text → List Text → Bool
differ_on [] a b = false
differ_on (w ∷ ws) a b = (if elem w a then not (elem w b) else elem w b) || differ_on ws a b

-- `title is not None and title < CONFIG["title_conflict"]`.
unfoldable pub below_conflict : Option ℕ → Bool
below_conflict none = false
below_conflict (some title) = ltb title title_conflict

-- `title or 0`.
abbrev pub score_of : Option ℕ → ℕ
score_of none = 0
score_of (some title) = title

-- `rapidfuzz.fuzz.ratio`, over 100, and the text tables are arguments.
module _ (u : Unicode) (ratio : Text → Text → ℕ) where
  -- The name of an author: of an object its "name", else `str` of the value.
  author_name : Json → Text
  author_name (obj fs) = u.casefold (text_of (get "name" fs))
  author_name a = u.casefold (str_of u a)

  names : List Json → Text
  unfolding author_name
  names authors = join_spaces (map author_name authors)

  -- `ratio(lt, rt) / 100 if lt and rt else None`.
  pub title_similarity : Text → Text → Option ℕ
  title_similarity [] rt = none
  title_similarity (c ∷ lt) [] = none
  title_similarity (c ∷ lt) (d ∷ rt) = some (ratio (c ∷ lt) (d ∷ rt))

  pub author_similarity : List Json → List Json → Option ℕ
  unfolding names
  author_similarity [] ra = none
  author_similarity (a ∷ la) [] = none
  author_similarity (a ∷ la) (b ∷ ra) = some (ratio (names (a ∷ la)) (names (b ∷ ra)))

  digits : Text → List Text
  digits t = runs (λ c. is_some (u.decimal c)) t

  unfoldable pub warnings_for : Signal → Signal → Signal → Option ℕ → Text → Text → List Warning
  unfolding negations differ differ_on digits
  warnings_for doi kind year title lt rt =
      warn_if (is_different doi) different_doi
      ++ (warn_if (is_different kind) different_type
          ++ (warn_if (is_identical doi && below_conflict title) doi_title_conflict
              ++ (warn_if (differ_on negations (runs u.is_word lt) (runs u.is_word rt))
                    negation_differs
                  ++ (warn_if (differ (digits lt) (digits rt)) numbers_differ
                      ++ warn_if (is_different year) dates_differ))))

  unfoldable pub compare_metadata : Fields → Fields → Comparison
  unfolding signal title_similarity author_similarity warnings_for
  compare_metadata left right =
      let doi = signal (get "doi" left) (get "doi" right) in
      let lt = text_of (get "title_key" left) in
      let rt = text_of (get "title_key" right) in
      let title = title_similarity lt rt in
      let kind = signal (get "type" left) (get "type" right) in
      let year = signal (get "year" left) (get "year" right) in
      record {
        doi = doi;
        title_similarity = title;
        author_similarity =
            author_similarity (list_of (get "authors" left)) (list_of (get "authors" right));
        kind = kind;
        year = year;
        warnings = warnings_for doi kind year title lt rt;
        ranking_score = max (score_of title) (if is_identical doi then one else 0);
        recommendation =
            if is_identical doi || is_some title then review else insufficient_evidence;
      }
