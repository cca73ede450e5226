-- ===== src/Research/Papers.antt =====
-- The papers of a dossier, with their documents and the passages that are selected from them. The
-- program keeps them as JSON objects (research/retrieval.py, research/investigation.py).
use research_desk.Prelude.{
  ℕ, ◌+◌, Bool, Option, none, some, List, [], ◌∷◌, Text, length, eq_text, codes,
}
use research_desk.Json.{Json}

-- A page of a document; its "page" is whatever the extraction wrote there.
pub record Page : Type 0 where
  pub page : Json
  pub text : Text

pub record Document : Type 0 where
  pub status : Text
  pub pages : List Page
  pub error : Text

-- How an investigation came to a paper: its "action", "query" and "parent".
pub record Acquisition : Type 0 where
  pub action : Text
  pub query : Text
  pub parent : Text

-- A missing "abstract" is the empty text, "references" the empty list.
pub record Paper : Type 0 where
  pub id : Text
  pub title : Text
  pub year : Json
  pub source_url : Json
  pub abstract : Text
  pub document : Option Document
  pub references : List Text
  pub search_scope : Text
  pub acquisition : Option Acquisition

-- An item of "_evidence_passages"; page 0 is the abstract.
pub record Passage : Type 0 where
  pub page : ℕ
  pub text : Text
  pub score : Option ℕ

pub data Engine : Type 0 where
  local_keywords elasticsearch_bm25 unavailable direct_page : Engine

-- A paper with the passages that the model is given.
pub record Selected : Type 0 where
  pub id : Text
  pub title : Text
  pub year : Json
  pub source_url : Json
  pub passages : List Passage
  pub engine : Engine
  pub warning : Text

abbrev pub is_available : Option Document → Bool
is_available none = Bool.false
is_available (some d) = eq_text d.status (codes "available")

abbrev pub pages_of : Option Document → List Page
pages_of none = []
pages_of (some d) = d.pages

-- The number of characters in the passages.
abbrev pub total : List Passage → ℕ
total [] = 0
total (p ∷ ps) = length p.text + total ps

-- `{p["id"] for p in papers}`, in order.
abbrev pub ids : List Paper → List Text
ids [] = []
ids (p ∷ papers) = p.id ∷ ids papers
