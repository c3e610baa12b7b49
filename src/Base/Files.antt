-- ===== src/Base/Files.antt =====
-- JSON files that are read with a default.

-- A JSON file: it may be missing, or be unreadable or no JSON.
pub data JsonFile {ℓ} (A : Type ℓ) : Type ℓ where
  absent : JsonFile A
  unreadable : JsonFile A
  document : A → JsonFile A

-- The document, or the default for a file that is missing or cannot be read.
abbrev pub load_json {ℓ} : {A : Type ℓ} → JsonFile A → A → A
load_json absent default = default
load_json unreadable default = default
load_json (document d) default = d
