-- ===== src/SymbolConfig/Lines.antt =====
-- common/symbol_config.py: a printed document as a text, and what the reader of simple YAML makes of it.
use coinwhale_data_pipeline.Prelude.{ℕ, ◌≡◌, String, true, List, [], ◌∷◌, All}
use coinwhale_data_pipeline.SymbolConfig.Yaml.{items_of}
use coinwhale_data_pipeline.SymbolConfig.Printed.{
  Entries, done, scalar, sequence, mapping, lines_of,
}
use coinwhale_data_pipeline.SymbolConfig.Texts.{texts_of, text_of, has_no_marks}

-- No sign of a comment, no quote and no line break stands in a key or a scalar of a document.
abbrev pub HasNoMarks : Entries → Type 0
HasNoMarks done = Unit
HasNoMarks (scalar key s es) = (has_no_marks key ≡ true) × (has_no_marks s ≡ true) × HasNoMarks es
HasNoMarks (sequence key s ss es) =
    (has_no_marks key ≡ true) × All (λ t. has_no_marks t ≡ true) (s ∷ ss) × HasNoMarks es
HasNoMarks (mapping key inner es) = (has_no_marks key ≡ true) × HasNoMarks inner × HasNoMarks es

-- Lines that are taken as what they were printed from, and have no breaks in them.
abbrev AreKept : List (ℕ × String) → Type 0
AreKept items =
    (items_of (texts_of items) ≡ items) × All (λ s. has_no_marks s ≡ true) (texts_of items)

-- The text of a printed document, with two spaces for each level.
abbrev pub printed : Entries → String
printed es = text_of (texts_of (lines_of 0 es []))
