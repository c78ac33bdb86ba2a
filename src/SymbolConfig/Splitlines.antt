-- ===== src/SymbolConfig/Splitlines.antt =====
-- common/symbol_config.py: `str.splitlines`, by which the reader of simple YAML takes its lines.
use coinwhale_data_pipeline.Prelude.{
  ◌==◌, String, Bool, false, ◌&&◌, ◌||◌, List, [], ◌∷◌, if◌then◌else◌, between,
}
use Prim.Native.Char.{Char, code}

-- Line feed to form feed, carriage return, the separators of ASCII, and those of Unicode.
unfoldable pub is_line_break : Char → Bool
unfolding between
is_line_break c =
    between 10 13 (code c) || between 28 30 (code c) || code c == 133 || between 8232 8233 (code c)

-- A character before the first of some lines.
unfoldable pub onto_first : Char → List String → List String
onto_first c [] = String.◌∷◌ c String.[] ∷ []
onto_first c (line ∷ lines) = String.◌∷◌ c line ∷ lines

-- The lines of what stands behind a carriage return, or not; a line feed behind one ends no further line.
unfoldable pub lines_behind : Bool → String → List String
unfolding is_line_break onto_first
lines_behind returned String.[] = []
lines_behind returned (String.◌∷◌ c s) =
    let rest = lines_behind (code c == 13) s in
    if is_line_break c
    then if returned && code c == 10 then rest else "" ∷ rest
    else onto_first c rest

unfoldable pub splitlines : String → List String
unfolding lines_behind
splitlines text = lines_behind false text
