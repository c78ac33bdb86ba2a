-- ===== src/SymbolConfig/Texts.antt =====
-- common/symbol_config.py: a line as a text, and what the reader of simple YAML takes of it.
use coinwhale_data_pipeline.Prelude.{
  ℕ, zero, suc, ◌==◌, ◌≡◌, refl, ap, ◌∙◌, subst, inl, inr, Bool-cases, eq_iff, if◌then◌else◌,
  String, Bool, true, false, not, ◌&&◌, ◌||◌, none, List, [], ◌∷◌, All, ◌=ˢ◌, strip, lstrip, rstrip,
  rstrip_cons, is_space, IsTrimmed, lstrip_trimmed, arith, between,
}
use Prim.Native.Char.{Char, code}
use coinwhale_data_pipeline.SymbolConfig.Yaml.{
  before_comment, strip_comment, leading_spaces, items_of,
}
use coinwhale_data_pipeline.SymbolConfig.Splitlines.{
  is_line_break, onto_first, lines_behind, splitlines,
}
use coinwhale_data_pipeline.SymbolConfig.Printed.{◌then_text◌}

-- A text behind `n` spaces.
abbrev pub indented : ℕ → String → String
indented zero text = text
indented (suc n) text = " " then_text indented n text

abbrev pub texts_of : List (ℕ × String) → List String
texts_of [] = []
texts_of ((n, content) ∷ rest) = indented n content ∷ texts_of rest

-- The lines as a text, each with a line feed.
abbrev pub text_of : List String → String
text_of [] = ""
text_of (line ∷ lines) = line then_text ("\n" then_text text_of lines)

-- No sign of a comment, no quote, and no line break.
abbrev pub has_no_marks : String → Bool
has_no_marks String.[] = true
has_no_marks (String.◌∷◌ c s) =
    not (code c == 35)
    && not (code c == 39 || code c == 34)
    && not (is_line_break c)
    && has_no_marks s

abbrev pub IsFilled : String → Type 0
IsFilled String.[] = ⊥
IsFilled (String.◌∷◌ c s) = Unit

unmarked :
    (a b e d : Bool)
    → not a && not b && not e && d ≡ true
    → (a ≡ false) × (b ≡ false) × (e ≡ false) × (d ≡ true)
unmarked a b e d all_four = ground arith

no_comment : (s : String) → has_no_marks s ≡ true → before_comment none s ≡ s
unfolding before_comment
no_comment String.[] plain = refl
no_comment (String.◌∷◌ c s) plain =
    let parts =
      unmarked (code c == 35) (code c == 39 || code c == 34) (is_line_break c) (has_no_marks s)
        plain in
    rw (parts.0) (rw (parts.1) (ap (λ t. String.◌∷◌ c t) (no_comment s parts.3)))

pub no_marks-then_text :
    (s t : String)
    → has_no_marks s ≡ true
    → has_no_marks t ≡ true
    → has_no_marks (s then_text t) ≡ true
no_marks-then_text String.[] t first second = second
no_marks-then_text (String.◌∷◌ c s) t first second =
    let later = no_marks-then_text s t in ground arith

rstrip_cons-IsFilled : (c : Char) (t : String) → IsFilled t → rstrip_cons c t ≡ String.◌∷◌ c t
unfolding rstrip_cons
rstrip_cons-IsFilled c String.[] text = absurd text
rstrip_cons-IsFilled c (String.◌∷◌ d t) text = refl

pub then_text-IsFilled : (s t : String) → IsFilled t → IsFilled (s then_text t)
then_text-IsFilled String.[] t text = text
then_text-IsFilled (String.◌∷◌ c s) t text = tt

pub rstrip-then_text :
    (s t : String) → IsFilled t → rstrip t ≡ t → rstrip (s then_text t) ≡ s then_text t
unfolding rstrip
rstrip-then_text String.[] t text same = same
rstrip-then_text (String.◌∷◌ c s) t text same =
    ap (λ u. rstrip_cons c u) (rstrip-then_text s t text same)
    ∙ rstrip_cons-IsFilled c (s then_text t) (then_text-IsFilled s t text)

-- A line's content as the reader has it: not empty, without marks, and without white space around it.
abbrev pub IsLineBody : String → Type 0
IsLineBody s = IsFilled s × (has_no_marks s ≡ true) × IsTrimmed s × (rstrip s ≡ s)

indented-IsFilled : (n : ℕ) (s : String) → IsFilled s → IsFilled (indented n s)
indented-IsFilled zero s text = text
indented-IsFilled (suc n) s text = tt

rstrip-indented :
    (n : ℕ) (s : String) → IsFilled s → rstrip s ≡ s → rstrip (indented n s) ≡ indented n s
unfolding rstrip
rstrip-indented zero s text same = same
rstrip-indented (suc n) s text same =
    rstrip-then_text " " (indented n s) (indented-IsFilled n s text) (rstrip-indented n s text same)

pub no_marks-indented :
    (n : ℕ) (s : String) → has_no_marks s ≡ true → has_no_marks (indented n s) ≡ true
unfolding is_line_break between
no_marks-indented zero s plain = plain
no_marks-indented (suc n) s plain = no_marks-indented n s plain

lstrip-indented : (n : ℕ) (s : String) → lstrip (indented n s) ≡ lstrip s
unfolding lstrip is_space
lstrip-indented zero s = refl
lstrip-indented (suc n) s = lstrip-indented n s

not_space : (c : Char) → is_space c ≡ false → (code c == 32) ≡ false
unfolding is_space between
not_space c other = ground arith

leading_spaces-indented :
    (n : ℕ) (s : String) → IsFilled s → IsTrimmed s → leading_spaces (indented n s) ≡ n
unfolding leading_spaces
leading_spaces-indented zero String.[] text trimmed = absurd text
leading_spaces-indented zero (String.◌∷◌ c s) text trimmed = rw (not_space c trimmed) refl
leading_spaces-indented (suc n) s text trimmed = ap suc (leading_spaces-indented n s text trimmed)

pub not_blank : (s : String) → IsFilled s → (s =ˢ "") ≡ false
not_blank s text = elim (Bool-cases (s =ˢ "")) [
  | inl same ↦ absurd (subst IsFilled ((eq_iff s "").0 same) text)
  | inr other ↦ other
]

-- The line of a content is taken as its content and its indentation.
pub items_of_line :
    (n : ℕ) (s : String) (lines : List String)
    → IsLineBody s
    → items_of (indented n s ∷ lines) ≡ (n, s) ∷ items_of lines
unfolding items_of strip_comment strip
items_of_line n s lines content =
    let bare : strip_comment (indented n s) ≡ indented n s =
      ap rstrip (no_comment (indented n s) (no_marks-indented n s content.1))
      ∙ rstrip-indented n s content.0 content.3 in
    let stripped : strip (indented n s) ≡ s =
      ap rstrip (lstrip-indented n s ∙ lstrip_trimmed s content.2) ∙ content.3 in
    ap (λ b. if strip b =ˢ "" then items_of lines else (leading_spaces b, strip b) ∷ items_of lines)
      bare
    ∙ ap
        (λ t.
          if t =ˢ "" then items_of lines else (leading_spaces (indented n s), t) ∷ items_of lines)
        stripped
    ∙ rw (not_blank s content.0) (rw (leading_spaces-indented n s content.0 content.2) refl)

not_return : (c : Char) → is_line_break c ≡ false → (code c == 13) ≡ false
unfolding is_line_break between
not_return c other = ground arith

line_feed : (t : String) → splitlines ("\n" then_text t) ≡ "" ∷ splitlines t
unfolding splitlines lines_behind is_line_break between
line_feed t = refl

-- A line without a break before a line feed is the first line of a text.
first_line :
    (s t : String)
    → has_no_marks s ≡ true
    → splitlines (s then_text ("\n" then_text t)) ≡ s ∷ splitlines t
unfolding splitlines lines_behind onto_first
first_line String.[] t plain = line_feed t
first_line (String.◌∷◌ c s) t plain =
    let parts =
      unmarked (code c == 35) (code c == 39 || code c == 34) (is_line_break c) (has_no_marks s)
        plain in
    rw (parts.2) (
      ap (λ b. onto_first c (lines_behind b (s then_text ("\n" then_text t))))
        (not_return c parts.2)
      ∙ ap (onto_first c) (first_line s t parts.3))

-- The lines of a text are those that it is made of.
pub splitlines-text_of :
    (lines : List String)
    → All (λ s. has_no_marks s ≡ true) lines
    → splitlines (text_of lines) ≡ lines
unfolding splitlines lines_behind
splitlines-text_of [] plain = refl
splitlines-text_of (s ∷ lines) plain =
    first_line s (text_of lines) plain.0 ∙ ap (λ rest. s ∷ rest) (splitlines-text_of lines plain.1)
