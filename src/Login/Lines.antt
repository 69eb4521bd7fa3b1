-- ===== src/Login/Lines.antt =====
-- The module shows the lines of the program whole, however its output is cut into chunks.
use pcbu_desktop.Base.{ℕ, ◌≡◌, false, List, [], ◌∷◌, ◌++◌, map, Bytes, is_empty}
use pcbu_desktop.Text.Find.{Without}
use pcbu_desktop.Login.Module.{pop_return, show_lines}

abbrev pub newline : ℕ
newline = 10

-- The lines, each with its end.
abbrev pub unlines : List Bytes → Bytes
unlines [] = []
unlines (line ∷ lines) = line ++ (newline ∷ unlines lines)

abbrev pub concat : List Bytes → Bytes
concat [] = []
concat (chunk ∷ chunks) = chunk ++ concat chunks

-- A line that is shown: it is not empty without a `\r` at its end.
abbrev pub IsShown : Bytes → Type 0
IsShown line = Without newline line × (is_empty (pop_return line) ≡ false)

-- The lines within a text, and what is left of the others.
record ShownLines (fuel : ℕ) (text rest : Bytes) (lines : List Bytes) : Type 0 where
  done : List Bytes
  others : List Bytes
  left : Bytes
  shows : show_lines fuel text ≡ (map pop_return done, left)
  splits : done ++ others ≡ lines
  ends : Without newline left
  continues : left ++ rest ≡ unlines others
