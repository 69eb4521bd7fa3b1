-- ===== src/Text/Replace.antt =====
-- Replace against Split and joining, and the quoting of a text for a shell.
use pcbu_desktop.Base.{
  ℕ, zero, suc, ◌≤◌, ◌≡◌, refl, sym, ap, ◌∙◌, inl, inr, false, [], ◌∷◌, ◌++◌, Option, none, some,
  ◌==◌, eq→==, if◌then◌else◌, Bool-cases, Option-cases, Bytes, length, is_empty, codes, arith,
}
use pcbu_desktop.Text.{find_split, split_loop, split, replace_loop, replace, shell_quote}
use pcbu_desktop.Text.Find.{
  Without, find_split-append, find_split_before, find_split_shorter, Without-find_split,
}
use pcbu_desktop.Text.Split.{join, join-split_loop-cons}

replace_loop-join :
    (fuel : ℕ) (from to text : Bytes)
    → is_empty to ≡ false
    → replace_loop fuel from to text ≡ join to (split_loop fuel from text)
unfolding replace_loop split_loop
replace_loop-join zero from to text ne = refl
replace_loop-join (suc fuel) from to text ne = elim (Option-cases (find_split from text)) [
  | inl e ↦ rw (e, replace_loop, split_loop)
  | inr ((before, behind), e) ↦
      rw (e, replace_loop, split_loop, ne)
        (ap (λ rest. before ++ (to ++ rest)) (replace_loop-join fuel from to behind ne)
          ∙ sym (join-split_loop-cons fuel from to before behind))
]

-- For a pattern and a replacement with bytes, Replace joins the tokens between the occurrences of the
-- pattern by the replacement.
pub replace-join :
    (text from to : Bytes)
    → is_empty from ≡ false
    → is_empty to ≡ false
    → replace text from to ≡ join to (split text from)
unfolding replace split
replace-join text from to f t = rw f (replace_loop-join (length text) from to text t)

-- Every `d` becomes `to`.
expand : ℕ → Bytes → Bytes → Bytes
expand d to [] = []
expand d to (x ∷ xs) = (if x == d then to else x ∷ []) ++ expand d to xs

expand-append :
    (d : ℕ) (to before behind : Bytes)
    → Without d before
    → expand d to (before ++ behind) ≡ before ++ expand d to behind
unfolding expand
expand-append d to [] behind h = refl
expand-append d to (b ∷ before) behind h = ground (arith, h.0, expand-append d to before behind h.1)

expand-Without : (d : ℕ) (to text : Bytes) → Without d text → expand d to text ≡ text
unfolding expand
expand-Without d to [] h = refl
expand-Without d to (x ∷ text) h = ground (arith, h.0, expand-Without d to text h.1)

expand_hit : (d : ℕ) (to behind : Bytes) → expand d to (d ∷ behind) ≡ to ++ expand d to behind
unfolding expand
expand_hit d to behind = rw (eq→== d d refl)

replace_loop-expand :
    (fuel d : ℕ) (to text : Bytes)
    → is_empty to ≡ false
    → length text ≤ fuel
    → replace_loop fuel (d ∷ []) to text ≡ expand d to text
unfolding replace_loop
replace_loop-expand zero d to [] ne h = unfold expand in refl
replace_loop-expand zero d to (x ∷ xs) ne h = absurd (omega arith)
replace_loop-expand (suc fuel) d to text ne h = elim (Option-cases (find_split (d ∷ []) text)) [
  | inl e ↦ rw (e, replace_loop) (sym (expand-Without d to text (Without-find_split d text e)))
  | inr ((before, behind), e) ↦
      let splits = find_split-append (d ∷ []) text e in
      let clean = Without-find_split d before (find_split_before (d ∷ []) text (λ x. cc) e) in
      rw (e, replace_loop, ne)
        (ap (λ rest. before ++ (to ++ rest))
            (replace_loop-expand fuel d to behind ne
              (omega (arith, find_split_shorter (d ∷ []) text (λ x. cc) e)))
          ∙ ap (◌++◌ before) (sym (expand_hit d to behind))
          ∙ sym (expand-append d to before (d ∷ behind) clean)
          ∙ ap (expand d to) splits)
]

-- How a POSIX shell reads a word: outside quotes it takes an escaped byte or opens a quotation, and
-- gives up at anything else; inside single quotes every byte but the quote stands for itself.
pub data ShMode : Type 0 where
  outside escaped inside : ShMode

abbrev pub put : ℕ → Option Bytes → Option Bytes
put c none = none
put c (some w) = some (c ∷ w)

unfoldable pub sh_word : ShMode → Bytes → Option Bytes
sh_word outside [] = some []
sh_word escaped [] = none
sh_word inside [] = none
sh_word outside (c ∷ cs) =
    let quoted = sh_word inside cs in
    let literal = sh_word escaped cs in
    if c == b'\'' then quoted else if c == b'\\' then literal else none
sh_word escaped (c ∷ cs) = put c (sh_word outside cs)
sh_word inside (c ∷ cs) =
    let closed = sh_word outside cs in
    let more = put c (sh_word inside cs) in if c == b'\'' then closed else more

abbrev quote_escape : Bytes
quote_escape = codes "'\\''"

sh_word-expand :
    (text : Bytes) → sh_word inside (expand b'\'' quote_escape text ++ codes "'") ≡ some text
unfolding sh_word expand
sh_word-expand [] = refl
sh_word-expand (c ∷ text) = elim (Bool-cases (c == b'\'')) [
  | inl quote ↦ rw quote (rw (sh_word-expand text) (ground arith))
  | inr plain ↦ rw plain (rw (plain, sh_word-expand text) refl)
]

sh_word-open : (body : Bytes) → sh_word outside (codes "'" ++ body) ≡ sh_word inside body
unfolding sh_word
sh_word-open body = refl

-- A shell reads a text quoted by ShellQuote as one word, which is the text itself, whatever bytes it has.
pub sh_word-shell_quote : (text : Bytes) → sh_word outside (shell_quote text) ≡ some text
unfolding shell_quote replace
sh_word-shell_quote text =
    ap (λ body. sh_word outside (codes "'" ++ (body ++ codes "'")))
      (replace_loop-expand (length text) b'\'' quote_escape text refl (omega arith))
    ∙ sh_word-open (expand b'\'' quote_escape text ++ codes "'")
    ∙ sh_word-expand text
