-- ===== src/Cli/Wrap.antt =====
-- The lines of the help are its text, broken between pieces.
use zipfs.Base.{
  ℕ, ◌+◌, ◌-◌, ◌≤◌, ◌≡◌, ◌⊎◌, inl, inr, refl, sym, ap, ◌∙◌, subst, leb, leb→le, true, false,
  Bool-cases, some, List, [], ◌∷◌, ◌++◌, append_assoc, length, length-append, arith,
}
use mathlib.Core.List.{Mem, mem-cons_self, mem-cons_of_mem}
use zipfs.Base.Bytes.{Bytes}
use zipfs.Cli.{Setting}
use zipfs.Cli.Lines.{
  trim, pieces, is_empty, wrap_word, last_line, wrap_from, wrap, help_of, help_lines, setting_named,
  help_width, help_column,
}
use zipfs.Cli.Pieces.{AreSome, ArePieces-AreSome, IsSplit, pieces-IsSplit}

abbrev pub join : List Bytes → Bytes
join [] = []
join (line ∷ []) = line
join (line ∷ next ∷ lines) = line ++ b' ' ∷ join (next ∷ lines)

-- Every line is short enough or a piece.
abbrev pub Fits : ℕ → List Bytes → Bytes → Type 0
Fits width words line = (length line ≤ width) ⊎ Mem line words

abbrev pub AllFit : ℕ → List Bytes → List Bytes → Type 0
AllFit width words [] = Unit {0}
AllFit width words (line ∷ lines) = Fits width words line × AllFit width words lines

-- The text of the lines written, with what follows on the next.
abbrev continued : List Bytes → Bytes → Bytes
continued [] text = text
continued (line ∷ lines) text = line ++ b' ' ∷ continued lines text

join-continued :
    (lines : List Bytes) (line : Bytes) → join (lines ++ line ∷ []) ≡ continued lines line
join-continued [] line = refl
join-continued (a ∷ []) line = refl
join-continued (a ∷ b ∷ lines) line = ap (λ t. a ++ b' ' ∷ t) (join-continued (b ∷ lines) line)

continued-append :
    (lines : List Bytes) (line text : Bytes)
    → continued (lines ++ line ∷ []) text ≡ continued lines (line ++ b' ' ∷ text)
continued-append [] line text = refl
continued-append (a ∷ lines) line text = ap (λ t. a ++ b' ' ∷ t) (continued-append lines line text)

AllFit-append :
    (width : ℕ) (words lines : List Bytes) (line : Bytes)
    → AllFit width words lines
    → Fits width words line
    → AllFit width words (lines ++ line ∷ [])
AllFit-append width words [] line all fits = (fits, tt)
AllFit-append width words (a ∷ lines) line (fit, all) fits =
    (fit, AllFit-append width words lines line all fits)

-- A text that the loop has still to write.
abbrev rest_of : Bytes → List Bytes → Bytes
rest_of line [] = line
rest_of line (word ∷ words) = line ++ b' ' ∷ join (word ∷ words)

rest_of-join : (word : Bytes) (words : List Bytes) → rest_of word words ≡ join (word ∷ words)
rest_of-join word [] = refl
rest_of-join word (next ∷ words) = refl

rest_of-append :
    (line word : Bytes) (words : List Bytes)
    → rest_of (line ++ b' ' ∷ word) words ≡ rest_of line (word ∷ words)
rest_of-append line word [] = refl
rest_of-append line word (next ∷ words) =
    append_assoc line (b' ' ∷ word) (b' ' ∷ join (next ∷ words))

-- What the loop makes of the words left.
pub record IsWrapped (width : ℕ) (words : List Bytes) (text : Bytes) (lines : List Bytes)
    : Type 0 where
  pub join : join lines ≡ text
  pub fits : AllFit width words lines

-- The two ways that a word is written behind a line that is not empty.
wrap_word-same :
    (width c : ℕ) (cs : Bytes) (lines : List Bytes) (word : Bytes)
    → leb (length (c ∷ cs) + 1 + length word) width ≡ true
    → wrap_word width (lines, c ∷ cs) word ≡ (lines, (c ∷ cs) ++ b' ' ∷ word)
unfolding wrap_word is_empty
wrap_word-same width c cs lines word h = simp h refl

wrap_word-next :
    (width c : ℕ) (cs : Bytes) (lines : List Bytes) (word : Bytes)
    → leb (length (c ∷ cs) + 1 + length word) width ≡ false
    → wrap_word width (lines, c ∷ cs) word ≡ (lines ++ (c ∷ cs) ∷ [], word)
unfolding wrap_word is_empty
wrap_word-next width c cs lines word h = simp h refl

module _ (width : ℕ) (all : List Bytes) where
  abbrev Wrapped : List Bytes × Bytes → List Bytes → Type 0
  Wrapped (lines, line) words =
      IsWrapped width all (continued lines (rest_of line words))
        (wrap_from width (lines, line) words)

  wrap_from-IsWrapped :
      (c : ℕ) (cs : Bytes) (lines words : List Bytes)
      → AllFit width all lines
      → Fits width all (c ∷ cs)
      → AreSome words
      → ((w : Bytes) → Mem w words → Mem w all)
      → Wrapped (lines, c ∷ cs) words
  unfolding wrap_from last_line is_empty
  wrap_from-IsWrapped c cs lines [] all_fit fits pieces sub = record {
    join = join-continued lines (c ∷ cs);
    fits = AllFit-append width all lines (c ∷ cs) all_fit fits;
  }
  wrap_from-IsWrapped c cs lines ([] ∷ words) all_fit fits pieces sub = absurd pieces
  wrap_from-IsWrapped c cs lines ((d ∷ ds) ∷ words) all_fit fits pieces sub =
      let sub₁ = λ (w : Bytes) (m : Mem w words). sub w (mem-cons_of_mem (d ∷ ds) m) in
      let line = c ∷ cs in
      let word = d ∷ ds in
      elim (Bool-cases (leb (length line + 1 + length word) width)) [
        | inl h ↦
            let longer : length (line ++ b' ' ∷ word) ≤ width =
              omega (arith, leb→le _ _ h, length-append line (b' ' ∷ word)) in
            let rest : Wrapped (lines, line ++ b' ' ∷ word) words =
              wrap_from-IsWrapped c (cs ++ b' ' ∷ word) lines words all_fit (inl longer) pieces
                sub₁ in
            subst
              (λ state.
                IsWrapped width all (continued lines (rest_of line (word ∷ words)))
                  (wrap_from width state words))
              (sym (wrap_word-same width c cs lines word h))
              (record {
                join = rest.join ∙ ap (continued lines) (rest_of-append line word words);
                fits = rest.fits;
              })
        | inr h ↦
            let rest =
              wrap_from-IsWrapped d ds (lines ++ line ∷ []) words
                (AllFit-append width all lines line all_fit fits) (inr (sub word mem-cons_self))
                pieces sub₁ in
            subst
              (λ state.
                IsWrapped width all (continued lines (rest_of line (word ∷ words)))
                  (wrap_from width state words))
              (sym (wrap_word-next width c cs lines word h))
              (record {
                join =
                    rest.join
                    ∙ continued-append lines line (rest_of word words)
                    ∙ ap (λ t. continued lines (line ++ b' ' ∷ t)) (rest_of-join word words);
                fits = rest.fits;
              })
      ]

wrap_from-words :
    (width : ℕ) (words : List Bytes)
    → AreSome words
    → IsWrapped width words (join words) (wrap_from width ([], []) words)
unfolding wrap_from wrap_word last_line is_empty
wrap_from-words width [] pieces = record { join = refl; fits = (inl (omega arith), tt) }
wrap_from-words width ([] ∷ words) pieces = absurd pieces
wrap_from-words width ((c ∷ cs) ∷ words) pieces =
    let wrapped =
      wrap_from-IsWrapped width ((c ∷ cs) ∷ words) c cs [] words tt (inr mem-cons_self) pieces
        (λ w m. mem-cons_of_mem (c ∷ cs) m) in
    record { join = wrapped.join ∙ rest_of-join (c ∷ cs) words; fits = wrapped.fits }

-- Breaking a text into lines always ends. The trimmed text is made of pieces, with nothing but
-- spaces between them: a note, which starts with a bracket and goes up to the first one that
-- closes it, or, if none does, is all of the rest; or a word, which has no space and goes up to
-- the next one or the end. The pieces have all characters of the text but its spaces, in their
-- order. The lines, with a space between each two, are the pieces, with a space between each two;
-- and a line is wider than `width` only if it is one piece.
pub wrap-IsWrapped :
    (text : Bytes) (width : ℕ)
    → (words lines : List Bytes) × (wrap text width ≡ some lines)
      × IsSplit text words
      × IsWrapped width words (join words) lines
unfolding wrap
wrap-IsWrapped text width =
    let (words, e, split) = pieces-IsSplit text in
    (
      words,
      wrap_from width ([], []) words,
      rw (e, wrap) refl,
      split,
      wrap_from-words width words (ArePieces-AreSome (trim text) words split.pieces),
    )

-- The help has a text.
help_of-some : (ss : List Setting) → (out : Bytes) × (help_of ss ≡ some out)
unfolding help_of
help_of-some [] = ([], refl)
help_of-some (s ∷ ss) =
    let (_, lines, e, _, _) = wrap-IsWrapped s.help (help_width - help_column) in
    let (rest, g) = help_of-some ss in
    (help_lines (setting_named s) lines ++ rest, rw (e, g, help_of) refl)
