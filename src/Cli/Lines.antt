-- ===== src/Cli/Lines.antt =====
-- The help that src/cli.rs prints: the pieces of a text, and the lines it is broken into. The texts
-- are those of the settings, which are ASCII.
use zipfs.Base.{
  ℕ, zero, suc, ◌+◌, ◌-◌, leb, ◌==◌, if◌then◌else◌, Bool, true, false, not, ◌&&◌, ◌||◌, Option,
  none, some, List, [], ◌∷◌, ◌++◌, length, take, drop, replicate,
}
use zipfs.Base.Bytes.{Bytes, codes}
use zipfs.Cli.{Setting}
use zipfs.Cli.Settings.{settings}

abbrev pub help_column : ℕ
help_column = 32

abbrev pub help_width : ℕ
help_width = 80

-- `char::is_whitespace`, of ASCII.
unfoldable pub is_space : ℕ → Bool
is_space c = c == b' ' || (leb 9 c && leb c 13)

unfoldable pub trim_start : Bytes → Bytes
unfolding is_space
trim_start [] = []
trim_start (c ∷ cs) = let rest = trim_start cs in if is_space c then rest else c ∷ cs

unfoldable pub push_kept : ℕ → Bytes → Bytes
unfolding is_space
push_kept c [] = if is_space c then [] else c ∷ []
push_kept c (d ∷ ds) = c ∷ d ∷ ds

unfoldable pub trim_end : Bytes → Bytes
unfolding push_kept
trim_end [] = []
trim_end (c ∷ cs) = push_kept c (trim_end cs)

unfoldable pub trim : Bytes → Bytes
unfolding trim_start trim_end
trim text = trim_end (trim_start text)

-- `str::find` of a byte.
unfoldable pub shift : Option ℕ → Option ℕ
shift none = none
shift (some at) = some (suc at)

unfoldable pub find_byte : ℕ → Bytes → Option ℕ
unfolding shift
find_byte b [] = none
find_byte b (c ∷ cs) = let rest = find_byte b cs in if c == b then some 0 else shift rest

unfoldable pub or_length : Bytes → Option ℕ → ℕ
or_length text none = length text
or_length text (some at) = at

-- Where the first piece of a text that is not empty ends.
unfoldable pub piece_end : Bytes → ℕ
unfolding find_byte or_length shift
piece_end [] = 0
piece_end (c ∷ cs) =
    if c == b'['
    then or_length (c ∷ cs) (shift (find_byte b']' (c ∷ cs)))
    else or_length (c ∷ cs) (find_byte b' ' (c ∷ cs))

-- The loop of `pieces`; a piece takes one of the fuel.
unfoldable pub pieces_from : ℕ → Bytes → Option (List Bytes)
unfolding piece_end trim_start
pieces_from fuel [] = some []
pieces_from zero (c ∷ cs) = none
pieces_from (suc fuel) (c ∷ cs) =
    let end = piece_end (c ∷ cs) in
    elim (pieces_from fuel (trim_start (drop end (c ∷ cs)))) [
      | none ↦ none
      | some out ↦ some (take end (c ∷ cs) ∷ out)
    ]

unfoldable pub pieces : Bytes → Option (List Bytes)
unfolding pieces_from trim
pieces text = pieces_from (length text) (trim text)

unfoldable pub is_empty {ℓ} : {A : Type ℓ} → List A → Bool
is_empty [] = true
is_empty (x ∷ xs) = false

-- The loop of `wrap`, with the lines written so far and the line that is being written.
unfoldable pub wrap_word : ℕ → List Bytes × Bytes → Bytes → List Bytes × Bytes
unfolding is_empty
wrap_word width (lines, line) word =
    if is_empty line
    then (lines, word)
    else if leb (length line + 1 + length word) width
    then (lines, line ++ b' ' ∷ word)
    else (lines ++ line ∷ [], word)

unfoldable pub last_line : List Bytes × Bytes → List Bytes
unfolding is_empty
last_line (lines, line) =
    if not (is_empty line) || is_empty lines then lines ++ line ∷ [] else lines

unfoldable pub wrap_from : ℕ → List Bytes × Bytes → List Bytes → List Bytes
unfolding wrap_word last_line
wrap_from width state [] = last_line state
wrap_from width state (word ∷ words) = wrap_from width (wrap_word width state word) words

unfoldable pub wrap : Bytes → ℕ → Option (List Bytes)
unfolding pieces wrap_from
wrap text width = elim (pieces text) [
  | none ↦ none
  | some words ↦ some (wrap_from width ([], []) words)
]

-- `{start:<HELP_COLUMN$}`.
unfoldable pub padded : ℕ → Bytes → Bytes
padded width text = text ++ replicate (width - length text) b' '

unfoldable pub setting_named : Setting → Bytes
setting_named s = elim s.metavar [
  | none ↦ codes "      --" ++ s.name
  | some metavar ↦ codes "      --" ++ s.name ++ b' ' ∷ metavar
]

unfoldable pub help_lines : Bytes → List Bytes → Bytes
unfolding padded
help_lines start [] = []
help_lines start (line ∷ lines) = padded help_column start ++ line ++ b'\n' ∷ help_lines [] lines

unfoldable pub help_of : List Setting → Option Bytes
unfolding wrap help_lines setting_named
help_of [] = some []
help_of (s ∷ ss) = elim (wrap s.help (help_width - help_column)) [
  | none ↦ none
  | some lines ↦ elim (help_of ss) [
    | none ↦ none
    | some rest ↦ some (help_lines (setting_named s) lines ++ rest)
  ]
]

unfoldable pub settings_help : Option Bytes
unfolding help_of settings
settings_help = help_of settings
