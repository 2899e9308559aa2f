-- ===== src/Cli/Ends.antt =====
-- Where the first piece of a text of the help ends, in src/cli.rs.
use zipfs.Base.{
  ℕ, suc, ◌≤◌, ◌≡◌, ◌⊎◌, inl, inr, refl, sym, ap, ◌∙◌, subst, ◌==◌, ==_iff, if◌then◌else◌, true,
  false, Bool-cases, Option, none, some, List, [], ◌∷◌, ◌++◌, length, take, drop, arith,
}
use zipfs.Base.Bytes.{Bytes}
use zipfs.Cli.Lines.{
  is_space, trim_start, push_kept, trim_end, trim, shift, find_byte, or_length, piece_end,
}

-- A text without its spaces.
unfoldable pub solid : Bytes → Bytes
unfolding is_space
solid [] = []
solid (c ∷ cs) = let rest = solid cs in if is_space c then rest else c ∷ rest

abbrev pub concat : List Bytes → Bytes
concat [] = []
concat (p ∷ ps) = p ++ concat ps

-- A piece goes up to the first byte `b` and has that as its last one; or there is none, and the piece
-- is all of the text.
abbrev Closed : ℕ → Bytes → Bytes → Type 0
Closed b piece rest =
    ((at : ℕ) × (find_byte b piece ≡ some at) × (length piece ≡ suc at))
    ⊎ ((find_byte b piece ≡ none) × (rest ≡ []))

-- A text is over, or goes on with the byte `b`.
abbrev Before : ℕ → Bytes → Type 0
Before b rest = (rest ≡ []) ⊎ ((after : Bytes) × (rest ≡ b ∷ after))

-- A piece at the front of a text whose rest is `rest`: a note, from a bracket to the one that closes
-- it, or a word, which has no space and goes up to one.
abbrev pub IsPiece : Bytes → Bytes → Type 0
IsPiece [] rest = ⊥
IsPiece (c ∷ cs) rest =
    ((c ≡ b'[') × Closed b']' (c ∷ cs) rest)
    ⊎ (((c == b'[') ≡ false) × (find_byte b' ' (c ∷ cs) ≡ none) × Before b' ' rest)

-- The text is the pieces, with nothing but spaces between them.
abbrev pub ArePieces : Bytes → List Bytes → Type 0
ArePieces text [] = text ≡ []
ArePieces text (p ∷ ps) =
    (rest : Bytes) × (text ≡ p ++ rest) × IsPiece p rest × ArePieces (trim_start rest) ps

abbrev pub Starts : Bytes → Type 0
Starts [] = Unit {0}
Starts (c ∷ cs) = is_space c ≡ false

pub solid-append : (a b : Bytes) → solid (a ++ b) ≡ solid a ++ solid b
unfolding solid
solid-append [] b = refl
solid-append (c ∷ cs) b = elim (Bool-cases (is_space c)) [
  | inl h ↦ simp (h, solid-append cs b) refl
  | inr h ↦ simp (h, solid-append cs b) refl
]

pub solid-trim_start : (text : Bytes) → solid (trim_start text) ≡ solid text
unfolding solid trim_start
solid-trim_start [] = refl
solid-trim_start (c ∷ cs) = elim (Bool-cases (is_space c)) [
  | inl h ↦ simp (h, solid-trim_start cs) refl
  | inr h ↦ simp h refl
]

solid-push_kept : (c : ℕ) (cs : Bytes) → solid (push_kept c cs) ≡ solid (c ∷ cs)
unfolding solid push_kept
solid-push_kept c [] = elim (Bool-cases (is_space c)) [ inl h ↦ simp h refl | inr h ↦ simp h refl ]
solid-push_kept c (d ∷ ds) = refl

solid-trim_end : (text : Bytes) → solid (trim_end text) ≡ solid text
unfolding solid trim_end
solid-trim_end [] = refl
solid-trim_end (c ∷ cs) =
    solid-push_kept c (trim_end cs)
    ∙ ap (λ rest. if is_space c then rest else c ∷ rest) (solid-trim_end cs)

pub length-trim_start_le : (text : Bytes) → length (trim_start text) ≤ length text
unfolding trim_start
length-trim_start_le [] = omega arith
length-trim_start_le (c ∷ cs) = elim (Bool-cases (is_space c)) [
  | inl h ↦ simp h (omega (arith, length-trim_start_le cs))
  | inr h ↦ simp h (omega arith)
]

length-push_kept_le : (c : ℕ) (cs : Bytes) → length (push_kept c cs) ≤ suc (length cs)
unfolding push_kept
length-push_kept_le c [] = elim (Bool-cases (is_space c)) [
  | inl h ↦ simp h (omega arith)
  | inr h ↦ simp h (omega arith)
]
length-push_kept_le c (d ∷ ds) = omega arith

length-trim_end_le : (text : Bytes) → length (trim_end text) ≤ length text
unfolding trim_end
length-trim_end_le [] = omega arith
length-trim_end_le (c ∷ cs) =
    omega (arith, length-push_kept_le c (trim_end cs), length-trim_end_le cs)

pub trim_start-Starts : (text : Bytes) → Starts (trim_start text)
unfolding trim_start
trim_start-Starts [] = tt
trim_start-Starts (c ∷ cs) = elim (Bool-cases (is_space c)) [
  | inl h ↦ simp h (trim_start-Starts cs)
  | inr h ↦ simp h refl
]

push_kept-Starts : (c : ℕ) (cs : Bytes) → is_space c ≡ false → Starts (push_kept c cs)
unfolding push_kept
push_kept-Starts c [] h = simp h refl
push_kept-Starts c (d ∷ ds) h = h

trim_end-Starts : (text : Bytes) → Starts text → Starts (trim_end text)
unfolding trim_end
trim_end-Starts [] h = tt
trim_end-Starts (c ∷ cs) h = push_kept-Starts c (trim_end cs) h

pub trim-Starts : (text : Bytes) → Starts (trim text)
unfolding trim
trim-Starts text = trim_end-Starts (trim_start text) (trim_start-Starts text)

pub solid-trim : (text : Bytes) → solid (trim text) ≡ solid text
unfolding trim
solid-trim text = solid-trim_end (trim_start text) ∙ solid-trim_start text

pub length-trim_le : (text : Bytes) → length (trim text) ≤ length text
unfolding trim
length-trim_le text = omega (arith, length-trim_end_le (trim_start text), length-trim_start_le text)

or_length-shift :
    (c : ℕ) (cs : Bytes) (at : Option ℕ) → or_length (c ∷ cs) (shift at) ≡ suc (or_length cs at)
unfolding or_length shift
or_length-shift c cs none = refl
or_length-shift c cs (some at) = refl

find_byte-hit : (b c : ℕ) (cs : Bytes) → (c == b) ≡ true → find_byte b (c ∷ cs) ≡ some 0
unfolding find_byte
find_byte-hit b c cs h = simp h refl

find_byte-miss :
    (b c : ℕ) (cs : Bytes) → (c == b) ≡ false → find_byte b (c ∷ cs) ≡ shift (find_byte b cs)
unfolding find_byte
find_byte-miss b c cs h = simp h refl

find_byte-take :
    (b : ℕ) (text : Bytes) → find_byte b (take (or_length text (find_byte b text)) text) ≡ none
unfolding shift or_length find_byte
find_byte-take b [] = refl
find_byte-take b (c ∷ cs) = elim (Bool-cases (c == b)) [
  | inl h ↦ let e = find_byte-hit b c cs h in rw e refl
  | inr h ↦
      let e = find_byte-miss b c cs h in
      let n = or_length-shift c cs (find_byte b cs) in
      let m = find_byte-miss b c (take (or_length cs (find_byte b cs)) cs) h in
      rw (e, n, m, find_byte-take b cs) refl
]

Closed-cons :
    (b c : ℕ) (piece rest : Bytes)
    → (c == b) ≡ false
    → Closed b piece rest
    → Closed b (c ∷ piece) rest
unfolding shift
Closed-cons b c piece rest miss (inl (at, found, long)) =
    inl (suc at, find_byte-miss b c piece miss ∙ ap shift found, ap suc long)
Closed-cons b c piece rest miss (inr (lacking, end)) =
    inr (find_byte-miss b c piece miss ∙ ap shift lacking, end)

-- Up to the first byte `b`, with that.
find_byte-Closed :
    (b : ℕ) (text : Bytes)
    → let n = or_length text (shift (find_byte b text)) in Closed b (take n text) (drop n text)
unfolding find_byte or_length shift
find_byte-Closed b [] = inr (refl, refl)
find_byte-Closed b (c ∷ cs) = elim (Bool-cases (c == b)) [
  | inl h ↦ let e = find_byte-hit b c cs h in rw e (inl (0, find_byte-hit b c [] h, refl))
  | inr h ↦
      let e = find_byte-miss b c cs h in
      let n = or_length-shift c cs (shift (find_byte b cs)) in
      rw (e, n) (Closed-cons b c _ _ h (find_byte-Closed b cs))
]

-- Up to the first byte `b`, without that.
find_byte-Before : (b : ℕ) (text : Bytes) → Before b (drop (or_length text (find_byte b text)) text)
unfolding find_byte or_length shift
find_byte-Before b [] = inl refl
find_byte-Before b (c ∷ cs) = elim (Bool-cases (c == b)) [
  | inl h ↦ let e = find_byte-hit b c cs h in rw e (inr (cs, ap (λ x. x ∷ cs) ((==_iff c b).0 h)))
  | inr h ↦
      let e = find_byte-miss b c cs h in
      let n = or_length-shift c cs (find_byte b cs) in rw (e, n) (find_byte-Before b cs)
]

piece_end-note :
    (c : ℕ) (cs : Bytes)
    → (c == b'[') ≡ true
    → piece_end (c ∷ cs) ≡ suc (or_length cs (shift (find_byte b']' cs)))
unfolding piece_end
piece_end-note c cs h =
    let closing : (c == b']') ≡ false = ground arith in
    simp h (
      ap (λ at. or_length (c ∷ cs) (shift at)) (find_byte-miss b']' c cs closing)
      ∙ or_length-shift c cs (shift (find_byte b']' cs)))

piece_end-word :
    (c : ℕ) (cs : Bytes)
    → (c == b'[') ≡ false
    → (c == b' ') ≡ false
    → piece_end (c ∷ cs) ≡ suc (or_length cs (find_byte b' ' cs))
unfolding piece_end
piece_end-word c cs h g =
    simp (h, find_byte-miss b' ' c cs g) (or_length-shift c cs (find_byte b' ' cs))

-- What the first piece is, of a text that starts with it.
abbrev Ends : ℕ → Bytes → Type 0
Ends end text = (1 ≤ end) × IsPiece (take end text) (drop end text)

pub piece_end-Ends : (c : ℕ) (cs : Bytes) → is_space c ≡ false → Ends (piece_end (c ∷ cs)) (c ∷ cs)
unfolding is_space shift
piece_end-Ends c cs h = elim (Bool-cases (c == b'[')) [
  | inl t ↦
      let e : c ≡ b'[' = ground arith in
      let closing : (c == b']') ≡ false = ground arith in
      subst (λ n. Ends n (c ∷ cs)) (sym (piece_end-note c cs t))
        (omega arith, inl (e, Closed-cons b']' c _ _ closing (find_byte-Closed b']' cs)))
  | inr f ↦
      let g : (c == b' ') ≡ false = ground arith in
      let at = or_length cs (find_byte b' ' cs) in
      let none_left : find_byte b' ' (c ∷ take at cs) ≡ none =
        find_byte-miss b' ' c (take at cs) g ∙ ap shift (find_byte-take b' ' cs) in
      subst (λ n. Ends n (c ∷ cs)) (sym (piece_end-word c cs f g))
        (omega arith, inr (f, none_left, find_byte-Before b' ' cs))
]
