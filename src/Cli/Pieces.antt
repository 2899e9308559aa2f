-- ===== src/Cli/Pieces.antt =====
-- The pieces of a text of the help are the text, with nothing but spaces between them.
use zipfs.Base.{
  ℕ, zero, suc, ◌≤◌, ◌≡◌, refl, sym, ap, ◌∙◌, some, List, [], ◌∷◌, ◌++◌, length, take, drop,
  length-drop, take-append-drop, arith,
}
use zipfs.Base.Bytes.{Bytes}
use zipfs.Cli.Lines.{trim_start, trim, piece_end, pieces_from, pieces}
use zipfs.Cli.Ends.{
  solid, concat, ArePieces, Starts, solid-append, solid-trim_start, length-trim_start_le,
  trim_start-Starts, trim-Starts, solid-trim, length-trim_le, piece_end-Ends,
}

-- What `pieces` gives for a text, which is trimmed first.
pub record IsSplit (text : Bytes) (out : List Bytes) : Type 0 where
  pub pieces : ArePieces (trim text) out
  pub solid : solid (concat out) ≡ solid text

pieces_from-step :
    (fuel c : ℕ) (cs : Bytes) (out : List Bytes)
    → pieces_from fuel (trim_start (drop (piece_end (c ∷ cs)) (c ∷ cs))) ≡ some out
    → pieces_from (suc fuel) (c ∷ cs) ≡ some (take (piece_end (c ∷ cs)) (c ∷ cs) ∷ out)
unfolding pieces_from piece_end
pieces_from-step fuel c cs out e = rw (e, pieces_from) refl

pieces_from-ArePieces :
    (fuel : ℕ) (text : Bytes)
    → length text ≤ fuel
    → Starts text
    → (out : List Bytes) × (pieces_from fuel text ≡ some out)
      × ArePieces text out
      × (solid (concat out) ≡ solid text)
unfolding pieces_from
pieces_from-ArePieces fuel [] le starts = ([], refl, refl, refl)
pieces_from-ArePieces zero (c ∷ cs) le starts = absurd (omega arith)
pieces_from-ArePieces (suc fuel) (c ∷ cs) le starts =
    let end = piece_end (c ∷ cs) in
    let (pos, piece) = piece_end-Ends c cs starts in
    let left = drop end (c ∷ cs) in
    let shorter : length (trim_start left) ≤ fuel =
      omega (arith, length-trim_start_le left, length-drop end (c ∷ cs)) in
    let (out, e, are, same) =
      pieces_from-ArePieces fuel (trim_start left) shorter (trim_start-Starts left) in
    let head = take end (c ∷ cs) in
    let all : solid (head ++ concat out) ≡ solid (c ∷ cs) =
      solid-append head (concat out)
      ∙ ap (λ s. solid head ++ s) (same ∙ solid-trim_start left)
      ∙ sym (solid-append head left)
      ∙ ap solid (take-append-drop end (c ∷ cs)) in
    (
      head ∷ out,
      pieces_from-step fuel c cs out e,
      (left, sym (take-append-drop end (c ∷ cs)), piece, are),
      all,
    )

pub pieces-IsSplit :
    (text : Bytes) → (out : List Bytes) × (pieces text ≡ some out) × IsSplit text out
unfolding pieces
pieces-IsSplit text =
    let (out, e, are, same) =
      pieces_from-ArePieces (length text) (trim text) (length-trim_le text) (trim-Starts text) in
    (out, e, record { pieces = are; solid = same ∙ solid-trim text })

-- No piece is empty.
abbrev pub AreSome : List Bytes → Type 0
AreSome [] = Unit {0}
AreSome ([] ∷ ps) = ⊥
AreSome ((c ∷ cs) ∷ ps) = AreSome ps

pub ArePieces-AreSome : (text : Bytes) (out : List Bytes) → ArePieces text out → AreSome out
ArePieces-AreSome text [] h = tt
ArePieces-AreSome text ([] ∷ ps) (rest, e, piece, h) = piece
ArePieces-AreSome text ((c ∷ cs) ∷ ps) (rest, e, piece, h) =
    ArePieces-AreSome (trim_start rest) ps h
