-- ===== src/Pool/Choice.antt =====
-- Which idle decoder `checkout` takes: the nearest that need not go back.
use mathlib.Core.Option
use zipfs.Base.{
  ℕ, zero, suc, ◌+◌, ◌≤◌, ◌<◌, ◌≡◌, refl, sym, ap, ◌∙◌, ◌⊎◌, Bool, true, false, ◌&&◌, Option, none,
  some, List, [], ◌∷◌, leb, length, get_elem?, Bool-cases, eq_of_some, inl, inr, arith, ltb, ltb→lt,
  ltb→le, subst, lt-length_of_get_elem?, ◌↔◌,
}
use zipfs.Decode.{PositionedDecoder}
use zipfs.Pool.{
  position, better, furthest, exact, usable, rewound, usable_or_rewound, exact_or_usable, choose,
}

-- `i` is the index of an element that passes the test.
abbrev Found : {A : Type 0} → (A → Bool) → List A → Option ℕ → Type 0
Found {A} p xs none = (j : ℕ) (a : A) → get_elem? xs j ≡ some a → p a ≡ false
Found {A} p xs (some i) = (a : A) × (get_elem? xs i ≡ some a) × (p a ≡ true)

Found-later :
    {A : Type 0} (p : A → Bool) (x : A) (xs : List A) (o : Option ℕ)
    → p x ≡ false
    → Found p xs o
    → Found p (x ∷ xs) (Option.map suc o)
Found-later {A} p x xs none h f = none_later
  where
    none_later : (j : ℕ) (a : A) → get_elem? (x ∷ xs) j ≡ some a → p a ≡ false
    none_later zero a e = ap p (eq_of_some (sym e)) ∙ h
    none_later (suc j) a e = f j a e
Found-later p x xs (some i) h f = f

position-Found : {A : Type 0} (p : A → Bool) (xs : List A) → Found p xs (position p xs)
unfolding position
position-Found p [] = λ j a h. absurd (ground arith)
position-Found p (x ∷ xs) = elim (Bool-cases (p x)) [
  | inl h ↦ simp h (x, refl, h)
  | inr h ↦ simp h (Found-later p x xs (position p xs) h (position-Found p xs))
]

-- An index below `i + 1` is below `i`, or it is `i` and its element is that at `i`.
before :
    {A : Type 0} (xs : List A) (i j : ℕ) (a b : A)
    → j < i + 1
    → get_elem? xs i ≡ some a
    → get_elem? xs j ≡ some b
    → (j < i) ⊎ (b ≡ a)
before xs i j a b h e f = elim (Bool-cases (ltb j i)) [
  | inl t ↦ inl (ltb→lt _ _ t)
  | inr t ↦
      let same : j ≡ i = omega (arith, ltb→le _ _ t) in
      inr (eq_of_some (sym f ∙ ap (get_elem? xs) same ∙ e))
]

module _ {C S K : Type 0} where
  -- The best so far, over the elements of `idle` before `i`.
  abbrev Best :
      (PositionedDecoder C S K → Bool)
      → List (PositionedDecoder C S K)
      → ℕ
      → Option (ℕ × ℕ)
      → Type 0
  Best p idle i none =
      (j : ℕ) (d : PositionedDecoder C S K) → j < i → get_elem? idle j ≡ some d → p d ≡ false
  Best p idle i (some (k, top)) =
      (d : PositionedDecoder C S K) × (get_elem? idle k ≡ some d)
      × (p d ≡ true)
      × (d.pos ≡ top)
      × ((j : ℕ) (e : PositionedDecoder C S K)
          → j < i
          → get_elem? idle j ≡ some e
          → p e ≡ true
          → e.pos ≤ top)

  better-Best :
      (p : PositionedDecoder C S K → Bool) (idle : List (PositionedDecoder C S K)) (i : ℕ)
      (d : PositionedDecoder C S K) (best : Option (ℕ × ℕ))
      → get_elem? idle i ≡ some d
      → Best p idle i best
      → Best p idle (i + 1) (better p i d best)
  unfolding better
  better-Best p idle i d none at b = elim (Bool-cases (p d)) [
    | inl h ↦ simp h (
      d,
      at,
      h,
      refl,
      λ j e lt ej pe. elim (before idle i j d e lt at ej) [
        | inl l ↦ absurd (cc (sym pe ∙ b j e l ej))
        | inr same ↦ rw same (omega arith)
      ],
    )
    | inr h ↦ simp h λ j e lt ej. elim (before idle i j d e lt at ej) [
      | inl l ↦ b j e l ej
      | inr same ↦ ap p same ∙ h
    ]
  ]
  better-Best p idle i d (some (k, top)) at (d₀, ek, pk, pos, all) =
      elim (Bool-cases (p d && leb top d.pos)) [
        | inl h ↦
            let (pd, over) = split h in
            simp h (
              d,
              at,
              pd,
              refl,
              λ j e lt ej pe. elim (before idle i j d e lt at ej) [
                | inl l ↦ omega (arith, all j e l ej pe, over)
                | inr same ↦ rw same (omega arith)
              ],
            )
        | inr h ↦ simp h (
          d₀,
          ek,
          pk,
          pos,
          λ j e lt ej pe. elim (before idle i j d e lt at ej) [
            | inl l ↦ all j e l ej pe
            | inr same ↦ below h (sym (ap p same) ∙ pe) same
          ],
        )
      ]
    where
      split : (p d && leb top d.pos) ≡ true → (p d ≡ true) × (top ≤ d.pos)
      split h = ground arith

      below :
          {e : PositionedDecoder C S K}
          → (p d && leb top d.pos) ≡ false
          → p d ≡ true
          → e ≡ d
          → e.pos ≤ top
      below h pd same = rw same (ground arith)

  furthest-Best :
      (p : PositionedDecoder C S K → Bool) (idle ds : List (PositionedDecoder C S K)) (i : ℕ)
      (best : Option (ℕ × ℕ))
      → ((j : ℕ) → get_elem? idle (i + j) ≡ get_elem? ds j)
      → length idle ≡ i + length ds
      → Best p idle i best
      → Best p idle (length idle) (furthest p i best ds)
  unfolding furthest
  furthest-Best p idle [] i best tail size b =
      subst (λ k. Best p idle k best) (let e : i ≡ length idle = omega (arith, size) in e) b
  furthest-Best p idle (d ∷ ds) i best tail size b =
      furthest-Best p idle ds (i + 1) (better p i d best)
        (λ j. ap (get_elem? idle) (let e : i + 1 + j ≡ i + suc j = omega arith in e) ∙ tail (suc j))
        (omega (arith, size))
        (better-Best p idle i d best
          (ap (get_elem? idle) (let e : i ≡ i + 0 = omega arith in e) ∙ tail 0) b)

  -- The furthest that passes, or none does.
  furthest_lem :
      (p : PositionedDecoder C S K → Bool) (idle : List (PositionedDecoder C S K))
      → Best p idle (length idle) (furthest p 0 none idle)
  furthest_lem p idle =
      furthest-Best p idle idle 0 none
        (λ j. ap (get_elem? idle) (let e : 0 + j ≡ j = omega arith in e)) (omega arith)
        (λ j d h. absurd (omega arith))

  -- What may be taken for a read at `offset` as it stands: a decoder that is not behind it and has
  -- not reached the end of the stream.
  abbrev pub Reaches : ℕ → PositionedDecoder C S K → Type 0
  Reaches offset d = (d.pos ≤ offset) × (d.finished ≡ false)

  -- What the choice promises. A decoder taken as it stands reaches the offset, and none that does
  -- is nearer to it. One is rewound only if none reaches the offset, and none is taken only if
  -- there is none.
  abbrev pub Chosen : ℕ → List (PositionedDecoder C S K) → Option (ℕ × Bool) → Type 0
  Chosen offset idle none = idle ≡ []
  Chosen offset idle (some (i, rewind)) =
      (d : PositionedDecoder C S K) × (get_elem? idle i ≡ some d)
      × (rewind ≡ false → Reaches offset d)
      × ((j : ℕ) (e : PositionedDecoder C S K)
          → get_elem? idle j ≡ some e
          → Reaches offset e
          → (rewind ≡ false) × (e.pos ≤ d.pos))

  rewound-Chosen :
      (offset : ℕ) (idle : List (PositionedDecoder C S K)) (best : Option (ℕ × ℕ))
      → ((j : ℕ) (e : PositionedDecoder C S K) → get_elem? idle j ≡ some e → ¬ Reaches offset e)
      → Best (λ _. true) idle (length idle) best
      → Chosen offset idle (rewound best)
  unfolding rewound
  rewound-Chosen offset [] none far b = refl
  rewound-Chosen offset (d ∷ idle) none far b = absurd (cc (b 0 d (omega arith) refl))
  rewound-Chosen offset idle (some (i, top)) far (d, at, _, _, _) =
      (d, at, (λ h. absurd (cc h)), λ j e h r. absurd (far j e h r))

  usable-Reaches :
      (offset : ℕ) (d : PositionedDecoder C S K) → (usable offset d ≡ true) ↔ Reaches offset d
  unfolding usable
  usable-Reaches offset d = ground arith

  exact-Reaches :
      (offset : ℕ) (d : PositionedDecoder C S K)
      → exact offset d ≡ true
      → (d.pos ≡ offset) × (d.finished ≡ false)
  unfolding exact
  exact-Reaches offset d = ground arith

  usable_or_rewound-Chosen :
      (offset : ℕ) (idle : List (PositionedDecoder C S K)) (best : Option (ℕ × ℕ))
      → Best (usable offset) idle (length idle) best
      → Chosen offset idle (usable_or_rewound idle best)
  unfolding usable_or_rewound
  usable_or_rewound-Chosen offset idle none b =
      rewound-Chosen offset idle _
        (λ j e h r.
          absurd (
            cc (sym ((usable-Reaches offset e).1 r) ∙ b j e (lt-length_of_get_elem? idle j e h) h)))
        (furthest_lem (λ _. true) idle)
  usable_or_rewound-Chosen offset idle (some (i, top)) (d, at, u, pos, all) = (
    d,
    at,
    (λ _. (usable-Reaches offset d).0 u),
    λ j e h r. (
      refl,
      omega (
        arith,
        all j e (lt-length_of_get_elem? idle j e h) h ((usable-Reaches offset e).1 r),
        pos,
      ),
    ),
  )

  exact_or_usable-Chosen :
      (offset : ℕ) (idle : List (PositionedDecoder C S K)) (o : Option ℕ)
      → Found (exact offset) idle o
      → Chosen offset idle (exact_or_usable offset idle o)
  unfolding exact_or_usable
  exact_or_usable-Chosen offset idle none f =
      usable_or_rewound-Chosen offset idle _ (furthest_lem (usable offset) idle)
  exact_or_usable-Chosen offset idle (some i) (d, at, x) =
      let (pos, going) = exact-Reaches offset d x in
      (d, at, (λ _. (omega (arith, pos), going)), λ j e h r. (refl, omega (arith, pos, r.0)))

  -- `choose` takes the nearest idle decoder that reaches the offset, rewinds one only if none does,
  -- and takes none only if none is idle.
  pub choose-Chosen :
      (offset : ℕ) (idle : List (PositionedDecoder C S K)) → Chosen offset idle (choose offset idle)
  unfolding choose
  choose-Chosen offset idle =
      exact_or_usable-Chosen offset idle _ (position-Found (exact offset) idle)
