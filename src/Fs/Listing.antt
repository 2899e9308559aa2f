-- ===== src/Fs/Listing.antt =====
-- `readdir` of src/fs.rs: the entries of a directory, from a cursor on. `full` stands for the reply's
-- buffer of fuser: whether it has no room left for an entry, after the ones it has.
use zipfs.Base.{
  ℕ, zero, suc, ◌+◌, ◌-◌, ◌≡◌, refl, sym, ap, ◌∙◌, Bool, true, false, Option, none, some, List, [],
  ◌∷◌, ◌++◌, ok, err, ltb, if◌then◌else◌, length, take, drop, get_elem?, Bool-cases, inl, inr,
  arith, eq_of_some, append-nil, append_assoc, subst,
}
use zipfs.Io.{enoent, enotdir}
use zipfs.Entry.{NodeKind}
use zipfs.Index.{Index, Node, node, name, children, is_dir}
use zipfs.Fs.{Reply}

pub record DirEntry : Type 0 where
  pub ino : ℕ
  pub cursor : ℕ
  pub kind : NodeKind
  pub name : List ℕ

module _ (index : Index) where
  -- The entries of the children from the index `i` on.
  unfoldable pub child_entries : ℕ → ℕ → List Node → List DirEntry
  unfolding name
  child_entries first i [] = []
  child_entries first i (c ∷ cs) =
      record { ino = first + i; cursor = 3 + i; kind = c.kind; name = name index c }
      ∷ child_entries first (i + 1) cs

  -- What is offered to the reply, in order.
  unfoldable pub offered : ℕ → Node → ℕ → List DirEntry
  unfolding child_entries children
  offered ino dir offset =
      let itself : DirEntry = record {
        ino = ino;
        cursor = 1;
        kind = NodeKind.dir;
        name = 46 ∷ [];
      } in
      let parent : DirEntry = record {
        ino = dir.parent;
        cursor = 2;
        kind = NodeKind.dir;
        name = 46 ∷ 46 ∷ [];
      } in
      let start = offset - 2 in
      (if ltb offset 1 then itself ∷ [] else [])
      ++ ((if ltb offset 2 then parent ∷ [] else [])
          ++ child_entries dir.first_child start (drop start (children index dir)))

-- What the reply takes: the entries up to the first for which there is no room.
unfoldable pub taken : {E : Type 0} → (List E → E → Bool) → List E → List E → List E
taken full had [] = []
taken full had (e ∷ es) =
    let rest = taken full (had ++ e ∷ []) es in if full had e then [] else e ∷ rest

unfoldable pub listed :
    (List DirEntry → DirEntry → Bool) → Index → ℕ → ℕ → Option Node → Reply (List DirEntry)
unfolding taken offered is_dir
listed full index ino offset none = err enoent
listed full index ino offset (some dir) =
    if is_dir dir.kind then ok (taken full [] (offered index ino dir offset)) else err enotdir

unfoldable pub readdir : (List DirEntry → DirEntry → Bool) → Index → ℕ → ℕ → Reply (List DirEntry)
unfolding listed node
readdir full index ino offset = listed full index ino offset (node index ino)

pub taken-take :
    {E : Type 0} (full : List E → E → Bool) (had es : List E)
    → taken full had es ≡ take (length (taken full had es)) es
unfolding taken
taken-take full had [] = refl
taken-take full had (e ∷ es) =
    let rest = taken-take full (had ++ e ∷ []) es in
    elim (Bool-cases (full had e)) [ inl h ↦ rw h refl | inr h ↦ simp h (ap (◌∷◌ e) rest) ]

-- A reply that has `had` already takes `r` of `es`: the first ones, each of which there is room for
-- behind those before it, and there is no room for the next one.
pub record IsFilled {E : Type 0} (full : List E → E → Bool) (had es r : List E) : Type 0 where
  pub front : r ≡ take (length r) es
  pub room : (k : ℕ) (e : E) → get_elem? r k ≡ some e → full (had ++ take k r) e ≡ false
  pub stops : (e : E) (rest : List E) → drop (length r) es ≡ e ∷ rest → full (had ++ r) e ≡ true

module _ {E : Type 0} (full : List E → E → Bool) where
  refused-IsFilled : (had es : List E) (e : E) → full had e ≡ true → IsFilled full had (e ∷ es) []
  refused-IsFilled had es e h = record {
    front = refl;
    room = λ k a g. absurd (cc g);
    stops = λ a rest g.
        let same : e ≡ a = cc g in
        ap (λ l. full l a) (append-nil had) ∙ ap (full had) (sym same) ∙ h;
  }

  accepted-IsFilled :
      (had es r : List E) (e : E)
      → full had e ≡ false
      → IsFilled full (had ++ e ∷ []) es r
      → IsFilled full had (e ∷ es) (e ∷ r)
  accepted-IsFilled had es r e h f = record {
    front = ap (◌∷◌ e) f.front;
    room = behind;
    stops = λ a rest g. ap (λ l. full l a) (sym (append_assoc had (e ∷ []) r)) ∙ f.stops a rest g;
  }
    where
      behind :
          (k : ℕ) (a : E) → get_elem? (e ∷ r) k ≡ some a → full (had ++ take k (e ∷ r)) a ≡ false
      behind zero a g = ap (λ l. full l a) (append-nil had) ∙ ap (full had) (sym (eq_of_some g)) ∙ h
      behind (suc k) a g =
          ap (λ l. full l a) (sym (append_assoc had (e ∷ []) (take k r))) ∙ f.room k a g

  pub taken-IsFilled : (had es : List E) → IsFilled full had es (taken full had es)
  unfolding taken
  taken-IsFilled had [] = record {
    front = refl;
    room = λ k a g. absurd (cc g);
    stops = λ a rest g. absurd (cc g);
  }
  taken-IsFilled had (e ∷ es) = elim (Bool-cases (full had e)) [
    | inl h ↦ rw h (refused-IsFilled had es e h)
    | inr h ↦ rw h (accepted-IsFilled had es _ e h (taken-IsFilled (had ++ e ∷ []) es))
  ]

module _ (index : Index) where
  child_entries-drop :
      (first i k : ℕ) (cs : List Node)
      → child_entries index first (i + k) (drop k cs) ≡ drop k (child_entries index first i cs)
  unfolding child_entries
  child_entries-drop first i zero cs = ap (λ n. child_entries index first n cs) (omega arith)
  child_entries-drop first i (suc k) [] = refl
  child_entries-drop first i (suc k) (c ∷ cs) =
      ap (λ n. child_entries index first n (drop k cs)) (omega arith)
      ∙ child_entries-drop first (i + 1) k cs

  offered_late :
      (ino k : ℕ) (dir : Node)
      → offered index ino dir (suc (suc k))
        ≡ child_entries index dir.first_child k (drop k (children index dir))
  unfolding offered
  offered_late ino k dir =
      let first : ltb (suc (suc k)) 1 ≡ false = ground arith in
      let second : ltb (suc (suc k)) 2 ≡ false = ground arith in
      let back : suc (suc k) - 2 ≡ k = omega arith in rw (first, second, back) refl

  -- What is offered from a cursor on is what the whole listing has after that many entries.
  offered-drop :
      (ino offset : ℕ) (dir : Node)
      → offered index ino dir offset ≡ drop offset (offered index ino dir 0)
  unfolding offered
  offered-drop ino zero dir = refl
  offered-drop ino (suc zero) dir = refl
  offered-drop ino (suc (suc k)) dir =
      let kids = children index dir in
      offered_late ino k dir
      ∙ ap (λ n. child_entries index dir.first_child n (drop k kids)) (omega arith)
      ∙ child_entries-drop dir.first_child 0 k kids

  child_entries-cursor :
      (first i k : ℕ) (cs : List Node) (e : DirEntry)
      → get_elem? (child_entries index first i cs) k ≡ some e
      → e.cursor ≡ 3 + i + k
  unfolding child_entries
  child_entries-cursor first i k [] e h = absurd (ground arith)
  child_entries-cursor first i zero (c ∷ cs) e h =
      ap (λ x. x.cursor) (sym (eq_of_some h)) ∙ omega arith
  child_entries-cursor first i (suc k) (c ∷ cs) e h =
      omega (arith, child_entries-cursor first (i + 1) k cs e h)

  offered-cursor :
      (ino k : ℕ) (dir : Node) (e : DirEntry)
      → get_elem? (offered index ino dir 0) k ≡ some e
      → e.cursor ≡ k + 1
  unfolding offered
  offered-cursor ino zero dir e h = ap (λ x. x.cursor) (sym (eq_of_some h))
  offered-cursor ino (suc zero) dir e h = ap (λ x. x.cursor) (sym (eq_of_some h))
  offered-cursor ino (suc (suc k)) dir e h =
      omega (arith, child_entries-cursor dir.first_child 0 k (children index dir) e h)

  -- The listing of a directory can be read in parts of any size: from a cursor on, the reply has the
  -- entries that stand there in the whole listing, each of which there is room for behind those
  -- before it, up to the first for which there is none; and the cursor of each entry of the listing
  -- is the number of entries up to it, so that the next request goes on behind the last one.
  pub readdir-drop :
      (full : List DirEntry → DirEntry → Bool) (ino offset : ℕ) (dir : Node)
      → node index ino ≡ some dir
      → is_dir dir.kind ≡ true
      → (r : List DirEntry) × (readdir full index ino offset ≡ ok r)
        × IsFilled full [] (drop offset (offered index ino dir 0)) r
        × ((k : ℕ) (e : DirEntry)
            → get_elem? (offered index ino dir 0) k ≡ some e
            → e.cursor ≡ k + 1)
  unfolding readdir listed
  readdir-drop full ino offset dir h d =
      let r = taken full [] (offered index ino dir offset) in
      (
        r,
        rw (h, d) refl,
        subst (λ es. IsFilled full [] es r) (offered-drop ino offset dir)
            (taken-IsFilled full [] (offered index ino dir offset)),
        λ k e g. offered-cursor ino k dir e g,
      )
