-- ===== src/Fs/Plus.antt =====
-- `readdirplus` of src/fs.rs, a listing with attributes, and `statfs`. `full` is as in `readdir`.
use mathlib.Core.Option
use zipfs.Base.{
  ℕ, zero, suc, ◌+◌, ◌-◌, ◌/◌, ◌≤◌, ◌≡◌, refl, sym, ap, subst, ◌∙◌, Bool, true, false, Option, none,
  some, List, [], ◌∷◌, ◌++◌, ok, err, ltb, ◌==◌, if◌then◌else◌, length, take, drop, get_elem?,
  get_elem?-drop, get_elem?-take-some, Bool-cases, inl, inr, arith,
}
use zipfs.Io.{enoent, enotdir}
use zipfs.Config.{Config}
use zipfs.Index.{Index, Node, node, name, children, is_dir}
use zipfs.Attr.{Clock, FileAttr, file_attr}
use zipfs.Fs.{Reply}
use zipfs.Fs.Handlers.{attr}
use zipfs.Fs.Listing.{DirEntry, offered, child_entries, taken, taken-take, IsFilled, taken-IsFilled}

pub record PlusEntry (T : Type 0) : Type 0 where
  pub ino : ℕ
  pub cursor : ℕ
  pub name : List ℕ
  pub attr : FileAttr T

-- `unwrap_or`.
unfoldable pub or_node : Option Node → Node → Node
or_node none n = n
or_node (some p) n = p

-- What `statfs` reports of the blocks, the files, and the sizes of a block and of a name.
pub record Statfs : Type 0 where
  pub blocks : ℕ
  pub files : ℕ
  pub bsize : ℕ
  pub namelen : ℕ

unfoldable pub statfs : Index → Statfs
statfs index = record {
  blocks = (index.total_uncompressed + 511) / 512;
  files = length index.nodes;
  bsize = 512;
  namelen = 255;
}

module _ {T : Type 0} (clock : Clock T) (index : Index) (config : Config) where
  unfoldable pub child_plus : ℕ → ℕ → List Node → List (PlusEntry T)
  unfolding name file_attr
  child_plus first i [] = []
  child_plus first i (c ∷ cs) =
      record {
        ino = first + i;
        cursor = 3 + i;
        name = name index c;
        attr = file_attr clock index (first + i) c config;
      }
      ∷ child_plus first (i + 1) cs

  unfoldable pub offered_plus : ℕ → Node → ℕ → List (PlusEntry T)
  unfolding child_plus children file_attr or_node node
  offered_plus ino dir offset =
      let itself : PlusEntry T = record {
        ino = ino;
        cursor = 1;
        name = b'.' ∷ [];
        attr = file_attr clock index ino dir config;
      } in
      let parent : PlusEntry T = record {
        ino = dir.parent;
        cursor = 2;
        name = b'.' ∷ b'.' ∷ [];
        attr = file_attr clock index dir.parent (or_node (node index dir.parent) dir) config;
      } in
      let start = offset - 2 in
      (if ltb offset 1 then itself ∷ [] else [])
      ++ ((if ltb offset 2 then parent ∷ [] else [])
          ++ child_plus dir.first_child start (drop start (children index dir)))

  unfoldable pub listed_plus :
      (List (PlusEntry T) → PlusEntry T → Bool) → ℕ → ℕ → Option Node → Reply (List (PlusEntry T))
  unfolding taken offered_plus is_dir
  listed_plus full ino offset none = err enoent
  listed_plus full ino offset (some dir) =
      if is_dir dir.kind then ok (taken full [] (offered_plus ino dir offset)) else err enotdir

  unfoldable pub readdirplus :
      (List (PlusEntry T) → PlusEntry T → Bool) → ℕ → ℕ → Reply (List (PlusEntry T))
  unfolding listed_plus node
  readdirplus full ino offset = listed_plus full ino offset (node index ino)

  -- The attributes are those that `getattr` gives for the inode.
  abbrev pub HaveAttr : List (PlusEntry T) → Type 0
  HaveAttr [] = Unit {0}
  HaveAttr (e ∷ es) = (attr clock index config e.ino ≡ some e.attr) × HaveAttr es

  -- An entry without its attributes.
  abbrev pub Plain : Type 0
  Plain = ℕ × ℕ × List ℕ

  abbrev pub plain : DirEntry → Plain
  plain e = (e.ino, e.cursor, e.name)

  abbrev pub plain_plus : PlusEntry T → Plain
  plain_plus e = (e.ino, e.cursor, e.name)

  abbrev pub plains : List DirEntry → List Plain
  plains [] = []
  plains (e ∷ es) = plain e ∷ plains es

  abbrev pub plains_plus : List (PlusEntry T) → List Plain
  plains_plus [] = []
  plains_plus (e ∷ es) = plain_plus e ∷ plains_plus es

  HaveAttr-append : (a b : List (PlusEntry T)) → HaveAttr a → HaveAttr b → HaveAttr (a ++ b)
  HaveAttr-append [] b h k = k
  HaveAttr-append (e ∷ es) b (x, h) k = (x, HaveAttr-append es b h k)

  HaveAttr-take : (n : ℕ) (es : List (PlusEntry T)) → HaveAttr es → HaveAttr (take n es)
  HaveAttr-take zero es h = tt
  HaveAttr-take (suc n) [] h = tt
  HaveAttr-take (suc n) (e ∷ es) (x, h) = (x, HaveAttr-take n es h)

  attr-node :
      (ino : ℕ) (n : Node)
      → node index ino ≡ some n
      → attr clock index config ino ≡ some (file_attr clock index ino n config)
  unfolding attr
  attr-node ino n e = ap (Option.map (λ m. file_attr clock index ino m config)) e

  child_plus-HaveAttr :
      (first i : ℕ) (cs : List Node)
      → 1 ≤ first
      → ((k : ℕ) (c : Node)
          → get_elem? cs k ≡ some c
          → get_elem? index.nodes (first + i + k) ≡ some c)
      → HaveAttr (child_plus first i cs)
  unfolding child_plus node
  child_plus-HaveAttr first i [] pos at = tt
  child_plus-HaveAttr first i (c ∷ cs) pos at =
      let here : get_elem? index.nodes (first + i) ≡ some c =
        subst (λ k. get_elem? index.nodes k ≡ some c) (omega arith) (at 0 c refl) in
      let not_zero : (first + i == 0) ≡ false = ground arith in
      (
        attr-node (first + i) c (rw not_zero here),
        child_plus-HaveAttr first (i + 1) cs pos
            (λ k d e. subst (λ j. get_elem? index.nodes j ≡ some d) (omega arith) (at (suc k) d e)),
      )

  child_at :
      (dir : Node) (start k : ℕ) (c : Node)
      → get_elem? (drop start (children index dir)) k ≡ some c
      → get_elem? index.nodes (dir.first_child + start + k) ≡ some c
  unfolding children
  child_at dir start k c h = elim (Bool-cases (is_dir dir.kind)) [
    | inl t ↦
        let slice = take dir.child_len (drop dir.first_child index.nodes) in
        let g : get_elem? (drop start slice) k ≡ some c = simp t at h in
        let in_slice : get_elem? slice (start + k) ≡ some c =
          sym (get_elem?-drop start k slice) ∙ g in
        let behind =
          get_elem?-take-some dir.child_len (start + k) (drop dir.first_child index.nodes) c
            in_slice in
        subst (λ j. get_elem? index.nodes j ≡ some c) (omega arith)
          (sym (get_elem?-drop dir.first_child (start + k) index.nodes) ∙ behind)
    | inr f ↦
        let g : get_elem? (drop start []) k ≡ some c = simp f at h in absurd (nothing start k c g)
  ]
    where
      nothing : (start k : ℕ) (c : Node) → get_elem? (drop start []) k ≡ some c → ⊥
      nothing zero k c h = cc h
      nothing (suc start) k c h = cc h

  offered_plus-HaveAttr :
      (ino offset : ℕ) (dir parent : Node)
      → node index ino ≡ some dir
      → node index dir.parent ≡ some parent
      → 1 ≤ dir.first_child
      → HaveAttr (offered_plus ino dir offset)
  unfolding offered_plus or_node
  offered_plus-HaveAttr ino offset dir parent h up pos =
      let start = offset - 2 in
      let kids =
        child_plus-HaveAttr dir.first_child start (drop start (children index dir)) pos
          (child_at dir start) in
      let is_parent : or_node (node index dir.parent) dir ≡ parent = ap (λ o. or_node o dir) up in
      let above : attr clock index config dir.parent
          ≡ some (file_attr clock index dir.parent (or_node (node index dir.parent) dir) config) =
        attr-node dir.parent parent up
        ∙ ap (λ p. some (file_attr clock index dir.parent p config)) (sym is_parent) in
      HaveAttr-append _ _ (if_HaveAttr (ltb offset 1) _ (attr-node ino dir h))
        (HaveAttr-append _ _ (if_HaveAttr (ltb offset 2) _ above) kids)
    where
      if_HaveAttr :
          (test : Bool) (e : PlusEntry T)
          → attr clock index config e.ino ≡ some e.attr
          → HaveAttr (if test then e ∷ [] else [])
      if_HaveAttr true e h = (h, tt)
      if_HaveAttr false e h = tt

  child_plus-plain :
      (first i : ℕ) (cs : List Node)
      → plains_plus (child_plus first i cs) ≡ plains (child_entries index first i cs)
  unfolding child_plus child_entries
  child_plus-plain first i [] = refl
  child_plus-plain first i (c ∷ cs) =
      ap (λ r. (first + i, 3 + i, name index c) ∷ r) (child_plus-plain first (i + 1) cs)

  offered_plus-plain :
      (ino offset : ℕ) (dir : Node)
      → plains_plus (offered_plus ino dir offset) ≡ plains (offered index ino dir offset)
  unfolding offered_plus offered
  offered_plus-plain ino zero dir =
      ap (λ r. (ino, 1, b'.' ∷ []) ∷ (dir.parent, 2, b'.' ∷ b'.' ∷ []) ∷ r)
        (child_plus-plain dir.first_child 0 (children index dir))
  offered_plus-plain ino (suc zero) dir =
      ap (λ r. (dir.parent, 2, b'.' ∷ b'.' ∷ []) ∷ r)
        (child_plus-plain dir.first_child 0 (children index dir))
  offered_plus-plain ino (suc (suc k)) dir =
      let first : ltb (suc (suc k)) 1 ≡ false = ground arith in
      let second : ltb (suc (suc k)) 2 ≡ false = ground arith in
      let start = suc (suc k) - 2 in
      rw (first, second) (child_plus-plain dir.first_child start (drop start (children index dir)))

  plains_plus-take :
      (n : ℕ) (es : List (PlusEntry T)) → plains_plus (take n es) ≡ take n (plains_plus es)
  plains_plus-take zero es = refl
  plains_plus-take (suc n) [] = refl
  plains_plus-take (suc n) (e ∷ es) = ap (◌∷◌ (plain_plus e)) (plains_plus-take n es)

  -- A directory whose parent is in the index, and whose children do not begin at the inode zero: what
  -- `readdirplus` lists from a cursor on are the first of the entries that `readdir` offers from there,
  -- with the same inodes, cursors and names, up to the first for which there is no room behind those
  -- before it; and each has the attributes that `getattr` gives for its inode.
  pub readdirplus-HaveAttr :
      (full : List (PlusEntry T) → PlusEntry T → Bool) (ino offset : ℕ) (dir parent : Node)
      → node index ino ≡ some dir
      → node index dir.parent ≡ some parent
      → is_dir dir.kind ≡ true
      → 1 ≤ dir.first_child
      → (r : List (PlusEntry T)) × (readdirplus full ino offset ≡ ok r)
        × HaveAttr r
        × (plains_plus r ≡ take (length r) (plains (offered index ino dir offset)))
        × IsFilled full [] (offered_plus ino dir offset) r
  unfolding readdirplus listed_plus
  readdirplus-HaveAttr full ino offset dir parent h up d pos =
      let all = offered_plus ino dir offset in
      let r = taken full [] all in
      let cut = taken-take full [] all in
      (
        r,
        rw (h, d) refl,
        subst HaveAttr (sym cut)
            (HaveAttr-take (length r) all (offered_plus-HaveAttr ino offset dir parent h up pos)),
        ap plains_plus cut
            ∙ plains_plus-take (length r) all
            ∙ ap (take (length r)) (offered_plus-plain ino offset dir),
        taken-IsFilled full [] all,
      )
