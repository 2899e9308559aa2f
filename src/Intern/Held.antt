-- ===== src/Intern/Held.antt =====
-- What a table of the interner holds, and the invariant of its slots.
use zipfs.Base.{
  ℕ, zero, suc, ◌-◌, ◌*◌, ◌^◌, ◌≤◌, ◌<◌, ◌≡◌, ◌↔◌, refl, ap, ap₂, ◌∙◌, inl, inr, Bool, true, ◌&&◌,
  Bool-cases, Option, some, eq_of_some, List, [], ◌∷◌, length, get_elem?, ◌>>=?◌, bind-some, ◌==◌,
  ==_iff, arith,
}
use zipfs.Base.Bytes.{Bytes, eq_bytes}
use zipfs.Base.Word.{u32_mod}
use zipfs.Intern.{TmpNode, Interner, hash_key, bucket, node_name, same_key, same_name}
use zipfs.Intern.Probes.{probe}

abbrev pub Key : Type 0
Key = ℕ × Bytes

abbrev pub home : ℕ → Key → ℕ
home k (parent, name) = bucket (hash_key parent name) (2 ^ k - 1)

-- A slot has a node's index plus one.
abbrev pub Stored : List ℕ → ℕ → ℕ → Type 0
Stored slots j id = get_elem? slots j ≡ some (suc id)

-- How many slots are not empty.
abbrev pub count : List ℕ → ℕ
count [] = 0
count (zero ∷ slots) = count slots
count (suc id ∷ slots) = suc (count slots)

pub count_free :
    (slots : List ℕ) → count slots < length slots → (j : ℕ) × (get_elem? slots j ≡ some 0)
count_free [] h = absurd (omega arith)
count_free (zero ∷ slots) h = (0, refl)
count_free (suc id ∷ slots) h = let (j, e) = count_free slots (omega arith) in (suc j, e)

pub eq_bytes_iff : (a b : Bytes) → (eq_bytes a b ≡ true) ↔ (a ≡ b)
unfolding eq_bytes
eq_bytes_iff [] [] = (λ h. refl, λ h. refl)
eq_bytes_iff [] (b ∷ bs) = (λ h. absurd (cc h), λ h. absurd (cc h))
eq_bytes_iff (a ∷ as₁) [] = (λ h. absurd (cc h), λ h. absurd (cc h))
eq_bytes_iff (a ∷ as₁) (b ∷ bs) =
    let (to, of) = eq_bytes_iff as₁ bs in
    let (same, is) = ==_iff a b in
    (
      λ h.
          let p : (a == b) ≡ true = ground arith in
          let q : eq_bytes as₁ bs ≡ true = ground arith in let x = same p in let y = to q in cc,
      λ h. let p : a ≡ b = cc in let q : as₁ ≡ bs = cc in rw (is p, of q) refl,
    )

unfoldable pub eq_key : Key → Key → Bool
unfolding eq_bytes
eq_key (p, a) (q, b) = p == q && eq_bytes a b

module _ (nodes : List TmpNode) (names : Bytes) where
  unfoldable pub key_of : ℕ → Option Key
  unfolding node_name
  key_of id = get_elem? nodes id >>=? λ n. node_name n names >>=? λ name. some (n.parent, name)

  -- A node stands in the slot where its key is found: no slot on the way there is empty.
  pub record Placed (k : ℕ) (slots : List ℕ) (j id : ℕ) : Type 0 where
    pub key : Key
    pub has_key : key_of id ≡ some key
    pub is_word : suc id < u32_mod
    pub steps : ℕ
    pub at : probe k (home k key) steps ≡ j
    pub before : (e : ℕ) → e < steps → (x : ℕ) × Stored slots (probe k (home k key) e) x

  -- Every node stored is placed, and no two have the same key.
  pub record IsHashed (k : ℕ) (slots : List ℕ) : Type 0 where
    pub size : length slots ≡ 2 ^ k
    pub placed : (j id : ℕ) → Stored slots j id → Placed k slots j id
    pub unique :
        (i j x y : ℕ) (key : Key)
        → Stored slots i x
        → Stored slots j y
        → key_of x ≡ some key
        → key_of y ≡ some key
        → i ≡ j

  -- At most half of the slots are used.
  pub record IsTable (t : Interner) : Type 0 where
    pub power : ℕ
    pub hashed : IsHashed power t.slots
    pub mask : t.mask ≡ 2 ^ power - 1
    pub used : count t.slots ≡ t.len
    pub load : t.len * 2 ≤ length t.slots

  -- The node and the name behind a key.
  pub key_of-some :
      (id : ℕ) (key : Key)
      → key_of id ≡ some key
      → (n : TmpNode) × (get_elem? nodes id ≡ some n)
        × (node_name n names ≡ some key.1)
        × (n.parent ≡ key.0)
  unfolding key_of
  key_of-some id key h =
      let (n, e, h₁) =
        bind-some (get_elem? nodes id) (λ n. node_name n names >>=? λ name. some (n.parent, name))
          key h in
      let (name, g, h₂) = bind-some (node_name n names) (λ name. some (n.parent, name)) key h₁ in
      let same = eq_of_some h₂ in
      (n, e, g ∙ ap (λ (x : Key). some x.1) same, ap (λ (x : Key). x.0) same)

  same_key-some :
      (n : TmpNode) (key sought : Key)
      → node_name n names ≡ some key.1
      → n.parent ≡ key.0
      → same_key names sought.0 sought.1 (some n) ≡ some (eq_key key sought)
  unfolding same_key same_name eq_key
  same_key-some n key sought named parent = elim (Bool-cases (key.0 == sought.0)) [
    | inl t ↦ rw (named, parent, t) refl
    | inr f ↦ rw (parent, f) refl
  ]

  pub same_key-key_of :
      (id : ℕ) (key sought : Key)
      → key_of id ≡ some key
      → same_key names sought.0 sought.1 (get_elem? nodes id) ≡ some (eq_key key sought)
  same_key-key_of id key sought h =
      let (n, e, named, parent) = key_of-some id key h in
      ap (same_key names sought.0 sought.1) e ∙ same_key-some n key sought named parent

pub eq_key_iff : (a b : Key) → (eq_key a b ≡ true) ↔ (a ≡ b)
unfolding eq_key
eq_key_iff (p, a) (q, b) =
    let (to, of) = eq_bytes_iff a b in
    let (same, is) = ==_iff p q in
    (
      λ h. let x = same (ground arith) in let y = to (ground arith) in ap₂ (λ p a. (p, a)) x y,
      λ h.
          let x = is (ap (λ (k : Key). k.0) h) in
          let y = of (ap (λ (k : Key). k.1) h) in rw (x, y) refl,
    )
