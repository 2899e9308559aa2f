-- ===== src/Cli/Bounds.antt =====
-- What the options may set, whatever they are.
use zipfs.Base.{
  ◌≡◌, refl, subst, ◌&&◌, Bool-cases, Option, none, some, List, [], ◌∷◌, ◌++◌, inl, inr, ok, err,
  ◌>>=◌, Result-cases, bind-ok, arith,
}
use zipfs.Base.Bytes.{Bytes, codes, elem_bytes, split_at_each, split_once}
use zipfs.Config.{Config}
use zipfs.Cli.{
  Notice, named, find_in, apply_as, apply_raw, apply_long_as, apply_long, Outcome, Apply, Setting,
  flag, value, Applied, some_or, apply_setting, apply_flag, apply_value,
}
use zipfs.Cli.Settings.{
  settings, find, apply_foreign, apply_keyed, apply_one, apply_each, nonempty, apply,
}
use zipfs.Cli.Keeps.{IsWord, Keeps, Safe, AllSafe, settings-AllSafe}

find_in-Safe :
    (ss : List Setting) (name : Bytes) (s : Setting)
    → AllSafe ss
    → find_in ss name ≡ some s
    → Safe s.apply
unfolding find_in
find_in-Safe [] name s safe h = absurd (cc h)
find_in-Safe (t ∷ ss) name s safe h = elim (Bool-cases (named name t)) [
  | inl e ↦ let f : t ≡ s = ground (arith, h, e) in subst (λ (x : Setting). Safe x.apply) f safe.0
  | inr e ↦
      let f : find_in ss name ≡ some s = ground (arith, h, e) in find_in-Safe ss name s safe.1 f
]

find-Safe : (name : Bytes) (s : Setting) → find name ≡ some s → Safe s.apply
unfolding find
find-Safe name s h = find_in-Safe settings name s settings-AllSafe h

apply_as-IsWord :
    (a : Apply) (c : Config) (v : Option Bytes) (c₁ : Config)
    → Safe a
    → IsWord c
    → apply_as a c v ≡ ok c₁
    → IsWord c₁
unfolding apply_as apply_flag apply_value
apply_as-IsWord (flag set) c none c₁ safe w h = let e : set c ≡ c₁ = cc in subst IsWord e (safe c w)
apply_as-IsWord (flag set) c (some v) c₁ safe w h = absurd (cc h)
apply_as-IsWord (value set) c none c₁ safe w h = absurd (cc h)
apply_as-IsWord (value set) c (some v) c₁ safe w h = safe c v c₁ w h

apply_raw-IsWord :
    (set : Config → Bytes → Outcome Config) (c : Config) (raw : Outcome (Option Bytes))
    (c₁ : Config)
    → Keeps set
    → IsWord c
    → apply_raw set c raw ≡ ok c₁
    → IsWord c₁
unfolding apply_raw some_or
apply_raw-IsWord set c (ok (some v)) c₁ keeps w h = keeps c v c₁ w h
apply_raw-IsWord set c (ok none) c₁ keeps w h = absurd (cc h)
apply_raw-IsWord set c (err e) c₁ keeps w h = absurd (cc h)

apply_long_as-IsWord :
    (a : Apply) (c : Config) (raw : Outcome (Option Bytes)) (c₁ : Config)
    → Safe a
    → IsWord c
    → apply_long_as a c raw ≡ ok c₁
    → IsWord c₁
unfolding apply_long_as
apply_long_as-IsWord (flag set) c raw c₁ safe w h =
    let e : set c ≡ c₁ = cc in subst IsWord e (safe c w)
apply_long_as-IsWord (value set) c raw c₁ safe w h = apply_raw-IsWord set c raw c₁ safe w h

-- The configuration that a list of options leaves.
abbrev Leaves : Config → Applied → Type 0
Leaves c r = (c₁ : Config) (log : List Notice) → IsWord c → r ≡ ok (c₁, log) → IsWord c₁

apply_foreign_same :
    (c : Config) (opt key : Bytes) (v : Option Bytes) (c₁ : Config) (log : List Notice)
    → apply_foreign c opt key v ≡ ok (c₁, log)
    → c ≡ c₁
unfolding apply_foreign
apply_foreign_same c opt key none c₁ log h = ground arith
apply_foreign_same c opt key (some v) c₁ log h = ground arith

apply_keyed-Leaves :
    (c : Config) (opt key : Bytes) (v : Option Bytes) (found : Option Setting)
    → find key ≡ found
    → Leaves c (apply_keyed c opt (key, v) found)
unfolding apply_keyed apply_setting
apply_keyed-Leaves c opt key v none e c₁ log w h =
    subst IsWord (apply_foreign_same c opt key v c₁ log h) w
apply_keyed-Leaves c opt key v (some s) e c₁ log w h = elim (Result-cases (apply_as s.apply c v)) [
  | inl (c₂, g) ↦
      let same : c₂ ≡ c₁ = cc in
      subst IsWord same (apply_as-IsWord s.apply c v c₂ (find-Safe key s e) w g)
  | inr (r, g) ↦ absurd (cc)
]

apply_one-Leaves : (c : Config) (opt : Bytes) → Leaves c (apply_one c opt)
unfolding apply_one
apply_one-Leaves c opt =
    apply_keyed-Leaves c opt (split_once b'=' opt).0 (split_once b'=' opt).1
      (find (split_once b'=' opt).0) refl

ok-fst : (c c₁ : Config) (l l₁ : List Notice) → ◌≡◌ {A = Applied} (ok (c, l)) (ok (c₁, l₁)) → c ≡ c₁
ok-fst c c₁ l l₁ h = cc h

apply_each-Leaves : (c : Config) (opts : List Bytes) → Leaves c (apply_each c opts)
unfolding apply_each
apply_each-Leaves c [] c₁ log w h = let e : c ≡ c₁ = cc in subst IsWord e w
apply_each-Leaves c (opt ∷ opts) c₁ log w h =
    let ((c₂, l₂), g, h₂) =
      bind-ok (apply_one c opt) (λ (c₂, l). apply_each c₂ opts >>= λ (c₃, more). ok (c₃, l ++ more))
        (c₁, log) h in
    let ((c₃, l₃), k, h₃) =
      bind-ok (apply_each c₂ opts) (λ (c₃, more). ok (c₃, l₂ ++ more)) (c₁, log) h₂ in
    let same : c₃ ≡ c₁ = ok-fst c₃ c₁ (l₂ ++ l₃) log h₃ in
    subst IsWord same (apply_each-Leaves c₂ opts c₃ l₃ (apply_one-Leaves c opt c₂ l₂ w g) k)

apply-Leaves : (c : Config) (text : Option Bytes) → Leaves c (apply c text)
unfolding apply
apply-Leaves c none c₁ log w h = absurd (cc)
apply-Leaves c (some text) c₁ log w h =
    let opts = nonempty (split_at_each b',' text) in
    elim (Bool-cases (elem_bytes (codes "remount") opts && elem_bytes (codes "rw") opts)) [
      | inl t ↦ absurd (ground (arith, h, t))
      | inr f ↦
          let e : apply_each c opts ≡ ok (c₁, log) = ground (arith, h, f) in
          apply_each-Leaves c opts c₁ log w e
    ]

-- What a command line's options make of a configuration, one after the other: a list given to `-o`,
-- or a long option, whose value the parser gives.
pub data Options : Config → Config → Type 0 where
  done : {c : Config} → Options c c
  list :
      {c c₁ c₂ : Config} (text : Option Bytes) (log : List Notice)
      → apply c text ≡ ok (c₁, log)
      → Options c₁ c₂
      → Options c c₂
  long :
      {c c₁ c₂ : Config} (name : Bytes) (s : Setting) (raw : Outcome (Option Bytes))
      → find name ≡ some s
      → apply_long s c raw ≡ ok c₁
      → Options c₁ c₂
      → Options c c₂

-- Whatever options are applied without an error, by lists and by long names: if every number of the
-- configuration is in its machine word and every mode below 4096, so they are afterwards.
pub Options-IsWord : (c c₁ : Config) → Options c c₁ → IsWord c → IsWord c₁
unfolding apply_long
Options-IsWord c c₁ done w = w
Options-IsWord c c₂ (list {c₁} text log h more) w =
    Options-IsWord c₁ c₂ more (apply-Leaves c text c₁ log w h)
Options-IsWord c c₂ (long {c₁} name s raw found h more) w =
    Options-IsWord c₁ c₂ more (apply_long_as-IsWord s.apply c raw c₁ (find-Safe name s found) w h)
