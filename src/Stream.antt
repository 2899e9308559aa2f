-- ===== src/Stream.antt =====
-- The interface between a decoder (src/decode.rs) and the buffered reader of an entry's compressed
-- bytes (`BufRead` for `BufSource` in src/source.rs). `E` is what the readers share.
use zipfs.Base.{ℕ, ◌≡◌, ◌≤◌, List, [], ◌++◌, ok, err, length, drop}
use zipfs.Io.{Io}

pub record ByteSource (S E : Type 0) : Type 0 where
  pub fill_buf : S → E → Io (List ℕ) × S × E
  pub consume : ℕ → S → S
  pub create : ℕ → ℕ → List ℕ → S
  pub retarget : ℕ → ℕ → S → S
  pub into_buf : S → List ℕ

module _ {S E : Type 0} (source : ByteSource S E) (IsValid : S → Type 0) (unread : S → List ℕ) where
  -- What a call of `fill_buf` that gave `r` promises of the reader `s` that it left: the bytes are
  -- the next ones, there are some if any are left, and consuming them goes past them.
  abbrev pub Filled : Io (List ℕ) → S → Type 0
  Filled (err _) s = Unit
  Filled (ok bytes) s =
      ((rest : List ℕ) × (unread s ≡ bytes ++ rest))
      × (bytes ≡ [] → unread s ≡ [])
      × ((k : ℕ)
          → k ≤ length bytes
          → IsValid (source.consume k s) × (unread (source.consume k s) ≡ drop k (unread s)))

  -- The laws of a reader whose bytes still to come are `unread`.
  pub record IsStream : Type 0 where
    pub fill_lem :
        (s : S) (e : E)
        → IsValid s
        → let (r, s', _) = source.fill_buf s e in IsValid s' × (unread s' ≡ unread s) × Filled r s'
