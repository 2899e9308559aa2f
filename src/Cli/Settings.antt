-- ===== src/Cli/Settings.antt =====
-- `SETTINGS` of src/cli.rs, and `apply`, which looks options up in it.
use zipfs.Base.{
  ℕ, if◌then◌else◌, Bool, true, false, ◌&&◌, ◌||◌, Option, none, some, List, [], ◌∷◌, ◌++◌, ok, err,
  ◌>>=◌,
}
use zipfs.Base.Bytes.{Bytes, codes, eq_bytes, elem_bytes, starts_with, split_at_each, split_once}
use zipfs.Base.Word.{u64_mod, u32_mod}
use zipfs.Config.{Config}
use zipfs.Cli.{
  Reason, Setting, Applied, number, mode, without, find_in, apply_setting, flag, value, remount_rw,
  remount_takes_no_value, rw_has_no_effect, remount_mounts_again, ignoring_unknown,
}

unfoldable pub set_umask : Config → ℕ → Config
unfolding without
set_umask c mask = record c { file_mode = without 0o666 mask; dir_mode = without 0o777 mask }

unfoldable pub settings : List Setting
unfolding number mode without set_umask
settings =
    record {
      name = codes "threads";
      alias = none;
      metavar = some (codes "N");
      help = codes "FUSE worker threads [default: cores, up to 8]";
      apply = value (λ c v. number u64_mod v >>= λ n. ok (record c { threads = n }));
    }
    ∷ record {
      name = codes "no-verify";
      alias = some (codes "noverify");
      metavar = none;
      help = codes "skip the CRC32 check on entries that are read to the end";
      apply = flag (λ c. record c { verify = false });
    }
    ∷ record {
      name = codes "verify";
      alias = none;
      metavar = none;
      help = codes "check entries against their CRC32 [default]";
      apply = flag (λ c. record c { verify = true });
    }
    ∷ record {
      name = codes "source-buffer-size";
      alias = none;
      metavar = some (codes "N");
      help = codes "compressed bytes each decoder buffers [default: 524288]";
      apply = value (λ c v. number u64_mod v >>= λ n. ok (record c { source_buffer = n }));
    }
    ∷ record {
      name = codes "decoders-per-file";
      alias = none;
      metavar = some (codes "N");
      help = codes "idle decoders one open file may keep [default: 4]";
      apply = value (λ c v. number u64_mod v >>= λ n. ok (record c { decoders_per_file = n }));
    }
    ∷ record {
      name = codes "max-retained-decoders";
      alias = none;
      metavar = some (codes "N");
      help = codes "idle decoders the mount may keep [default: 64]";
      apply = value (λ c v. number u64_mod v >>= λ n. ok (record c { max_retained_decoders = n }));
    }
    ∷ record {
      name = codes "uid";
      alias = none;
      metavar = some (codes "ID");
      help = codes "owner reported for every file [default: caller]";
      apply = value (λ c v. number u32_mod v >>= λ n. ok (record c { uid = n }));
    }
    ∷ record {
      name = codes "gid";
      alias = none;
      metavar = some (codes "ID");
      help = codes "group reported for every file [default: caller]";
      apply = value (λ c v. number u32_mod v >>= λ n. ok (record c { gid = n }));
    }
    ∷ record {
      name = codes "file-mode";
      alias = none;
      metavar = some (codes "MODE");
      help = codes "permissions for files whose entry records none [default: 644]";
      apply = value (λ c v. mode v >>= λ m. ok (record c { file_mode = m }));
    }
    ∷ record {
      name = codes "dir-mode";
      alias = none;
      metavar = some (codes "MODE");
      help = codes "permissions for directories whose entry records none [default: 755]";
      apply = value (λ c v. mode v >>= λ m. ok (record c { dir_mode = m }));
    }
    ∷ record {
      name = codes "umask";
      alias = none;
      metavar = some (codes "MASK");
      help = codes "bits to take away from both modes above";
      apply = value (λ c v. mode v >>= λ mask. ok (set_umask c mask));
    }
    ∷ record {
      name = codes "fmask";
      alias = none;
      metavar = some (codes "MASK");
      help = codes "bits to take away from the file mode";
      apply = value (λ c v. mode v >>= λ mask. ok (record c { file_mode = without 0o666 mask }));
    }
    ∷ record {
      name = codes "dmask";
      alias = none;
      metavar = some (codes "MASK");
      help = codes "bits to take away from the directory mode";
      apply = value (λ c v. mode v >>= λ mask. ok (record c { dir_mode = without 0o777 mask }));
    }
    ∷ record {
      name = codes "attr-ttl";
      alias = none;
      metavar = some (codes "SECS");
      help = codes "how long the kernel may cache metadata [default: 31536000]";
      apply = value (λ c v. number u64_mod v >>= λ n. ok (record c { attr_ttl = n }));
    }
    ∷ record {
      name = codes "allow-other";
      alias = none;
      metavar = none;
      help = codes "let other users see the mount";
      apply = flag (λ c. record c { allow_other = true });
    }
    ∷ record {
      name = codes "allow-root";
      alias = none;
      metavar = none;
      help = codes "let root see the mount";
      apply = flag (λ c. record c { allow_root = true });
    }
    ∷ record {
      name = codes "auto-unmount";
      alias = none;
      metavar = none;
      help = codes "unmount if this process dies; needs --allow-other or --allow-root";
      apply = flag (λ c. record c { auto_unmount = true });
    }
    ∷ []

unfoldable pub find : Bytes → Option Setting
unfolding find_in settings
find name = find_in settings name

abbrev pub ignored_names : List Bytes
ignored_names =
    codes "ro"
    ∷ codes "atime"
    ∷ codes "noatime"
    ∷ codes "relatime"
    ∷ codes "norelatime"
    ∷ codes "strictatime"
    ∷ codes "nostrictatime"
    ∷ codes "diratime"
    ∷ codes "nodiratime"
    ∷ codes "dev"
    ∷ codes "nodev"
    ∷ codes "suid"
    ∷ codes "nosuid"
    ∷ codes "exec"
    ∷ codes "noexec"
    ∷ codes "sync"
    ∷ codes "async"
    ∷ codes "dirsync"
    ∷ codes "auto"
    ∷ codes "noauto"
    ∷ codes "defaults"
    ∷ codes "user"
    ∷ codes "users"
    ∷ codes "nouser"
    ∷ codes "owner"
    ∷ codes "group"
    ∷ codes "_netdev"
    ∷ codes "nofail"
    ∷ codes "silent"
    ∷ codes "loud"
    ∷ codes "seclabel"
    ∷ codes "default_permissions"
    ∷ []

abbrev pub ignored_with_value : List Bytes
ignored_with_value =
    codes "subtype"
    ∷ codes "fsname"
    ∷ codes "comment"
    ∷ codes "context"
    ∷ codes "fscontext"
    ∷ codes "defcontext"
    ∷ codes "rootcontext"
    ∷ []

unfoldable pub ignored : Bytes → Bool
unfolding elem_bytes starts_with
ignored key =
    elem_bytes key ignored_names
    || elem_bytes key ignored_with_value
    || starts_with key (codes "x-")

-- The end of `apply_one`, for a key that names no setting.
unfoldable pub apply_foreign : Config → Bytes → Bytes → Option Bytes → Applied
unfolding ignored eq_bytes
apply_foreign c opt key v =
    if eq_bytes key (codes "rw")
    then ok (c, rw_has_no_effect ∷ [])
    else if eq_bytes key (codes "remount")
    then elim v [ none ↦ ok (c, remount_mounts_again ∷ []) | some _ ↦ err remount_takes_no_value ]
    else ok (c, if ignored key then [] else ignoring_unknown opt ∷ [])

unfoldable pub apply_keyed : Config → Bytes → Bytes × Option Bytes → Option Setting → Applied
unfolding apply_setting apply_foreign
apply_keyed c opt (key, v) (some s) = apply_setting s c v >>= λ c₁. ok (c₁, [])
apply_keyed c opt (key, v) none = apply_foreign c opt key v

unfoldable pub apply_one : Config → Bytes → Applied
unfolding apply_keyed split_once find
apply_one c opt = apply_keyed c opt (split_once b'=' opt) (find (split_once b'=' opt).0)

unfoldable pub apply_each : Config → List Bytes → Applied
unfolding apply_one
apply_each c [] = ok (c, [])
apply_each c (opt ∷ opts) =
    apply_one c opt >>= λ (c₁, log). apply_each c₁ opts >>= λ (c₂, more). ok (c₂, log ++ more)

unfoldable pub nonempty : List Bytes → List Bytes
nonempty [] = []
nonempty ([] ∷ os) = nonempty os
nonempty ((b ∷ bs) ∷ os) = (b ∷ bs) ∷ nonempty os

-- `spec` is `none` where the list is not valid text.
unfoldable pub apply : Config → Option Bytes → Applied
unfolding nonempty split_at_each elem_bytes apply_each
apply c none = err Reason.not_text
apply c (some text) =
    let opts = nonempty (split_at_each b',' text) in
    if elem_bytes (codes "remount") opts && elem_bytes (codes "rw") opts
    then err remount_rw
    else apply_each c opts
