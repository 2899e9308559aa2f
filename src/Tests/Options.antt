-- ===== src/Tests/Options.antt =====
-- Options of a command line, and the help.
use zipfs.Base.{◌≡◌, refl, none, some, List, [], ◌∷◌, ok, false, arith}
use zipfs.Base.Bytes.{
  Bytes, codes, eq_bytes, elem_bytes, starts_with, split_at_each, push_first, push_before,
  split_once, digits_below, no_sign, from_str_radix,
}
use zipfs.Config.{Config}
use zipfs.Cli.{
  flag, Setting, mode, without, trim_octal, some_or, is_dash, same_char, same_name, same_alias,
  named, find_in, ignoring_unknown, apply_flag, apply_value, apply_as, apply_setting,
}
use zipfs.Cli.Settings.{
  settings, find, ignored, apply_foreign, apply_keyed, apply_one, apply_each, nonempty, apply,
}
use zipfs.Cli.Keeps.{IsWord}
use zipfs.Cli.Bounds.{done, list, Options-IsWord}
use zipfs.Cli.Lines.{
  wrap, pieces, is_space, trim_start, push_kept, trim_end, trim, shift, find_byte, or_length,
  piece_end, pieces_from, is_empty, wrap_word, last_line, wrap_from,
}
use zipfs.Cli.Pieces.{IsSplit}
use zipfs.Cli.Wrap.{IsWrapped, join, wrap-IsWrapped}
use zipfs.Tests.Pools.{config}

abbrev masked : Config
masked = record config { file_mode = 0o644 }

abbrev options_text : Bytes
options_text = codes "fmask=0o022,quick"

apply_one_list :
    apply config (some options_text) ≡ ok (masked, ignoring_unknown (codes "quick") ∷ [])
unfolding apply elem_bytes eq_bytes nonempty split_at_each push_first apply_each apply_one
    split_once push_before apply_keyed find find_in named same_name same_alias same_char is_dash
    settings apply_setting apply_as apply_value apply_flag apply_foreign ignored starts_with mode
    some_or from_str_radix no_sign digits_below trim_octal without
apply_one_list = refl

config-IsWord : IsWord config
config-IsWord = record {
  source_buffer = omega arith;
  decoders_per_file = omega arith;
  max_retained_decoders = omega arith;
  threads = omega arith;
  uid = omega arith;
  gid = omega arith;
  file_mode = omega arith;
  dir_mode = omega arith;
  attr_ttl = omega arith;
}

Options-IsWord_example : IsWord masked
Options-IsWord_example =
    Options-IsWord config masked
      (list (some options_text) (ignoring_unknown (codes "quick") ∷ []) apply_one_list done)
      config-IsWord

abbrev no_verify : Setting
no_verify = record {
  name = codes "no-verify";
  alias = some (codes "noverify");
  metavar = none;
  help = codes "skip the CRC32 check on entries that are read to the end";
  apply = flag (λ c. record c { verify = false });
}

abbrev help_text : Bytes
help_text = codes " skip it [default: 3]"

wrap-IsWrapped_example :
    (words lines : List Bytes) × (wrap help_text 10 ≡ some lines)
    × IsSplit help_text words
    × IsWrapped 10 words (join words) lines
wrap-IsWrapped_example = wrap-IsWrapped help_text 10

wrap_help : wrap help_text 10 ≡ some (codes "skip it" ∷ codes "[default: 3]" ∷ [])
unfolding wrap pieces pieces_from trim trim_start trim_end push_kept is_space piece_end find_byte
    shift or_length wrap_from wrap_word last_line is_empty
wrap_help = refl
