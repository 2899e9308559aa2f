-- ===== src/Cli/Names.antt =====
-- A setting is found by each of its spellings.
use zipfs.Base.{◌≡◌, Option, none, some, List, [], ◌∷◌}
use zipfs.Base.Bytes.{Bytes}
use zipfs.Cli.{Setting}
use zipfs.Cli.Settings.{find}

-- What a name's other spelling finds, if it has one.
abbrev pub FindsByAlias : Option Bytes → Setting → Type 0
FindsByAlias none s = Unit {0}
FindsByAlias (some a) s = find a ≡ some s

abbrev pub AllFound : List Setting → Type 0
AllFound [] = Unit {0}
AllFound (s ∷ ss) = ((find s.name ≡ some s) × FindsByAlias s.alias s) × AllFound ss
