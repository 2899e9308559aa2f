-- ===== src/Tests/Pools.antt =====
-- An open file with one idle decoder, on a mount that may keep two.
use zipfs.Base.{◌≡◌, refl, true, false, [], ◌∷◌}
use zipfs.Base.{arith}
use zipfs.Config.{Config, IsInRange, clamp, clamp-range}
use zipfs.Source.{source}
use zipfs.Pool.{choose, try_retain, new_budget}
use zipfs.Pool.Exchange.{Pool, Budget, checkout, give_back}
use zipfs.Pool.Choice.{Chosen, choose-Chosen}
use zipfs.Pool.Checkouts.{Served, checkout-Served}
use zipfs.Pool.Returns.{Mount, unlocked, Reach, IsCounted, here, next, opens, claims, keeps}
use zipfs.Pool.Counted.{mounted, Reach-IsCounted}
use zipfs.Tests.Data.{os, flate, raw, crc, location, decoder}

abbrev pub budget : Budget flate raw (source os) crc
budget = record {
  retained = 1;
  max_retained = 2;
  cores = record { codecs = λ _. []; buffers = []; skips = [] };
  max_cores = 2;
  source_buffer = 3;
  skip_buffer = 2;
  verify = true;
}

abbrev pool : Pool flate raw (source os) crc
pool = record { idle = record decoder { pos = 2 } ∷ []; per_handle_cap = 2; loc = location }

choose-Chosen_example : Chosen 3 pool.idle (choose 3 pool.idle)
choose-Chosen_example = choose-Chosen 3 pool.idle

checkout-Served_example :
    Served flate raw
      (source os)
      crc
      3
      pool
      budget
      (checkout flate raw (source os) crc 3 pool budget)
checkout-Served_example = checkout-Served flate raw (source os) crc 3 pool budget

abbrev pub config : Config
config = record {
  verify = true;
  source_buffer = 1;
  decoders_per_file = 9;
  max_retained_decoders = 2;
  threads = 0;
  uid = 1000;
  gid = 1000;
  file_mode = 420;
  dir_mode = 493;
  attr_ttl = 31536000;
  allow_other = false;
  allow_root = false;
  auto_unmount = false;
}

abbrev fresh_pool : Pool flate raw (source os) crc
fresh_pool = record { idle = []; per_handle_cap = 2; loc = location }

abbrev after_open : Mount flate raw (source os) crc
after_open = record (mounted flate raw (source os) crc config) {
  pools = unlocked flate raw (source os) crc fresh_pool ∷ [];
}

-- A file was opened and a decoder came back to it.
abbrev after_return : Mount flate raw (source os) crc
after_return = record after_open {
  pools =
      unlocked flate raw (source os) crc
        (give_back flate raw (source os) crc decoder fresh_pool after_open.budget).0
      ∷ [];
  budget = (give_back flate raw (source os) crc decoder fresh_pool after_open.budget).1;
}

returned : Reach flate raw (source os) crc (mounted flate raw (source os) crc config) after_return
unfolding give_back try_retain clamp new_budget
returned =
    next (next (next here (opens 2 location)) (claims [] [] fresh_pool refl refl refl))
      (keeps [] [] fresh_pool decoder refl)

Reach-IsCounted_example : IsCounted flate raw (source os) crc after_return
Reach-IsCounted_example =
    Reach-IsCounted flate raw (source os) crc config after_return (omega arith) returned

-- A file with an idle decoder, of which another one comes back.
abbrev before_end : Mount flate raw (source os) crc
before_end = record after_open {
  pools = unlocked flate raw (source os) crc pool ∷ [];
  budget = budget;
}

clamp-range_example : IsInRange (clamp config) × (IsInRange config → clamp config ≡ config)
clamp-range_example = clamp-range config
