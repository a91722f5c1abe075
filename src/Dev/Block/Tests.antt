-- ===== src/Dev/Block/Tests.antt =====
-- A medium with sectors of four bytes, read one sector at a time.
use aexkernel.Prelude.{ℕ, ◌+◌, ◌*◌, ◌≡◌, refl, true, none, some, [], ◌∷◌, arith}
use aexkernel.Dev.Block.{Ops, Block, serve, dev_block_init, read_loop, dev_block_read}
use aexkernel.Dev.Block.Reading.{slice, IsDisk, Reads, dev_block_read_lem}

abbrev medium : ℕ → ℕ
medium i = i + 10

abbrev ops : Ops ℕ
ops = record {
  init = none;
  read =
      λ sector count w. (record { ret = 0; bytes = slice medium (sector * 4) (count * 4) }, w + 1);
  write = λ sector bytes w. (0, w);
  release = none;
}

abbrev blk : Block
blk = record { initialized = true; sector_size = 4; burst_max = 1 }

medium-IsDisk : IsDisk ops blk medium
medium-IsDisk = record {
  sectors = omega arith;
  size = omega arith;
  bursts = omega arith;
  ready = refl;
  succeeds = λ sector count w. refl;
  bytes = λ sector count w. refl;
}

dev_block_read_lem_example : Reads medium 3 2 (dev_block_read ops blk 3 2 0)
dev_block_read_lem_example =
    dev_block_read_lem ops blk medium medium-IsDisk 3 2 0 (omega arith) (omega arith) (omega arith)

-- Three bytes are put into the buffer where two are asked for.
one_too_many :
    dev_block_read ops blk 3 2 0 ≡ some (record { ret = 0; bytes = 13 ∷ 14 ∷ 15 ∷ [] }, 2)
unfolding dev_block_read read_loop serve dev_block_init
one_too_many = refl
