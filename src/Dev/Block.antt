-- ===== src/Dev/Block.antt =====
-- dev/block.c: requests to block devices, and reads of any range of bytes. A device driver's functions
-- are `Ops`, over the state `W` of the drivers; a NULL function is `none`. A request is served before
-- the caller goes on, so the queue holds one request at a time.
-- Results of type `int` are 32-bit
-- patterns.
mod Tests
pub mod Reading
use aexkernel.Prelude.{
  ℕ, zero, suc, ◌+◌, ◌-◌, ◌*◌, ◌/◌, ◌%◌, ◌^◌, min, Bool, true, false, Option, none, some, List, [],
  ◌∷◌, ◌++◌, leb, ◌==◌, if◌then◌else◌, take, drop,
}

pub record Reply : Type 0 where
  pub ret : ℕ
  pub bytes : List ℕ

-- `struct dev_block_ops`, for one `internal_id`.
pub record Ops (W : Type 0) : Type 0 where
  pub init : Option (W → ℕ × W)
  pub read : ℕ → ℕ → W → Reply × W
  pub write : ℕ → List ℕ → W → ℕ × W
  pub release : Option (W → ℕ × W)

-- `blk_request_t`, by its type.
pub data Request : Type 0 where
  init_request : Request
  read_request : ℕ → ℕ → Request
  write_request : ℕ → List ℕ → Request
  release_request : Request

pub record Block : Type 0 where
  pub initialized : Bool
  pub sector_size : ℕ
  pub burst_max : ℕ

-- `-EPERM` and `-ENOSYS`.
abbrev pub eperm : ℕ
eperm = 4294967295

abbrev pub enosys : ℕ
enosys = 4294967287

-- `ret < 0` for an `int`.
abbrev pub is_error : ℕ → Bool
is_error r = leb 2147483648 r

abbrev pub answer : ℕ → Reply
answer r = record { ret = r; bytes = [] }

-- `initialized` after a call of `init` or `release` that should leave it as `b`.
abbrev pub settled : Block → Bool → ℕ → Block
settled blk b ret = if is_error ret then blk else record blk { initialized = b }

-- The sectors of one request; `burst_count` has 16 bits.
abbrev pub burst_of : Block → ℕ → ℕ
burst_of blk sector_count =
    min (min (sector_count % 2 ^ 16) blk.burst_max) (65536 / blk.sector_size) % 2 ^ 16

module _ {W : Type 0} (ops : Ops W) where
  -- The switch of `blk_worker`.
  pub serve : Request → Block → W → Reply × Block × W
  serve init_request blk w = if blk.initialized then (answer eperm, blk, w) else elim ops.init [
    | none ↦ (answer enosys, blk, w)
    | some f ↦ let (ret, w') = f w in (answer ret, settled blk true ret, w')
  ]
  serve (read_request sector count) blk w =
      let (reply, w') = ops.read sector count w in (reply, blk, w')
  serve (write_request sector bytes) blk w =
      let (ret, w') = ops.write sector bytes w in (answer ret, blk, w')
  serve release_request blk w =
      if blk.initialized
      then elim ops.release [
        | none ↦ (answer enosys, blk, w)
        | some f ↦ let (ret, w') = f w in (answer ret, settled blk false ret, w')
      ]
      else (answer eperm, blk, w)

  -- `dev_block_init` and `dev_block_release` of a device that is there.
  pub dev_block_init : Block → W → ℕ × Block × W
  dev_block_init blk w =
      let (reply, blk', w') = serve init_request blk w in
      if blk.initialized then (eperm, blk, w) else (reply.ret, blk', w')

  pub dev_block_release : Block → W → ℕ × Block × W
  dev_block_release blk w =
      let (reply, blk', w') = serve release_request blk w in
      if blk.initialized then (reply.ret, blk', w') else (eperm, blk, w)

  abbrev pub behind : List ℕ → Option (Reply × W) → Option (Reply × W)
  behind bytes none = none
  behind bytes (some (reply, w)) = some (record reply { bytes = bytes ++ reply.bytes }, w)

  -- The loop of `dev_block_read`; the bytes are what is copied to `buffer`. `len` stays the length of
  -- the whole read. `none` is the end of the fuel.
  pub read_loop : ℕ → Block → ℕ → ℕ → ℕ → ℕ → W → Option (Reply × W)
  read_loop zero blk sector sector_count read_offset len w =
      if sector_count == 0 then some (answer 0, w) else none
  read_loop (suc fuel) blk sector sector_count read_offset len w =
      let burst = burst_of blk sector_count in
      let (reply, blk', w') = serve (read_request sector burst) blk w in
      let copy_len = min ((burst * blk.sector_size + 2 ^ 32 - read_offset) % 2 ^ 32) len in
      let rest = read_loop fuel blk ((sector + burst) % 2 ^ 32) (sector_count - burst) 0 len w' in
      if sector_count == 0
      then some (answer 0, w)
      else if is_error reply.ret
      then some (answer reply.ret, w')
      else behind (take copy_len (drop read_offset reply.bytes)) rest

  -- `dev_block_read` of a device that is there, is no proxy and has a `read` function, with fuel for
  -- every sector.
  pub dev_block_read : Block → ℕ → ℕ → W → Option (Reply × W)
  dev_block_read blk pos len w =
      let (ret, blk', w') = dev_block_init blk w in
      let ready : Block × W = if blk.initialized then (blk, w) else (blk', w') in
      let sector_size = blk.sector_size in
      let read_offset = pos % sector_size in
      let sector_count = (read_offset + len + (sector_size - 1)) / sector_size % 2 ^ 32 in
      if len == 0
      then some (answer 0, w)
      else read_loop sector_count ready.0 (pos / sector_size % 2 ^ 32) sector_count read_offset len
          ready.1
