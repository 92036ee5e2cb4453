-- ===== src/Bus.antt =====
-- include/core/bus.h and src/core/bus.c: the address space as an array of regions, flat memory or
-- device registers.
-- The pair of callbacks and the context of a REGION_MMIO region is a name `T` of a device, and the
-- store `S` that the callbacks change is an argument; the names of regions are only printed.
pub mod Find
pub mod Memory
use lecerf.Base.{
  ℕ, zero, suc, ◌+◌, ◌-◌, ◌*◌, ◌/◌, ◌%◌, ◌^◌, Bool, true, false, not, ◌==◌, leb, ltb, ◌&&◌, ◌||◌,
  if◌then◌else◌, add32, sub32, u8, u16, Option, none, some, List, [], ◌∷◌, ◌++◌, length, get_elem?,
  set,
}

-- `region_kind_t`, with the context and the callbacks of a device.
pub data Kind (T : Type 0) : Type 0 where
  flat : Kind T
  mmio : T → Kind T

-- `region_t`. The offsets below `size` of `buf` are the allocated bytes.
pub record Region (T : Type 0) : Type 0 where
  pub base : ℕ
  pub size : ℕ
  pub kind : Kind T
  pub writable : Bool
  pub buf : ℕ → ℕ

-- `bus_t`: the list is `regs[0 .. n)`.
pub record Bus (T : Type 0) : Type 0 where
  pub regs : List (Region T)

abbrev pub bus_max_regions : ℕ
bus_max_regions = 32

module _ {T : Type 0} where
  -- `a >= r->base && a < r->base + r->size`; the sum is a 32-bit one.
  unfoldable pub covers : ℕ → Region T → Bool
  covers a r = leb r.base a && ltb a (add32 r.base r.size)

  -- The answer of the rest of the search, counted from one region earlier.
  abbrev pub next_index : Option (ℕ × Region T) → Option (ℕ × Region T)
  next_index none = none
  next_index (some (i, q)) = some (suc i, q)

  -- The index of the first region for which `p` holds, and that region.
  unfoldable pub first : (Region T → Bool) → List (Region T) → Option (ℕ × Region T)
  first p [] = none
  first p (r ∷ rs) = let rest = first p rs in if p r then some (0, r) else next_index rest

  -- `find_region`
  unfoldable pub find_region : Bus T → ℕ → Option (ℕ × Region T)
  unfolding first covers
  find_region b a = first (covers a) b.regs

  unfoldable pub is_flat : Kind T → Bool
  is_flat flat = true
  is_flat (mmio t) = false

  -- `bus_find_flat`
  unfoldable pub bus_find_flat : Bus T → ℕ → Option (ℕ × Region T)
  unfolding first is_flat
  bus_find_flat b base = first (λ r. is_flat r.kind && (r.base == base)) b.regs

  -- `r` as region `i` of the bus.
  abbrev pub put_region : Bus T → ℕ → Region T → Bus T
  put_region b i r = record { regs = set b.regs i r }

  -- `bus_add_flat`. `none` is the result -1; `alloc size` tells whether `calloc` succeeds.
  unfoldable pub bus_add_flat : (ℕ → Bool) → ℕ → ℕ → Bool → Bus T → Option (Bus T)
  bus_add_flat alloc base size writable b =
      if leb bus_max_regions (length b.regs)
      then none
      else if alloc size
      then some (record {
        regs =
            b.regs
            ++ record { base = base; size = size; kind = flat; writable = writable; buf = λ j. 0 }
              ∷ [];
      })
      else none

  -- `bus_add_mmio`
  unfoldable pub bus_add_mmio : ℕ → ℕ → T → Bus T → Option (Bus T)
  bus_add_mmio base size t b =
      if leb bus_max_regions (length b.regs)
      then none
      else some (record {
        regs =
            b.regs
            ++ record { base = base; size = size; kind = mmio t; writable = true; buf = λ j. 0 }
              ∷ [];
      })

-- `memcpy(&v, p, size)` into a zeroed word and back, on a little-endian host.
unfoldable pub load_bytes : ℕ → (ℕ → ℕ) → ℕ → ℕ
load_bytes zero buf off = 0
load_bytes (suc n) buf off = buf off + 256 * load_bytes n buf (off + 1)

unfoldable pub store_bytes : ℕ → ℕ → ℕ → (ℕ → ℕ) → ℕ → ℕ
store_bytes n off val buf j =
    if leb off j && ltb j (off + n) then val / 256 ^ (j - off) % 256 else buf j

-- What an access needs of the state `S` that holds the bus and the devices.
pub record Mmio (T S : Type 0) : Type 0 where
  pub bus_of : S → Bus T
  pub put_bus : Bus T → S → S
  pub dev_read : T → ℕ → ℕ → S → ℕ × S
  pub dev_write : T → ℕ → ℕ → ℕ → S → S

module _ {T S : Type 0} (m : Mmio T S) where
  open m use {bus_of, put_bus, dev_read, dev_write}

  -- The access of `bus_read` to the region that was found.
  read_region : Region T → ℕ → ℕ → S → Option ℕ × S
  read_region r off size s = if ltb r.size (add32 off size) then (none, s) else elim r.kind [
    | flat ↦ (some (load_bytes size r.buf off), s)
    | mmio t ↦ let (v, s') = dev_read t off size s in (some v, s')
  ]

  -- `bus_read`; `none` is the result `false`.
  unfoldable pub bus_read : ℕ → ℕ → S → Option ℕ × S
  unfolding read_region load_bytes find_region
  bus_read a size s = elim (find_region (bus_of s) a) [
    | none ↦ (none, s)
    | some (i, r) ↦ read_region r (sub32 a r.base) size s
  ]

  write_region : ℕ → Region T → ℕ → ℕ → ℕ → S → Bool × S
  write_region i r off size val s =
      if not r.writable
      then (false, s)
      else if ltb r.size (add32 off size)
      then (false, s)
      else elim r.kind [
        | flat ↦ (
          true,
          put_bus (put_region (bus_of s) i (record r { buf = store_bytes size off val r.buf })) s,
        )
        | mmio t ↦ (true, dev_write t off val size s)
      ]

  -- `bus_write`
  unfoldable pub bus_write : ℕ → ℕ → ℕ → S → Bool × S
  unfolding write_region store_bytes find_region
  bus_write a size val s = elim (find_region (bus_of s) a) [
    | none ↦ (false, s)
    | some (i, r) ↦ write_region i r (sub32 a r.base) size val s
  ]

  -- `bus_r32`, `bus_r16` and `bus_r8`: a fault reads as 0.
  read_or_zero : Option ℕ × S → ℕ × S
  read_or_zero (none, s) = (0, s)
  read_or_zero (some v, s) = (v, s)

  unfoldable pub bus_r32 : ℕ → S → ℕ × S
  unfolding read_or_zero bus_read
  bus_r32 a s = read_or_zero (bus_read a 4 s)

  unfoldable pub bus_r16 : ℕ → S → ℕ × S
  unfolding read_or_zero bus_read
  bus_r16 a s = let (v, s') = read_or_zero (bus_read a 2 s) in (u16 v, s')

  unfoldable pub bus_r8 : ℕ → S → ℕ × S
  unfolding read_or_zero bus_read
  bus_r8 a s = let (v, s') = read_or_zero (bus_read a 1 s) in (u8 v, s')

  -- `bus_w32`, `bus_w16` and `bus_w8`: a fault is dropped.
  unfoldable pub bus_w32 : ℕ → ℕ → S → S
  unfolding bus_write
  bus_w32 a v s = (bus_write a 4 v s).1

  unfoldable pub bus_w16 : ℕ → ℕ → S → S
  unfolding bus_write
  bus_w16 a v s = (bus_write a 2 v s).1

  unfoldable pub bus_w8 : ℕ → ℕ → S → S
  unfolding bus_write
  bus_w8 a v s = (bus_write a 1 v s).1

  -- The bytes of a list written from an offset on.
  unfoldable pub copy_in : List ℕ → ℕ → (ℕ → ℕ) → ℕ → ℕ
  copy_in bytes off buf j =
      if leb off j then elim (get_elem? bytes (j - off)) [ none ↦ buf j | some v ↦ v ] else buf j

  load_region : ℕ → Region T → ℕ → List ℕ → S → Bool × S
  load_region i r off bytes s =
      if not (is_flat r.kind)
      then (false, s)
      else if ltb r.size (add32 off (length bytes))
      then (false, s)
      else (true, put_bus (put_region (bus_of s) i (record r { buf = copy_in bytes off r.buf })) s)

  -- `bus_load_blob`
  unfoldable pub bus_load_blob : ℕ → List ℕ → S → Bool × S
  unfolding load_region copy_in find_region is_flat
  bus_load_blob a bytes s = elim (find_region (bus_of s) a) [
    | none ↦ (false, s)
    | some (i, r) ↦ load_region i r (sub32 a r.base) bytes s
  ]
