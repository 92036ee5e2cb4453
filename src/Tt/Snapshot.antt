-- ===== src/Tt/Snapshot.antt =====
-- `snap_blob_t`, `snap_save` and `snap_restore` of include/core/tt.h and src/core/tt.c.
-- The bytes that the compiler lays a snapshot out in, up to its checksum, are an argument.
pub mod RoundTrip
use lecerf.Base.{
  ℕ, ◌+◌, ◌*◌, Bool, true, false, not, ◌==◌, ◌&&◌, ◌||◌, ltb, if◌then◌else◌, Option, none, some,
  List,
}
use lecerf.Cpu.{Cpu}
use lecerf.Bus.{Bus, Region, bus_find_flat, put_region}
use lecerf.Nvic.{Nvic}
use lecerf.Periph.Systick.{Systick}
use lecerf.Periph.Scb.{Scb}
use lecerf.Periph.Mpu.{Mpu}
use lecerf.Periph.Dwt.{Dwt}
use lecerf.Periph.Stm32.{Stm32}
use lecerf.Periph.Eth.{Eth}
use lecerf.Periph.Uart.{Uart}
use lecerf.Decoder.Insn.{Insn}
use lecerf.Jit.{Jit, jit_flush}
use lecerf.Tt.Checksum.{snap_xor32}

-- `tt_periph_t`
pub record TtPeriph : Type 0 where
  pub st : Systick
  pub nv : Nvic
  pub scb : Scb
  pub mpu : Mpu
  pub dwt : Dwt
  pub stm32 : Stm32
  pub eth : Eth
  pub uart : Uart

-- An entry of the decode cache of src/core/run.c that is valid.
pub record DcacheEntry : Type 0 where
  pub tag : ℕ
  pub ins : Insn

-- What a snapshot is taken of and restored to; `jit` is `g_jit_for_tt`, or `none` for a null
-- pointer.
pub record Board (T N G : Type 0) : Type 0 where
  pub cpu : Cpu
  pub bus : Bus T
  pub periph : TtPeriph
  pub dcache : ℕ → Option DcacheEntry
  pub jit : Option (Jit N G)

abbrev pub snap_magic : ℕ
snap_magic = 0x54544B30

abbrev pub snap_version : ℕ
snap_version = 1

abbrev pub sram_base_addr : ℕ
sram_base_addr = 0x20000000

abbrev pub sram_size_bytes : ℕ
sram_size_bytes = 0x40000

-- `snap_blob_t`. The offsets of `sram` below SRAM_SIZE are its bytes.
pub record Snapshot : Type 0 where
  pub magic : ℕ
  pub version : ℕ
  pub cycle : ℕ
  pub cpu : Cpu
  pub st : Systick
  pub nvic : Nvic
  pub scb : Scb
  pub mpu : Mpu
  pub dwt : Dwt
  pub stm32 : Stm32
  pub eth_state : Eth
  pub uart_state : Uart
  pub sram_size : ℕ
  pub sram : ℕ → ℕ
  pub checksum : ℕ

-- `memcpy(dst, src, n)` of whole buffers.
abbrev pub copy : ℕ → (ℕ → ℕ) → (ℕ → ℕ) → ℕ → ℕ
copy n src dst j = if ltb j n then src j else dst j

-- The checksum that a snapshot should have: that of its bytes with 0 for the checksum.
unfoldable pub sum_of : (Snapshot → List ℕ) → Snapshot → ℕ
sum_of bytes_of b = snap_xor32 (bytes_of (record b { checksum = 0 }))

-- `magic`, `version`, `sram_size` and `checksum` are right.
unfoldable pub accepted : (Snapshot → List ℕ) → Snapshot → Bool
unfolding sum_of
accepted bytes_of b =
    (b.magic == snap_magic)
    && (b.version == snap_version)
    && (b.sram_size == sram_size_bytes)
    && (sum_of bytes_of b == b.checksum)

module _ {T N G : Type 0} where
  -- The fields that `snap_save` fills in, before the checksum. `attached` is `eth.bus`.
  unfoldable pub snapshot_of : Board T N G → Region T → Snapshot
  snapshot_of m sr =
      let p = m.periph in
      record {
        magic = snap_magic;
        version = snap_version;
        cycle = m.cpu.cycles;
        cpu = m.cpu;
        st = p.st;
        nvic = p.nv;
        scb = p.scb;
        mpu = p.mpu;
        dwt = p.dwt;
        stm32 = p.stm32;
        eth_state = record p.eth { attached = false };
        uart_state = p.uart;
        sram_size = sram_size_bytes;
        sram = copy sram_size_bytes sr.buf (λ j. 0);
        checksum = 0;
      }

  -- `snap_save`; `none` is the result `false`.
  unfoldable pub snap_save : (Snapshot → List ℕ) → Board T N G → Option Snapshot
  unfolding sum_of snapshot_of bus_find_flat
  snap_save bytes_of m = elim (bus_find_flat m.bus sram_base_addr) [
    | none ↦ none
    | some (i, sr) ↦
        let b = snapshot_of m sr in
        if ltb sr.size sram_size_bytes
        then none
        else some (record b { checksum = sum_of bytes_of b })
  ]

  -- The board of the snapshot, with the flat region `sr` at index `i`.
  put_back : (G → G) → Snapshot → ℕ → Region T → Board T N G → Board T N G
  unfolding jit_flush
  put_back forget b i sr m = record {
    cpu = b.cpu;
    bus = put_region m.bus i (record sr { buf = copy sram_size_bytes b.sram sr.buf });
    periph = record {
      st = b.st;
      nv = b.nvic;
      scb = b.scb;
      mpu = b.mpu;
      dwt = b.dwt;
      stm32 = b.stm32;
      eth = record (b.eth_state) { attached = true };
      uart = b.uart_state;
    };
    dcache = λ j. none;
    jit = elim (m.jit) [ none ↦ none | some g ↦ some (jit_flush forget g) ];
  }

  -- `snap_restore`. The pointers that a snapshot leaves out, `scb.ctx` and the sink of the UART,
  -- are no part of these records, and stay as they were. The source copies SRAM_SIZE bytes into the
  -- region whatever its size is; `none` is the copy that writes behind the region's buffer.
  unfoldable pub snap_restore :
      (Snapshot → List ℕ) → (G → G) → Snapshot → Board T N G → Option (Bool × Board T N G)
  unfolding accepted put_back bus_find_flat
  snap_restore bytes_of forget b m =
      let found = bus_find_flat m.bus sram_base_addr in
      if accepted bytes_of b
      then elim found [
        | none ↦ some (false, m)
        | some (i, sr) ↦
            if ltb sr.size sram_size_bytes then none else some (true, put_back forget b i sr m)
      ]
      else some (false, m)
