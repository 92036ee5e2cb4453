-- ===== src/Nvic.antt =====
-- The interrupt controller of include/core/nvic.h and src/core/nvic.c: its registers, its MMIO
-- window and the choice of the next interrupt. Exception entry and return are in Exception.
pub mod Registers
pub mod Pick
pub mod Best
use lecerf.Base.{
  ℕ, zero, suc, ◌+◌, ◌-◌, ◌*◌, ◌/◌, ◌%◌, ◌^◌, bit_and, bit_or, Bool, true, false, not, ◌==◌, ◌&&◌,
  leb, ltb, if◌then◌else◌, update, u8, not32, ◌>>>◌, Option, none, some, List, get_elem?, get_or,
  set, replicate, ◌>>=◌,
}

abbrev pub nvic_irq_lines : ℕ
nvic_irq_lines = 240

-- `nvic_t`: three arrays of eight words, and the priorities of the 240 lines.
pub record Nvic : Type 0 where
  pub enable : ℕ → ℕ
  pub pending : ℕ → ℕ
  pub active : ℕ → ℕ
  pub prio : List ℕ

-- The state that `nvic_attach` leaves.
unfoldable pub nvic_attach : Nvic
nvic_attach = record {
  enable = λ j. 0;
  pending = λ j. 0;
  active = λ j. 0;
  prio = replicate nvic_irq_lines 0;
}

-- `((off - start) >> 2) & 7`
abbrev pub word_index : ℕ → ℕ → ℕ
word_index start off = bit_and ((off - start) >>> 2) 7

abbrev pub in_prio : ℕ → Bool
in_prio off = leb 0x300 off && ltb off 0x3F0

-- `nvic_read`
unfoldable pub nvic_read : ℕ → Nvic → ℕ
nvic_read off n =
    if ltb off 0x80
    then n.enable (word_index 0 off)
    else if ltb off 0x100
    then n.enable (word_index 0x80 off)
    else if ltb off 0x180
    then n.pending (word_index 0x100 off)
    else if ltb off 0x200
    then n.pending (word_index 0x180 off)
    else if ltb off 0x280
    then n.active (word_index 0x200 off)
    else if in_prio off
    then get_or n.prio (off - 0x300) 0
    else 0

-- `word |= v` and `word &= ~v` of an array.
abbrev pub or_word : (ℕ → ℕ) → ℕ → ℕ → ℕ → ℕ
or_word f w v = update f w (bit_or (f w) v)

abbrev pub clear_word : (ℕ → ℕ) → ℕ → ℕ → ℕ → ℕ
clear_word f w v = update f w (bit_and (f w) (not32 v))

-- `nvic_write`
unfoldable pub nvic_write : ℕ → ℕ → Nvic → Nvic
nvic_write off v n =
    if ltb off 0x80
    then record n { enable = or_word n.enable (word_index 0 off) v }
    else if ltb off 0x100
    then record n { enable = clear_word n.enable (word_index 0x80 off) v }
    else if ltb off 0x180
    then record n { pending = or_word n.pending (word_index 0x100 off) v }
    else if ltb off 0x200
    then record n { pending = clear_word n.pending (word_index 0x180 off) v }
    else if in_prio off
    then record n { prio = set n.prio (off - 0x300) (u8 v) }
    else n

-- `irq >> 5` and `1u << (irq & 31)`
abbrev pub line_word : ℕ → ℕ
line_word irq = irq >>> 5

abbrev pub line_mask : ℕ → ℕ
line_mask irq = 2 ^ bit_and irq 31

-- `nvic_set_pending`
unfoldable pub nvic_set_pending : ℕ → Nvic → Nvic
nvic_set_pending irq n =
    if ltb irq nvic_irq_lines
    then record n { pending = or_word n.pending (line_word irq) (line_mask irq) }
    else n

-- `nvic_clear_pending`
unfoldable pub nvic_clear_pending : ℕ → Nvic → Nvic
nvic_clear_pending irq n =
    if ltb irq nvic_irq_lines
    then record n { pending = clear_word n.pending (line_word irq) (line_mask irq) }
    else n

-- `nvic_set_active`
unfoldable pub nvic_set_active : ℕ → Nvic → Nvic
nvic_set_active irq n =
    if ltb irq nvic_irq_lines
    then record n { active = or_word n.active (line_word irq) (line_mask irq) }
    else n

-- `nvic_clear_active`
unfoldable pub nvic_clear_active : ℕ → Nvic → Nvic
nvic_clear_active irq n =
    if ltb irq nvic_irq_lines
    then record n { active = clear_word n.active (line_word irq) (line_mask irq) }
    else n

-- `__builtin_ctz` of a word that is not 0: the index of its lowest set digit.
unfoldable pub ctz : ℕ → ℕ → ℕ
ctz zero x = 0
ctz (suc fuel) x = let rest = ctz fuel (x / 2) in if x % 2 == 1 then 0 else suc rest

-- `best` and `best_prio`; `none` is the -1.
abbrev pub Best : Type 0
Best = Option ℕ × ℕ

-- One candidate. The result `none` is a read outside of `prio`.
unfoldable pub consider : Nvic → ℕ → Best → Option Best
consider n irq (best, best_prio) = elim (get_elem? n.prio irq) [
  | none ↦ none
  | some p ↦ some (if ltb p best_prio then (some irq, p) else (best, best_prio))
]

-- `n->enable[w] & n->pending[w] & ~n->active[w]`
unfoldable pub ready_word : Nvic → ℕ → ℕ
ready_word n w = bit_and (bit_and (n.enable w) (n.pending w)) (not32 (n.active w))

-- The inner loop over the digits of `ready`; a word has at most 32.
unfoldable pub pick_bits : ℕ → Nvic → ℕ → ℕ → Best → Option Best
unfolding ctz consider
pick_bits zero n w ready best = some best
pick_bits (suc fuel) n w ready best = elim (ready == 0) [
  | true ↦ some best
  | false ↦
      consider n (w * 32 + ctz 32 ready) best >>= pick_bits fuel n w (bit_and ready (ready - 1))
]

-- The outer loop, with the number of words left.
unfoldable pub pick_words : ℕ → Nvic → ℕ → Best → Option Best
unfolding pick_bits ready_word
pick_words zero n w best = some best
pick_words (suc left) n w best =
    pick_bits 32 n w (ready_word n w) best >>= pick_words left n (w + 1)

-- `nvic_pick`: the chosen line, if any; the outer `none` is a read outside of `prio`.
unfoldable pub nvic_pick : Nvic → Option (Option ℕ)
unfolding pick_words
nvic_pick n = pick_words 8 n 0 (none, 0xFF) >>= λ best. some best.0
