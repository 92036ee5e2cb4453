-- ===== src/Decoder/Thumb16/Fields.antt =====
-- The fields that the 16-bit decoder fills in are in range, and branch offsets are the signed ones.
use lecerf.Base.{
  ℕ, zero, suc, ◌+◌, ◌*◌, ◌/◌, ◌<◌, bit_and, bit_or, Bool, true, false, ◌==◌, if◌then◌else◌, ◌>>>◌,
  ◌≡◌, refl, arith,
}
use lecerf.Base.Bits.{bit_and_mask, bit_or-lt}
use lecerf.Decoder.Insn.{Insn, Opcode, op_nop}
use lecerf.Decoder.Thumb16.{
  set_undef, field, matches, add_sub, shift_imm, imm8, data_reg, special, mem_reg, mem_imm, rd_imm8,
  misc, branch_cond, branch, multiple, groups, decode_thumb16,
}

-- The register numbers, the condition and the register list of a decoded instruction are in range,
-- and it has the address, the size and the word it was decoded from.
pub record IsDecoded (w pc : ℕ) (i : Insn) : Type 0 where
  pub at_pc : i.pc ≡ pc
  pub short : i.size ≡ 2
  pub of_word : i.raw ≡ w
  pub rd_lt : i.rd < 16
  pub rn_lt : i.rn < 16
  pub rm_lt : i.rm < 16
  pub rs_lt : i.rs < 16
  pub cond_lt : i.cond < 16
  pub list_lt : i.reg_list < 65536

low1 : (a : ℕ) → bit_and a 1 < 2
low1 a = omega (arith, bit_and_mask 1 a)

low3 : (a : ℕ) → bit_and a 7 < 8
low3 a = omega (arith, bit_and_mask 3 a)

low4 : (a : ℕ) → bit_and a 0xF < 16
low4 a = omega (arith, bit_and_mask 4 a)

low8 : (a : ℕ) → bit_and a 0xFF < 256
low8 a = omega (arith, bit_and_mask 8 a)

add_sub-IsDecoded : (w v pc : ℕ) (i : Insn) → IsDecoded w pc i → IsDecoded w pc (add_sub v i)
unfolding add_sub
add_sub-IsDecoded w v pc i d = record {
  at_pc = ground arith;
  short = ground arith;
  of_word = ground arith;
  rd_lt = ground (arith, low3 (v >>> 0));
  rn_lt = ground (arith, low3 (v >>> 3));
  rm_lt = ground (arith, low3 (v >>> 6));
  rs_lt = ground arith;
  cond_lt = ground arith;
  list_lt = ground arith;
}

shift_imm-IsDecoded : (w v pc : ℕ) (i : Insn) → IsDecoded w pc i → IsDecoded w pc (shift_imm v i)
unfolding shift_imm
shift_imm-IsDecoded w v pc i d = record {
  at_pc = ground arith;
  short = ground arith;
  of_word = ground arith;
  rd_lt = ground (arith, low3 (v >>> 0));
  rn_lt = ground arith;
  rm_lt = ground (arith, low3 (v >>> 3));
  rs_lt = ground arith;
  cond_lt = ground arith;
  list_lt = ground arith;
}

imm8-IsDecoded : (w v pc : ℕ) (i : Insn) → IsDecoded w pc i → IsDecoded w pc (imm8 v i)
unfolding imm8
imm8-IsDecoded w v pc i d = record {
  at_pc = ground arith;
  short = ground arith;
  of_word = ground arith;
  rd_lt = ground (arith, low3 (v >>> 8));
  rn_lt = ground (arith, low3 (v >>> 8));
  rm_lt = ground arith;
  rs_lt = ground arith;
  cond_lt = ground arith;
  list_lt = ground arith;
}

data_reg-IsDecoded : (w v pc : ℕ) (i : Insn) → IsDecoded w pc i → IsDecoded w pc (data_reg v i)
unfolding data_reg
data_reg-IsDecoded w v pc i d = record {
  at_pc = ground arith;
  short = ground arith;
  of_word = ground arith;
  rd_lt = ground (arith, low3 (v >>> 0));
  rn_lt = ground (arith, low3 (v >>> 0));
  rm_lt = ground (arith, low3 (v >>> 3));
  rs_lt = ground arith;
  cond_lt = ground arith;
  list_lt = ground arith;
}

-- `(DN << 3) | (w & 7)`
high_reg : (v : ℕ) → bit_or (field v 7 1 * 8) (field v 0 7) < 16
high_reg v =
    bit_or-lt 4 (field v 7 1 * 8) (field v 0 7) (omega (arith, low1 (v >>> 7)))
      (omega (arith, low3 (v >>> 0)))

special-IsDecoded : (w v pc : ℕ) (i : Insn) → IsDecoded w pc i → IsDecoded w pc (special v i)
unfolding special
special-IsDecoded w v pc i d = record {
  at_pc = ground arith;
  short = ground arith;
  of_word = ground arith;
  rd_lt = ground (arith, high_reg v);
  rn_lt = ground (arith, high_reg v);
  rm_lt = ground (arith, low4 (v >>> 3));
  rs_lt = ground arith;
  cond_lt = ground arith;
  list_lt = ground arith;
}

mem_reg-IsDecoded : (w v pc : ℕ) (i : Insn) → IsDecoded w pc i → IsDecoded w pc (mem_reg v i)
unfolding mem_reg
mem_reg-IsDecoded w v pc i d = record {
  at_pc = ground arith;
  short = ground arith;
  of_word = ground arith;
  rd_lt = ground (arith, low3 (v >>> 0));
  rn_lt = ground (arith, low3 (v >>> 3));
  rm_lt = ground (arith, low3 (v >>> 6));
  rs_lt = ground arith;
  cond_lt = ground arith;
  list_lt = ground arith;
}

mem_imm-IsDecoded :
    (scale : ℕ) (load store : Opcode) (w v pc : ℕ) (i : Insn)
    → IsDecoded w pc i
    → IsDecoded w pc (mem_imm scale load store v i)
unfolding mem_imm
mem_imm-IsDecoded scale load store w v pc i d = record {
  at_pc = ground arith;
  short = ground arith;
  of_word = ground arith;
  rd_lt = ground (arith, low3 (v >>> 0));
  rn_lt = ground (arith, low3 (v >>> 3));
  rm_lt = ground arith;
  rs_lt = ground arith;
  cond_lt = ground arith;
  list_lt = ground arith;
}

rd_imm8-IsDecoded :
    (op : Opcode) (w v pc : ℕ) (i : Insn) → IsDecoded w pc i → IsDecoded w pc (rd_imm8 op v i)
unfolding rd_imm8
rd_imm8-IsDecoded op w v pc i d = record {
  at_pc = ground arith;
  short = ground arith;
  of_word = ground arith;
  rd_lt = ground (arith, low3 (v >>> 8));
  rn_lt = ground arith;
  rm_lt = ground arith;
  rs_lt = ground arith;
  cond_lt = ground arith;
  list_lt = ground arith;
}

-- The register list of PUSH and of POP.
list_of : (v k : ℕ) → k < 65536 / 2 + 1 → bit_or (field v 0 0xFF) (field v 8 1 * k) < 65536
list_of v k h =
    bit_or-lt 16 (field v 0 0xFF) (field v 8 1 * k) (omega (arith, low8 (v >>> 0)))
      (one (field v 8 1) (low1 (v >>> 8)))
  where
    one : (d : ℕ) → d < 2 → d * k < 65536
    one zero hd = omega arith
    one (suc zero) hd = omega arith
    one (suc (suc d)) hd = absurd (omega arith)

misc-IsDecoded : (w v pc : ℕ) (i : Insn) → IsDecoded w pc i → IsDecoded w pc (misc v i)
unfolding misc
misc-IsDecoded w v pc i d = record {
  at_pc = ground arith;
  short = ground arith;
  of_word = ground arith;
  rd_lt = ground (arith, low3 (v >>> 0));
  rn_lt = ground (arith, low3 (v >>> 0));
  rm_lt = ground (arith, low3 (v >>> 3));
  rs_lt = ground arith;
  cond_lt = ground arith;
  list_lt = ground (arith, list_of v 0x4000 (omega arith), list_of v 0x8000 (omega arith));
}

multiple-IsDecoded : (w v pc : ℕ) (i : Insn) → IsDecoded w pc i → IsDecoded w pc (multiple v i)
unfolding multiple
multiple-IsDecoded w v pc i d = record {
  at_pc = ground arith;
  short = ground arith;
  of_word = ground arith;
  rd_lt = ground arith;
  rn_lt = ground (arith, low3 (v >>> 8));
  rm_lt = ground arith;
  rs_lt = ground arith;
  cond_lt = ground arith;
  list_lt = ground (arith, low8 (v >>> 0));
}

branch_cond-IsDecoded :
    (w v pc : ℕ) (i : Insn) → IsDecoded w pc i → IsDecoded w pc (branch_cond v i)
unfolding branch_cond
branch_cond-IsDecoded w v pc i d = record {
  at_pc = ground arith;
  short = ground arith;
  of_word = ground arith;
  rd_lt = ground arith;
  rn_lt = ground arith;
  rm_lt = ground arith;
  rs_lt = ground arith;
  cond_lt = ground (arith, low4 (v >>> 8));
  list_lt = ground arith;
}

branch-IsDecoded : (w v pc : ℕ) (i : Insn) → IsDecoded w pc i → IsDecoded w pc (branch v i)
unfolding branch
branch-IsDecoded w v pc i d = record {
  at_pc = ground arith;
  short = ground arith;
  of_word = ground arith;
  rd_lt = ground arith;
  rn_lt = ground arith;
  rm_lt = ground arith;
  rs_lt = ground arith;
  cond_lt = ground arith;
  list_lt = ground arith;
}

-- A property of both branches.
both_IsDecoded :
    {w pc : ℕ} (b : Bool) {x y : Insn}
    → IsDecoded w pc x
    → IsDecoded w pc y
    → IsDecoded w pc (if b then x else y)
both_IsDecoded true p q = p
both_IsDecoded false p q = q

last_IsDecoded :
    {w pc : ℕ} {i : Insn} → IsDecoded w pc i → IsDecoded w pc (record i { op = op_nop })
last_IsDecoded d = record {
  at_pc = d.at_pc;
  short = d.short;
  of_word = d.of_word;
  rd_lt = d.rd_lt;
  rn_lt = d.rn_lt;
  rm_lt = d.rm_lt;
  rs_lt = d.rs_lt;
  cond_lt = d.cond_lt;
  list_lt = d.list_lt;
}

-- Whatever word `w` is decoded into whatever instruction, the result has the address, the size 2
-- and the word, register numbers below 16, a condition below 16 and a register list of 16 bits.
pub decode_thumb16-IsDecoded : (w pc : ℕ) (out : Insn) → IsDecoded w pc (decode_thumb16 w pc out)
unfolding decode_thumb16 groups set_undef
decode_thumb16-IsDecoded w pc out =
    let i = set_undef w pc out in
    let d : IsDecoded w pc i = record {
      at_pc = refl;
      short = refl;
      of_word = refl;
      rd_lt = omega arith;
      rn_lt = omega arith;
      rm_lt = omega arith;
      rs_lt = omega arith;
      cond_lt = omega arith;
      list_lt = omega arith;
    } in
    both_IsDecoded (matches w 0xF800 0x1800) (add_sub-IsDecoded w w pc i d) (
      both_IsDecoded (matches w 0xE000 0x0000) (shift_imm-IsDecoded w w pc i d) (
        both_IsDecoded (matches w 0xE000 0x2000) (imm8-IsDecoded w w pc i d) (
          both_IsDecoded (matches w 0xFC00 0x4000) (data_reg-IsDecoded w w pc i d) (
            both_IsDecoded (matches w 0xFC00 0x4400) (special-IsDecoded w w pc i d) (
              both_IsDecoded (matches w 0xF800 0x4800) (rd_imm8-IsDecoded _ w w pc i d) (
                both_IsDecoded (matches w 0xF000 0x5000) (mem_reg-IsDecoded w w pc i d) (
                  both_IsDecoded (matches w 0xF000 0x6000) (mem_imm-IsDecoded _ _ _ w w pc i d) (
                    both_IsDecoded (matches w 0xF000 0x7000) (mem_imm-IsDecoded _ _ _ w w pc i d) (
                      both_IsDecoded (matches w 0xF000 0x8000) (mem_imm-IsDecoded _ _ _ w w pc i d)
                        (both_IsDecoded (matches w 0xF000 0x9000) (rd_imm8-IsDecoded _ w w pc i d) (
                          both_IsDecoded (matches w 0xF800 0xA000) (rd_imm8-IsDecoded _ w w pc i d)
                            (both_IsDecoded (matches w 0xF800 0xA800)
                              (rd_imm8-IsDecoded _ w w pc i d)
                              (both_IsDecoded (matches w 0xF000 0xB000) (misc-IsDecoded w w pc i d)
                                (both_IsDecoded (matches w 0xF000 0xC000)
                                  (multiple-IsDecoded w w pc i d)
                                  (both_IsDecoded (matches w 0xF000 0xD000)
                                    (branch_cond-IsDecoded w w pc i d)
                                    (both_IsDecoded (matches w 0xF800 0xE000)
                                      (branch-IsDecoded w w pc i d)
                                      (both_IsDecoded (w == 0xBF00) (last_IsDecoded d)
                                        d)))))))))))))))))
