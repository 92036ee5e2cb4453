-- ===== src/Decoder/Thumb32/Fields.antt =====
-- The fields that the 32-bit decoder and `decode` fill in are in range.
use lecerf.Base.{
  ℕ, ◌<◌, Bool, true, false, not, ◌==◌, ◌&&◌, if◌then◌else◌, ◌⊎◌, inl, inr, ◌≡◌, refl, arith, add32,
}
use lecerf.Bus.{Mmio, bus_r16}
use lecerf.Decoder.Insn.{Insn, op_t32_ubfx, op_t32_sbfx, op_t32_clz, op_t32_rbit}
use lecerf.Decoder.Thumb16.{set_undef, matches, field, is_t32, decode_thumb16}
use lecerf.Decoder.Thumb16.Fields.{decode_thumb16-IsDecoded}
use lecerf.Decoder.Thumb32.Range.{
  IsInstruction, IsPair, pair, branch_32-IsInstruction, modified-IsInstruction, plain-IsInstruction,
  register-IsInstruction, shift_reg-IsInstruction, multiply-IsInstruction,
  multiply_long-IsInstruction, bit_field-IsInstruction, one_register-IsInstruction,
}
use lecerf.Decoder.Thumb32.RangeMemory.{
  load_store-IsInstruction, dual-IsInstruction, multiple_32-IsInstruction,
  table_branch-IsInstruction, vfp_multiple-IsInstruction, vfp_single-IsInstruction,
  vfp_move-IsInstruction, vfp_data-IsInstruction,
}
use lecerf.Decoder.Thumb32.{is_branch_32, insert_op, late_groups, groups_32, decode_thumb32, decode}

-- Both branches of a test.
both :
    {pc size : ℕ} (b : Bool) {x y : Insn}
    → IsInstruction pc size x
    → IsInstruction pc size y
    → IsInstruction pc size (if b then x else y)
both true p q = p
both false p q = q

late_groups-IsInstruction :
    (w0 w1 pc : ℕ) (b : IsPair w0 w1) (i : Insn)
    → IsInstruction pc 4 i
    → IsInstruction pc 4 (late_groups w0 w1 i)
unfolding late_groups
late_groups-IsInstruction w0 w1 pc b i d =
    both (matches w0 0xFE40 0xE800 && not (field w0 7 1 == field w0 8 1))
      (multiple_32-IsInstruction w0 w1 pc b i d)
      (both (matches w0 0xFFF0 0xE8D0 && matches w1 0xFFE0 0xF000)
        (table_branch-IsInstruction w0 w1 pc b i d)
        (both (matches w0 0xFBF0 0xF360) (bit_field-IsInstruction w0 w1 pc b (insert_op w0) i d) (
          both (matches w0 0xFBF0 0xF3C0) (bit_field-IsInstruction w0 w1 pc b op_t32_ubfx i d) (
            both (matches w0 0xFBF0 0xF340) (bit_field-IsInstruction w0 w1 pc b op_t32_sbfx i d) (
              both (matches w0 0xFFF0 0xFAB0 && matches w1 0xF0F0 0xF080)
                (one_register-IsInstruction w0 w1 pc b op_t32_clz i d)
                (both (matches w0 0xFFF0 0xFA90 && matches w1 0xF0F0 0xF0A0)
                  (one_register-IsInstruction w0 w1 pc b op_t32_rbit i d)
                  (both
                    (matches w0 0xFE00 0xEC00
                      && (matches (field w1 8 0xF) 0xE 0xA
                          && not ((field w0 8 1 == 1) && (field w0 5 1 == 0))))
                    (vfp_multiple-IsInstruction w0 w1 pc b i d)
                    (both (matches w0 0xFF00 0xED00 && (field w1 8 0xF == 0xA))
                      (vfp_single-IsInstruction w0 w1 pc b i d)
                      (both
                        (matches w0 0xFFE0 0xEE00
                          && ((field w1 8 0xF == 0xA) && matches w1 0x7F 0x10))
                        (vfp_move-IsInstruction w0 w1 pc b i d)
                        (both (matches w0 0xFF00 0xEE00 && (field w1 8 0xF == 0xA))
                          (vfp_data-IsInstruction w0 w1 pc b i d) d))))))))))

groups_32-IsInstruction :
    (w0 w1 pc : ℕ) (b : IsPair w0 w1) (i : Insn)
    → IsInstruction pc 4 i
    → IsInstruction pc 4 (groups_32 w0 w1 i)
unfolding groups_32
groups_32-IsInstruction w0 w1 pc b i d =
    both (is_branch_32 w0 w1) (branch_32-IsInstruction w0 w1 pc b i d) (
      both (matches w0 0xFA00 0xF000 && (field w1 15 1 == 0))
        (modified-IsInstruction w0 w1 pc b i d)
        (both (matches w0 0xFA00 0xF200 && (field w1 15 1 == 0))
          (plain-IsInstruction w0 w1 pc b i d)
          (both (matches w0 0xFE00 0xF800) (load_store-IsInstruction w0 w1 pc b i d) (
            both (matches w0 0xFE40 0xE840) (dual-IsInstruction w0 w1 pc b i d) (
              both (matches w0 0xFE00 0xEA00) (register-IsInstruction w0 w1 pc b i d) (
                both (matches w0 0xFFA0 0xFA00 && matches w1 0xF0F0 0xF000)
                  (shift_reg-IsInstruction w0 w1 pc b i d)
                  (both (matches w0 0xFF80 0xFB00) (multiply-IsInstruction w0 w1 pc b i d) (
                    both (matches w0 0xFF80 0xFB80) (multiply_long-IsInstruction w0 w1 pc b i d)
                      (late_groups-IsInstruction w0 w1 pc b i d)))))))))

pub decode_thumb32-IsInstruction :
    (w0 w1 pc : ℕ) (out : Insn) → w1 < 65536 → IsInstruction pc 4 (decode_thumb32 w0 w1 pc out)
unfolding decode_thumb32 set_undef
decode_thumb32-IsInstruction w0 w1 pc out h =
    groups_32-IsInstruction w0 w1 pc (pair w0 w1 h) _ record {
      at_pc = refl;
      of_size = refl;
      rd_lt = omega arith;
      rn_lt = omega arith;
      rm_lt = omega arith;
      rs_lt = omega arith;
      cond_lt = omega arith;
      list_lt = omega arith;
    }

decode_thumb16-IsInstruction :
    (w pc : ℕ) (out : Insn) → IsInstruction pc 2 (decode_thumb16 w pc out)
decode_thumb16-IsInstruction w pc out =
    let d = decode_thumb16-IsDecoded w pc out in
    record {
      at_pc = d.at_pc;
      of_size = d.short;
      rd_lt = d.rd_lt;
      rn_lt = d.rn_lt;
      rm_lt = d.rm_lt;
      rs_lt = d.rs_lt;
      cond_lt = d.cond_lt;
      list_lt = d.list_lt;
    }

module _ {T S : Type 0} (m : Mmio T S) where
  -- The size is 2 or 4 and the fields are in range.
  abbrev pub IsDecoding : ℕ → (ℕ × Insn) × S → Type 0
  IsDecoding pc r = ((r.0.0 ≡ 2) ⊎ (r.0.0 ≡ 4)) × IsInstruction pc r.0.0 r.0.1

  -- Whatever the memory holds, `decode` returns 2 or 4, and the instruction that it fills in has
  -- that size and the address, its four register numbers (`rd`, `rn`, `rm` and `rs`) and its
  -- condition are below 16, and its register list has 16 bits.
  pub decode-IsInstruction : (pc : ℕ) (out : Insn) (s : S) → IsDecoding pc (decode m pc out s)
  unfolding decode bus_r16
  decode-IsInstruction pc out s =
      let (w0, s1) = bus_r16 m pc s in
      let (w1, s2) = bus_r16 m (add32 pc 2) s1 in
      elim (is_t32 w0)
        as (λ b. IsDecoding pc (
          if b
          then ((4, decode_thumb32 w0 w1 pc out), s2)
          else ((2, decode_thumb16 w0 pc out), s1))) [
            | true ↦ (inr refl, decode_thumb32-IsInstruction w0 w1 pc out (omega arith))
            | false ↦ (inl refl, decode_thumb16-IsInstruction w0 pc out)
          ]
