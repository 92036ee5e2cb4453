-- ===== src/X86/Alu.antt =====
-- The native data processing, from the registers of the CPU to its registers and flags.
use lecerf.Base.{
  ℕ, ◌+◌, ◌*◌, ◌^◌, ◌<◌, bit_and, bit_or, bit_xor, Bool, false, ◌==◌, leb, ltb, add32, sub32, some,
  List, ◌++◌, IsU32, ◌≡◌, refl, arith,
}
use lecerf.Base.Bits.Laws.{bit-bit_and, bit_ext, bit_and-le}
use lecerf.Cpu.{Cpu, set_reg}
use lecerf.Cpu.Apsr.{negative, sum_overflows, difference_overflows}
use lecerf.Codegen.Emit.{
  Target, ld_eax, ld_ecx, st_eax, mov_eax_imm, op_add_ec, op_sub_ec, op_and_ec, op_or_ec, op_xor_ec,
  add_imm, sub_imm, and_imm, or_imm, xor_imm, test_eax_eax,
}
use lecerf.X86.Word.{IsLayout, word_of-w32, read32-reg, write32-reg}
use lecerf.X86.Reach.{reached, Reaches}
use lecerf.X86.{Machine, put, logic_flags, flags_of_sum, flags_of_difference}
use lecerf.X86.Decode.{run}

-- A result in eax with its flags, and the CPU as it was.
pub record IsOut (r : ℕ) (carry overflow : Bool) (c : Cpu) (x : Machine) : Type 0 where
  pub value : x.reg 0 ≡ r
  pub cpu_kept : x.cpu ≡ c
  pub sign : x.sf ≡ negative r
  pub is_zero : x.zf ≡ (r == 0)
  pub carry_out : x.cf ≡ carry
  pub overflow_out : x.of ≡ overflow

-- Two operands in eax and ecx.
pub record IsReady (a b : ℕ) (c : Cpu) (x : Machine) : Type 0 where
  pub first : x.reg 0 ≡ a
  pub second : x.reg 1 ≡ b
  pub cpu_kept : x.cpu ≡ c

-- The machine after an addition, a subtraction or a logical operation on words.
sum-IsOut :
    (a b : ℕ) (c : Cpu) (rest : List ℕ) (x : Machine)
    → x.cpu ≡ c
    → Reaches
        (IsOut (add32 a b) (leb (2 ^ 32) (a + b)) (sum_overflows a b) c)
        rest
        (some (rest, put 0 (add32 a b) (flags_of_sum a b x)))
sum-IsOut a b c rest x h = reached _ (record {
  value = refl;
  cpu_kept = h;
  sign = refl;
  is_zero = refl;
  carry_out = refl;
  overflow_out = refl;
})

difference-IsOut :
    (a b : ℕ) (c : Cpu) (rest : List ℕ) (x : Machine)
    → x.cpu ≡ c
    → Reaches
        (IsOut (sub32 a b) (ltb a b) (difference_overflows a b) c)
        rest
        (some (rest, put 0 (sub32 a b) (flags_of_difference a b x)))
difference-IsOut a b c rest x h = reached _ (record {
  value = refl;
  cpu_kept = h;
  sign = refl;
  is_zero = refl;
  carry_out = refl;
  overflow_out = refl;
})

logic-IsOut :
    (r : ℕ) (c : Cpu) (rest : List ℕ) (x : Machine)
    → x.cpu ≡ c
    → Reaches (IsOut r false false c) rest (some (rest, put 0 r (logic_flags 0x80000000 r x)))
logic-IsOut r c rest x h = reached _ (record {
  value = refl;
  cpu_kept = h;
  sign = refl;
  is_zero = refl;
  carry_out = refl;
  overflow_out = refl;
})

bit_and_self : (a : ℕ) → IsU32 a → bit_and a a ≡ a
bit_and_self a h =
    bit_ext 32 (bit_and a a) a (omega (arith, bit_and-le a a)) h
      (λ k hk. omega (arith, bit-bit_and k a a))

module _ (t : Target) (lay : IsLayout t) where
  pub run-ld_eax :
      (n : ℕ) (rest : List ℕ) (x : Machine)
      → n < 16
      → Reaches (IsReady (x.cpu.r n) (x.reg 1) x.cpu) rest (run t 1 (ld_eax t n ++ rest) x)
  unfolding run
  run-ld_eax n rest x h =
      rw (word_of-w32 (t.r_off + n * 4) (omega (arith, lay.behind, lay.fits)))
        (reached _ (record { first = read32-reg t lay n x.cpu h; second = refl; cpu_kept = refl }))

  pub run-ld_ecx :
      (n : ℕ) (rest : List ℕ) (x : Machine)
      → n < 16
      → Reaches (IsReady (x.reg 0) (x.cpu.r n) x.cpu) rest (run t 1 (ld_ecx t n ++ rest) x)
  unfolding run
  run-ld_ecx n rest x h =
      rw (word_of-w32 (t.r_off + n * 4) (omega (arith, lay.behind, lay.fits)))
        (reached _ (record { first = refl; second = read32-reg t lay n x.cpu h; cpu_kept = refl }))

  pub run-add_imm :
      (a v : ℕ) (c : Cpu) (rest : List ℕ) (x : Machine)
      → IsU32 v
      → x.reg 0 ≡ a
      → x.cpu ≡ c
      → Reaches
          (IsOut (add32 a v) (leb (2 ^ 32) (a + v)) (sum_overflows a v) c)
          rest
          (run t 1 (add_imm v ++ rest) x)
  unfolding run
  run-add_imm a v c rest x h ha hc = rw (word_of-w32 v h, ha) (sum-IsOut a v c rest x hc)

  pub run-sub_imm :
      (a v : ℕ) (c : Cpu) (rest : List ℕ) (x : Machine)
      → IsU32 v
      → x.reg 0 ≡ a
      → x.cpu ≡ c
      → Reaches
          (IsOut (sub32 a v) (ltb a v) (difference_overflows a v) c)
          rest
          (run t 1 (sub_imm v ++ rest) x)
  unfolding run
  run-sub_imm a v c rest x h ha hc = rw (word_of-w32 v h, ha) (difference-IsOut a v c rest x hc)

  pub run-op_add_ec :
      (a b : ℕ) (c : Cpu) (rest : List ℕ) (x : Machine)
      → IsReady a b c x
      → Reaches
          (IsOut (add32 a b) (leb (2 ^ 32) (a + b)) (sum_overflows a b) c)
          rest
          (run t 1 (op_add_ec ++ rest) x)
  unfolding run
  run-op_add_ec a b c rest x h = rw (h.first, h.second) (sum-IsOut a b c rest x h.cpu_kept)

  pub run-op_sub_ec :
      (a b : ℕ) (c : Cpu) (rest : List ℕ) (x : Machine)
      → IsReady a b c x
      → Reaches
          (IsOut (sub32 a b) (ltb a b) (difference_overflows a b) c)
          rest
          (run t 1 (op_sub_ec ++ rest) x)
  unfolding run
  run-op_sub_ec a b c rest x h = rw (h.first, h.second) (difference-IsOut a b c rest x h.cpu_kept)

  pub run-op_and_ec :
      (a b : ℕ) (c : Cpu) (rest : List ℕ) (x : Machine)
      → IsReady a b c x
      → Reaches (IsOut (bit_and a b) false false c) rest (run t 1 (op_and_ec ++ rest) x)
  unfolding run
  run-op_and_ec a b c rest x h =
      rw (h.first, h.second) (logic-IsOut (bit_and a b) c rest x h.cpu_kept)

  pub run-op_or_ec :
      (a b : ℕ) (c : Cpu) (rest : List ℕ) (x : Machine)
      → IsReady a b c x
      → Reaches (IsOut (bit_or a b) false false c) rest (run t 1 (op_or_ec ++ rest) x)
  unfolding run
  run-op_or_ec a b c rest x h =
      rw (h.first, h.second) (logic-IsOut (bit_or a b) c rest x h.cpu_kept)

  pub run-op_xor_ec :
      (a b : ℕ) (c : Cpu) (rest : List ℕ) (x : Machine)
      → IsReady a b c x
      → Reaches (IsOut (bit_xor a b) false false c) rest (run t 1 (op_xor_ec ++ rest) x)
  unfolding run
  run-op_xor_ec a b c rest x h =
      rw (h.first, h.second) (logic-IsOut (bit_xor a b) c rest x h.cpu_kept)

module _ (t : Target) (lay : IsLayout t) where
  pub run-and_imm :
      (a v : ℕ) (c : Cpu) (rest : List ℕ) (x : Machine)
      → IsU32 v
      → x.reg 0 ≡ a
      → x.cpu ≡ c
      → Reaches (IsOut (bit_and a v) false false c) rest (run t 1 (and_imm v ++ rest) x)
  unfolding run
  run-and_imm a v c rest x h ha hc =
      rw (word_of-w32 v h, ha) (logic-IsOut (bit_and a v) c rest x hc)

  pub run-or_imm :
      (a v : ℕ) (c : Cpu) (rest : List ℕ) (x : Machine)
      → IsU32 v
      → x.reg 0 ≡ a
      → x.cpu ≡ c
      → Reaches (IsOut (bit_or a v) false false c) rest (run t 1 (or_imm v ++ rest) x)
  unfolding run
  run-or_imm a v c rest x h ha hc = rw (word_of-w32 v h, ha) (logic-IsOut (bit_or a v) c rest x hc)

  pub run-xor_imm :
      (a v : ℕ) (c : Cpu) (rest : List ℕ) (x : Machine)
      → IsU32 v
      → x.reg 0 ≡ a
      → x.cpu ≡ c
      → Reaches (IsOut (bit_xor a v) false false c) rest (run t 1 (xor_imm v ++ rest) x)
  unfolding run
  run-xor_imm a v c rest x h ha hc =
      rw (word_of-w32 v h, ha) (logic-IsOut (bit_xor a v) c rest x hc)

  pub run-mov_eax_imm :
      (v : ℕ) (rest : List ℕ) (x : Machine)
      → IsU32 v
      → Reaches (IsReady v (x.reg 1) x.cpu) rest (run t 1 (mov_eax_imm v ++ rest) x)
  unfolding run
  run-mov_eax_imm v rest x h =
      rw (word_of-w32 v h) (reached _ (record { first = refl; second = refl; cpu_kept = refl }))

  pub run-test_eax_eax :
      (a b : ℕ) (c : Cpu) (rest : List ℕ) (x : Machine)
      → IsU32 a
      → IsReady a b c x
      → Reaches (IsOut a false false c) rest (run t 1 (test_eax_eax ++ rest) x)
  unfolding run
  run-test_eax_eax a b c rest x h r =
      let same : bit_and a a ≡ a = bit_and_self a h in
      reached _ (record {
        value = r.first;
        cpu_kept = r.cpu_kept;
        sign = rw (r.first, same) refl;
        is_zero = rw (r.first, same) refl;
        carry_out = refl;
        overflow_out = refl;
      })

  -- The store of eax into a register.
  pub run-st_eax :
      (n v : ℕ) (c : Cpu) (rest : List ℕ) (x : Machine)
      → n < 16
      → x.reg 0 ≡ v
      → x.cpu ≡ c
      → Reaches (λ x'. x'.cpu ≡ set_reg c n v) rest (run t 1 (st_eax t n ++ rest) x)
  unfolding run
  run-st_eax n v c rest x h hv hc =
      rw (word_of-w32 (t.r_off + n * 4) (omega (arith, lay.behind, lay.fits)))
        (reached _ (rw (write32-reg t lay n (x.reg 0) x.cpu h, hv, hc) refl))
