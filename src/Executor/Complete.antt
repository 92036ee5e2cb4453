-- ===== src/Executor/Complete.antt =====
-- Data processing of `execute` completes: nothing in it can fail or leave the CPU, and it writes no
-- register but its own.
use lecerf.Base.{
  ℕ, ◌+◌, Bool, true, false, not, ◌==◌, ◌&&◌, if◌then◌else◌, add32, u64, Option, none, some, ◌≡◌,
  ◌≢◌, refl, sym, ap, ◌∙◌, arith, ==_of_ne,
}
use lecerf.Cpu.{Cpu, Mode, reg_pc, reg_sp, cpu_in_it, cpu_it_advance}
use lecerf.Exception.{Host}
use lecerf.Decoder.Insn.{Insn, Opcode}
use lecerf.Executor.Kept.{
  IsOther, if-eq, running, running_after, arith_16-running, logic_16-running, shift_16-running,
  address_16-running, extend_16-running, modified_imm-running, plain_imm-running,
  shifted_reg-running, shift_32-running, multiply-running, bitfield-running,
}
use lecerf.Executor.Kept.Special.{system-running, vfp-running}
use lecerf.Executor.Cond.{op_is_flagsetter}
use lecerf.Executor.Vfp.{Float, vfp}
use lecerf.Executor.Alu.{arith_16, logic_16, shift_16, address_16, extend_16}
use lecerf.Executor.Wide.{modified_imm, plain_imm, shifted_reg, shift_32}
use lecerf.Executor.Multiply.{multiply}
use lecerf.Executor.Bitfield.{bitfield}
use lecerf.Executor.System.{system}
use lecerf.Executor.Control.{branches, high_regs}
use lecerf.Executor.{
  ◌orelse◌, data_processing, it_pass, is_it, retire_insn, skip_insn, dispatch, execute, ending,
  on_cpu, on_branch,
}

-- `running` is unchanged where there is an answer.
record Keeps (k : ℕ) (c : Cpu) (o : Option Cpu) : Type 0 where
  same : running_after k c o ≡ running k c

keeps : {k : ℕ} {c : Cpu} (o : Option Cpu) → running_after k c o ≡ running k c → Keeps k c o
keeps o h = record { same = h }

infixr 4 ◌also◌
◌also◌ : {k : ℕ} {c : Cpu} {a b : Option Cpu} → Keeps k c a → Keeps k c b → Keeps k c (a orelse b)
◌also◌ {a = some c'} h k = h
◌also◌ {a = none} h k = k

data_processing-Keeps :
    (f : Float) (op : Opcode) (i : Insn) (k : ℕ)
    → IsOther i k
    → (c : Cpu) → Keeps k c (data_processing f op i c)
unfolding data_processing
data_processing-Keeps f op i k o c =
    keeps (arith_16 op i c) (arith_16-running i k o op c)
    also keeps (logic_16 op i c) (logic_16-running i k o op c)
    also keeps (shift_16 op i c) (shift_16-running i k o op c)
    also keeps (address_16 op i c) (address_16-running i k o op c)
    also keeps (extend_16 op i c) (extend_16-running i k o op c)
    also keeps (modified_imm op i c) (modified_imm-running i k o op c)
    also keeps (plain_imm op i c) (plain_imm-running i k o op c)
    also keeps (shifted_reg op i c) (shifted_reg-running i k o op c)
    also keeps (shift_32 op i c) (shift_32-running i k o op c)
    also keeps (multiply op i c) (multiply-running i k o op c)
    also keeps (bitfield op i c) (bitfield-running i k o op c)
    also keeps (system op i c) (system-running i k o op c)
    also keeps (vfp f op i c) (vfp-running i k o f op c)

-- What the end of an instruction makes of the CPU.
retire_insn-running :
    (op : Opcode) (in_it : Bool) (saved_apsr next_pc : ℕ) (k : ℕ) (c : Cpu)
    → (k == reg_pc) ≡ false
    → running k (retire_insn op in_it saved_apsr next_pc c)
      ≡ (u64 (c.cycles + 1), c.halted, c.mode, c.r k)
unfolding retire_insn cpu_it_advance
retire_insn-running op in_it saved_apsr next_pc k c ne =
    let c1 : Cpu =
      if in_it && not (op_is_flagsetter op) then record c { apsr = saved_apsr } else c in
    let e1 : running k c1 ≡ running k c =
      if-eq (running k) (in_it && not (op_is_flagsetter op)) refl refl in
    let e2 : running k (if in_it && not (is_it op) then cpu_it_advance c1 else c1) ≡ running k c =
      if-eq (running k) (in_it && not (is_it op)) e1 e1 in
    rw ne (ap (λ (t : ℕ × Bool × Mode × ℕ). (u64 (t.0 + 1), t.1, t.2, t.3)) e2)

-- The flags are those of before the IT block's instruction, unless it compares.
retire_insn-apsr :
    (op : Opcode) (saved_apsr next_pc : ℕ) (c : Cpu)
    → op_is_flagsetter op ≡ false
    → (retire_insn op true saved_apsr next_pc c).apsr ≡ saved_apsr
unfolding retire_insn cpu_it_advance
retire_insn-apsr op saved_apsr next_pc c plain =
    rw plain (if-eq (λ (c' : Cpu). c'.apsr) (not (is_it op)) refl refl)

-- The laws of the CPU in the state of a board.
pub record IsHost {T S : Type 0} (h : Host T S) : Type 0 where
  pub get-put : (c : Cpu) (s : S) → h.get_cpu (h.put_cpu c s) ≡ c
  pub put-put : (c c' : Cpu) (s : S) → h.put_cpu c (h.put_cpu c' s) ≡ h.put_cpu c s

-- `c'` is the CPU `c` after data processing `i`: the cycle counter has counted one modulo 2 ^ 64, PC is
-- past the instruction, and the halt flag, the mode and the registers other than `rd`, `rs`, SP and PC are as
-- they were; in an IT block so are the flags, unless `i` compares.
pub record IsComplete (i : Insn) (c c' : Cpu) : Type 0 where
  pub counted : c'.cycles ≡ u64 (c.cycles + 1)
  pub moved : c'.r reg_pc ≡ add32 (c.r reg_pc) i.size
  pub same_halted : c'.halted ≡ c.halted
  pub same_mode : c'.mode ≡ c.mode
  pub kept : (k : ℕ) → k ≢ i.rd → k ≢ i.rs → k ≢ reg_sp → k ≢ reg_pc → c'.r k ≡ c.r k
  pub flags : cpu_in_it c ≡ true → op_is_flagsetter i.op ≡ false → c'.apsr ≡ c.apsr

other : (i : Insn) (k : ℕ) → k ≢ i.rd → k ≢ i.rs → k ≢ reg_sp → IsOther i k
other i k h h' h'' = record {
  not_rd = ==_of_ne k i.rd h;
  not_rs = ==_of_ne k i.rs h';
  not_sp = ==_of_ne k reg_sp h'';
}

-- A number that is no register that `i` writes.
abbrev spare : Insn → ℕ
spare i = i.rd + i.rs + 16

spare-IsOther : (i : Insn) → IsOther i (spare i)
spare-IsOther i = record { not_rd = ground arith; not_rs = ground arith; not_sp = ground arith }

retire_insn-IsComplete :
    (f : Float) (i : Insn) (c c' : Cpu)
    → data_processing f i.op i c ≡ some c'
    → IsComplete i c (retire_insn i.op (cpu_in_it c) c.apsr (add32 (c.r reg_pc) i.size) c')
retire_insn-IsComplete f i c c' e =
    let next_pc = add32 (c.r reg_pc) i.size in
    let after : (k : ℕ)
        → IsOther i k
        → (k == reg_pc) ≡ false
        → running k (retire_insn i.op (cpu_in_it c) c.apsr next_pc c')
          ≡ (u64 (c.cycles + 1), c.halted, c.mode, c.r k) =
      λ k o ne.
        retire_insn-running i.op (cpu_in_it c) c.apsr next_pc k c' ne
        ∙ ap (λ (t : ℕ × Bool × Mode × ℕ). (u64 (t.0 + 1), t.1, t.2, t.3))
            (ap (running_after k c) (sym e) ∙ (data_processing-Keeps f i.op i k o c).same) in
    let any = after (spare i) (spare-IsOther i) (ground arith) in
    record {
      counted = ap (λ (t : ℕ × Bool × Mode × ℕ). t.0) any;
      moved = unfold retire_insn in refl;
      same_halted = ap (λ (t : ℕ × Bool × Mode × ℕ). t.1) any;
      same_mode = ap (λ (t : ℕ × Bool × Mode × ℕ). t.2) any;
      kept = λ k h h' h'' ne.
          ap (λ (t : ℕ × Bool × Mode × ℕ). t.3)
            (after k (other i k h h' h'') (==_of_ne k reg_pc ne));
      flags = λ inside plain. rw inside (retire_insn-apsr i.op c.apsr next_pc c' plain);
    }

skip_insn-IsComplete :
    (i : Insn) (c : Cpu) → IsComplete i c (skip_insn (add32 (c.r reg_pc) i.size) c)
unfolding skip_insn cpu_it_advance
skip_insn-IsComplete i c = record {
  counted = refl;
  moved = refl;
  same_halted = refl;
  same_mode = refl;
  kept = λ k h h' h'' ne. rw (==_of_ne k reg_pc ne) refl;
  flags = λ inside plain. refl;
}

module _ {T S : Type 0} (h : Host T S) (f : Float) (law : IsHost h) where
  -- The end of an instruction whose data processing gave `c'`.
  ending-data :
      (i : Insn) (s : S) (c' : Cpu) (op : Opcode) (in_it : Bool) (saved_apsr next_pc : ℕ)
      → data_processing f i.op i (h.get_cpu s) ≡ some c'
      → ending h f op in_it saved_apsr (dispatch h f i next_pc (h.get_cpu s) s)
        ≡ (true, h.put_cpu (retire_insn op in_it saved_apsr next_pc c') s)
  unfolding dispatch ending on_cpu
  ending-data i s c' op in_it saved_apsr next_pc e =
      rw (e, law.get-put c' s, law.put-put (retire_insn op in_it saved_apsr next_pc c') c' s) refl

  -- Data processing, executed or skipped by an IT block, completes: `execute` succeeds and changes
  -- nothing on the board but the CPU, whose cycle counter counts one modulo 2 ^ 64 and whose PC moves
  -- past the instruction. The halt flag, the mode and every register other than the instruction's
  -- `rd` and `rs`, SP and PC stay; in an IT block the flags stay too, unless the instruction
  -- compares.
  pub execute-IsComplete :
      (i : Insn) (s : S) (c' : Cpu)
      → data_processing f i.op i (h.get_cpu s) ≡ some c'
      → (c'' : Cpu) × (execute h f i s ≡ (true, h.put_cpu c'' s)) × IsComplete i (h.get_cpu s) c''
  unfolding execute
  execute-IsComplete i s c' e =
      let c = h.get_cpu s in
      let next_pc = add32 (c.r reg_pc) i.size in
      elim (cpu_in_it c && not (it_pass c))
        as (λ b.
          (c'' : Cpu) × ((if b
              then (true, h.put_cpu (skip_insn next_pc c) s)
              else ending h f i.op (cpu_in_it c) c.apsr (dispatch h f i next_pc c s))
            ≡ (true, h.put_cpu c'' s))
          × IsComplete i c c'') [
            | true ↦ (skip_insn next_pc c, refl, skip_insn-IsComplete i c)
            | false ↦ (
              retire_insn i.op (cpu_in_it c) c.apsr next_pc c',
              ending-data i s c' i.op (cpu_in_it c) c.apsr next_pc e,
              retire_insn-IsComplete f i c c' e,
            )
          ]

  -- The CPU after an instruction outside an IT block, for data processing and for a branch.
  pub execute-on_cpu :
      (i : Insn) (s : S) (c' : Cpu)
      → cpu_in_it (h.get_cpu s) ≡ false
      → data_processing f i.op i (h.get_cpu s) ≡ some c'
      → execute h f i s ≡ (
        true,
        h.put_cpu
            (retire_insn i.op false (h.get_cpu s).apsr (add32 ((h.get_cpu s).r reg_pc) i.size) c')
            s,
      )
  unfolding execute
  execute-on_cpu i s c' out e =
      let c = h.get_cpu s in
      rw out (ending-data i s c' i.op false c.apsr (add32 (c.r reg_pc) i.size) e)

  pub execute-on_branch :
      (i : Insn) (s : S) (pc : ℕ) (c' : Cpu)
      → cpu_in_it (h.get_cpu s) ≡ false
      → data_processing f i.op i (h.get_cpu s) ≡ none
      → let next_pc = add32 ((h.get_cpu s).r reg_pc) i.size in
        (branches i.op i next_pc (h.get_cpu s) orelse high_regs i.op i next_pc (h.get_cpu s))
          ≡ some (pc, c')
        → execute h f i s ≡ (true, h.put_cpu (retire_insn i.op false (h.get_cpu s).apsr pc c') s)
  unfolding execute dispatch ending on_cpu on_branch
  execute-on_branch i s pc c' out e e' =
      rw
        (
          out,
          e,
          e',
          law.get-put c' s,
          law.put-put (retire_insn i.op false (h.get_cpu s).apsr pc c') c' s,
        )
        refl
