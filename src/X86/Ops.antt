-- ===== src/X86/Ops.antt =====
-- The native code of data processing does what the cases of `execute` do.
use lecerf.Base.{
  ℕ, ◌+◌, ◌^◌, ◌%◌, ◌<◌, Bool, true, false, leb, ltb, add32, sub32, if◌then◌else◌, List, [], ◌++◌,
  IsU32, ◌≡◌, arith, Bool-cases, inl, inr, ap, ◌∙◌,
}
use mathlib.Core.List.{append-nil}
use lecerf.Cpu.{Cpu, set_reg, cpu_set_flags_nz, cpu_set_flags_nzcv_add, cpu_set_flags_nzcv_sub}
use lecerf.Cpu.Apsr.{sum_overflows, difference_overflows}
use lecerf.Decoder.Insn.{Insn}
use lecerf.Executor.Alu.{put_nz, put_sum, put_difference, sum32}
use lecerf.Executor.Wide.{put_logic, put_adds, put_subs}
use lecerf.Codegen.Emit.{Target, st_eax}
use lecerf.Codegen.Flags.{emit_flags_nzcv, emit_flags_nz}
use lecerf.X86.Word.{IsLayout}
use lecerf.X86.Alu.{IsOut}
use lecerf.X86.Code.{
  Does, does-append, HasCpu, IsEax, nz-does, sum-does, difference-does, store-does, does-map,
}
use lecerf.X86.{Machine}

-- A sum, a difference and a logical result in eax, with their flags.
abbrev pub IsSum : ℕ → ℕ → Cpu → Machine → Type 0
IsSum a b c = IsOut (add32 a b) (leb (2 ^ 32) (a + b)) (sum_overflows a b) c

abbrev pub IsDifference : ℕ → ℕ → Cpu → Machine → Type 0
IsDifference a b c = IsOut (sub32 a b) (ltb a b) (difference_overflows a b) c

abbrev pub IsLogic : ℕ → Cpu → Machine → Type 0
IsLogic r c = IsOut r false false c

module _ (t : Target) (lay : IsLayout t) (i : Insn) (c : Cpu) where
  unflagged : (r : ℕ) (cf of : Bool) (x : Machine) → IsOut r cf of c x → IsEax r c x
  unflagged r cf of x h = record { word = h.value; cpu_kept = h.cpu_kept }

  -- The end of the code, without and with the flags, and without the store.
  pub plain_end :
      (r : ℕ) (cf of : Bool) (code : List ℕ)
      → i.rd < 16
      → Does t (HasCpu c) code (IsOut r cf of c)
      → Does t (HasCpu c) (code ++ st_eax t i.rd) (HasCpu (set_reg c i.rd r))
  plain_end r cf of code hd does =
      does-append t _ (IsEax r c) _ code (st_eax t i.rd)
        (does-map t _ (IsOut r cf of c) _ code (unflagged r cf of) does)
        (store-does t lay i.rd r c hd)

  pub sum_end :
      (a b : ℕ) (code : List ℕ)
      → i.rd < 16
      → IsU32 a
      → IsU32 b
      → Does t (HasCpu c) code (IsSum a b c)
      → Does t
          (HasCpu c)
          (code ++ emit_flags_nzcv t false ++ st_eax t i.rd)
          (HasCpu (put_sum i c a b false))
  unfolding cpu_set_flags_nzcv_add
  sum_end a b code hd ha hb does =
      let d = cpu_set_flags_nzcv_add c a b (add32 a b) false in
      let sum : add32 a b ≡ sum32 a b false = ap (λ (k : ℕ). k % 4294967296) (omega arith) in
      let end : set_reg d i.rd (add32 a b) ≡ put_sum i c a b false =
        ap (λ (s : ℕ). cpu_set_flags_nzcv_add (set_reg c i.rd s) a b s false) sum in
      does-map t _ (HasCpu (set_reg d i.rd (add32 a b))) _
        (code ++ emit_flags_nzcv t false ++ st_eax t i.rd) (λ x h. h ∙ end)
        (does-append t _ (IsEax (add32 a b) d) _ (code ++ emit_flags_nzcv t false) (st_eax t i.rd)
          (does-append t _ (IsSum a b c) _ code (emit_flags_nzcv t false) does
            (sum-does t lay a b c ha hb))
          (store-does t lay i.rd (add32 a b) d hd))

  pub difference_end :
      (a b : ℕ) (code : List ℕ)
      → i.rd < 16
      → IsU32 a
      → IsU32 b
      → Does t (HasCpu c) code (IsDifference a b c)
      → Does t
          (HasCpu c)
          (code ++ emit_flags_nzcv t true ++ st_eax t i.rd)
          (HasCpu (put_difference i c a b))
  unfolding cpu_set_flags_nzcv_sub
  difference_end a b code hd ha hb does =
      let d = cpu_set_flags_nzcv_sub c a b (sub32 a b) in
      does-append t _ (IsEax (sub32 a b) d) _ (code ++ emit_flags_nzcv t true) (st_eax t i.rd)
        (does-append t _ (IsDifference a b c) _ code (emit_flags_nzcv t true) does
          (difference-does t lay a b c ha hb))
        (store-does t lay i.rd (sub32 a b) d hd)

  pub logic_end :
      (r : ℕ) (code : List ℕ)
      → i.rd < 16
      → Does t (HasCpu c) code (IsLogic r c)
      → Does t (HasCpu c) (code ++ emit_flags_nz t ++ st_eax t i.rd) (HasCpu (put_nz i c r))
  unfolding cpu_set_flags_nz
  logic_end r code hd does =
      does-append t _ (IsEax r (cpu_set_flags_nz c r)) _ (code ++ emit_flags_nz t) (st_eax t i.rd)
        (does-append t _ (IsLogic r c) _ code (emit_flags_nz t) does
          (nz-does t lay r false false c))
        (store-does t lay i.rd r (cpu_set_flags_nz c r) hd)

  -- Without the store.
  pub sum_flags :
      (a b : ℕ) (code : List ℕ)
      → IsU32 a
      → IsU32 b
      → Does t (HasCpu c) code (IsSum a b c)
      → Does t
          (HasCpu c)
          (code ++ emit_flags_nzcv t false)
          (HasCpu (cpu_set_flags_nzcv_add c a b (add32 a b) false))
  sum_flags a b code ha hb does =
      let d = cpu_set_flags_nzcv_add c a b (add32 a b) false in
      does-map t _ (IsEax (add32 a b) d) _ (code ++ emit_flags_nzcv t false) (λ x h. h.cpu_kept)
        (does-append t _ (IsSum a b c) _ code (emit_flags_nzcv t false) does
          (sum-does t lay a b c ha hb))

  pub difference_flags :
      (a b : ℕ) (code : List ℕ)
      → IsU32 a
      → IsU32 b
      → Does t (HasCpu c) code (IsDifference a b c)
      → Does t
          (HasCpu c)
          (code ++ emit_flags_nzcv t true)
          (HasCpu (cpu_set_flags_nzcv_sub c a b (sub32 a b)))
  difference_flags a b code ha hb does =
      let d = cpu_set_flags_nzcv_sub c a b (sub32 a b) in
      does-map t _ (IsEax (sub32 a b) d) _ (code ++ emit_flags_nzcv t true) (λ x h. h.cpu_kept)
        (does-append t _ (IsDifference a b c) _ code (emit_flags_nzcv t true) does
          (difference-does t lay a b c ha hb))

  pub logic_flags_end :
      (r : ℕ) (code : List ℕ)
      → Does t (HasCpu c) code (IsLogic r c)
      → Does t (HasCpu c) (code ++ emit_flags_nz t) (HasCpu (cpu_set_flags_nz c r))
  logic_flags_end r code does =
      does-map t _ (IsEax r (cpu_set_flags_nz c r)) _ (code ++ emit_flags_nz t) (λ x h. h.cpu_kept)
        (does-append t _ (IsLogic r c) _ code (emit_flags_nz t) does
          (nz-does t lay r false false c))

  -- With the flags where the instruction asks for them.
  pub adds_end :
      (a b : ℕ) (code : List ℕ)
      → i.rd < 16
      → IsU32 a
      → IsU32 b
      → Does t (HasCpu c) code (IsSum a b c)
      → Does t
          (HasCpu c)
          (code ++ (if i.set_flags then emit_flags_nzcv t false else []) ++ st_eax t i.rd)
          (HasCpu (put_adds i c a b false))
  adds_end a b code hd ha hb does = elim (Bool-cases i.set_flags) [
    | inl e ↦ rw e (sum_end a b code hd ha hb does)
    | inr e ↦
        let sum : add32 a b ≡ sum32 a b false = ap (λ (k : ℕ). k % 4294967296) (omega arith) in
        rw (e, append-nil code)
          (does-map t _ (HasCpu (set_reg c i.rd (add32 a b))) _ (code ++ st_eax t i.rd)
            (λ x h. h ∙ ap (set_reg c i.rd) sum) (plain_end (add32 a b) _ _ code hd does))
  ]

  pub subs_end :
      (a b : ℕ) (code : List ℕ)
      → i.rd < 16
      → IsU32 a
      → IsU32 b
      → Does t (HasCpu c) code (IsDifference a b c)
      → Does t
          (HasCpu c)
          (code ++ (if i.set_flags then emit_flags_nzcv t true else []) ++ st_eax t i.rd)
          (HasCpu (put_subs i c a b))
  subs_end a b code hd ha hb does = elim (Bool-cases i.set_flags) [
    | inl e ↦ rw e (difference_end a b code hd ha hb does)
    | inr e ↦ rw (e, append-nil code) (plain_end (sub32 a b) _ _ code hd does)
  ]

  pub logics_end :
      (r : ℕ) (code : List ℕ)
      → i.rd < 16
      → Does t (HasCpu c) code (IsLogic r c)
      → Does t
          (HasCpu c)
          (code ++ (if i.set_flags then emit_flags_nz t else []) ++ st_eax t i.rd)
          (HasCpu (put_logic i c r))
  logics_end r code hd does = elim (Bool-cases i.set_flags) [
    | inl e ↦ rw e (logic_end r code hd does)
    | inr e ↦ rw (e, append-nil code) (plain_end r _ _ code hd does)
  ]
