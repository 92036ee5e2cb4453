-- ===== src/X86/Code.antt =====
-- What pieces of native code do, from each machine with a property to one with another property,
-- and the pieces of the data processing in these terms.
use lecerf.Base.{
  ℕ, ◌+◌, ◌^◌, ◌<◌, bit_and, bit_or, Bool, true, false, leb, ltb, add32, sub32, of_bool, Option,
  List, ◌++◌, IsU32, ◌≡◌, refl, ap, ◌∙◌,
}
use mathlib.Core.List.{append_assoc}
use lecerf.Cpu.{Cpu, set_reg, cpu_set_flags_nz, cpu_set_flags_nzcv_add, cpu_set_flags_nzcv_sub}
use lecerf.Cpu.Apsr.{sum_overflows, difference_overflows}
use lecerf.Codegen.Emit.{Target, ld_eax, ld_ecx, st_eax}
use lecerf.Codegen.Flags.{emit_flags_nzcv, emit_flags_nz}
use lecerf.X86.Word.{IsLayout}
use lecerf.X86.Reach.{reached, Reaches, run-add}
use lecerf.X86.Nzcv.{packed_nz, packed, IsFlagged, run-emit_flags_nz, run-emit_flags_nzcv}
use lecerf.X86.Apsr.{nz_word, sum_word, difference_word}
use lecerf.X86.Alu.{IsOut, IsReady, run-ld_eax, run-ld_ecx, run-st_eax}
use lecerf.X86.{Machine, flag_byte}
use lecerf.X86.Decode.{run}

-- From each machine with `P`, the code runs to its end and reaches a machine with `Q`.
abbrev pub Does : Target → (Machine → Type 0) → List ℕ → (Machine → Type 0) → Type 0
Does t P code Q =
    (rest : List ℕ) (x : Machine) → P x → (n : ℕ) × Reaches Q rest (run t n (code ++ rest) x)

pub does-append :
    (t : Target) (P Q R : Machine → Type 0) (code code' : List ℕ)
    → Does t P code Q
    → Does t Q code' R
    → Does t P (code ++ code') R
does-append t P Q R code code' first second rest x p =
    let (a, reach) = first (code' ++ rest) x p in
    let joined = append_assoc code code' rest in
    go a (run t a (code ++ (code' ++ rest)) x) reach refl
  where
    go :
        (a : ℕ) (o : Option (List ℕ × Machine))
        → Reaches Q (code' ++ rest) o
        → run t a (code ++ (code' ++ rest)) x ≡ o
        → (n : ℕ) × Reaches R rest (run t n (code ++ code' ++ rest) x)
    go a _ (reached x' q) e =
        let (b, reach) = second rest x' q in
        (
          a + b,
          rw
              (
                append_assoc code code' rest,
                run-add t a b (code ++ (code' ++ rest)) (code' ++ rest) x x' e,
              )
              reach,
        )

-- The CPU of a machine.
abbrev pub HasCpu : Cpu → Machine → Type 0
HasCpu c x = x.cpu ≡ c

-- A word in eax, over a CPU.
pub record IsEax (v : ℕ) (c : Cpu) (x : Machine) : Type 0 where
  pub word : x.reg 0 ≡ v
  pub cpu_kept : x.cpu ≡ c

pub Reaches-map :
    (P Q : Machine → Type 0) (rest : List ℕ) (o : Option (List ℕ × Machine))
    → ((x : Machine) → P x → Q x)
    → Reaches P rest o
    → Reaches Q rest o
Reaches-map P Q rest _ f (reached x' p) = reached x' (f x' p)

-- A CPU with the APSR of another that differs only there.
with_apsr :
    (c k : Cpu) (x : Machine) (w : ℕ) (d : Cpu)
    → x.cpu ≡ record k { apsr = w }
    → k ≡ c
    → w ≡ d.apsr
    → record c { apsr = d.apsr } ≡ d
    → x.cpu ≡ d
with_apsr c k x w d h hk hw hd =
    h ∙ ap (λ (e : Cpu). record e { apsr = w }) hk ∙ ap (λ (v : ℕ). record c { apsr = v }) hw ∙ hd

module _ (t : Target) (lay : IsLayout t) where
  pub nz-does :
      (r : ℕ) (cf of : Bool) (c : Cpu)
      → Does t (IsOut r cf of c) (emit_flags_nz t) (IsEax r (cpu_set_flags_nz c r))
  unfolding cpu_set_flags_nz
  nz-does r cf of c rest x h =
      let flagged =
        IsFlagged (x.reg 0) (bit_or (bit_and x.cpu.apsr 0x3FFFFFFF) (packed_nz (flag_byte x)))
          x.cpu in
      (
        16,
        Reaches-map flagged _ rest _
            (λ x' k. record {
              word = k.value_kept ∙ h.value;
              cpu_kept =
                  with_apsr c x.cpu x' _ (cpu_set_flags_nz c r) k.cpu_flagged h.cpu_kept
                    (nz_word x.cpu x r h.sign h.is_zero
                      ∙ ap (λ (d : Cpu). (cpu_set_flags_nz d r).apsr) h.cpu_kept)
                    refl;
            })
            (run-emit_flags_nz t lay rest x),
      )

  pub sum-does :
      (a b : ℕ) (c : Cpu)
      → IsU32 a
      → IsU32 b
      → Does t
          (IsOut (add32 a b) (leb (2 ^ 32) (a + b)) (sum_overflows a b) c)
          (emit_flags_nzcv t false)
          (IsEax (add32 a b) (cpu_set_flags_nzcv_add c a b (add32 a b) false))
  unfolding cpu_set_flags_nzcv_add
  sum-does a b c ha hb rest x h =
      let d = λ (e : Cpu). cpu_set_flags_nzcv_add e a b (add32 a b) false in
      let flagged =
        IsFlagged (x.reg 0)
          (bit_or (bit_and x.cpu.apsr 0x0FFFFFFF) (packed false (flag_byte x) (of_bool x.of)))
          x.cpu in
      (
        24,
        Reaches-map flagged _ rest _
            (λ x' k. record {
              word = k.value_kept ∙ h.value;
              cpu_kept =
                  with_apsr c x.cpu x' _ (d c) k.cpu_flagged h.cpu_kept
                    (sum_word x.cpu x a b ha hb h.sign h.is_zero h.carry_out h.overflow_out
                      ∙ ap (λ (e : Cpu). (d e).apsr) h.cpu_kept)
                    refl;
            })
            (run-emit_flags_nzcv t lay false rest x),
      )

  pub difference-does :
      (a b : ℕ) (c : Cpu)
      → IsU32 a
      → IsU32 b
      → Does t
          (IsOut (sub32 a b) (ltb a b) (difference_overflows a b) c)
          (emit_flags_nzcv t true)
          (IsEax (sub32 a b) (cpu_set_flags_nzcv_sub c a b (sub32 a b)))
  unfolding cpu_set_flags_nzcv_sub
  difference-does a b c ha hb rest x h =
      let d = λ (e : Cpu). cpu_set_flags_nzcv_sub e a b (sub32 a b) in
      let flagged =
        IsFlagged (x.reg 0)
          (bit_or (bit_and x.cpu.apsr 0x0FFFFFFF) (packed true (flag_byte x) (of_bool x.of)))
          x.cpu in
      (
        25,
        Reaches-map flagged _ rest _
            (λ x' k. record {
              word = k.value_kept ∙ h.value;
              cpu_kept =
                  with_apsr c x.cpu x' _ (d c) k.cpu_flagged h.cpu_kept
                    (difference_word x.cpu x a b ha hb h.sign h.is_zero h.carry_out h.overflow_out
                      ∙ ap (λ (e : Cpu). (d e).apsr) h.cpu_kept)
                    refl;
            })
            (run-emit_flags_nzcv t lay true rest x),
      )

  pub store-does :
      (n v : ℕ) (c : Cpu) → n < 16 → Does t (IsEax v c) (st_eax t n) (HasCpu (set_reg c n v))
  store-does n v c h rest x k = (1, run-st_eax t lay n v c rest x h k.word k.cpu_kept)

  pub load-does : (n : ℕ) (c : Cpu) → n < 16 → Does t (HasCpu c) (ld_eax t n) (IsEax (c.r n) c)
  load-does n c h rest x k = (
    1,
    Reaches-map (IsReady (x.cpu.r n) (x.reg 1) x.cpu) _ rest _
        (λ x' r. record { word = r.first ∙ ap (λ (e : Cpu). e.r n) k; cpu_kept = r.cpu_kept ∙ k })
        (run-ld_eax t lay n rest x h),
  )

  load_second-does :
      (n a : ℕ) (c : Cpu) → n < 16 → Does t (IsEax a c) (ld_ecx t n) (IsReady a (c.r n) c)
  load_second-does n a c h rest x k = (
    1,
    Reaches-map (IsReady (x.reg 0) (x.cpu.r n) x.cpu) _ rest _
        (λ x' r. record {
          first = r.first ∙ k.word;
          second = r.second ∙ ap (λ (e : Cpu). e.r n) k.cpu_kept;
          cpu_kept = r.cpu_kept ∙ k.cpu_kept;
        })
        (run-ld_ecx t lay n rest x h),
  )

  pub loads-do :
      (n m : ℕ) (c : Cpu)
      → n < 16
      → m < 16
      → Does t (HasCpu c) (ld_eax t n ++ ld_ecx t m) (IsReady (c.r n) (c.r m) c)
  loads-do n m c hn hm =
      does-append t _ _ _ (ld_eax t n) (ld_ecx t m) (load-does n c hn)
        (load_second-does m (c.r n) c hm)

-- A weaker property at the end.
pub does-map :
    (t : Target) (P Q R : Machine → Type 0) (code : List ℕ)
    → ((x : Machine) → Q x → R x)
    → Does t P code Q
    → Does t P code R
does-map t P Q R code f does rest x p =
    let (n, reach) = does rest x p in (n, Reaches-map Q R rest (run t n (code ++ rest) x) f reach)
