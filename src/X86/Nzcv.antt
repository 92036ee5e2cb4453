-- ===== src/X86/Nzcv.antt =====
-- The native code that brings the flags of x86-64 into APSR, run to its end.
use lecerf.Base.{
  ℕ, ◌+◌, ◌%◌, ◌^◌, ◌<◌, bit_and, bit_or, bit_xor, Bool, true, false, shl32, if◌then◌else◌, of_bool,
  ◌>>>◌, List, ◌++◌, IsU32, ◌≡◌, refl, arith, Bool-cases, inl, inr, ap,
}
use lecerf.Cpu.{Cpu}
use lecerf.Codegen.Emit.{Target, lahf, emit_lahf_seto_cl, movzx_edx_ah, mov_r11d_eax, mov_eax_r11d}
use lecerf.Codegen.Flags.{place_nz, place_cv, merge_apsr, emit_flags_nzcv, emit_flags_nz}
use lecerf.X86.Reach.{reached, Reaches, Reaches-then}
use lecerf.X86.Word.{IsLayout, word_of-w32, read32-apsr, write32-apsr, al_back, ah_back}
use lecerf.X86.{Machine, flag_byte}
use lecerf.X86.Decode.{run}

-- N and Z from the byte of the flags, as the code places them.
abbrev pub packed_nz : ℕ → ℕ
packed_nz fb = bit_or (shl32 (fb >>> 7) 31) (shl32 (bit_and (fb >>> 6) 1) 30)

-- C, turned round for a subtraction, and V beside the flags of a word; and all four flags.
abbrev with_cv : Bool → ℕ → ℕ → ℕ → ℕ
with_cv is_sub word fb v =
    let carry = bit_and fb 1 in
    bit_or (bit_or word (shl32 (if is_sub then bit_xor carry 1 else carry) 29)) (shl32 v 28)

abbrev pub packed : Bool → ℕ → ℕ → ℕ
packed is_sub fb v = with_cv is_sub (packed_nz fb) fb v

flag_byte-lt : (x : Machine) → flag_byte x < 2 ^ 8
unfolding flag_byte
flag_byte-lt x = ground arith

-- What the parts of the code leave: the result in eax, the CPU, the byte of the flags in edx, the
-- overflow in cl, and a word in esi.
record IsLoaded (value fb v : ℕ) (c : Cpu) (x : Machine) : Type 0 where
  value_kept : x.reg 0 ≡ value
  flags : x.reg 2 ≡ fb
  overflow : x.reg 1 % 2 ^ 8 ≡ v
  cpu_kept : x.cpu ≡ c

record IsPlaced (value fb v word : ℕ) (c : Cpu) (x : Machine) : Type 0 where
  load_kept : IsLoaded value fb v c x
  placed : x.reg 6 ≡ word

pub record IsFlagged (value apsr : ℕ) (c : Cpu) (x : Machine) : Type 0 where
  pub value_kept : x.reg 0 ≡ value
  pub cpu_flagged : x.cpu ≡ record c { apsr = apsr }

module _ (t : Target) (lay : IsLayout t) where
  run-place_nz :
      (value fb v : ℕ) (c : Cpu) (rest : List ℕ) (x : Machine)
      → IsLoaded value fb v c x
      → Reaches (IsPlaced value fb v (packed_nz fb) c) rest (run t 8 (place_nz ++ rest) x)
  unfolding run
  run-place_nz value fb v c rest x h = reached _ (record {
    load_kept = record {
      value_kept = h.value_kept;
      flags = h.flags;
      overflow = h.overflow;
      cpu_kept = h.cpu_kept;
    };
    placed = ap packed_nz h.flags;
  })

  run-load_cv :
      (rest : List ℕ) (x : Machine)
      → Reaches
          (IsLoaded (x.reg 0) (flag_byte x) (of_bool x.of) x.cpu)
          rest
          (run t 5 (mov_r11d_eax ++ emit_lahf_seto_cl ++ movzx_edx_ah ++ mov_eax_r11d ++ rest) x)
  unfolding run
  run-load_cv rest x =
      let fb = flag_byte x in
      reached _ (record {
        value_kept = refl;
        flags = ah_back (x.reg 0) fb (x.reg 0 % 2 ^ 8) (flag_byte-lt x) (omega arith);
        overflow = al_back (x.reg 1) (of_bool x.of) (ground arith);
        cpu_kept = refl;
      })

  run-load :
      (rest : List ℕ) (x : Machine)
      → Reaches
          (IsLoaded (x.reg 0) (flag_byte x) (x.reg 1 % 2 ^ 8) x.cpu)
          rest
          (run t 4 (mov_r11d_eax ++ lahf ++ movzx_edx_ah ++ mov_eax_r11d ++ rest) x)
  unfolding run
  run-load rest x =
      let fb = flag_byte x in
      reached _ (record {
        value_kept = refl;
        flags = ah_back (x.reg 0) fb (x.reg 0 % 2 ^ 8) (flag_byte-lt x) (omega arith);
        overflow = refl;
        cpu_kept = refl;
      })

  run-place_cv :
      (is_sub : Bool) (value fb v word : ℕ) (c : Cpu) (rest : List ℕ) (x : Machine)
      → IsPlaced value fb v word c x
      → Reaches
          (IsPlaced value fb v (with_cv is_sub word fb v) c)
          rest
          (run t (if is_sub then 8 else 7) (place_cv is_sub ++ rest) x)
  unfolding run
  run-place_cv true value fb v word c rest x h =
      let k = h.load_kept in
      reached _ (record {
        load_kept = record {
          value_kept = k.value_kept;
          flags = k.flags;
          overflow = k.overflow;
          cpu_kept = k.cpu_kept;
        };
        placed = rw (h.placed, k.flags, k.overflow) refl;
      })
  run-place_cv false value fb v word c rest x h =
      let k = h.load_kept in
      reached _ (record {
        load_kept = record {
          value_kept = k.value_kept;
          flags = k.flags;
          overflow = k.overflow;
          cpu_kept = k.cpu_kept;
        };
        placed = rw (h.placed, k.flags, k.overflow) refl;
      })

  run-merge_apsr :
      (mask value fb v word : ℕ) (c : Cpu) (rest : List ℕ) (x : Machine)
      → IsU32 mask
      → IsPlaced value fb v word c x
      → Reaches
          (IsFlagged value (bit_or (bit_and c.apsr mask) word) c)
          rest
          (run t 4 (merge_apsr t mask ++ rest) x)
  unfolding run
  run-merge_apsr mask value fb v word c rest x small h =
      let k = h.load_kept in
      rw (word_of-w32 t.apsr_off (omega (arith, lay.fits)), word_of-w32 mask small)
        (reached _ (record {
          value_kept = k.value_kept;
          cpu_flagged = rw (write32-apsr t lay, read32-apsr t lay x.cpu, h.placed, k.cpu_kept) refl;
        }))

  -- The flags of a logical operation.
  pub run-emit_flags_nz :
      (rest : List ℕ) (x : Machine)
      → Reaches
          (IsFlagged
            (x.reg 0)
            (bit_or (bit_and x.cpu.apsr 0x3FFFFFFF) (packed_nz (flag_byte x)))
            x.cpu)
          rest
          (run t 16 (emit_flags_nz t ++ rest) x)
  unfolding emit_flags_nz
  run-emit_flags_nz rest x =
      let fb = flag_byte x in
      let v = x.reg 1 % 2 ^ 8 in
      let value = x.reg 0 in
      let merge = merge_apsr t 0x3FFFFFFF ++ rest in
      Reaches-then t (IsLoaded value fb v x.cpu) _ 4 12 (emit_flags_nz t ++ rest)
        (place_nz ++ merge) rest x (run-load (place_nz ++ merge) x)
        (λ x1 h1.
          Reaches-then t (IsPlaced value fb v (packed_nz fb) x.cpu) _ 8 4 (place_nz ++ merge) merge
            rest x1 (run-place_nz value fb v x.cpu merge x1 h1)
            (λ x2 h2.
              run-merge_apsr 0x3FFFFFFF value fb v (packed_nz fb) x.cpu rest x2 (omega arith) h2))

  -- The flags of a sum or a difference.
  pub run-emit_flags_nzcv :
      (is_sub : Bool) (rest : List ℕ) (x : Machine)
      → Reaches
          (IsFlagged
            (x.reg 0)
            (bit_or (bit_and x.cpu.apsr 0x0FFFFFFF) (packed is_sub (flag_byte x) (of_bool x.of)))
            x.cpu)
          rest
          (run t (if is_sub then 25 else 24) (emit_flags_nzcv t is_sub ++ rest) x)
  unfolding emit_flags_nzcv
  run-emit_flags_nzcv is_sub rest x =
      let fb = flag_byte x in
      let v = of_bool x.of in
      let value = x.reg 0 in
      let word = packed is_sub fb v in
      let merge = merge_apsr t 0x0FFFFFFF ++ rest in
      let cv = place_cv is_sub ++ merge in
      let n : ℕ = if is_sub then 8 else 7 in
      let whole : emit_flags_nzcv t is_sub ++ rest
          ≡ mov_r11d_eax ++ emit_lahf_seto_cl ++ movzx_edx_ah ++ mov_eax_r11d ++ (place_nz ++ cv) =
        elim (Bool-cases is_sub) [
          | inl e ↦ rw (emit_flags_nzcv, e) refl
          | inr e ↦ rw (emit_flags_nzcv, e) refl
        ] in
      let count : (if is_sub then 25 else 24) ≡ 5 + (8 + (n + 4)) = elim (Bool-cases is_sub) [
        | inl e ↦ rw e refl
        | inr e ↦ rw e refl
      ] in
      rw (whole, count)
        (Reaches-then t (IsLoaded value fb v x.cpu) _ 5 (8 + (n + 4)) _ (place_nz ++ cv) rest x
          (run-load_cv (place_nz ++ cv) x)
          (λ x1 h1.
            Reaches-then t (IsPlaced value fb v (packed_nz fb) x.cpu) _ 8 (n + 4) (place_nz ++ cv)
              cv rest x1 (run-place_nz value fb v x.cpu cv x1 h1)
              (λ x2 h2.
                Reaches-then t (IsPlaced value fb v word x.cpu) _ n 4 cv merge rest x2
                  (run-place_cv is_sub value fb v (packed_nz fb) x.cpu merge x2 h2)
                  (λ x3 h3.
                    run-merge_apsr 0x0FFFFFFF value fb v word x.cpu rest x3 (omega arith) h3))))
