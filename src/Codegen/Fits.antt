-- ===== src/Codegen/Fits.antt =====
-- The room that `codegen_emit` asks for is enough, except for lists of registers.
use lecerf.Base.{
  ℕ, ◌+◌, ◌*◌, ◌≤◌, true, false, not, ltb, Option, none, some, List, [], ◌∷◌, ◌++◌, length,
  length-append, Bool-cases, inl, inr, ltb_of_lt, ◌≡◌, refl, ap, ◌∙◌, arith,
}
use lecerf.Decoder.Insn.{Insn}
use mathlib.Core.List.{append_assoc, append-nil}
use lecerf.Bus.{Bus}
use lecerf.Codegen.Stack.{Sram}
use lecerf.Codegen.Block.{
  insn_native_ok, all_insns, Codegen, emit_b, emit_all, thunk_code, sram_of, codegen_emit,
}
use lecerf.Codegen.Op.{codegen_supports}
use lecerf.Codegen.Emit.{Target}
use lecerf.Codegen.OpSizes.{is_multiple, length-thunk_code}

-- Bytes that fit are all there, in order.
emit_all-fits :
    (bs : List ℕ) (cg : Codegen)
    → length cg.buffer + length bs ≤ cg.capacity
    → emit_all bs cg ≡ record cg { buffer = cg.buffer ++ bs }
unfolding emit_all emit_b
emit_all-fits [] cg h = rw (append-nil cg.buffer) refl
emit_all-fits (b ∷ bs) cg h = rw (ltb_of_lt (length cg.buffer) cg.capacity (omega arith)) (
    emit_all-fits bs (record cg { buffer = cg.buffer ++ b ∷ [] })
      (omega (arith, length-append cg.buffer (b ∷ []), h))
    ∙ ap (λ (x : List ℕ). record cg { buffer = x }) (append_assoc cg.buffer (b ∷ []) bs))

emit_all-le :
    (bs : List ℕ) (cg : Codegen)
    → length cg.buffer ≤ cg.capacity
    → length (emit_all bs cg).buffer ≤ (emit_all bs cg).capacity
unfolding emit_all emit_b
emit_all-le [] cg h = h
emit_all-le (b ∷ bs) cg h = elim (Bool-cases (ltb (length cg.buffer) cg.capacity)) [
  | inl room ↦
      rw (emit_all, emit_b, room)
        (emit_all-le bs (record cg { buffer = cg.buffer ++ b ∷ [] })
          (ground (arith, room, length-append cg.buffer (b ∷ []))))
  | inr full ↦ rw (emit_all, emit_b, full) (emit_all-le bs cg h)
]

fits_in_room :
    (used n size capacity : ℕ)
    → ltb capacity (used + n * 160 + 64) ≡ false
    → 1 ≤ n
    → size ≤ n * 147 + 67
    → used + size ≤ capacity
fits_in_room used n size capacity room one short = ground arith

-- What `codegen_emit` gives for a block without lists of registers: nothing, with the buffer as it
-- was, or the offset of the whole thunk, which stands behind what was there.
pub data IsEmitted (t : Target) (sram : Option Sram) (is : List Insn) (cg : Codegen)
    : Option ℕ × Codegen → Type 0 where
  refused : IsEmitted t sram is cg (none, cg)
  emitted :
      (cg' : Codegen)
      → cg'.buffer ≡ cg.buffer ++ thunk_code t sram is
      → cg'.capacity ≡ cg.capacity
      → length cg'.buffer ≤ cg.capacity
      → IsEmitted t sram is cg (some (length cg.buffer), cg')

-- For a block of at least one instruction, without PUSH, POP, LDM and STM, `codegen_emit` gives no
-- thunk and leaves the buffer alone, or it appends the whole thunk within the capacity.
pub codegen_emit-IsEmitted :
    {T : Type 0} (t : Target) (b : Option (Bus T)) (i : Insn) (is : List Insn) (cg : Codegen)
    → all_insns (λ j. not (is_multiple j.op)) (i ∷ is) ≡ true
    → IsEmitted t (sram_of t b) (i ∷ is) cg (codegen_emit t b (i ∷ is) cg)
unfolding codegen_emit
codegen_emit-IsEmitted t b i is cg h =
    let ins = i ∷ is in
    let code = thunk_code t (sram_of t b) ins in
    elim (Bool-cases (all_insns (λ j. codegen_supports j.op) ins)) [
      | inr e ↦ rw (codegen_emit, e) refused
      | inl e ↦
          rw (codegen_emit, e)
            (elim (Bool-cases (all_insns insn_native_ok ins)) [
              | inr f ↦ rw f refused
              | inl f ↦
                  rw f
                    (elim (Bool-cases
                      (ltb cg.capacity (length cg.buffer + length ins * 160 + 64))) [
                        | inl full ↦ rw full refused
                        | inr room ↦
                            let fits : length cg.buffer + length code ≤ cg.capacity =
                              fits_in_room (length cg.buffer) (length ins) (length code) cg.capacity
                                room (omega arith) (length-thunk_code t (sram_of t b) ins h) in
                            rw (room, emit_all-fits code cg fits)
                              (emitted _ refl refl
                                (omega (arith, length-append cg.buffer code, fits)))
                      ])
            ])
    ]

-- No block makes the code longer than the buffer.
pub codegen_emit-le :
    {T : Type 0} (t : Target) (b : Option (Bus T)) (ins : List Insn) (cg : Codegen)
    → length cg.buffer ≤ cg.capacity
    → length (codegen_emit t b ins cg).1.buffer ≤ (codegen_emit t b ins cg).1.capacity
unfolding codegen_emit
codegen_emit-le t b ins cg h = elim (Bool-cases (all_insns (λ j. codegen_supports j.op) ins)) [
  | inr e ↦ rw (codegen_emit, e) h
  | inl e ↦
      rw (codegen_emit, e)
        (elim (Bool-cases (all_insns insn_native_ok ins)) [
          | inr f ↦ rw f h
          | inl f ↦
              rw f (elim (Bool-cases (ltb cg.capacity (length cg.buffer + length ins * 160 + 64))) [
                | inl full ↦ rw full h
                | inr room ↦ rw room (emit_all-le (thunk_code t (sram_of t b) ins) cg h)
              ])
        ])
]
