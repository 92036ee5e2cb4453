-- ===== src/X86/Reach.antt =====
-- Runs of one piece of code after another.
use lecerf.Base.{ℕ, zero, suc, ◌+◌, Option, some, List, ◌≡◌, refl, arith, Option-cases, inl, inr}
use lecerf.Codegen.Emit.{Target}
use lecerf.X86.{Machine}
use lecerf.X86.Decode.{step, run}

-- The end of a run over some code: the rest of the code, and a machine with a property.
pub data Reaches (P : Machine → Type 0) (rest : List ℕ) : Option (List ℕ × Machine) → Type 0 where
  reached : (x' : Machine) → P x' → Reaches P rest (some (rest, x'))

module _ (t : Target) where
  -- A run of so many instructions, and then a run of more.
  pub run-add :
      (a b : ℕ) (code rest : List ℕ) (x x' : Machine)
      → run t a code x ≡ some (rest, x')
      → run t (a + b) code x ≡ run t b rest x'
  unfolding run
  run-add zero b code rest x x' e = let n : 0 + b ≡ b = omega arith in rw n (cc e)
  run-add (suc a) b code rest x x' e = elim (Option-cases (step t code x)) [
    | inl f ↦ absurd (cc (rw (run, f) at e))
    | inr ((rest', x1), f) ↦
        let n : suc a + b ≡ suc (a + b) = omega arith in
        rw (n, run, f) (run-add a b rest' rest x1 x' (rw (run, f) at e))
  ]

  -- Code that reaches a machine with a property, and code that goes on from each such machine.
  pub Reaches-then :
      (P Q : Machine → Type 0) (a b : ℕ) (code mid rest : List ℕ) (x : Machine)
      → Reaches P mid (run t a code x)
      → ((x' : Machine) → P x' → Reaches Q rest (run t b mid x'))
      → Reaches Q rest (run t (a + b) code x)
  Reaches-then P Q a b code mid rest x first second = go (run t a code x) first refl
    where
      go :
          (o : Option (List ℕ × Machine))
          → Reaches P mid o
          → run t a code x ≡ o
          → Reaches Q rest (run t (a + b) code x)
      go _ (reached x' p) e = rw (run-add a b code mid x x' e) (second x' p)
