-- ===== src/Codegen/Paths.antt =====
-- The jumps of PUSH, POP, LDM and STM between the path in flat memory and the path through the bus
-- land where they should: the sizes that the emitters add up are those of the code.
pub mod Stack
pub mod Multiple
use lecerf.Base.{
  ℕ, zero, suc, ◌+◌, ◌-◌, ◌*◌, ◌^◌, ◌≤◌, ◌<◌, Bool, true, false, ◌==◌, ◌&&◌, leb, ltb,
  if◌then◌else◌, u8, has, Option, none, some, List, [], ◌∷◌, ◌++◌, length, length-append, drop,
  get_or, Bool-cases, inl, inr, ==_of_ne, ◌≡◌, ◌≢◌, refl, sym, ap, ◌∙◌, arith,
}
use mathlib.Core.List.{append_assoc, append-nil}
use native.Mathlib.Numerals.{unary_clauses}
use native.Mathlib.Decide.{ℕ_discrete}
use lecerf.Cpu.{reg_sp, reg_pc}
use lecerf.Codegen.Stack.{
  Sram, each, total, over_size, over_jump, ja_target, jb_target, too_far, in_bounds,
}

-- Where a jump of two bytes at offset `at`, with a distance below 128 in its second byte, goes.
abbrev after_jump : List ℕ → ℕ → List ℕ
after_jump code at = drop (at + 2 + get_or code (at + 1) 0) code

drop-length : {A : Type 0} (xs ys : List A) (n : ℕ) → n ≡ length xs → drop n (xs ++ ys) ≡ ys
drop-length [] ys n e = rw e refl
drop-length (x ∷ xs) ys zero e = absurd (omega (arith, e))
drop-length (x ∷ xs) ys (suc n) e = drop-length xs ys n (omega (arith, e))

pub length-each :
    (f : ℕ → ℕ → List ℕ) (size : ℕ → ℕ) (off : ℕ) (ks : List ℕ)
    → ((k off : ℕ) → length (f k off) ≡ size k)
    → length (each f off ks) ≡ total size ks
unfolding each total
length-each f size off [] h = refl
length-each f size off (k ∷ ks) h = omega (
  arith,
  length-append (f k off) (each f (off + 4) ks),
  h k off,
  length-each f size (off + 4) ks h,
)

pub length-each_const :
    (f : ℕ → ℕ → List ℕ) (c off : ℕ) (ks : List ℕ)
    → ((k off : ℕ) → length (f k off) ≡ c)
    → length (each f off ks) ≡ length ks * c
unfolding each
length-each_const f c off [] h = omega arith
length-each_const f c off (k ∷ ks) h = omega (
  arith,
  length-append (f k off) (each f (off + 4) ks),
  h k off,
  length-each_const f c (off + 4) ks h,
)

drop-append : {A : Type 0} (xs ys : List A) (k : ℕ) → drop (length xs + k) (xs ++ ys) ≡ drop k ys
drop-append [] ys k = let z : 0 + k ≡ k = omega arith in rw z refl
drop-append (x ∷ xs) ys k =
    let z : suc (length xs) + k ≡ suc (length xs + k) = omega arith in rw z (drop-append xs ys k)

get_or-append : (xs ys : List ℕ) (k : ℕ) → get_or (xs ++ ys) (length xs + k) 0 ≡ get_or ys k 0
get_or-append [] ys k = let z : 0 + k ≡ k = omega arith in rw z refl
get_or-append (x ∷ xs) ys k =
    let z : suc (length xs) + k ≡ suc (length xs + k) = omega arith in rw z (get_or-append xs ys k)

after_jump-append :
    (xs ys : List ℕ) (k : ℕ) → after_jump (xs ++ ys) (length xs + k) ≡ after_jump ys k
after_jump-append xs ys k =
    let at : length xs + k + 1 ≡ length xs + (k + 1) = omega arith in
    let e : get_or (xs ++ ys) (length xs + k + 1) 0 ≡ get_or ys (k + 1) 0 =
      rw at (get_or-append xs ys (k + 1)) in
    let from : length xs + k + 2 + get_or (xs ++ ys) (length xs + k + 1) 0
        ≡ length xs + (k + 2 + get_or ys (k + 1) 0) =
      omega (arith, e) in
    rw from (drop-append xs ys (k + 2 + get_or ys (k + 1) 0))

-- The code with two paths: the tests of the bounds at offset `n` go on in `body`, or to `slow` by
-- the jumps at offsets `n + 5` and `n + 12`; after `body` a jump over all of `slow` ends the code.
pub record IsTwoPaths (code : List ℕ) (n : ℕ) (body slow : List ℕ) : Type 0 where
  pub below_lands : after_jump code (n + 5) ≡ slow
  pub above_lands : after_jump code (n + 12) ≡ slow
  pub body_stands : (rest : List ℕ) × (drop (n + 14) code ≡ body ++ rest)
  pub over_lands : drop (n + 14 + length body) code ≡ over_jump (length slow) ++ slow

over_jump-length : (n : ℕ) → length (over_jump n) ≡ over_size n
over_jump-length n = elim (Bool-cases (leb n 127)) [ inl e ↦ rw e refl | inr e ↦ rw e refl ]

pub two_paths :
    (start body slow : List ℕ) (m : Sram) (cnt fast_body slow_body : ℕ)
    → length body ≡ fast_body
    → length slow ≡ slow_body
    → too_far fast_body slow_body ≡ false
    → IsTwoPaths
        (start ++ (in_bounds m cnt fast_body slow_body ++ (body ++ over_jump slow_body ++ slow)))
        (length start)
        body
        slow
two_paths start body slow m cnt fast_body slow_body b l near =
    let jb = jb_target fast_body slow_body in
    let ja = ja_target fast_body slow_body in
    let over = over_jump slow_body in
    let tests = in_bounds m cnt fast_body slow_body in
    let whole = tests ++ (body ++ over ++ slow) in
    let close : jb < 128 = ground (arith, near) in
    let close' : ja < 128 = ground (arith, near) in
    let size : length over ≡ over_size slow_body = over_jump-length slow_body in
    let both : body ++ over ++ slow ≡ body ++ (over ++ slow) = append_assoc body over slow in
    record {
      below_lands =
          after_jump-append start whole 5
          ∙ (drop-length (tests ++ (body ++ over)) slow (7 + u8 jb)
              (omega (arith, length-append body over, size, b, close)));
      above_lands =
          after_jump-append start whole 12
          ∙ (drop-length (tests ++ (body ++ over)) slow (14 + u8 ja)
              (omega (arith, length-append body over, size, b, close')));
      body_stands = (over ++ slow, drop-append start whole 14 ∙ both);
      over_lands =
          let at : length start + 14 + length body ≡ length start + (14 + length body) =
            omega arith in
          rw (at, l)
            (drop-append start whole (14 + length body)
              ∙ ap (drop (14 + length body)) (ap (λ (x : List ℕ). tests ++ x) both)
              ∙ drop-length (tests ++ body) (over ++ slow) (14 + length body) (omega arith));
    }
