-- ===== src/Bus/Find.antt =====
-- The search for a region: the first one that covers an address.
use lecerf.Base.{
  ℕ, zero, suc, ◌+◌, ◌^◌, ◌≤◌, ◌<◌, Bool, true, false, if◌then◌else◌, Option, none, some, List, [],
  ◌∷◌, get_elem?, set, ◌≡◌, ◌≢◌, refl, ap, ◌∙◌, arith, IsU32, Bool-cases, ◌⊎◌, inl, inr,
}
use lecerf.Bus.{Region, Bus, covers, first, next_index, find_region}

module _ {T : Type 0} where
  -- `i` is the least index at which `p` holds, and the region there is `r`.
  pub record IsFirst (p : Region T → Bool) (rs : List (Region T)) (i : ℕ) (r : Region T)
      : Type 0 where
    pub there : get_elem? rs i ≡ some r
    pub holds : p r ≡ true
    pub earlier : (j : ℕ) (q : Region T) → j < i → get_elem? rs j ≡ some q → p q ≡ false

  first-cons :
      (p : Region T → Bool) (q : Region T) (rs : List (Region T)) {i : ℕ} {r : Region T}
      → first p (q ∷ rs) ≡ some (i, r)
      → (p q ≡ true) × (i ≡ 0) × (r ≡ q)
        ⊎ (p q ≡ false) × (j : ℕ) × (i ≡ suc j) × (first p rs ≡ some (j, r))
  unfolding first
  first-cons p q rs {i} {r} e = elim (Bool-cases (p q)) [
    | inl now ↦ inl (now, ground arith, ground arith)
    | inr later ↦
        let (j, next, rest) = of_rest (first p rs) (rw later at e) in inr (later, j, next, rest)
  ]
    where
      of_rest :
          (o : Option (ℕ × Region T))
          → next_index o ≡ some (i, r)
          → (j : ℕ) × (i ≡ suc j) × (o ≡ some (j, r))
      of_rest none h = cc
      of_rest (some (k, q')) h = (k, ground arith, ground arith)

  earlier_cons :
      {p : Region T → Bool} {q : Region T} (rs : List (Region T)) {i : ℕ}
      → ((j : ℕ) (q' : Region T) → j < i → get_elem? rs j ≡ some q' → p q' ≡ false)
      → p q ≡ false
      → (k : ℕ) (q' : Region T) → k < suc i
      → get_elem? (q ∷ rs) k ≡ some q'
      → p q' ≡ false
  earlier_cons rs f h zero q' lt g = ground arith
  earlier_cons rs f h (suc k) q' lt g = f k q' (omega arith) g

  pub first-IsFirst :
      (p : Region T → Bool) (rs : List (Region T)) {i : ℕ} {r : Region T}
      → first p rs ≡ some (i, r)
      → IsFirst p rs i r
  unfolding first
  first-IsFirst p [] e = cc
  first-IsFirst p (q ∷ rs) e = elim (first-cons p q rs e) [
    | inl (now, zeroth, here) ↦ record {
      there = rw (zeroth, here);
      holds = rw here now;
      earlier = λ j q' h g. absurd (omega arith);
    }
    | inr (not_now, j, next, rest) ↦
        let f = first-IsFirst p rs rest in
        record {
          there = rw next f.there;
          holds = f.holds;
          earlier = λ k q' h g. earlier_cons rs f.earlier not_now k q' (omega arith) g;
        }
  ]

  -- Replacing another region by one that answers the test alike.
  pub first-set_ne :
      (p : Region T → Bool) (rs : List (Region T)) (i : ℕ) {j : ℕ} {r q q' : Region T}
      → first p rs ≡ some (j, r)
      → get_elem? rs i ≡ some q
      → p q' ≡ p q
      → j ≢ i
      → first p (set rs i q') ≡ some (j, r)
  unfolding first
  first-set_ne p [] i e g h ne = cc
  first-set_ne p (x ∷ rs) zero e g h ne = elim (first-cons p x rs e) [
    | inl (now, zeroth, here) ↦ absurd (ne zeroth)
    | inr (not_now, k, next, rest) ↦ ground arith
  ]
  first-set_ne p (x ∷ rs) (suc i) e g h ne = elim (first-cons p x rs e) [
    | inl (now, zeroth, here) ↦ rw (now, zeroth, here)
    | inr (not_now, k, next, rest) ↦
        rw (not_now, next, first-set_ne p rs i rest g h (λ eq. ne (next ∙ ap suc eq)))
  ]

  first-none :
      (p : Region T → Bool) (rs : List (Region T)) (j : ℕ) {q : Region T}
      → first p rs ≡ none
      → get_elem? rs j ≡ some q
      → p q ≡ false
  unfolding first
  first-none p [] j e g = cc
  first-none p (q ∷ rs) zero e g = ground arith
  first-none p (q ∷ rs) (suc j) e g = first-none p rs j (of_cons (first p rs) (p q) e) g
    where
      of_cons :
          (o : Option (ℕ × Region T)) (t : Bool)
          → (if t then some (0, q) else next_index o) ≡ none
          → o ≡ none
      of_cons none t h = refl
      of_cons (some (k, q')) true h = cc
      of_cons (some (k, q')) false h = cc

  -- Replacing the region that was found by one that passes the same test.
  pub first-set :
      (p : Region T → Bool) (rs : List (Region T)) {i : ℕ} {r : Region T} (r' : Region T)
      → first p rs ≡ some (i, r)
      → p r' ≡ true
      → first p (set rs i r') ≡ some (i, r')
  unfolding first
  first-set p [] r' e h = cc
  first-set p (q ∷ rs) r' e h = elim (first-cons p q rs e) [
    | inl (now, zeroth, here) ↦ rw (zeroth, h)
    | inr (not_now, j, next, rest) ↦ rw (next, not_now, first-set p rs r' rest h)
  ]

  pub base-le : (r : Region T) (a : ℕ) → covers a r ≡ true → r.base ≤ a
  unfolding covers
  base-le r a h = ground arith

  -- A region of 32-bit base and size whose end lies at or past 2 ^ 32 covers no address.
  pub covers_wrapped :
      (r : Region T) (a : ℕ)
      → IsU32 r.base
      → r.size < 2 ^ 32
      → 2 ^ 32 ≤ r.base + r.size
      → covers a r ≡ false
  unfolding covers
  covers_wrapped r a hb hs hw = ground arith

  -- `find_region` returns the first region that covers the address: one at that index covers it,
  -- and none before it does.
  pub find_region-IsFirst :
      (b : Bus T) (a : ℕ) {i : ℕ} {r : Region T}
      → find_region b a ≡ some (i, r)
      → IsFirst (covers a) b.regs i r
  unfolding find_region
  find_region-IsFirst b a e = first-IsFirst (covers a) b.regs e

  -- `find_region` fails only where no region covers the address.
  pub find_region-none :
      (b : Bus T) (a j : ℕ) {q : Region T}
      → find_region b a ≡ none
      → get_elem? b.regs j ≡ some q
      → covers a q ≡ false
  unfolding find_region
  find_region-none b a j e g = first-none (covers a) b.regs j e g
