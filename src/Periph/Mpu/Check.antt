-- ===== src/Periph/Mpu/Check.antt =====
-- Which region decides an access, and how: by the sizes and the table of permissions of the ARM
-- architecture manual.
use lecerf.Base.{
  ℕ, zero, suc, ◌+◌, ◌/◌, ◌%◌, ◌^◌, ◌≤◌, ◌<◌, Bool, true, false, not, ◌&&◌, ◌==◌, leb, ltb,
  if◌then◌else◌, has, ◌>>>◌, none, some, List, [], ◌∷◌, get_or, same, ◌≡◌, refl, ap, ◌∙◌, arith,
  Bool-cases, inl, inr, ==_of_ne,
}
use native.Mathlib.Decide.{ℕ_discrete}
use lecerf.Base.Bits.{bit_and_mask, two_pow_pos}
use lecerf.Periph.Mpu.{
  Mpu, MpuRegion, region_size_bytes, ap_permits, matches, find_hit, verdict, mpu_check,
}

-- The field SIZE of a region, and its bytes.
abbrev pub size_field : MpuRegion → ℕ
size_field r = r.rasr / 2 % 32

abbrev pub extent : MpuRegion → ℕ
extent r = 2 ^ (size_field r + 1)

-- The `size` bytes from `a` on lie in region `r`, which is enabled and has 32 bytes at least.
pub record Holds (a size : ℕ) (r : MpuRegion) : Type 0 where
  pub on : r.enabled ≡ true
  pub big : 4 ≤ size_field r
  pub from : r.base ≤ a
  pub to : a + size ≤ r.base + extent r

-- `hit` is the greatest index below `n` whose region holds the access.
pub record IsHighest (m : Mpu) (a size n : ℕ) (hit : ℕ) : Type 0 where
  pub below : hit < n
  pub holds : Holds a size (m.r hit)
  pub above : (j : ℕ) → hit < j → j < n → ¬ Holds a size (m.r j)

-- The enabled regions below `n` end before the last address.
abbrev pub EndBelow : Mpu → ℕ → Type 0
EndBelow m n = (i : ℕ) → i < n → (m.r i).enabled ≡ true → (m.r i).base + extent (m.r i) < 2 ^ 32

-- The rights that the values 0 to 7 of the field AP give to privileged and to other code.
pub data Right : Type 0 where
  no_access : Right
  read_only : Right
  read_write : Right

abbrev privileged : List Right
privileged =
    no_access ∷ read_write ∷ read_write ∷ read_write ∷ no_access ∷ read_only ∷ read_only ∷ read_only
    ∷ []

abbrev unprivileged : List Right
unprivileged =
    no_access ∷ no_access ∷ read_only ∷ read_write ∷ no_access ∷ no_access ∷ read_only ∷ read_only
    ∷ []

pub allows : Right → Bool → Bool
allows no_access is_write = false
allows read_only is_write = not is_write
allows read_write is_write = true

-- What region `r` allows.
unfoldable pub permitted : MpuRegion → Bool → Bool → Bool
permitted r is_write is_priv =
    allows (get_or (if is_priv then privileged else unprivileged) (r.rasr / 2 ^ 24 % 8) no_access)
      is_write

agrees : Bool → Bool → ℕ → Bool
unfolding ap_permits allows
agrees is_write is_priv ap =
    same (ap_permits ap is_write is_priv)
      (allows (get_or (if is_priv then privileged else unprivileged) ap no_access) is_write)

-- The size of a region that ends before the last address.
region_size :
    (r : MpuRegion)
    → extent r < 2 ^ 32
    → region_size_bytes r.rasr ≡ some (if ltb (size_field r) 4 then 0 else extent r)
unfolding region_size_bytes
region_size r h = elim (ℕ_discrete (size_field r) 31) [
  | yes e ↦ let p : extent r ≡ 2 ^ 32 = ap (λ n. 2 ^ (n + 1)) e in absurd (omega (arith, p))
  | no ne ↦ rw (bit_and_mask 5 (r.rasr >>> 1)) (ground arith)
]

-- Without wrap-around: region `r` has 32 bytes at least and holds the access.
abbrev covers : ℕ → ℕ → MpuRegion → Bool
covers a size r = not (ltb (size_field r) 4) && (leb r.base a && leb (a + size) (r.base + extent r))

matches-extent :
    (a size : ℕ) (r : MpuRegion)
    → a + size < 2 ^ 32
    → r.base + extent r < 2 ^ 32
    → matches a size r (extent r) ≡ (leb r.base a && leb (a + size) (r.base + extent r))
unfolding matches
matches-extent a size r small fits =
    let left : (a + size) % 2 ^ 32 ≡ a + size = omega arith in
    let right : (r.base + extent r) % 2 ^ 32 ≡ r.base + extent r = omega arith in
    rw (left, right) refl

-- One round of the loop, at an enabled region.
find_hit-suc :
    (m : Mpu) (a size i : ℕ)
    → a + size < 2 ^ 32
    → (m.r i).base + extent (m.r i) < 2 ^ 32
    → (m.r i).enabled ≡ true
    → find_hit m a size (suc i)
      ≡ (if covers a size (m.r i) then some (some i) else find_hit m a size i)
unfolding find_hit
find_hit-suc m a size i small fits on = elim (Bool-cases (ltb (size_field (m.r i)) 4)) [
  | inl tiny ↦ rw (find_hit, on, region_size (m.r i) (omega (arith, fits)), tiny) refl
  | inr big ↦
      let r = m.r i in
      let positive : (extent r == 0) ≡ false =
        ==_of_ne _ _ (λ e. absurd (omega (arith, e, two_pow_pos (size_field r + 1)))) in
      rw
        (
          find_hit,
          on,
          region_size r (omega (arith, fits)),
          big,
          positive,
          matches-extent a size r small fits,
        )
        refl
]

find_hit-skips :
    (m : Mpu) (a size i : ℕ)
    → a + size < 2 ^ 32
    → ((m.r i).enabled ≡ true → (m.r i).base + extent (m.r i) < 2 ^ 32)
    → ¬ Holds a size (m.r i)
    → find_hit m a size (suc i) ≡ find_hit m a size i
unfolding find_hit
find_hit-skips m a size i small fits apart = elim (Bool-cases (m.r i).enabled) [
  | inr off ↦ rw (find_hit, off) refl
  | inl on ↦ elim (Bool-cases (covers a size (m.r i))) [
    | inl yes_covered ↦
        absurd
          (apart (record { on = on; big = ground arith; from = ground arith; to = ground arith }))
    | inr not_covered ↦ rw (find_hit-suc m a size i small (fits on) on, not_covered) refl
  ]
]

find_hit-miss :
    (m : Mpu) (a size n : ℕ)
    → a + size < 2 ^ 32
    → EndBelow m n
    → ((j : ℕ) → j < n → ¬ Holds a size (m.r j))
    → find_hit m a size n ≡ some none
find_hit-miss m a size zero small ends miss = unfold find_hit in refl
find_hit-miss m a size (suc n) small ends miss =
    find_hit-skips m a size n small (ends n (omega arith)) (miss n (omega arith))
    ∙ find_hit-miss m a size n small (λ i lt. ends i (omega arith)) (λ j lt. miss j (omega arith))

-- With the MPU on, and where the access and the enabled regions end before the last address, an
-- access that none of the eight regions holds is allowed exactly to privileged code under
-- PRIVDEFENA.
pub mpu_check_miss :
    (m : Mpu) (a size : ℕ) (is_write is_priv : Bool)
    → has m.ctrl 1 ≡ true
    → a + size < 2 ^ 32
    → EndBelow m 8
    → ((j : ℕ) → j < 8 → ¬ Holds a size (m.r j))
    → mpu_check m a size is_write is_priv ≡ some (has m.ctrl 4 && is_priv)
unfolding mpu_check verdict
mpu_check_miss m a size is_write is_priv on small ends miss =
    rw (on, find_hit-miss m a size 8 small ends miss) refl
