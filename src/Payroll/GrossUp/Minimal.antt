-- ===== src/Payroll/GrossUp/Minimal.antt =====
-- What the bisection of app/domain/payroll/gross_up.py finds.
use plutus_hr_system.Prelude.{
  ℕ, zero, suc, ◌+◌, ◌-◌, ◌*◌, ◌/◌, ◌^◌, ◌≤◌, ◌<◌, ◌≡◌, refl, sym, ap, ◌∙◌, subst, inl, inr, true,
  false, arith, leb, if◌then◌else◌, Bool-cases, ℤ, pos, pos_part, ◌+ℤ◌, ◌-ℤ◌, ◌*ℤ◌, ◌//ℤ◌, ◌≤ℤ◌,
  ◌<ℤ◌, leb_ℤ, is_pos, max_ℤ, max_ℤ_bounds, nonneg_eq_pos, Result, ok, ◌>>=◌,
}
use native.Mathlib.Nat.{pow-suc, pow-le-pow_right}
use plutus_hr_system.Errors.{ValueError}
use plutus_hr_system.Payroll.GrossUp.{bracket, narrow, bisect, max_iterations}

-- An output that never raises: at n it is `g n`.
abbrev pub IsTotal : (ℤ → Result ValueError ℤ) → (ℕ → ℤ) → Type 0
IsTotal f g = (n : ℕ) → f (pos n) ≡ ok (g n)

abbrev pub IsMonotone : (ℕ → ℤ) → Type 0
IsMonotone g = (m n : ℕ) → m ≤ n → g m ≤ℤ g n

-- The least input whose output reaches the target.
pub record IsLeast (target : ℤ) (g : ℕ → ℤ) (r : ℕ) : Type 0 where
  pub reaches : target ≤ℤ g r
  pub below : (n : ℕ) → n < r → g n <ℤ target

halves : (rounds lo hi : ℕ) → hi ≤ lo + 2 ^ suc rounds → hi ≤ lo + (2 ^ rounds + 2 ^ rounds)
halves rounds lo hi w =
    let double : 2 ^ suc rounds ≡ 2 ^ rounds * 2 = pow-suc 2 rounds in omega arith

doubled : (hi j : ℕ) → hi * 2 ^ suc j ≡ hi * 2 * 2 ^ j
doubled hi j = let double : 2 ^ suc j ≡ 2 ^ j * 2 = pow-suc 2 j in rw double (grind arith)

scaled : (s a b w : ℕ) → a ≤ b → s * b ≤ w → s * a ≤ 0 + w
scaled s a b w h k = grind arith

module _ (target : ℤ) (f : ℤ → Result ValueError ℤ) (g : ℕ → ℤ) (total : IsTotal f g) where
  -- A step of one minor unit across the target.
  abbrev Crosses : Result ValueError ℤ → Type 0
  Crosses result = (r : ℕ) × (result ≡ ok (pos (suc r))) × (g r <ℤ target) × (target ≤ℤ g (suc r))

  crossed : (lo hi : ℕ) → hi ≡ suc lo → g lo <ℤ target → target ≤ℤ g hi → Crosses (ok (pos hi))
  crossed lo hi e below reaches =
      (lo, ap (λ (n : ℕ). ok (pos n)) e, below, subst (λ (n : ℕ). target ≤ℤ g n) e reaches)

  middle : (lo hi : ℕ) → (pos lo +ℤ pos hi) //ℤ 2 ≡ pos ((lo + hi) / 2)
  unfolding ◌+ℤ◌ ◌//ℤ◌
  middle lo hi = refl

  width : (lo hi : ℕ) → lo ≤ hi → pos hi -ℤ pos lo ≡ pos (hi - lo)
  unfolding ◌-ℤ◌
  width lo hi h = ground arith

  narrow_done :
      (rounds lo hi : ℕ)
      → hi ≡ suc lo
      → narrow target f (suc rounds) (pos lo) (pos hi) ≡ ok (pos hi)
  unfolding narrow
  narrow_done rounds lo hi e =
      let close : leb_ℤ (pos (hi - lo)) (pos 1) ≡ true = ground arith in
      rw (width lo hi (omega arith), close)

  narrow_more :
      (rounds lo hi : ℕ)
      → lo + 1 < hi
      → narrow target f (suc rounds) (pos lo) (pos hi) ≡ (
          let reached = leb_ℤ target (g ((lo + hi) / 2)) in
          narrow target f rounds
            (if reached then pos lo else pos ((lo + hi) / 2))
            (if reached then pos ((lo + hi) / 2) else pos hi))
  unfolding narrow
  narrow_more rounds lo hi h =
      let wide : leb_ℤ (pos (hi - lo)) (pos 1) ≡ false = ground arith in
      rw (width lo hi (omega arith), wide, middle lo hi, total ((lo + hi) / 2))

  -- With rounds for its width, the interval shrinks to a step across the target.
  narrow-Crosses :
      (rounds lo hi : ℕ)
      → lo < hi
      → hi ≤ lo + 2 ^ rounds
      → g lo <ℤ target
      → target ≤ℤ g hi
      → Crosses (narrow target f rounds (pos lo) (pos hi))
  narrow-Crosses zero lo hi h w below reaches =
      unfold narrow in crossed lo hi (omega arith) below reaches
  narrow-Crosses (suc rounds) lo hi h w below reaches = elim (Bool-cases (leb hi (lo + 1))) [
    | inl e ↦
        let next : hi ≡ suc lo = ground arith in
        rw (narrow_done rounds lo hi next) (crossed lo hi next below reaches)
    | inr e ↦
        let mid = (lo + hi) / 2 in
        let bound : hi ≤ lo + (2 ^ rounds + 2 ^ rounds) = halves rounds lo hi w in
        rw (narrow_more rounds lo hi (ground arith)) (elim (Bool-cases (leb_ℤ target (g mid))) [
          | inl t ↦
              rw t (narrow-Crosses rounds lo mid (ground arith) (omega arith) below (ground arith))
          | inr t ↦
              rw t
                (narrow-Crosses rounds mid hi (ground arith) (omega arith) (ground arith) reaches)
        ])
  ]

  bracket_step :
      (rounds hi : ℕ)
      → bracket target f (suc rounds) (pos hi) ≡ (
          let rest = bracket target f rounds (pos (hi * 2)) in
          if leb_ℤ target (g hi) then ok (pos hi) else rest)
  unfolding bracket ◌*ℤ◌
  bracket_step rounds hi = rw (total hi)

  bracket_here :
      (rounds hi : ℕ)
      → target ≤ℤ g hi
      → bracket target f (suc rounds) (pos hi) ≡ ok (pos (hi * 2 ^ 0))
  bracket_here rounds hi h =
      let t : leb_ℤ target (g hi) ≡ true = ground arith in
      rw (bracket_step rounds hi, t) (ap (λ (n : ℕ). ok (pos n)) (omega arith))

  -- Doubling stops at the first multiple that reaches the target.
  bracket_stops :
      (j rounds hi : ℕ)
      → j < rounds
      → target ≤ℤ g (hi * 2 ^ j)
      → (k : ℕ) × (k ≤ j)
        × (bracket target f rounds (pos hi) ≡ ok (pos (hi * 2 ^ k)))
        × (target ≤ℤ g (hi * 2 ^ k))
  bracket_stops j zero hi h reaches = elim h [ ]
  bracket_stops zero (suc rounds) hi h reaches = (
    0,
    omega arith,
    bracket_here rounds hi (subst (λ (n : ℕ). target ≤ℤ g n) (omega arith) reaches),
    reaches,
  )
  bracket_stops (suc j) (suc rounds) hi h reaches = elim (Bool-cases (leb_ℤ target (g hi))) [
    | inl t ↦
        let here : target ≤ℤ g hi = ground arith in
        (
          0,
          omega arith,
          bracket_here rounds hi here,
          subst (λ (n : ℕ). target ≤ℤ g n) (omega arith) here,
        )
    | inr t ↦
        let (k, k_le, stops, at_k) =
          bracket_stops j rounds (hi * 2) (omega arith)
            (subst (λ (n : ℕ). target ≤ℤ g n) (doubled hi j) reaches) in
        (
          suc k,
          omega arith,
          rw (bracket_step rounds hi, t) (stops ∙ ap (λ (n : ℕ). ok (pos n)) (sym (doubled hi k))),
          subst (λ (n : ℕ). target ≤ℤ g n) (sym (doubled hi k)) at_k,
        )
  ]

  nonempty : (hi : ℕ) → g 0 <ℤ target → target ≤ℤ g hi → 0 < hi
  nonempty zero below reaches = absurd (omega arith)
  nonempty (suc hi) below reaches = omega arith

  least : (r : ℕ) → IsMonotone g → g r <ℤ target → target ≤ℤ g (suc r) → IsLeast target g (suc r)
  least r mono below reaches = record {
    reaches = reaches;
    below = λ n h. omega (arith, mono n r (omega arith));
  }

  loops_find :
      (rounds s j : ℕ)
      → IsMonotone g
      → g 0 <ℤ target
      → j < rounds
      → target ≤ℤ g (s * 2 ^ j)
      → s * 2 ^ j ≤ 2 ^ rounds
      → (r : ℕ) × ((bracket target f rounds (pos s) >>= λ hi. narrow target f rounds (pos 0) hi)
          ≡ ok (pos r))
        × IsLeast target g r
  loops_find rounds s j mono below hj reaches small =
      let (k, k_le, stops, at_k) = bracket_stops j rounds s hj reaches in
      let powers : 2 ^ k ≤ 2 ^ j = pow-le-pow_right (omega arith) k_le in
      let fits : s * 2 ^ k ≤ 0 + 2 ^ rounds = scaled s (2 ^ k) (2 ^ j) (2 ^ rounds) powers small in
      let (r, found, below_r, reaches_r) =
        narrow-Crosses rounds 0 (s * 2 ^ k) (nonempty (s * 2 ^ k) below at_k) fits below at_k in
      (suc r, rw stops found, least r mono below_r reaches_r)

  -- Where the output rises with the input, starts below the target, and reaches it at a doubling of
  -- the seed within the iterations and up to 2 ^ 128, the bisection returns the least input that
  -- reaches the target.
  pub bisect-IsLeast :
      (seed : ℤ) (j : ℕ)
      → IsMonotone g
      → pos 0 <ℤ target
      → g 0 <ℤ target
      → j < max_iterations
      → target ≤ℤ g (pos_part (max_ℤ seed (pos 1)) * 2 ^ j)
      → pos_part (max_ℤ seed (pos 1)) * 2 ^ j ≤ 2 ^ max_iterations
      → (r : ℕ) × (bisect target f seed ≡ ok (pos r)) × IsLeast target g r
  unfolding bisect
  bisect-IsLeast seed j mono positive below hj reaches small =
      let seeded : max_ℤ seed (pos 1) ≡ pos (pos_part (max_ℤ seed (pos 1))) =
        nonneg_eq_pos (max_ℤ seed (pos 1)) (omega (arith, max_ℤ_bounds seed (pos 1))) in
      let asked : is_pos target ≡ true = ground arith in
      let (r, found, is_least) =
        loops_find max_iterations (pos_part (max_ℤ seed (pos 1))) j mono below hj reaches small in
      let solved : bisect target f seed ≡ ok (pos r) = rw asked (
        subst
          (λ (x : ℤ).
            (bracket target f max_iterations x >>= λ hi. narrow target f max_iterations (pos 0) hi)
            ≡ ok (pos r))
          (sym seeded) found) in
      (r, solved, is_least)
