-- ===== src/Tables.antt =====
-- Tables of rows and the queries on them: a sum over the rows that meet a condition, a row by its id, and
-- a change of that row.
use plutus_hr_system.Prelude.{
  ℕ, ◌≡◌, refl, subst, inl, inr, Bool, true, false, Option, none, some, List, [], ◌∷◌, arith, ◌==◌,
  if◌then◌else◌, Bool-cases, ℤ, pos, ◌+ℤ◌, ◌-ℤ◌, ◌≤ℤ◌, int_laws, All,
}

-- `func.coalesce(func.sum(...), 0)` of the rows that meet a condition.
unfoldable pub total_where : {A : Type 0} → (A → Bool) → (A → ℤ) → List A → ℤ
total_where test amount [] = pos 0
total_where test amount (r ∷ rs) =
    (if test r then amount r else pos 0) +ℤ total_where test amount rs

-- `db.get(...)`
unfoldable pub find_row : {A : Type 0} → (A → ℕ) → ℕ → List A → Option A
find_row id_of id [] = none
find_row id_of id (r ∷ rs) = if id_of r == id then some r else find_row id_of id rs

-- The row that was found is changed.
unfoldable pub change_row : {A : Type 0} → (A → ℕ) → ℕ → (A → A) → List A → List A
change_row id_of id f [] = []
change_row id_of id f (r ∷ rs) = if id_of r == id then f r ∷ rs else r ∷ change_row id_of id f rs

-- What one row counts for in a sum.
abbrev pub share : {A : Type 0} → (A → Bool) → (A → ℤ) → A → ℤ
share test amount r = if test r then amount r else pos 0

found_here :
    {A : Type 0} (id_of : A → ℕ) (id : ℕ) (x r : A) (rs : List A)
    → (id_of x == id) ≡ true
    → find_row id_of id (x ∷ rs) ≡ some r
    → x ≡ r
unfolding find_row
found_here id_of id x r rs same e = ground arith

found_later :
    {A : Type 0} (id_of : A → ℕ) (id : ℕ) (x r : A) (rs : List A)
    → (id_of x == id) ≡ false
    → find_row id_of id (x ∷ rs) ≡ some r
    → find_row id_of id rs ≡ some r
unfolding find_row
found_later id_of id x r rs other e = ground arith

pub total_where-change_row :
    {A : Type 0} (id_of : A → ℕ) (id : ℕ) (f : A → A) (test : A → Bool) (amount : A → ℤ) (r : A)
    (rs : List A)
    → find_row id_of id rs ≡ some r
    → total_where test amount (change_row id_of id f rs)
      ≡ total_where test amount rs -ℤ share test amount r +ℤ share test amount (f r)
unfolding total_where find_row change_row
total_where-change_row id_of id f test amount r [] e = cc
total_where-change_row id_of id f test amount r (x ∷ rs) e = elim (Bool-cases (id_of x == id)) [
  | inl same ↦ rw (same, found_here id_of id x r rs same e) (omega int_laws)
  | inr other ↦
      rw
        (
          other,
          total_where-change_row id_of id f test amount r rs (found_later id_of id x r rs other e),
        )
        (omega int_laws)
]

pub All-change_row :
    {A : Type 0} (P : A → Type 0) (id_of : A → ℕ) (id : ℕ) (f : A → A) (rs : List A)
    → ((r : A) → P r → P (f r))
    → All P rs
    → All P (change_row id_of id f rs)
unfolding change_row
All-change_row P id_of id f [] keeps h = tt
All-change_row P id_of id f (r ∷ rs) keeps h = elim (Bool-cases (id_of r == id)) [
  | inl same ↦ rw same (keeps r h.0, h.1)
  | inr other ↦ rw other (h.0, All-change_row P id_of id f rs keeps h.1)
]

-- The row that is found is one of them.
pub All-find_row :
    {A : Type 0} (P : A → Type 0) (id_of : A → ℕ) (id : ℕ) (r : A) (rs : List A)
    → find_row id_of id rs ≡ some r
    → All P rs
    → P r
unfolding find_row
All-find_row P id_of id r [] e h = absurd (cc)
All-find_row P id_of id r (x ∷ rs) e h = elim (Bool-cases (id_of x == id)) [
  | inl same ↦ subst P (found_here id_of id x r rs same e) h.0
  | inr other ↦ All-find_row P id_of id r rs (found_later id_of id x r rs other e) h.1
]

-- Where each row that one condition takes is taken by the other, and none counts for less than
-- nothing, the sum is at most the other.
pub total_where-le :
    {A : Type 0} (P : A → Type 0) (test other : A → Bool) (amount : A → ℤ) (rs : List A)
    → ((r : A) → P r → share test amount r ≤ℤ share other amount r)
    → All P rs
    → total_where test amount rs ≤ℤ total_where other amount rs
unfolding total_where
total_where-le P test other amount [] le h = grind int_laws
total_where-le P test other amount (r ∷ rs) le h =
    let one : share test amount r ≤ℤ share other amount r = le r h.0 in
    let rest = total_where-le P test other amount rs le h.1 in grind int_laws

-- Two conditions that take the same rows have the same total.
pub total_where-same :
    {A : Type 0} (P : A → Type 0) (test other : A → Bool) (amount : A → ℤ) (rs : List A)
    → ((r : A) → P r → test r ≡ other r)
    → All P rs
    → total_where test amount rs ≡ total_where other amount rs
unfolding total_where
total_where-same P test other amount [] same h = refl
total_where-same P test other amount (r ∷ rs) same h =
    rw (same r h.0, total_where-same P test other amount rs same h.1) refl

pub total_where-IsNonneg :
    {A : Type 0} (P : A → Type 0) (test : A → Bool) (amount : A → ℤ) (rs : List A)
    → ((r : A) → P r → pos 0 ≤ℤ share test amount r)
    → All P rs
    → pos 0 ≤ℤ total_where test amount rs
unfolding total_where
total_where-IsNonneg P test amount [] from h = omega int_laws
total_where-IsNonneg P test amount (r ∷ rs) from h =
    let one : pos 0 ≤ℤ share test amount r = from r h.0 in
    let rest = total_where-IsNonneg P test amount rs from h.1 in grind int_laws

-- A change of the row that was found keeps what holds of all rows, if it holds of the changed row.
pub All-change_found :
    {A : Type 0} (P : A → Type 0) (id_of : A → ℕ) (id : ℕ) (f : A → A) (r : A) (rs : List A)
    → find_row id_of id rs ≡ some r
    → P (f r)
    → All P rs
    → All P (change_row id_of id f rs)
unfolding change_row
All-change_found P id_of id f r [] e p h = tt
All-change_found P id_of id f r (x ∷ rs) e p h = elim (Bool-cases (id_of x == id)) [
  | inl same ↦ rw (same, found_here id_of id x r rs same e) (p, h.1)
  | inr other ↦
      rw other (h.0, All-change_found P id_of id f r rs (found_later id_of id x r rs other e) p h.1)
]
