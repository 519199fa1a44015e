-- ===== src/Base/Pigeonhole.antt =====
-- A table of more entries than values has an empty entry, or holds a value twice.
use Prim.Native.Nat.{ℕ, zero, suc, ◌<◌}
use mathlib.Core.Path.{◌≡◌, sym, ap, ◌∙◌}
use mathlib.Core.Logic.{◌⊎◌, inl, inr}
use mathlib.Core.Option.{Option, none, some}
use native.Mathlib.Omega.{arith}
use curl_loader.Base.Arrays.{◌==◌, if◌then◌else◌}

-- No function maps `n` numbers to fewer without giving two of them one value.
no_injection :
    (n m : ℕ) (f : ℕ → ℕ)
    → m < n
    → ((k : ℕ) → k < n → f k < m)
    → ((j k : ℕ) → j < n → k < n → f j ≡ f k → j ≡ k)
    → ⊥
no_injection zero m f h below inj = elim h [ ]
no_injection (suc n) zero f h below inj = absurd (omega (arith, below n (omega arith)))
no_injection (suc n) (suc m) f h below inj =
    no_injection n m (λ k. if f k == m then f n else f k) (omega arith)
      (λ k p.
        ground (
          arith,
          below k (omega arith),
          below n (omega arith),
          inj k n (omega arith) (omega arith),
        ))
      (λ j k p q e. ground (
        arith,
        inj j k (omega arith) (omega arith),
        inj j n (omega arith) (omega arith),
        inj k n (omega arith) (omega arith),
      ))

module _ (t : ℕ → Option ℕ) where
  -- The entry, or 0 where there is none.
  abbrev entry : ℕ → ℕ
  entry k = elim (t k) [ none ↦ 0 | some s ↦ s ]

  first_empty :
      (n : ℕ) → ((k : ℕ) × (k < n) × (t k ≡ none)) ⊎ ((k : ℕ) → k < n → t k ≡ some (entry k))
  first_empty zero = inr (λ k p. elim p [ ])
  first_empty (suc n) = elim (first_empty n) [
    | inl (k, p, e) ↦ inl (k, omega arith, e)
    | inr full ↦ elim (entry_cases n) [
      | inl e ↦ inl (n, omega arith, e)
      | inr e ↦ inr (λ k p. elim (last k p) [ inl q ↦ full k q | inr q ↦ rw q e ])
    ]
  ]
    where
      entry_cases : (k : ℕ) → (t k ≡ none) ⊎ (t k ≡ some (entry k))
      entry_cases k = ground arith

      last : (k : ℕ) → k < suc n → (k < n) ⊎ (k ≡ n)
      last k p = omega arith

  pub has_empty :
      (n m : ℕ)
      → m < n
      → ((k s : ℕ) → k < n → t k ≡ some s → s < m)
      → ((j k s : ℕ) → j < n → k < n → t j ≡ some s → t k ≡ some s → j ≡ k)
      → (k : ℕ) × (k < n) × (t k ≡ none)
  has_empty n m h below inj = elim (first_empty n) [
    | inl found ↦ found
    | inr full ↦ absurd (
        no_injection n m entry h (λ k p. below k (entry k) p (full k p))
          (λ j k p q e. inj j k (entry j) p q (full j p) (full k q ∙ ap some (sym e))))
  ]
