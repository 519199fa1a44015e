-- ===== src/Config/Cycling/Ends.antt =====
-- find_first_cycling_url and find_last_cycling_url: the least and the greatest index.
use curl_loader.Base.{
  ℕ, zero, suc, ◌+◌, ◌≤◌, ◌<◌, ◌≡◌, refl, inl, inr, Bool, true, false, not, arith, Option, none,
  some, Bool-cases, lt-or-le,
}
use curl_loader.Config.{UrlConfig}
use curl_loader.Config.Cycling.{first_from, last_below}

-- The least cycling url from `i` up to `n`.
abbrev pub IsFirst : (ℕ → UrlConfig) → ℕ → ℕ → Option ℕ → Type 0
IsFirst urls i n none = (j : ℕ) → i ≤ j → j < n → (urls j).url_dont_cycle ≡ true
IsFirst urls i n (some k) =
    (i ≤ k)
    × (k < n)
    × ((urls k).url_dont_cycle ≡ false)
    × ((j : ℕ) → i ≤ j → j < k → (urls j).url_dont_cycle ≡ true)

-- The greatest cycling url below `n`.
abbrev pub IsLast : (ℕ → UrlConfig) → ℕ → Option ℕ → Type 0
IsLast urls n none = (j : ℕ) → j < n → (urls j).url_dont_cycle ≡ true
IsLast urls n (some k) =
    (k < n)
    × ((urls k).url_dont_cycle ≡ false)
    × ((j : ℕ) → k < j → j < n → (urls j).url_dont_cycle ≡ true)

not-true : (b : Bool) → not b ≡ true → b ≡ false
not-true true e = cc
not-true false e = refl

not-false : (b : Bool) → not b ≡ false → b ≡ true
not-false true e = refl
not-false false e = cc

IsFirst-later :
    (urls : ℕ → UrlConfig) (i n : ℕ) (o : Option ℕ)
    → (urls i).url_dont_cycle ≡ true
    → IsFirst urls (i + 1) n o
    → IsFirst urls i n o
IsFirst-later urls i n none e h = λ j p q. elim (lt-or-le i j) [
  | inl r ↦ h j (omega arith) q
  | inr r ↦ let same : j ≡ i = omega arith in rw same e
]
IsFirst-later urls i n (some k) e (p, q, c, h) = (
  omega arith,
  q,
  c,
  λ j r s. elim (lt-or-le i j) [
    | inl t ↦ h j (omega arith) s
    | inr t ↦ let same : j ≡ i = omega arith in rw same e
  ],
)

pub first_from-IsFirst :
    (urls : ℕ → UrlConfig) (i left n : ℕ) → i + left ≡ n → IsFirst urls i n (first_from urls i left)
unfolding first_from
first_from-IsFirst urls i zero n e = λ j p q. absurd (omega arith)
first_from-IsFirst urls i (suc left) n e = elim (Bool-cases (not (urls i).url_dont_cycle)) [
  | inl c ↦ rw c (omega arith, omega arith, not-true _ c, λ j p q. absurd (omega arith))
  | inr c ↦ rw c (
      IsFirst-later urls i n _ (not-false _ c)
        (first_from-IsFirst urls (i + 1) left n (omega arith)))
]

IsLast-suc :
    (urls : ℕ → UrlConfig) (n : ℕ) (o : Option ℕ)
    → (urls n).url_dont_cycle ≡ true
    → IsLast urls n o
    → IsLast urls (suc n) o
IsLast-suc urls n none e h = λ j p. elim (lt-or-le j n) [
  | inl r ↦ h j r
  | inr r ↦ let same : j ≡ n = omega arith in rw same e
]
IsLast-suc urls n (some k) e (p, c, h) = (
  omega arith,
  c,
  λ j q r. elim (lt-or-le j n) [
    | inl s ↦ h j q s
    | inr s ↦ let same : j ≡ n = omega arith in rw same e
  ],
)

pub last_below-IsLast : (urls : ℕ → UrlConfig) (n : ℕ) → IsLast urls n (last_below urls n)
unfolding last_below
last_below-IsLast urls zero = λ j p. absurd (omega arith)
last_below-IsLast urls (suc n) = elim (Bool-cases (not (urls n).url_dont_cycle)) [
  | inl c ↦ rw c (omega arith, not-true _ c, λ j p q. absurd (omega arith))
  | inr c ↦ rw c (IsLast-suc urls n _ (not-false _ c) (last_below-IsLast urls n))
]
