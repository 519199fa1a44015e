-- ===== src/Config/Validate/Areas.antt =====
-- validate_batch_url: what the counts of changes between cycling and other urls say of their order.
use curl_loader.Base.{
  ℕ, zero, suc, ◌≤◌, ◌<◌, ◌≡◌, ◌⊎◌, inl, inr, refl, Bool, true, false, ◌&&◌, ◌||◌, not, arith,
  Option, none, some, ltb, leb, ◌==◌, if◌then◌else◌, lt-or-le, IfSome, if_none, if_some,
  IfSome-branch, IfSome-chain,
}
use curl_loader.Config.{UrlConfig, BatchConfig}
use curl_loader.Config.Validate.{
  Changes, no_changes, count_change, scan_urls, url_fits, validate_batch_url,
}

-- Below `n`, the flag is the negation of `outer` from `a` up to `b`, and `outer` elsewhere.
abbrev pub IsArea : (ℕ → Bool) → ℕ → Bool → ℕ → ℕ → Type 0
IsArea f n outer a b = (i : ℕ) → i < n → f i ≡ (if leb a i && ltb i b then not outer else outer)

-- The order of the first flags, by the counts and the last flag.
data Shape (f : ℕ → Bool) (n : ℕ) : ℕ → ℕ → Bool → Type 0 where
  flat : {p : Bool} → IsArea f n p 0 0 → Shape f n 0 0 p
  risen : (a : ℕ) → a ≤ n → IsArea f n true 0 a → Shape f n 1 0 true
  fallen : (a : ℕ) → a ≤ n → IsArea f n false 0 a → Shape f n 0 1 false
  hump : (p : Bool) (a b : ℕ) → a ≤ b → b ≤ n → IsArea f n p a b → Shape f n 1 1 p
  more : {up down : ℕ} {p : Bool} → (1 < up) ⊎ (1 < down) → Shape f n up down p

IsArea-suc :
    (f : ℕ → Bool) (n : ℕ) (outer : Bool) (a b : ℕ)
    → IsArea f n outer a b
    → f n ≡ (if leb a n && ltb n b then not outer else outer)
    → IsArea f (suc n) outer a b
IsArea-suc f n outer a b h e i p = elim (lt-or-le i n) [
  | inl q ↦ h i q
  | inr q ↦ let same : i ≡ n = omega arith in rw same e
]

-- An area may begin or end behind the flags, with the flags that are there all the same.
flat-risen : (f : ℕ → Bool) (n : ℕ) → IsArea f n false 0 0 → IsArea f n true 0 n
flat-risen f n h i p = ground (arith, h i p)

flat-fallen : (f : ℕ → Bool) (n : ℕ) → IsArea f n true 0 0 → IsArea f n false 0 n
flat-fallen f n h i p = ground (arith, h i p)

risen-hump : (f : ℕ → Bool) (n a : ℕ) → IsArea f n true 0 a → IsArea f n false a n
risen-hump f n a h i p = ground (arith, h i p)

fallen-hump : (f : ℕ → Bool) (n a : ℕ) → IsArea f n false 0 a → IsArea f n true a n
fallen-hump f n a h i p = ground (arith, h i p)

abbrev ShapeOf : (ℕ → Bool) → ℕ → Changes → Type 0
ShapeOf f n c = Shape f n c.noncycling_cycling c.cycling_noncycling c.prev_url_cycling

abbrev changes : ℕ → ℕ → Bool → Changes
changes up down p = record {
  noncycling_cycling = up;
  cycling_noncycling = down;
  prev_url_cycling = p;
}

count_change-Shape :
    {f : ℕ → Bool} {n up down : ℕ} {p : Bool} (d : Bool)
    → Shape f n up down p
    → f n ≡ not d
    → ShapeOf f (suc n) (count_change (changes up down p) d)
unfolding count_change
count_change-Shape {f} {n} {p = true} true (flat h) e =
    fallen n (omega arith) (IsArea-suc f n false 0 n (flat-fallen f n h) (ground arith))
count_change-Shape {f} {n} {p = true} false (flat h) e =
    flat (IsArea-suc f n true 0 0 h (ground arith))
count_change-Shape {f} {n} {p = false} true (flat h) e =
    flat (IsArea-suc f n false 0 0 h (ground arith))
count_change-Shape {f} {n} {p = false} false (flat h) e =
    risen n (omega arith) (IsArea-suc f n true 0 n (flat-risen f n h) (ground arith))
count_change-Shape {f} {n} true (risen a q h) e =
    hump false a n q (omega arith) (IsArea-suc f n false a n (risen-hump f n a h) (ground arith))
count_change-Shape {f} {n} false (risen a q h) e =
    risen a (omega arith) (IsArea-suc f n true 0 a h (ground arith))
count_change-Shape {f} {n} true (fallen a q h) e =
    fallen a (omega arith) (IsArea-suc f n false 0 a h (ground arith))
count_change-Shape {f} {n} false (fallen a q h) e =
    hump true a n q (omega arith) (IsArea-suc f n true a n (fallen-hump f n a h) (ground arith))
count_change-Shape {f} {n} true (hump true a b q r h) e = more (inr (omega arith))
count_change-Shape {f} {n} false (hump true a b q r h) e =
    hump true a b q (omega arith) (IsArea-suc f n true a b h (ground arith))
count_change-Shape {f} {n} true (hump false a b q r h) e =
    hump false a b q (omega arith) (IsArea-suc f n false a b h (ground arith))
count_change-Shape {f} {n} false (hump false a b q r h) e = more (inl (omega arith))
count_change-Shape {p = true} true (more (inl u)) e = more (inl u)
count_change-Shape {p = true} true (more (inr u)) e = more (inr (omega arith))
count_change-Shape {p = true} false (more u) e = more u
count_change-Shape {p = false} true (more u) e = more u
count_change-Shape {p = false} false (more (inl u)) e = more (inl (omega arith))
count_change-Shape {p = false} false (more (inr u)) e = more (inr u)

abbrev cycles : (ℕ → UrlConfig) → ℕ → Bool
cycles urls i = not (urls i).url_dont_cycle

first-Shape :
    (f : ℕ → Bool) (d : Bool)
    → f 0 ≡ not d
    → ShapeOf f 1 (record no_changes { prev_url_cycling = not d })
first-Shape f d e = flat (λ i p. let zeroth : i ≡ 0 = omega arith in rw zeroth (ground (arith, e)))

scan_urls-Shape :
    (urls : ℕ → UrlConfig) (k : ℕ) → IfSome (ShapeOf (cycles urls) (suc k)) (scan_urls urls (suc k))
unfolding scan_urls
scan_urls-Shape urls zero =
    IfSome-branch (not (url_fits urls 0)) (λ _. if_none)
      (λ _. if_some (first-Shape (cycles urls) (urls 0).url_dont_cycle refl))
scan_urls-Shape urls (suc k) = IfSome-chain (scan_urls-Shape urls k) λ c s.
    IfSome-branch (not (url_fits urls (suc k))) (λ _. if_none)
      (λ _. if_some (count_change-Shape (urls (suc k)).url_dont_cycle s refl))

-- The cycling urls stand in a row among the others, or the others stand in a row among them.
abbrev pub IsOneArea : (ℕ → UrlConfig) → ℕ → Type 0
IsOneArea urls n =
    (outer : Bool) × (a : ℕ) × (b : ℕ) × (a ≤ b)
    × (b ≤ n)
    × IsArea (λ i. not (urls i).url_dont_cycle) n outer a b

Shape-IsOneArea :
    (urls : ℕ → UrlConfig) (n up down : ℕ) (p : Bool)
    → Shape (cycles urls) n up down p
    → up ≤ 1
    → down ≤ 1
    → IsOneArea urls n
Shape-IsOneArea urls n up down p (flat h) u d = (p, 0, 0, omega arith, omega arith, h)
Shape-IsOneArea urls n up down p (risen a q h) u d = (true, 0, a, omega arith, q, h)
Shape-IsOneArea urls n up down p (fallen a q h) u d = (false, 0, a, omega arith, q, h)
Shape-IsOneArea urls n up down p (hump outer a b q r h) u d = (outer, a, b, q, r, h)
Shape-IsOneArea urls n up down p (more (inl w)) u d = absurd (omega arith)
Shape-IsOneArea urls n up down p (more (inr w)) u d = absurd (omega arith)

-- Every url has what it needs.
abbrev pub AllFit : (ℕ → UrlConfig) → ℕ → Type 0
AllFit urls n = (i : ℕ) → i < n → url_fits urls i ≡ true

not-false : (b : Bool) → not b ≡ false → b ≡ true
not-false true e = refl
not-false false e = cc

scan_urls-AllFit : (urls : ℕ → UrlConfig) (k : ℕ) → IfSome (λ _. AllFit urls k) (scan_urls urls k)
unfolding scan_urls
scan_urls-AllFit urls zero = if_some (λ i p. absurd (omega arith))
scan_urls-AllFit urls (suc k) = IfSome-chain (scan_urls-AllFit urls k) λ c fit.
    IfSome-branch (not (url_fits urls k)) (λ _. if_none)
      λ e. if_some λ i p. elim (lt-or-le i k) [
        | inl q ↦ fit i q
        | inr q ↦ let same : i ≡ k = omega arith in rw same (not-false _ e)
      ]

-- The test behind the loop.
abbrev few : Changes → Bool
few c = not (ltb 1 c.cycling_noncycling || ltb 1 c.noncycling_cycling)

few-IsOneArea :
    (urls : ℕ → UrlConfig) (n : ℕ) {o : Option Changes}
    → IfSome (ShapeOf (cycles urls) n) o
    → IfSome (λ _. AllFit urls n) o
    → (elim o [ none ↦ false | some c ↦ few c ]) ≡ true
    → AllFit urls n × IsOneArea urls n
few-IsOneArea urls n if_none f e = cc
few-IsOneArea urls n (if_some s) (if_some f) e =
    (f, Shape-IsOneArea urls n _ _ _ s (ground arith) (ground arith))

scanned-IsOneArea :
    (urls : ℕ → UrlConfig) (n : ℕ)
    → (if n == 0 then false else elim (scan_urls urls n) [ none ↦ false | some c ↦ few c ]) ≡ true
    → AllFit urls n × IsOneArea urls n
scanned-IsOneArea urls zero e = cc
scanned-IsOneArea urls (suc k) e =
    let later : (suc k == 0) ≡ false = ground arith in
    few-IsOneArea urls (suc k) (scan_urls-Shape urls k) (scan_urls-AllFit urls (suc k))
      (rw later at e)

pub validate_batch_url-IsOneArea :
    (bctx : BatchConfig)
    → validate_batch_url bctx ≡ true
    → AllFit bctx.url_ctx_array bctx.urls_num × IsOneArea bctx.url_ctx_array bctx.urls_num
unfolding validate_batch_url
validate_batch_url-IsOneArea bctx e = scanned-IsOneArea bctx.url_ctx_array bctx.urls_num e
