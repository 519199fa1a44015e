-- ===== src/Statistics/Merge.antt =====
-- Merging the counters of the threads: the order does not matter, and averages stay averages.
use native.Mathlib.Nat.{mul-le-mul_right, mul-add, mul_comm, le-div_iff_mul-le, div-le_of_le-mul}
use curl_loader.Base.{ℕ, ◌+◌, ◌*◌, ◌^◌, ◌≤◌, ◌<◌, ◌≡◌, refl, ap, true, arith, ltb}
use curl_loader.Statistics.{StatPoint, wrap, merged_delay, stat_point_add}

merged_delay_comm : (d p d' p' : ℕ) → merged_delay d p d' p' ≡ merged_delay d' p' d p
unfolding merged_delay
merged_delay_comm d p d' p' =
    let points : p + p' ≡ p' + p = omega arith in
    let sum : wrap (d * p) + wrap (d' * p') ≡ wrap (d' * p') + wrap (d * p) = omega arith in
    rw (points, sum) refl

wrap_comm : (a b : ℕ) → wrap (a + b) ≡ wrap (b + a)
wrap_comm a b = ap wrap (omega arith)

add_comm : (a b : ℕ) → a + b ≡ b + a
add_comm a b = omega arith

-- stat_point_add does not depend on the order of the two points, wrap-arounds and average delays
-- included.
pub stat_point_add_comm :
    (left right : StatPoint) → stat_point_add left right ≡ stat_point_add right left
unfolding stat_point_add
stat_point_add_comm left right = λ i. record {
  data_in = wrap_comm left.data_in right.data_in i;
  data_out = wrap_comm left.data_out right.data_out i;
  requests = wrap_comm left.requests right.requests i;
  resp_1xx = wrap_comm left.resp_1xx right.resp_1xx i;
  resp_2xx = wrap_comm left.resp_2xx right.resp_2xx i;
  resp_3xx = wrap_comm left.resp_3xx right.resp_3xx i;
  resp_4xx = wrap_comm left.resp_4xx right.resp_4xx i;
  resp_5xx = wrap_comm left.resp_5xx right.resp_5xx i;
  other_errs = wrap_comm left.other_errs right.other_errs i;
  url_timeout_errs = wrap_comm left.url_timeout_errs right.url_timeout_errs i;
  appl_delay_points = add_comm left.appl_delay_points right.appl_delay_points i;
  appl_delay =
      merged_delay_comm left.appl_delay left.appl_delay_points right.appl_delay
        right.appl_delay_points i;
  appl_delay_2xx_points = add_comm left.appl_delay_2xx_points right.appl_delay_2xx_points i;
  appl_delay_2xx =
      merged_delay_comm left.appl_delay_2xx left.appl_delay_2xx_points right.appl_delay_2xx
        right.appl_delay_2xx_points i;
}

-- The average delay of two points together lies between any bounds of both averages, where there is
-- a data point and the product of the upper bound and the number of points fits in 64 bits.
pub merged_delay_bounds :
    (d p d' p' low high : ℕ)
    → (low ≤ d) × (d ≤ high)
    → (low ≤ d') × (d' ≤ high)
    → 0 < p + p'
    → high * (p + p') < 2 ^ 64
    → (low ≤ merged_delay d p d' p') × (merged_delay d p d' p' ≤ high)
unfolding merged_delay
merged_delay_bounds d p d' p' low high (a, b) (a', b') pos small =
    let left : d * p ≤ high * p = mul-le-mul_right p b in
    let right : d' * p' ≤ high * p' = mul-le-mul_right p' b' in
    let left' : low * p ≤ d * p = mul-le-mul_right p a in
    let right' : low * p' ≤ d' * p' = mul-le-mul_right p' a' in
    let sum : high * (p + p') ≡ high * p + high * p' = mul-add high p p' in
    let sum' : low * (p + p') ≡ low * p + low * p' = mul-add low p p' in
    let some_points : ltb 0 (p + p') ≡ true = ground arith in
    let no_wrap : wrap (wrap (d * p) + wrap (d' * p')) ≡ d * p + d' * p' =
      omega (arith, left, right, sum, small) in
    rw (some_points, no_wrap)
      (
        (le-div_iff_mul-le pos).1 (omega (arith, sum', left', right')),
        div-le_of_le-mul (p + p') (rw (mul_comm (p + p') high) (omega (arith, sum, left, right))),
      )
