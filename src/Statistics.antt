-- ===== src/Statistics.antt =====
-- statistics.c and statistics.h: counters of responses, delays and operations, which wrap around at 64
-- bits. The numbers of data points are of type int and stay far below its limit.
use curl_loader.Base.{
  Option, none, some, ℕ, ◌+◌, ◌-◌, ◌*◌, ◌/◌, ◌%◌, ◌^◌, Bool, true, false, not, ltb, ◌==◌,
  if◌then◌else◌, update, Run, ok, within,
}
pub mod Merge
pub mod Snapshot

-- cstate of client.h
pub data CState : Type 0 where
  cstate_error cstate_init cstate_urls cstate_finished_ok : CState

pub record StatPoint : Type 0 where
  pub data_in : ℕ
  pub data_out : ℕ
  pub requests : ℕ
  pub resp_1xx : ℕ
  pub resp_2xx : ℕ
  pub resp_3xx : ℕ
  pub resp_4xx : ℕ
  pub resp_5xx : ℕ
  pub other_errs : ℕ
  pub url_timeout_errs : ℕ
  pub appl_delay_points : ℕ
  pub appl_delay : ℕ
  pub appl_delay_2xx_points : ℕ
  pub appl_delay_2xx : ℕ

-- A sum of type unsigned long.
abbrev pub wrap : ℕ → ℕ
wrap n = n % 2 ^ 64

-- The average delay of two sets of data points, as stat_point_add computes it.
unfoldable pub merged_delay : ℕ → ℕ → ℕ → ℕ → ℕ
merged_delay delay points delay' points' =
    if ltb 0 (points + points')
    then wrap (wrap (delay * points) + wrap (delay' * points')) / (points + points')
    else 0

-- With no data points on either side, the number of points stays 0.
unfoldable pub stat_point_add : StatPoint → StatPoint → StatPoint
stat_point_add left right = record {
  data_in = wrap (left.data_in + right.data_in);
  data_out = wrap (left.data_out + right.data_out);
  requests = wrap (left.requests + right.requests);
  resp_1xx = wrap (left.resp_1xx + right.resp_1xx);
  resp_2xx = wrap (left.resp_2xx + right.resp_2xx);
  resp_3xx = wrap (left.resp_3xx + right.resp_3xx);
  resp_4xx = wrap (left.resp_4xx + right.resp_4xx);
  resp_5xx = wrap (left.resp_5xx + right.resp_5xx);
  other_errs = wrap (left.other_errs + right.other_errs);
  url_timeout_errs = wrap (left.url_timeout_errs + right.url_timeout_errs);
  appl_delay_points = left.appl_delay_points + right.appl_delay_points;
  appl_delay =
      merged_delay left.appl_delay left.appl_delay_points right.appl_delay right.appl_delay_points;
  appl_delay_2xx_points = left.appl_delay_2xx_points + right.appl_delay_2xx_points;
  appl_delay_2xx =
      merged_delay left.appl_delay_2xx left.appl_delay_2xx_points right.appl_delay_2xx
        right.appl_delay_2xx_points;
}

-- Every counter is nulled, so the old ones do not matter.
unfoldable pub stat_point_reset : StatPoint → StatPoint
stat_point_reset p = record {
  data_in = 0;
  data_out = 0;
  requests = 0;
  resp_1xx = 0;
  resp_2xx = 0;
  resp_3xx = 0;
  resp_4xx = 0;
  resp_5xx = 0;
  other_errs = 0;
  url_timeout_errs = 0;
  appl_delay_points = 0;
  appl_delay = 0;
  appl_delay_2xx_points = 0;
  appl_delay_2xx = 0;
}

-- The arrays have `url_num` entries.
pub record OpStatPoint : Type 0 where
  pub url_num : ℕ
  pub url_ok : ℕ → ℕ
  pub url_failed : ℕ → ℕ
  pub url_timeouted : ℕ → ℕ
  pub call_init_count : ℕ

-- The for loop over the entries below `n`.
abbrev pub add_below : ℕ → (ℕ → ℕ) → (ℕ → ℕ) → ℕ → ℕ
add_below n left right i = if ltb i n then wrap (left i + right i) else left i

unfoldable pub op_stat_point_add : OpStatPoint → OpStatPoint → OpStatPoint
op_stat_point_add left right = if not (left.url_num == right.url_num) then left else record left {
  url_ok = add_below left.url_num left.url_ok right.url_ok;
  url_failed = add_below left.url_num left.url_failed right.url_failed;
  url_timeouted = add_below left.url_num left.url_timeouted right.url_timeouted;
  call_init_count = wrap (left.call_init_count + right.call_init_count);
}

abbrev pub null_below : ℕ → (ℕ → ℕ) → ℕ → ℕ
null_below n a i = if ltb i n then 0 else a i

unfoldable pub op_stat_point_reset : OpStatPoint → OpStatPoint
op_stat_point_reset point = record point {
  url_ok = null_below point.url_num point.url_ok;
  url_failed = null_below point.url_num point.url_failed;
  url_timeouted = null_below point.url_num point.url_timeouted;
  call_init_count = 0;
}

-- The size of an unsigned long
abbrev pub counter_size : ℕ
counter_size = 8

-- `granted` says whether calloc gives so many bytes; `none` is the result -1.
unfoldable pub op_stat_point_init : (ℕ → Bool) → OpStatPoint → ℕ → Option OpStatPoint
op_stat_point_init granted point url_num =
    if url_num == 0
    then some (record point { call_init_count = 0 })
    else if granted (url_num * counter_size)
    then some (record {
      url_num = url_num;
      url_ok = λ _. 0;
      url_failed = λ _. 0;
      url_timeouted = λ _. 0;
      call_init_count = 0;
    })
    else none

-- The arrays are freed, and all fields are 0.
abbrev pub op_stat_point_release : OpStatPoint → OpStatPoint
op_stat_point_release point = record {
  url_num = 0;
  url_ok = λ _. 0;
  url_failed = λ _. 0;
  url_timeouted = λ _. 0;
  call_init_count = 0;
}

-- `a[i]++`
abbrev pub increment : (ℕ → ℕ) → ℕ → ℕ → ℕ
increment a i = update a i (wrap (a i + 1))

unfoldable pub op_stat_update : OpStatPoint → CState → CState → ℕ → ℕ → Run OpStatPoint
op_stat_update point current_state prev_state current_url_index prev_url_index =
    let inside = ltb prev_url_index point.url_num in
    elim prev_state [
      | CState.cstate_urls ↦ elim current_state [
        | CState.cstate_error ↦
            within inside (record point { url_failed = increment point.url_failed prev_url_index })
        | _ ↦ within inside (record point { url_ok = increment point.url_ok prev_url_index })
      ]
      | _ ↦ ok point
    ]

unfoldable pub op_stat_timeouted : OpStatPoint → ℕ → Run OpStatPoint
op_stat_timeouted point url_index =
    within (ltb url_index point.url_num)
      (record point { url_timeouted = increment point.url_timeouted url_index })

unfoldable pub op_stat_call_init_count_inc : OpStatPoint → OpStatPoint
op_stat_call_init_count_inc point = record point {
  call_init_count = wrap (point.call_init_count + 1);
}
