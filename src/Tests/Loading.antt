-- ===== src/Tests/Loading.antt =====
-- The loader, the statistics and the batches: the theorems at a batch of three urls.
use curl_loader.Base.{
  ℕ, ◌+◌, ◌-◌, ◌*◌, ◌%◌, ◌≤◌, ◌<◌, ◌≡◌, refl, true, false, arith, none, some, [], ◌∷◌, Yields, inr,
  ok,
}
use curl_loader.Statistics.{StatPoint, CState, merged_delay}
use curl_loader.Statistics.Merge.{merged_delay_bounds}
use curl_loader.Context.{
  UrlContext, ClientContext, BatchContext, current_url_sleeping_timeout, next_ipv4_shared_index,
}
use curl_loader.Context.Shared.{after_calls, next_ipv4_shared_index_turns}
use curl_loader.Loader.{pick_up_next_url, pick_loop, put_free_client, get_free_client}
use curl_loader.Loader.Cycle.{
  IsUrls, IsUnderway, IsPicked, IsChosen, pick_up_next_url-IsPicked, pick_loop-IsChosen,
  fetching_decisions, fetching_decisions-drawn,
}
use curl_loader.Loader.Step.{Outside, World, load_urls_state}
use curl_loader.Loader.Following.{IsFollowed, load_urls_state-IsFollowed}
use curl_loader.Loader.Clients.{IsFreeList, IsFree, put_free_client-IsFreeList}
use curl_loader.Loader.Ramp.{add_loading_clients}
use curl_loader.Loader.Ramp.Full.{IsRamped, ramp_up, add_loading_clients_bound, ramp_up-IsFull}
use curl_loader.Tests.{queue_of, one_mem, one_heap}

abbrev no_stat : StatPoint
no_stat = record {
  data_in = 0;
  data_out = 0;
  requests = 0;
  resp_1xx = 0;
  resp_2xx = 0;
  resp_3xx = 0;
  resp_4xx = 0;
  resp_5xx = 0;
  other_errs = 0;
  url_timeout_errs = 0;
  appl_delay_points = 0;
  appl_delay = 0;
  appl_delay_2xx_points = 0;
  appl_delay_2xx = 0;
}

abbrev some_stat : StatPoint
some_stat = record no_stat { requests = 3; appl_delay_points = 2; appl_delay = 40 }

abbrev other_stat : StatPoint
other_stat = record no_stat { requests = 5; appl_delay_points = 4; appl_delay = 10 }

merged_delay_bounds_example : (10 ≤ merged_delay 40 2 10 4) × (merged_delay 40 2 10 4 ≤ 40)
merged_delay_bounds_example =
    merged_delay_bounds 40 2 10 4 10 40 (omega arith, omega arith) (omega arith, omega arith)
      (omega arith) (omega arith)

abbrev test_url : UrlContext
test_url = record {
  url_use_current = false;
  fresh_connect = false;
  log_resp = false;
  fetch_probability = 50;
  timer_url_completion_lrange = 0;
  timer_url_completion_hrange = 0;
  timer_after_url_sleep_lrange = 100;
  timer_after_url_sleep_hrange = 0;
}

abbrev test_client : ClientContext
test_client = record {
  tid_sleeping = none;
  tid_url_completion = none;
  handle = true;
  cycle_num = 0;
  url_curr_index = 2;
  preload_url_curr_index = 2;
  client_state = CState.cstate_urls;
  preload_state = CState.cstate_urls;
  is_https = false;
  req_sent_timestamp = 0;
  st = no_stat;
  first_hdr_req = 0;
  first_hdr_1xx = 0;
  first_hdr_2xx = 0;
  first_hdr_3xx = 0;
  first_hdr_4xx = 0;
  first_hdr_5xx = 0;
  url_fetch_decision = some (λ _. none);
}

-- Two cycles over the urls 1 and 2 of three.
abbrev test_batch : BatchContext
test_batch = record {
  batch_id = 0;
  client_num_max = 10;
  client_num_start = 4;
  clients_rampup_inc = 3;
  clients_current_sched_num = 10;
  do_client_num_gradual_increase = false;
  stop_client_num_gradual_increase = false;
  req_rate = 12;
  req_rate_timer_invocation = 3;
  free_clients_count = 0;
  free_clients = λ _. 0;
  active_clients_count = 0;
  sleeping_clients_count = 0;
  cycles_num = 2;
  cycling_completed = false;
  requests_completed = false;
  run_time = 0;
  start_time = 0;
  urls_num = 3;
  url_ctx_array = λ _. test_url;
  first_cycling_url = 1;
  last_cycling_url = 2;
  ip_shared_num = 4;
  ipv4_shared_index = 3;
  ipv6_shared_index = 0;
  http_delta = no_stat;
  https_delta = no_stat;
  op_delta = record {
    url_num = 3;
    url_ok = λ _. 0;
    url_failed = λ _. 0;
    url_timeouted = λ _. 0;
    call_init_count = 0;
  };
}

test_batch-IsUrls : IsUrls test_batch
test_batch-IsUrls = record {
  some_url = omega arith;
  cycle = omega arith;
  last_inside = omega arith;
}

test_client-IsUnderway : IsUnderway test_batch test_client
test_client-IsUnderway = record { at_url = omega arith; cycles_left = λ e. omega arith }

pick_up_next_url-IsPicked_example :
    IsPicked test_batch test_client (pick_up_next_url test_batch test_client)
pick_up_next_url-IsPicked_example =
    pick_up_next_url-IsPicked test_batch test_client test_batch-IsUrls (omega arith)

-- Every second draw of the probability decides for the url.
abbrev draws : ℕ → ℕ
draws n = n % 2 * 80 + 10

pick_loop-IsChosen_example :
    Yields (IsChosen draws 3 CState.cstate_urls) (pick_loop draws 10 0 test_batch test_client)
pick_loop-IsChosen_example =
    pick_loop-IsChosen draws 10 0 test_batch test_client test_batch-IsUrls test_client-IsUnderway
      (omega arith)

fetching_decisions-drawn_example :
    fetching_decisions (30 ∷ 80 ∷ 50 ∷ []) test_client test_url
    ≡ (true ∷ false ∷ true ∷ [], test_client)
fetching_decisions-drawn_example =
    fetching_decisions-drawn (30 ∷ 80 ∷ 50 ∷ []) test_client test_url (λ e. omega (arith, e)) refl

test_batch-IsFreeList : IsFreeList test_batch
test_batch-IsFreeList = record {
  count = omega arith;
  named = λ i p. absurd (omega arith);
  distinct = λ i j p q e. absurd (omega arith);
  empty = λ i p. refl;
}

put_free_client-IsFreeList_example :
    (bctx' : BatchContext) × (put_free_client test_batch 6 ≡ ok (true, bctx'))
    × IsFreeList bctx'
    × IsFree bctx' 6
    × (get_free_client bctx' ≡ (some 6, test_batch))
put_free_client-IsFreeList_example =
    put_free_client-IsFreeList test_batch 6 test_batch-IsFreeList (omega arith) (omega arith)
      (λ (i, p, e). absurd (omega arith))

abbrev ramp_batch : BatchContext
ramp_batch = record test_batch { clients_current_sched_num = 8 }

next_ipv4_shared_index_turns_example :
    ((next_ipv4_shared_index (after_calls 2 test_batch)).0 < 4)
    × ((next_ipv4_shared_index (after_calls 2 test_batch)).0 ≡ (3 + 2) % 4)
next_ipv4_shared_index_turns_example = next_ipv4_shared_index_turns 2 test_batch (omega arith)

-- Every call of curl succeeds, but the set-up of a handle.
abbrev test_outside : Outside
test_outside = record {
  setup_curl_handle_init = λ cctx url. false;
  init_client_url_post_data = λ cctx url. true;
  response_logfiles_set = λ cctx url. true;
  multi_add_handle = λ cctx. true;
  multi_remove_handle = λ cctx. true;
  probs = draws;
  fuel = 10;
  scaled = λ hrange. 0;
  error_recovery_client = true;
}

-- Eight of ten clients are counted, and the queue has one timer.
abbrev ramp_world : World
ramp_world = record {
  batch = ramp_batch;
  clients = λ _. test_client;
  waiting_queue = queue_of one_mem one_heap;
}

add_loading_clients_bound_example :
    Yields (IsRamped ramp_world) (add_loading_clients test_outside 5 ramp_world)
add_loading_clients_bound_example =
    add_loading_clients_bound test_outside 5 ramp_world (omega arith) (inr (omega arith))
      (λ e. omega (arith, e)) refl

ramp_up-IsFull_example :
    Yields
      (λ w'.
        (w'.batch.clients_current_sched_num ≡ 10)
        × (w'.batch.do_client_num_gradual_increase ≡ false))
      (ramp_up test_outside (λ n. 100 - n) 3 ramp_world)
ramp_up-IsFull_example =
    ramp_up-IsFull test_outside (λ n. 100 - n) 3 ramp_world (omega arith) (omega arith)
      (λ e. omega (arith, e)) refl (omega arith) (omega arith)

load_urls_state-IsFollowed_example :
    Yields
      (IsFollowed 3 (current_url_sleeping_timeout (λ _. 0) test_url))
      (load_urls_state test_outside test_batch test_client 0)
load_urls_state-IsFollowed_example =
    load_urls_state-IsFollowed test_outside test_batch test_client 0 test_batch-IsUrls
      test_client-IsUnderway (omega arith) refl
