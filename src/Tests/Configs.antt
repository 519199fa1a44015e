-- ===== src/Tests/Configs.antt =====
-- A batch with a login, two cycling urls and a logout: validation, initialisation, addresses and threads.
use curl_loader.Base.{
  ℕ, ◌≡◌, refl, arith, true, false, none, some, [], ◌∷◌, if◌then◌else◌, ◌==◌, ◌||◌, IfSome, Yields,
}
use curl_loader.Loader.Lifetime.{Ends}
use curl_loader.Config.{UrlConfig, BatchConfig}
use curl_loader.Config.Chars.{bytes}
use curl_loader.Config.Parsing.{fresh_url}
use curl_loader.Config.Validate.{validate_batch, validate_batch_url}
use curl_loader.Config.Validate.Bounds.{IsValidated, validate_batch-IsValidated}
use curl_loader.Config.Cycling.{fresh_client, parsed_batch, post_validate_init}
use curl_loader.Config.Cycling.Lifetime.{post_validate_init-Ends}
use curl_loader.Config.Statuses.{resp_status_errors_tbl_default}
use curl_loader.Config.Sound.{Outcome}
use curl_loader.Setup.Tracing.{curlinfo_header_in, client_tracing_function}
use curl_loader.Setup.Statuses.{client_tracing_function-default}
use curl_loader.Setup.Responses.{IsCounted, headers_in, headers_in-IsCounted}
use curl_loader.Setup.Addresses.{first_addresses, client_row6}
use curl_loader.Setup.Addresses.Rows.{IsAt, client_row6-IsAt}
use curl_loader.Setup.Subbatches.{all_texts, create_thr_subbatches}
use curl_loader.Setup.Subbatches.Shares.{AreShares, create_thr_subbatches-AreShares}
use curl_loader.Tests.Parsing.{test_platform, zero_batch}

abbrev login_url : UrlConfig
login_url = record fresh_url {
  url_str = some (bytes "http://localhost/");
  url_str_len = 18;
  url_dont_cycle = true;
}

abbrev page_url : UrlConfig
page_url = record login_url { url_dont_cycle = false }

-- Ten clients with an address each.
abbrev test_config : BatchConfig
test_config = record zero_batch {
  batch_name = bytes "first";
  client_num_max = 10;
  client_num_start = 2;
  net_interface = bytes "eth0";
  cidr_netmask = 16;
  ip_addr_min = 167772161;
  ip_addr_max = 167772170;
  cycles_num = 3;
  req_rate = 5;
  user_agent = bytes "agent";
  urls_num = 4;
  url_ctx_array = λ i. if i == 1 || i == 2 then page_url else login_url;
}

-- The cycling urls 0 and 2 are apart, and the check lets them pass.
apart_passes :
    validate_batch_url (record test_config {
      urls_num = 3;
      url_ctx_array = λ i. if i == 1 then login_url else page_url;
    })
    ≡ true
unfolding validate_batch_url
apart_passes = refl

test_config_valid : validate_batch test_config ≡ some test_config
unfolding validate_batch
test_config_valid = refl

validate_batch-IsValidated_example : IfSome IsValidated (validate_batch test_config)
validate_batch-IsValidated_example = validate_batch-IsValidated test_config

post_validate_init-Ends_example :
    IfSome
      (λ (loaded, clients). (i : ℕ) → Ends loaded (clients i))
      (post_validate_init test_platform (λ _. true) test_config)
post_validate_init-Ends_example =
    post_validate_init-Ends test_platform (λ _. true) test_config test_config 1 test_config_valid
      (omega arith) refl

client_tracing_function-default_example :
    client_tracing_function
      (some resp_status_errors_tbl_default)
      20
      100
      (curlinfo_header_in 404)
      (fresh_client, parsed_batch test_config)
    ≡ client_tracing_function none 20 100
        (curlinfo_header_in 404)
        (fresh_client, parsed_batch test_config)
client_tracing_function-default_example =
    client_tracing_function-default 20 100 (curlinfo_header_in 404)
      (fresh_client, parsed_batch test_config) (omega arith)

headers_in-IsCounted_example : Yields (IsCounted 1) (
    headers_in none 200
      ((20, 100) ∷ (21, 80) ∷ (25, 2) ∷ [])
      (fresh_client, parsed_batch test_config))
headers_in-IsCounted_example =
    headers_in-IsCounted none 200 refl 20 100 ((21, 80) ∷ (25, 2) ∷ []) fresh_client
      (parsed_batch test_config) refl

client_row6-IsAt_example :
    IfSome
      (λ (last', _). IsAt test_config 3 last')
      (client_row6 test_config (parsed_batch test_config) (first_addresses test_config) 3)
client_row6-IsAt_example =
    client_row6-IsAt test_config refl (parsed_batch test_config) (first_addresses test_config) 3

create_thr_subbatches-AreShares_example :
    Outcome
      (AreShares 167772161 3 3)
      (all_texts test_config.url_ctx_array 4 ≡ false)
      (create_thr_subbatches test_platform (λ _. test_config) 3)
create_thr_subbatches-AreShares_example =
    create_thr_subbatches-AreShares test_platform (λ _. test_config) 3 refl refl
