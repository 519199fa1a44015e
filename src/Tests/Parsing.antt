-- ===== src/Tests/Parsing.antt =====
-- Configurations: the parsers at concrete texts, and the theorems at a file with one batch.
use curl_loader.Base.{
  ℕ, ◌≡◌, refl, true, false, Option, none, some, List, [], ◌∷◌, Run, ok, fault, if◌then◌else◌,
}
use curl_loader.Config.{BatchConfig}
use curl_loader.Config.Chars.{
  Text, pos, negsuc, bytes, atol, atoi, strtok, split_at, same_text, has_text, has_char,
}
use curl_loader.Config.Parsing.{Platform, fresh_url}
use curl_loader.Config.General.{
  netmask_to_cidr, batch_name_parser, clients_num_max_parser, clients_num_start_parser,
  interface_parser, netmask_parser, ip_addr_min_parser, ip_addr_max_parser, cycles_num_parser,
  urls_num_parser,
}
use curl_loader.Config.Urls.{url_parser}
use curl_loader.Config.Forms.{parse_timer_range, timer_url_completion_parser}
use curl_loader.Config.Files.{Batches, pre_parser, read_lines}

abbrev pub test_platform : Platform
test_platform = record {
  granted = λ _. true;
  url_context_size = 1000;
  client_context_size = 1000;
  inet_pton = λ s. some (if same_text s (bytes "255.255.0.0") then 4294901760 else 167772161);
  inet_pton6 = λ _. none;
}

-- bctx_array after memset
abbrev pub zero_batch : BatchConfig
zero_batch = record {
  batch_name = [];
  client_num_max = 0;
  client_num_start = 0;
  clients_rampup_inc = 0;
  net_interface = [];
  ipv6 = false;
  ip_addr_min = 0;
  ip_addr_max = 0;
  ipv6_addr_min = 0;
  ipv6_addr_max = 0;
  ip_shared_num = 0;
  cidr_netmask = 0;
  cycles_num = 0;
  run_time = 0;
  req_rate = 0;
  user_agent = [];
  urls_num = 0;
  url_ctx_array = λ _. fresh_url;
  url_index = pos 0;
  dump_opstats = false;
}

atoi_negative : atoi (bytes " -12x") ≡ negsuc 11
unfolding atoi
atoi_negative = refl

atoi_wraps : atoi (bytes "4294967297") ≡ pos 1
unfolding atoi
atoi_wraps = refl

atol_clamps : atol (bytes "99999999999999999999") ≡ pos 9223372036854775807
unfolding atol
atol_clamps = refl

strtok_skips : strtok b':' (bytes "::1:2::") ≡ bytes "1" ∷ bytes "2" ∷ []
unfolding strtok
strtok_skips = refl

netmask_16 : netmask_to_cidr test_platform (bytes "255.255.0.0") ≡ pos 16
unfolding netmask_to_cidr same_text
netmask_16 = refl

range_read : parse_timer_range (bytes "1000-2000") ≡ some (1000, 2000)
unfolding parse_timer_range split_at atol
range_read = refl

range_order : parse_timer_range (bytes "2000-1000") ≡ none
unfolding parse_timer_range split_at atol
range_order = refl

value_quoted : pre_parser (bytes "  \"a b\" # c\n") ≡ some (bytes "\"a b\"")
unfolding pre_parser split_at
value_quoted = refl

abbrev pub test_lines : List Text
test_lines =
    bytes "# a batch\n"
    ∷ bytes "BATCH_NAME = first\n"
    ∷ bytes "CLIENTS_NUM_MAX = 10  # clients\n"
    ∷ bytes "CLIENTS_NUM_START=2\n"
    ∷ bytes "INTERFACE = eth0\n"
    ∷ bytes "NETMASK = 255.255.0.0\n"
    ∷ bytes "IP_ADDR_MIN = 10.0.0.1\n"
    ∷ bytes "IP_ADDR_MAX = 10.0.0.1\n"
    ∷ bytes "CYCLES_NUM = 3\n"
    ∷ bytes "\n"
    ∷ bytes "URLS_NUM = 1\n"
    ∷ bytes "URL = \"http://localhost/\"\n"
    ∷ bytes "TIMER_URL_COMPLETION = 1000-2000\n"
    ∷ []

abbrev zero_batches : Batches
zero_batches = record { bctx_array = λ _. zero_batch; batch_index = none }

-- What the lines are read into
abbrev read_with : List Text → Run (Option Batches)
read_with lines = read_lines test_platform [] 64 lines zero_batches

abbrev count_of : Run (Option Batches) → ℕ
count_of r = elim r [
  | ok o ↦ elim o [ none ↦ 0 | some b ↦ (b.bctx_array 0).client_num_max ]
  | _ ↦ 999
]

lines_read : count_of (read_with test_lines) ≡ 10
unfolding read_lines same_text has_text split_at batch_name_parser clients_num_max_parser
    clients_num_start_parser interface_parser netmask_parser has_char ip_addr_min_parser
    ip_addr_max_parser cycles_num_parser urls_num_parser url_parser timer_url_completion_parser atoi
    atol parse_timer_range
lines_read = refl

-- A tag before the first BATCH_NAME is written in front of the array.
lines_fault : read_with (bytes "CYCLES_NUM = 3\n" ∷ []) ≡ fault
unfolding read_lines same_text has_text split_at
lines_fault = refl
