-- ===== src/Config/General.antt =====
-- parse_conf.c: the parsers of the section GENERAL.
use curl_loader.Base.{
  ℕ, zero, suc, ◌+◌, ◌-◌, ◌*◌, ◌/◌, ◌%◌, ◌^◌, true, false, ◌||◌, not, none, some, List, [], ◌∷◌,
  fault, ltb, leb, ◌==◌, if◌then◌else◌, length,
}
use curl_loader.Config.{BatchConfig}
use curl_loader.Config.Chars.{
  Text, ℤ, pos, negsuc, long_max, word, to_int, atol, atoi, has_char, take, strtok,
}
use curl_loader.Config.Parsing.{Platform, Parsed, accept, reject, nonnegative, fresh_url}

-- An array of 64 bytes: a longer value has no closing NUL there.
unfoldable pub batch_name_parser : BatchConfig → Text → Parsed
batch_name_parser bctx value = accept (record bctx { batch_name = take 64 value })

unfoldable pub clients_num_max_parser : BatchConfig → Text → Parsed
clients_num_max_parser bctx value =
    nonnegative (atoi value)
      λ n. if ltb n 1 then reject else accept (record bctx { client_num_max = n })

unfoldable pub clients_num_start_parser : BatchConfig → Text → Parsed
clients_num_start_parser bctx value =
    nonnegative (atoi value) λ n. accept (record bctx { client_num_start = n })

unfoldable pub interface_parser : BatchConfig → Text → Parsed
interface_parser bctx value = accept (record bctx { net_interface = take 15 value })

-- The number of the lowest bit that is set, from bit `tmp` on with `left` bits to look at. Each round
-- halves the number instead of shifting the bit.
unfoldable pub trailing_zeros : ℕ → ℕ → ℕ → ℕ
trailing_zeros host tmp zero = tmp
trailing_zeros host tmp (suc left) =
    let rest = trailing_zeros (host / 2) (tmp + 1) left in if host % 2 == 0 then rest else tmp

module _ (platform : Platform) where
  unfoldable pub netmask_to_cidr : Text → ℤ
  unfolding trailing_zeros
  netmask_to_cidr dotted_ipv4 = elim (platform.inet_pton dotted_ipv4) [
    | none ↦ negsuc 0
    | some host ↦ pos (32 - trailing_zeros host 0 32)
  ]

  unfoldable pub netmask_parser : BatchConfig → Text → Parsed
  unfolding netmask_to_cidr
  netmask_parser bctx value =
      nonnegative
        (if has_char b'.' value || has_char b':' value then netmask_to_cidr value else atoi value)
        λ n. if ltb n 1 || ltb 128 n then reject else accept (record bctx { cidr_netmask = n })

  -- A value that is no address gives the IPv4 address 0, and leaves the IPv6 address.
  unfoldable pub ip_addr_min_parser : BatchConfig → Text → Parsed
  ip_addr_min_parser bctx value =
      if has_char b':' value
      then elim (platform.inet_pton6 value) [
        | none ↦ accept (record bctx { ipv6 = true })
        | some addr ↦ accept (record bctx { ipv6 = true; ipv6_addr_min = addr })
      ]
      else elim (platform.inet_pton value) [
        | none ↦ accept (record bctx { ipv6 = false; ip_addr_min = 0 })
        | some addr ↦ accept (record bctx { ipv6 = false; ip_addr_min = addr })
      ]

  unfoldable pub ip_addr_max_parser : BatchConfig → Text → Parsed
  ip_addr_max_parser bctx value =
      if has_char b':' value
      then elim (platform.inet_pton6 value) [
        | none ↦ accept (record bctx { ipv6 = true })
        | some addr ↦ accept (record bctx { ipv6 = true; ipv6_addr_max = addr })
      ]
      else elim (platform.inet_pton value) [
        | none ↦ accept (record bctx { ipv6 = false; ip_addr_max = 0 })
        | some addr ↦ accept (record bctx { ipv6 = false; ip_addr_max = addr })
      ]

  unfoldable pub urls_num_parser : BatchConfig → Text → Parsed
  urls_num_parser bctx value = nonnegative (atoi value) λ n.
      if ltb n 1 || not (platform.granted (n * platform.url_context_size))
      then reject
      else accept
          (record bctx { urls_num = n; url_ctx_array = λ _. fresh_url; url_index = negsuc 0 })

-- The field is an int.
unfoldable pub ip_shared_num_parser : BatchConfig → Text → Parsed
ip_shared_num_parser bctx value =
    nonnegative (to_int (atol value))
      λ n. if n == 0 then reject else accept (record bctx { ip_shared_num = n })

unfoldable pub cycles_num_parser : BatchConfig → Text → Parsed
cycles_num_parser bctx value = elim (atol value) [
  | pos n ↦ accept (record bctx { cycles_num = n })
  | negsuc n ↦ accept (record bctx { cycles_num = long_max - 1 })
]

-- dhms, the last four tokens
abbrev pub Dhms : Type 0
Dhms = ℤ × ℤ × ℤ × ℤ

-- The loop over the tokens, the numbers of which shift those before.
unfoldable pub read_dhms : Dhms → List Text → Dhms
read_dhms dhms [] = dhms
read_dhms (d, h, m, s) (token ∷ tokens) = read_dhms (h, m, s, atol token) tokens

-- The time in msec, as it comes out in 64 bits
abbrev pub run_msec : Dhms → ℕ
run_msec (d, h, m, s) =
    (60 * (60 * (24 * word 64 d + word 64 h) + word 64 m) + word 64 s) * 1000 % 2 ^ 64

-- A value of 100 bytes or more leaves the buffer without its NUL.
unfoldable pub run_time_parser : BatchConfig → Text → Parsed
unfolding read_dhms
run_time_parser bctx value =
    let tokens = strtok b':' value in
    let run_time = run_msec (read_dhms (pos 0, pos 0, pos 0, pos 0) tokens) in
    let set : Parsed =
      accept
        (record bctx { run_time = if ltb run_time (2 ^ 63) then run_time else long_max - 1 }) in
    if leb 100 (length value) then fault else if ltb 4 (length tokens) then reject else set

-- The field is a long.
unfoldable pub clients_rampup_inc_parser : BatchConfig → Text → Parsed
clients_rampup_inc_parser bctx value =
    nonnegative (atol value) λ n. accept (record bctx { clients_rampup_inc = n })

unfoldable pub user_agent_parser : BatchConfig → Text → Parsed
user_agent_parser bctx [] = accept bctx
user_agent_parser bctx (c ∷ value) = accept (record bctx { user_agent = take 255 (c ∷ value) })

-- The first byte of the empty text is NUL.
unfoldable pub dump_opstats_parser : BatchConfig → Text → Parsed
dump_opstats_parser bctx [] = reject
dump_opstats_parser bctx (c ∷ value) =
    if c == b'Y' || c == b'y'
    then accept (record bctx { dump_opstats = true })
    else if c == b'N' || c == b'n'
    then accept (record bctx { dump_opstats = false })
    else reject

-- The field is an int.
unfoldable pub req_rate_parser : BatchConfig → Text → Parsed
req_rate_parser bctx value = elim (to_int (atol value)) [
  | pos n ↦ accept (record bctx { req_rate = n })
  | negsuc n ↦ accept (record bctx { req_rate = 0 })
]
