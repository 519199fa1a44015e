-- ===== src/Setup/Subbatches.antt =====
-- loader.c: create_thr_subbatches, which cuts a batch into one for each thread.
use curl_loader.Base.{
  ℕ, zero, suc, ◌+◌, ◌-◌, ◌*◌, ◌/◌, Bool, true, false, ◌&&◌, ◌||◌, not, Option, none, some, Run, ok,
  fault, ◌>>=◌, ltb, ◌==◌, if◌then◌else◌, update,
}
use curl_loader.Config.{UrlConfig, BatchConfig}
use curl_loader.Config.Chars.{take}
use curl_loader.Config.Parsing.{Platform}
use curl_loader.Config.Validate.{is_some}
use curl_loader.Setup.Ipv6.{ipv6_increment}
use curl_loader.Setup.Addresses.{address6, number6}
pub mod Shares

-- BATCHES_MAX_NUM
abbrev pub batches_max_num : ℕ
batches_max_num = 64

-- ipv6_increment on the numbers of addresses
abbrev pub next_number6 : ℕ → Option ℕ
next_number6 n = elim (ipv6_increment (address6 n) (address6 n)) [
  | none ↦ none
  | some dest ↦ some (number6 dest)
]

-- The loop over the clients of a sub-batch, from its least address on.
unfoldable pub skip_addresses : ℕ → ℕ → Option ℕ
skip_addresses zero n = some n
skip_addresses (suc k) n = elim (skip_addresses k n) [ none ↦ none | some m ↦ next_number6 m ]

-- A share that is not 0 where the whole is not.
unfoldable pub share_of : ℕ → ℕ → ℕ → ℕ
share_of whole subbatches_num own =
    let share = whole / subbatches_num in
    if whole == 0 then own else if share == 0 then 1 else share

-- The numbers of clients of sub-batch `i`. The index is always below `subbatches_num`, so that the last
-- sub-batch does not get what is left.
unfoldable pub share_clients : BatchConfig → ℕ → ℕ → ℕ → BatchConfig → BatchConfig
unfolding share_of
share_clients master subbatches_num c_num_max i own = record own {
  client_num_max =
      if not (i == subbatches_num)
      then master.client_num_max / subbatches_num
      else master.client_num_max - c_num_max;
  client_num_start = share_of master.client_num_start subbatches_num own.client_num_start;
  clients_rampup_inc = share_of master.clients_rampup_inc subbatches_num own.clients_rampup_inc;
  net_interface = master.net_interface;
  ipv6 = master.ipv6;
}

-- The range of addresses of a sub-batch behind the one before it.
unfoldable pub share_addresses : BatchConfig → BatchConfig → ℕ → BatchConfig → Option BatchConfig
unfolding skip_addresses
share_addresses master prev i own =
    let ip_addr_min = if i == 0 then master.ip_addr_min else prev.ip_addr_max in
    let least : Option ℕ =
      if i == 0 then some master.ipv6_addr_min else next_number6 prev.ipv6_addr_max in
    if not (master.ip_shared_num == 0)
    then some (
        if own.ipv6
        then record own {
          ipv6_addr_min = master.ipv6_addr_min;
          ipv6_addr_max = master.ipv6_addr_max;
        }
        else record own { ip_addr_min = master.ip_addr_min; ip_addr_max = master.ip_addr_max })
    else if not own.ipv6
    then some
        (record own { ip_addr_min = ip_addr_min; ip_addr_max = ip_addr_min + own.client_num_max })
    else elim least [
      | none ↦ none
      | some min6 ↦ elim (skip_addresses own.client_num_max min6) [
        | none ↦ none
        | some max6 ↦ some (record own { ipv6_addr_min = min6; ipv6_addr_max = max6 })
      ]
    ]

-- Each of the urls below `n` has a text: strdup reads it.
unfoldable pub all_texts : (ℕ → UrlConfig) → ℕ → Bool
all_texts urls zero = true
all_texts urls (suc n) = all_texts urls n && is_some (urls n).url_str

-- What every sub-batch has of the master. The urls of the first are the master's own.
unfoldable pub copy_master : Platform → BatchConfig → ℕ → BatchConfig → Run (Option BatchConfig)
unfolding all_texts
copy_master platform master i own =
    let copy = record own {
      ip_shared_num = master.ip_shared_num;
      cidr_netmask = master.cidr_netmask;
      cycles_num = master.cycles_num;
      user_agent = take 255 master.user_agent;
      urls_num = master.urls_num;
      url_ctx_array = if i == 0 then own.url_ctx_array else master.url_ctx_array;
      url_index = master.url_index;
    } in
    if i == 0
    then ok (some copy)
    else if not (platform.granted (master.urls_num * platform.url_context_size))
    then ok none
    else if all_texts master.url_ctx_array master.urls_num
    then ok (some copy)
    else fault

-- Sub-batch `i`, `c_num_max` clients being in those before it.
unfoldable pub make_subbatch :
    Platform → BatchConfig → ℕ → ℕ → ℕ → (ℕ → BatchConfig) → Run (Option BatchConfig)
make_subbatch platform master subbatches_num c_num_max i bc_arr =
    let own = share_clients master subbatches_num c_num_max i (bc_arr i) in
    elim (share_addresses master (bc_arr (i - 1)) i own) [
      | none ↦ ok none
      | some placed ↦ copy_master platform master i placed
    ]

-- The loop over the sub-batches below `n`: the contexts, and c_num_max.
unfoldable pub make_subbatches :
    Platform → BatchConfig → ℕ → (ℕ → BatchConfig) → ℕ → Run (Option (ℕ × (ℕ → BatchConfig)))
unfolding make_subbatch
make_subbatches platform master subbatches_num bc_arr zero = ok (some (0, bc_arr))
make_subbatches platform master subbatches_num bc_arr (suc i) =
    make_subbatches platform master subbatches_num bc_arr i >>= λ made. elim made [
      | none ↦ ok none
      | some (c_num_max, arr) ↦
          make_subbatch platform master subbatches_num c_num_max i arr >>= λ sub. elim sub [
            | none ↦ ok none
            | some own ↦ ok (some (c_num_max + own.client_num_max, update arr i own))
          ]
    ]

-- The part about configurations, with its checks. The names of files, the contexts of clients and the
-- free lists are left out.
unfoldable pub create_thr_subbatches :
    Platform → (ℕ → BatchConfig) → ℕ → Run (Option (ℕ × (ℕ → BatchConfig)))
unfolding make_subbatches
create_thr_subbatches platform bc_arr subbatches_num =
    let master = bc_arr 0 in
    if ltb subbatches_num 2 || ltb batches_max_num subbatches_num
    then ok none
    else if ltb 1 master.ip_shared_num && ltb subbatches_num master.ip_shared_num
    then ok none
    else if ltb master.client_num_max subbatches_num
    then ok none
    else make_subbatches platform master subbatches_num bc_arr subbatches_num
