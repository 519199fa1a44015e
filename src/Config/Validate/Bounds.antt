-- ===== src/Config/Validate/Bounds.antt =====
-- validate_batch_general: the bounds that an accepted batch keeps.
use curl_loader.Base.{
  ◌+◌, ◌≤◌, ◌<◌, ◌≡◌, ◌∙◌, ◌⊎◌, inl, inr, refl, true, false, ◌&&◌, ◌||◌, not, arith, [], ◌∷◌, ltb,
  ◌==◌, if◌then◌else◌, length, IfSome, if_none, if_some, IfSome-branch, IfSome-chain, IfSome-imp,
}
use curl_loader.Config.{BatchConfig}
use curl_loader.Config.Chars.{Text}
use curl_loader.Config.Validate.{
  validate_addresses, validate_rates, validate_batch_general, validate_batch_url, validate_batch,
  too_few_addresses, explorer_useragent_str,
}
use curl_loader.Config.Validate.Areas.{IsOneArea, AllFit, validate_batch_url-IsOneArea}

-- There are addresses for the clients, or they are shared.
abbrev pub HasAddresses : BatchConfig → Type 0
HasAddresses b =
    (b.ipv6 ≡ true) ⊎ (0 < b.ip_shared_num) ⊎ (b.client_num_max + b.ip_addr_min ≤ b.ip_addr_max + 1)

pub record IsBounded (b : BatchConfig) : Type 0 where
  pub some_client : 0 < b.client_num_max
  pub start : b.client_num_start ≤ b.client_num_max
  pub rate : b.req_rate ≤ b.client_num_max
  pub some_cycle : 0 < b.cycles_num
  pub netmask : (0 < b.cidr_netmask) × (b.cidr_netmask ≤ (if b.ipv6 then 128 else 32))
  pub addresses : HasAddresses b
  pub named : 0 < length b.user_agent

-- The fields that the first tests look at, and the urls, are as they were.
abbrev IsKept : BatchConfig → BatchConfig → Type 0
IsKept b b' =
    (b'.client_num_max ≡ b.client_num_max)
    × (b'.client_num_start ≡ b.client_num_start)
    × (b'.cidr_netmask ≡ b.cidr_netmask)
    × (b'.ipv6 ≡ b.ipv6)
    × (b'.urls_num ≡ b.urls_num)
    × (b'.url_ctx_array ≡ b.url_ctx_array)

same : (b : BatchConfig) → IsKept b b
same b = (refl, refl, refl, refl, refl, refl)

still : (b b1 b2 : BatchConfig) → IsKept b b1 → IsKept b1 b2 → IsKept b b2
still b b1 b2 k l = (l.0 ∙ k.0, l.1 ∙ k.1, l.2 ∙ k.2, l.3 ∙ k.3, l.4 ∙ k.4, l.5 ∙ k.5)

bounded :
    (b b' : BatchConfig)
    → IsKept b b'
    → ltb b.client_num_max 1 ≡ false
    → ltb b.client_num_max b.client_num_start ≡ false
    → (ltb b.cidr_netmask 1 || ltb (if b.ipv6 then 128 else 32) b.cidr_netmask) ≡ false
    → (0 < b'.client_num_max)
      × (b'.client_num_start ≤ b'.client_num_max)
      × (0 < b'.cidr_netmask)
      × (b'.cidr_netmask ≤ (if b'.ipv6 then 128 else 32))
bounded b b' (max, start, mask, six, _, _) e f g =
    rw max (rw start (rw mask (rw six (ground arith, ground arith, ground arith, ground arith))))

enough_addresses :
    (b : BatchConfig)
    → too_few_addresses b ≡ false
    → (0 < b.ip_shared_num) ⊎ (b.client_num_max + b.ip_addr_min ≤ b.ip_addr_max + 1)
enough_addresses b e = ground arith

validate_addresses_lem :
    (b : BatchConfig) → IfSome (λ b'. IsKept b b' × HasAddresses b') (validate_addresses b)
unfolding validate_addresses
validate_addresses_lem b =
    IfSome-branch b.ipv6
      (λ six.
        IfSome-branch (b.ipv6_addr_min == b.ipv6_addr_max) (λ _. if_some (same b, inl six))
          (λ _. if_some (same b, inl six)))
      λ _.
        IfSome-branch (not (b.ip_addr_min == 0) && b.ip_addr_min == b.ip_addr_max)
          (λ _. if_some (same b, inr (inl (omega arith))))
          λ _.
            IfSome-branch (too_few_addresses b) (λ _. if_none)
              (λ enough. if_some (same b, inr (enough_addresses b enough)))

agent_named : (s : Text) → 0 < length (elim s [ [] ↦ explorer_useragent_str | c ∷ t ↦ c ∷ t ])
agent_named [] = omega arith
agent_named (c ∷ t) = omega arith

validate_rates_lem :
    (b : BatchConfig)
    → HasAddresses b
    → IfSome
        (λ b'.
          IsKept b b'
          × HasAddresses b'
          × (b'.req_rate ≤ b'.client_num_max)
          × (0 < b'.cycles_num)
          × (0 < length b'.user_agent))
        (validate_rates b)
unfolding validate_rates
validate_rates_lem b h =
    IfSome-branch (b.cycles_num == 0) (λ _. if_none)
      λ e.
        IfSome-branch (ltb b.client_num_max b.req_rate) (λ _. if_none)
          (λ f. if_some ((same b, h, ground arith, ground arith, agent_named b.user_agent)))

-- What the two parts leave.
abbrev IsAccepted : BatchConfig → BatchConfig → Type 0
IsAccepted b b' = (b'.urls_num ≡ b.urls_num) × (b'.url_ctx_array ≡ b.url_ctx_array) × IsBounded b'

validate_batch_general_lem : (b : BatchConfig) → IfSome (IsAccepted b) (validate_batch_general b)
unfolding validate_batch_general
validate_batch_general_lem b =
    IfSome-branch (length b.batch_name == 0) (λ _. if_none)
      λ _.
        IfSome-branch (ltb b.client_num_max 1) (λ _. if_none)
          λ max.
            IfSome-branch (ltb b.client_num_max b.client_num_start) (λ _. if_none)
              λ start.
                IfSome-branch (length b.net_interface == 0) (λ _. if_none)
                  λ _.
                    IfSome-branch
                      (ltb b.cidr_netmask 1 || ltb (if b.ipv6 then 128 else 32) b.cidr_netmask)
                      (λ _. if_none)
                      λ mask. IfSome-chain (validate_addresses_lem b) λ b1 (k1, h1).
                        IfSome-imp (validate_rates_lem b1 h1) λ b2 (k2, h2, rate, cycle, agent).
                          let k = still b b1 b2 k1 k2 in
                          let (clients, few, mask_low, mask_high) = bounded b b2 k max start mask in
                          (
                            k.4,
                            k.5,
                            record {
                              some_client = clients;
                              start = few;
                              rate = rate;
                              some_cycle = cycle;
                              netmask = (mask_low, mask_high);
                              addresses = h2;
                              named = agent;
                            },
                          )

-- The batch is in bounds, its urls have what they need, and one group of urls stands in a row.
pub record IsValidated (b : BatchConfig) : Type 0 where
  pub is_bounded : IsBounded b
  pub all_fit : AllFit b.url_ctx_array b.urls_num
  pub one_area : IsOneArea b.url_ctx_array b.urls_num

-- Of a batch that validate_batch accepts, there is a client, a cycle and a user agent, the clients
-- to start with and the request rate are not above CLIENTS_NUM_MAX, the netmask fits the family,
-- and IPv4 addresses are shared or enough for the clients. Every url has a text or uses the current
-- one and is not the first, and either the cycling urls stand in one row or the others do.
pub validate_batch-IsValidated : (b : BatchConfig) → IfSome IsValidated (validate_batch b)
unfolding validate_batch
validate_batch-IsValidated b = IfSome-chain (validate_batch_general_lem b) λ b' (_, _, bounds).
    IfSome-branch (validate_batch_url b')
      (λ e.
        let (fit, area) = validate_batch_url-IsOneArea b' e in
        if_some (record { is_bounded = bounds; all_fit = fit; one_area = area }))
      (λ _. if_none)
