-- ===== src/Setup/Addresses.antt =====
-- loader.c: the address of a client, ip_addr_str_allocate_init. The text of an address is left out.
use curl_loader.Base.{
  ℕ, zero, suc, ◌+◌, ◌-◌, ◌*◌, ◌/◌, ◌%◌, ◌^◌, Bool, Option, none, some, ◌==◌, if◌then◌else◌,
}
use curl_loader.Context.{BatchContext, next_ipv4_shared_index, next_ipv6_shared_index}
use curl_loader.Config.{BatchConfig}
use curl_loader.Setup.Ipv6.{Address6, number, ipv6_increment}
pub mod Rows

-- The bytes of an address, and its number
abbrev pub address6 : ℕ → Address6
address6 n i = n / 256 ^ (15 - i) % 256

abbrev pub number6 : Address6 → ℕ
number6 a = (a 0 * 256 + a 1) * 256 ^ 14 + number 14 a

-- The address of a client without an own one is that of the next shared index. The sum becomes an
-- address of 32 bits.
unfoldable pub client_ipv4 : BatchConfig → BatchContext → ℕ → ℕ × BatchContext
client_ipv4 config bctx client_index =
    let (step, stepped) = next_ipv4_shared_index bctx in
    if config.ip_shared_num == 0
    then ((config.ip_addr_min + client_index) % 2 ^ 32, bctx)
    else ((config.ip_addr_min + step) % 2 ^ 32, stepped)

-- in6_prev and in6_new of the batch
pub record LastAddresses : Type 0 where
  pub in6_prev : Address6
  pub in6_new : Address6

-- in6_new is the next of in6_prev and becomes in6_prev.
unfoldable pub next_address : LastAddresses → Option LastAddresses
next_address last = elim (ipv6_increment last.in6_prev last.in6_new) [
  | none ↦ none
  | some new ↦ some (record { in6_prev = new; in6_new = new })
]

-- The loop of `step` increments
unfoldable pub step_address : ℕ → LastAddresses → Option LastAddresses
unfolding next_address
step_address zero last = some last
step_address (suc k) last = elim (step_address k last) [
  | none ↦ none
  | some last' ↦ next_address last'
]

abbrev pub first_addresses : BatchConfig → LastAddresses
first_addresses config = record {
  in6_prev = address6 config.ipv6_addr_min;
  in6_new = address6 config.ipv6_addr_min;
}

-- The address of the client is in6_new of the result.
unfoldable pub client_ipv6 :
    BatchConfig → BatchContext → LastAddresses → ℕ → Option (LastAddresses × BatchContext)
unfolding step_address
client_ipv6 config bctx last client_index =
    let (step, stepped) = next_ipv6_shared_index bctx in
    if config.ip_shared_num == 0
    then (elim (if client_index == 0 then some (first_addresses config) else next_address last) [
      | none ↦ none
      | some last' ↦ some (last', bctx)
    ])
    else (elim (step_address step (first_addresses config)) [
      | none ↦ none
      | some last' ↦ some (last', stepped)
    ])

-- The loop of create_ip_addrs over the clients: the addresses of the clients below `n`.
unfoldable pub client_row6 :
    BatchConfig → BatchContext → LastAddresses → ℕ → Option (LastAddresses × BatchContext)
unfolding client_ipv6
client_row6 config bctx last zero = client_ipv6 config bctx last 0
client_row6 config bctx last (suc n) = elim (client_row6 config bctx last n) [
  | none ↦ none
  | some (last', bctx') ↦ client_ipv6 config bctx' last' (suc n)
]
