-- ===== src/Setup/Addresses/Rows.antt =====
-- The clients of a batch without shared addresses have the addresses in a row.
use mathlib.Core.Bool.{false≢true}
use curl_loader.Base.{
  sym, ℕ, zero, suc, ◌+◌, ◌^◌, ◌≤◌, ◌<◌, ◌≡◌, ◌∙◌, ap, inl, inr, refl, true, false, arith, Option,
  none, some, ◌==◌, IfSome, if_none, if_some, IfSome-chain,
}
use curl_loader.Context.{BatchContext}
use curl_loader.Config.{BatchConfig}
use curl_loader.Config.Validate.Bounds.{IsBounded, HasAddresses}
use curl_loader.Setup.Ipv6.{Address6, number, ipv6_increment, ipv6_increment-IsNext, IsNext}
use curl_loader.Setup.Addresses.{
  address6, LastAddresses, next_address, first_addresses, client_ipv4, client_ipv6, client_row6,
}

-- The number of the last address within its scope
abbrev pub scope_number : Address6 → ℕ
scope_number = number 14

-- The last address is this far from the first, and its scope is that of the first.
pub record IsAt (config : BatchConfig) (n : ℕ) (last : LastAddresses) : Type 0 where
  pub same : last.in6_prev ≡ last.in6_new
  pub far : scope_number last.in6_new ≡ scope_number (address6 config.ipv6_addr_min) + n

next_address-IsAt :
    (config : BatchConfig) (n : ℕ) (last : LastAddresses)
    → IsAt config n last
    → IfSome (IsAt config (n + 1)) (next_address last)
unfolding next_address
next_address-IsAt config n last at =
    IfSome-chain
      (from (ipv6_increment last.in6_prev last.in6_new)
        (ipv6_increment-IsNext last.in6_prev last.in6_new))
      λ new h.
        if_some (record { same = refl; far = omega (arith, h, at.far, ap scope_number at.same) })
  where
    from :
        (o : Option Address6)
        → IsNext last.in6_prev o
        → IfSome (λ new. scope_number new ≡ scope_number last.in6_prev + 1) o
    from none h = if_none
    from (some new) h = if_some h.0

row_start : (config : BatchConfig) → IsAt config 0 (first_addresses config)
row_start config = record { same = refl; far = omega arith }

module _ (config : BatchConfig) (own : config.ip_shared_num ≡ 0) where
  -- A client after the first, and the first
  later_client :
      (n : ℕ) (bctx : BatchContext) (last : LastAddresses)
      → IsAt config n last
      → IfSome (λ (last', _). IsAt config (suc n) last') (client_ipv6 config bctx last (suc n))
  unfolding client_ipv6
  later_client n bctx last at =
      let alone : (config.ip_shared_num == 0) ≡ true = ground (arith, own) in
      let later : (suc n == 0) ≡ false = ground arith in
      rw alone (
        rw later (
          IfSome-chain (next_address-IsAt config n last at)
            λ last' at'. if_some (record { same = at'.same; far = omega (arith, at'.far) })))

  first_client :
      (bctx : BatchContext) (last : LastAddresses)
      → IfSome (λ (last', _). IsAt config 0 last') (client_ipv6 config bctx last 0)
  unfolding client_ipv6
  first_client bctx last =
      let alone : (config.ip_shared_num == 0) ≡ true = ground (arith, own) in
      rw alone (if_some (row_start config))

  -- Without shared addresses, the loop over the clients of an IPv6 batch is refused, or client n
  -- gets the address whose last 14 bytes are n above those of IP_ADDR_MIN, whatever the addresses
  -- were before the loop.
  pub client_row6-IsAt :
      (bctx : BatchContext) (last : LastAddresses) (n : ℕ)
      → IfSome (λ (last', _). IsAt config n last') (client_row6 config bctx last n)
  unfolding client_row6
  client_row6-IsAt bctx last zero = first_client bctx last
  client_row6-IsAt bctx last (suc n) =
      IfSome-chain (client_row6-IsAt bctx last n) λ (last', bctx') at. later_client n bctx' last' at

-- The addresses of a validated IPv4 batch without shared ones
pub client_ipv4_lem :
    (config : BatchConfig) (bctx : BatchContext) (i : ℕ)
    → IsBounded config
    → config.ipv6 ≡ false
    → config.ip_shared_num ≡ 0
    → config.ip_addr_max < 2 ^ 32
    → i < config.client_num_max
    → ((client_ipv4 config bctx i).0 ≡ config.ip_addr_min + i)
      × ((client_ipv4 config bctx i).0 ≤ config.ip_addr_max)
unfolding client_ipv4
client_ipv4_lem config bctx i bounded four own small inside =
    let alone : (config.ip_shared_num == 0) ≡ true = ground (arith, own) in
    let inside' : config.ip_addr_min + i ≤ config.ip_addr_max = in_row bounded.addresses in
    rw alone (omega (arith, inside'), omega (arith, inside'))
  where
    in_row : HasAddresses config → config.ip_addr_min + i ≤ config.ip_addr_max
    in_row (inl six) = absurd (false≢true (sym four ∙ six))
    in_row (inr (inl shared)) = absurd (omega (arith, own))
    in_row (inr (inr enough)) = omega arith
