-- ===== src/Setup/Subbatches/Shares.antt =====
-- create_thr_subbatches: the clients and the addresses of the sub-batches.
use curl_loader.Base.{
  ℕ, zero, suc, ◌+◌, ◌-◌, ◌*◌, ◌/◌, ◌≤◌, ◌<◌, ◌≡◌, ◌⊎◌, inl, inr, refl, true, false, ◌&&◌, ◌||◌,
  not, arith, some, ltb, ◌==◌, if◌then◌else◌, update, eq-or-ne, IfSome, if_none, if_some,
  IfSome-value,
}
use curl_loader.Config.{BatchConfig}
use curl_loader.Config.Parsing.{Platform}
use curl_loader.Config.Sound.{
  Outcome, returns, faults, Outcome-branch, Outcome-option, Outcome-bind,
}
use curl_loader.Setup.Subbatches.{
  share_clients, share_addresses, all_texts, copy_master, make_subbatch, make_subbatches,
  create_thr_subbatches, batches_max_num,
}

-- Sub-batch `i` has `q` clients, and the `q` addresses behind those of the sub-batches before it. Its
-- ip_addr_max is the address behind the last of them, where the next sub-batch begins.
abbrev pub IsShare : ℕ → ℕ → ℕ → BatchConfig → Type 0
IsShare least q i own =
    (own.client_num_max ≡ q)
    × (own.ip_addr_min ≡ least + i * q)
    × (own.ip_addr_max ≡ least + (i + 1) * q)

abbrev pub AreShares : ℕ → ℕ → ℕ → ℕ × (ℕ → BatchConfig) → Type 0
AreShares least q n (c_num_max, arr) =
    (c_num_max ≡ n * q) × ((i : ℕ) → i < n → IsShare least q i (arr i))

module _ (platform : Platform) (master : BatchConfig) where
  -- A url of the master has no text.
  abbrev pub LacksText : Type 0
  LacksText = all_texts master.url_ctx_array master.urls_num ≡ false

  copy_master-IsShare :
      (least q i : ℕ) (own : BatchConfig)
      → IsShare least q i own
      → Outcome (IsShare least q i) LacksText (copy_master platform master i own)
  unfolding copy_master
  copy_master-IsShare least q i own h =
      Outcome-branch (i == 0) (λ _. returns (if_some h))
        λ _.
          Outcome-branch (not (platform.granted (master.urls_num * platform.url_context_size)))
            (λ _. returns if_none)
            λ _.
              Outcome-branch (all_texts master.url_ctx_array master.urls_num)
                (λ _. returns (if_some h)) (λ e. faults e)

  -- An IPv4 batch without shared addresses
  module _ (four : master.ipv6 ≡ false) (alone : master.ip_shared_num ≡ 0) where
    placed :
        (prev own : BatchConfig) (i : ℕ)
        → own.ipv6 ≡ false
        → share_addresses master prev i own
          ≡ some (record own {
            ip_addr_min = if i == 0 then master.ip_addr_min else prev.ip_addr_max;
            ip_addr_max =
                (if i == 0 then master.ip_addr_min else prev.ip_addr_max) + own.client_num_max;
          })
    unfolding share_addresses
    placed prev own i e =
        let own_ones : (master.ip_shared_num == 0) ≡ true = ground (arith, alone) in
        rw own_ones (rw e)

    module _ (subbatches_num : ℕ) where
      abbrev q : ℕ
      q = master.client_num_max / subbatches_num

      kept_ipv6 :
          (c_num_max i : ℕ) (b : BatchConfig)
          → (share_clients master subbatches_num c_num_max i b).ipv6 ≡ false
      unfolding share_clients
      kept_ipv6 c_num_max i b = four

      own_clients :
          (c_num_max i : ℕ) (b : BatchConfig)
          → i < subbatches_num
          → (share_clients master subbatches_num c_num_max i b).client_num_max ≡ q
      unfolding share_clients
      own_clients c_num_max i b inside =
          let among : (i == subbatches_num) ≡ false = ground arith in rw among

      start_at :
          (prev : BatchConfig) (i : ℕ)
          → (i ≡ 0) ⊎ (prev.ip_addr_max ≡ master.ip_addr_min + i * q)
          → (if i == 0 then master.ip_addr_min else prev.ip_addr_max) ≡ master.ip_addr_min + i * q
      start_at prev zero before = omega arith
      start_at prev (suc i) (inl e) = absurd (omega arith)
      start_at prev (suc i) (inr e) = let later : (suc i == 0) ≡ false = ground arith in rw later e

      make_subbatch-IsShare :
          (c_num_max i : ℕ) (arr : ℕ → BatchConfig)
          → i < subbatches_num
          → (i ≡ 0) ⊎ ((arr (i - 1)).ip_addr_max ≡ master.ip_addr_min + i * q)
          → Outcome
              (IsShare master.ip_addr_min q i)
              LacksText
              (make_subbatch platform master subbatches_num c_num_max i arr)
      unfolding make_subbatch
      make_subbatch-IsShare c_num_max i arr inside before =
          let own = share_clients master subbatches_num c_num_max i (arr i) in
          let clients = own_clients c_num_max i (arr i) inside in
          let start = start_at (arr (i - 1)) i before in
          let next : (i + 1) * q ≡ i * q + q = omega arith in
          let share : IfSome (IsShare master.ip_addr_min q i)
              (share_addresses master (arr (i - 1)) i own) =
            rw (placed (arr (i - 1)) own i (kept_ipv6 c_num_max i (arr i)))
              (if_some (clients, start, omega (arith, clients, start))) in
          Outcome-option (share_addresses master (arr (i - 1)) i own) (λ _. returns if_none)
            λ cut e. copy_master-IsShare master.ip_addr_min q i cut (IfSome-value share e)

      before :
          (n : ℕ) (arr : ℕ → BatchConfig)
          → ((i : ℕ) → i < n → IsShare master.ip_addr_min q i (arr i))
          → (n ≡ 0) ⊎ ((arr (n - 1)).ip_addr_max ≡ master.ip_addr_min + n * q)
      before zero arr shares = inl refl
      before (suc m) arr shares =
          let back : suc m - 1 ≡ m = omega arith in
          let (_, _, last) = shares m (omega arith) in inr (rw back (omega (arith, last)))

      updated :
          (n : ℕ) (arr : ℕ → BatchConfig) (own : BatchConfig)
          → ((i : ℕ) → i < n → IsShare master.ip_addr_min q i (arr i))
          → IsShare master.ip_addr_min q n own
          → (i : ℕ) → i < suc n
          → IsShare master.ip_addr_min q i (update arr n own i)
      updated n arr own shares share i r = elim (eq-or-ne n i) [
        | inl e ↦ let here : (n == i) ≡ true = ground (arith, e) in rw here (rw (← e) share)
        | inr e ↦
            let there : (n == i) ≡ false = ground (arith, e) in
            rw there (shares i (omega (arith, e)))
      ]

      make_subbatches-AreShares :
          (bc_arr : ℕ → BatchConfig) (n : ℕ)
          → n ≤ subbatches_num
          → Outcome
              (AreShares master.ip_addr_min q n)
              LacksText
              (make_subbatches platform master subbatches_num bc_arr n)
      unfolding make_subbatches
      make_subbatches-AreShares bc_arr zero p =
          returns (if_some (omega arith, λ i r. absurd (omega arith)))
      make_subbatches-AreShares bc_arr (suc n) p =
          Outcome-bind (make_subbatches-AreShares bc_arr n (omega arith))
            λ (c, arr) (total, shares).
              Outcome-bind (make_subbatch-IsShare c n arr (omega arith) (before n arr shares))
                λ own share.
                  returns (if_some (omega (arith, total, share.0), updated n arr own shares share))

-- For an IPv4 batch without shared addresses, create_thr_subbatches fails, or a url of the batch
-- has no text and strdup reads NULL, or each sub-batch has the same number of clients,
-- CLIENTS_NUM_MAX divided by their number, and a range of as many addresses that begins where the
-- range before it ends, the first at IP_ADDR_MIN; ip_addr_max is the address behind the last of
-- them. The clients that the division leaves over are in no sub-batch.
pub create_thr_subbatches-AreShares :
    (platform : Platform) (bc_arr : ℕ → BatchConfig) (subbatches_num : ℕ)
    → (bc_arr 0).ipv6 ≡ false
    → (bc_arr 0).ip_shared_num ≡ 0
    → Outcome
        (AreShares
          (bc_arr 0).ip_addr_min
          ((bc_arr 0).client_num_max / subbatches_num)
          subbatches_num)
        (all_texts (bc_arr 0).url_ctx_array (bc_arr 0).urls_num ≡ false)
        (create_thr_subbatches platform bc_arr subbatches_num)
unfolding create_thr_subbatches
create_thr_subbatches-AreShares platform bc_arr subbatches_num four alone =
    let master = bc_arr 0 in
    Outcome-branch (ltb subbatches_num 2 || ltb batches_max_num subbatches_num)
      (λ _. returns if_none)
      λ _.
        Outcome-branch (ltb 1 master.ip_shared_num && ltb subbatches_num master.ip_shared_num)
          (λ _. returns if_none)
          λ _.
            Outcome-branch (ltb master.client_num_max subbatches_num) (λ _. returns if_none)
              (λ _.
                make_subbatches-AreShares platform master four alone subbatches_num bc_arr
                  subbatches_num (omega arith))
