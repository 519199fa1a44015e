-- ===== src/Config/Cycling/Loadable.antt =====
-- post_validate_init: the batch is one that the loader can start with.
use curl_loader.Base.{
  ℕ, zero, suc, ◌+◌, ◌-◌, ◌*◌, ◌≤◌, ◌<◌, ◌≡◌, refl, ◌⊎◌, inl, inr, Bool, false, ◌&&◌, not, arith,
  Option, none, some, ltb, ◌==◌, if◌then◌else◌, update, lt-or-le, IfSome, if_none, if_some,
  IfSome-branch, IfSome-chain, IfSome-option, IfSome-value,
}
use curl_loader.Statistics.{OpStatPoint, op_stat_point_init}
use curl_loader.Context.{ClientContext, BatchContext}
use curl_loader.Loader.Cycle.{IsUrls, IsUnderway}
use curl_loader.Loader.Clients.{IsFreeList}
use curl_loader.Config.{UrlConfig, BatchConfig}
use curl_loader.Config.Parsing.{Platform}
use curl_loader.Config.Validate.{validate_batch}
use curl_loader.Config.Validate.Bounds.{validate_batch-IsValidated}
use curl_loader.Config.Cycling.{
  first_from, last_below, fill_free, parsed_batch, fresh_client, alloc_clients, alloc_decisions,
  alloc_client_fetch_decision_array, init_operational_statistics, find_first_cycling_url,
  find_last_cycling_url, post_validate_init, no_op_stat,
}
use curl_loader.Config.Cycling.Ends.{IsFirst, IsLast, first_from-IsFirst, last_below-IsLast}

fill_free_lem :
    (ix client_num : ℕ) (free_clients : ℕ → ℕ) (i : ℕ)
    → fill_free ix client_num free_clients i
      ≡ (if ltb i ix then client_num + (ix - 1 - i) else free_clients i)
unfolding fill_free
fill_free_lem zero client_num free_clients i = ground arith
fill_free_lem (suc ix) client_num free_clients i =
    ground (arith, fill_free_lem ix (client_num + 1) (update free_clients ix client_num) i)

-- What alloc_clients makes of the batch.
abbrev IsAllocated : BatchContext → BatchContext → Type 0
IsAllocated b b' =
    ((b.req_rate ≡ 0) × (b' ≡ b))
    ⊎ (b' ≡ record b {
      free_clients_count = b.client_num_max;
      free_clients = fill_free b.client_num_max 1 b.free_clients;
    })

alloc_clients_lem :
    (platform : Platform) (b : BatchContext) → IfSome (IsAllocated b) (alloc_clients platform b)
unfolding alloc_clients
alloc_clients_lem platform b =
    IfSome-branch (not (platform.granted (b.client_num_max * platform.client_context_size)))
      (λ _. if_none)
      λ _.
        IfSome-branch (b.req_rate == 0) (λ e. if_some (inl (ground (arith, e), refl)))
          (λ _.
            IfSome-branch (platform.granted (b.client_num_max * 4)) (λ _. if_some (inr refl))
              (λ _. if_none))

abbrev HasStatistics : BatchContext → BatchContext → Type 0
HasStatistics b b' = (op : OpStatPoint) × (b' ≡ record b { op_delta = op })

any_value {ℓ} : {A : Type ℓ} (o : Option A) → IfSome (λ _. Unit {0}) o
any_value none = if_none
any_value (some a) = if_some tt

init_operational_statistics_lem :
    (platform : Platform) (b : BatchContext)
    → IfSome (HasStatistics b) (init_operational_statistics platform b)
unfolding init_operational_statistics
init_operational_statistics_lem platform b =
    IfSome-chain (any_value (op_stat_point_init platform.granted b.op_delta b.urls_num)) λ op _.
      IfSome-chain (any_value (op_stat_point_init platform.granted no_op_stat b.urls_num))
        λ total _. if_some (op, refl)

-- The clients are at the first url, in their first cycle.
abbrev AreFresh : (ℕ → ClientContext) → Type 0
AreFresh clients = (i : ℕ) → ((clients i).url_curr_index ≡ 0) × ((clients i).cycle_num ≡ 0)

alloc_decisions-AreFresh :
    (platform : Platform) (urls_num n : ℕ) (clients : ℕ → ClientContext)
    → AreFresh clients
    → IfSome AreFresh (alloc_decisions platform urls_num n clients)
unfolding alloc_decisions
alloc_decisions-AreFresh platform urls_num zero clients f = if_some f
alloc_decisions-AreFresh platform urls_num (suc n) clients f =
    IfSome-chain (alloc_decisions-AreFresh platform urls_num n clients f) λ clients' g.
      IfSome-option (clients' n).url_fetch_decision
        (λ _.
          IfSome-branch (platform.granted urls_num)
            (λ _. if_some (λ i. (ground (arith, g n, g i), ground (arith, g n, g i))))
            (λ _. if_none))
        (λ _ _. if_some g)

alloc_fetch-AreFresh :
    (platform : Platform) (bctx : BatchConfig) (k : ℕ) (clients : ℕ → ClientContext)
    → AreFresh clients
    → IfSome AreFresh (alloc_client_fetch_decision_array platform bctx k clients)
unfolding alloc_client_fetch_decision_array
alloc_fetch-AreFresh platform bctx zero clients f = if_some f
alloc_fetch-AreFresh platform bctx (suc k) clients f =
    IfSome-chain (alloc_fetch-AreFresh platform bctx k clients f) λ clients' g.
      IfSome-branch
        (not ((bctx.url_ctx_array k).fetch_probability == 0)
          && (bctx.url_ctx_array k).fetch_probability_once)
        (λ _. alloc_decisions-AreFresh platform bctx.urls_num bctx.client_num_max clients' g)
        (λ _. if_some g)

-- What loading starts from: the cycling urls in order and among the urls, the free list full or not in
-- use, and every client at a url with a cycle to do.
pub record IsLoadable (urls : ℕ → UrlConfig) (loaded : BatchContext × (ℕ → ClientContext))
    : Type 0 where
  pub are_urls : IsUrls loaded.0
  pub first : IsFirst urls 0 loaded.0.urls_num (some loaded.0.first_cycling_url)
  pub last : IsLast urls loaded.0.urls_num (some loaded.0.last_cycling_url)
  pub free :
      (loaded.0.req_rate ≡ 0)
      ⊎ (IsFreeList loaded.0 × (loaded.0.free_clients_count ≡ loaded.0.client_num_max))
  pub underway : (i : ℕ) → IsUnderway loaded.0 (loaded.1 i)

-- Of the batch: what its parts have been made into.
record IsMade (bctx : BatchConfig) (b : BatchContext) : Type 0 where
  urls_kept : b.urls_num ≡ bctx.urls_num
  cycles_kept : b.cycles_num ≡ bctx.cycles_num
  free_kept : (b.req_rate ≡ 0) ⊎ (IsFreeList b × (b.free_clients_count ≡ b.client_num_max))

full-IsFreeList :
    (b : BatchContext)
    → IsFreeList (record b {
      free_clients_count = b.client_num_max;
      free_clients = fill_free b.client_num_max 1 (λ _. 0);
    })
full-IsFreeList b = record {
  count = omega arith;
  named = λ i p. (
    ground (arith, fill_free_lem b.client_num_max 1 (λ _. 0) i),
    ground (arith, fill_free_lem b.client_num_max 1 (λ _. 0) i),
  );
  distinct = λ i j p q e. ground (
    arith,
    fill_free_lem b.client_num_max 1 (λ _. 0) i,
    fill_free_lem b.client_num_max 1 (λ _. 0) j,
  );
  empty = λ i p. ground (arith, fill_free_lem b.client_num_max 1 (λ _. 0) i);
}

made :
    (bctx : BatchConfig) (b1 b2 : BatchContext)
    → IsAllocated (parsed_batch bctx) b1
    → HasStatistics b1 b2
    → IsMade bctx b2
made bctx b1 b2 (inl (r, e)) (op, f) =
    rw f (rw e (record { urls_kept = refl; cycles_kept = refl; free_kept = inl r }))
made bctx b1 b2 (inr e) (op, f) =
    let g = full-IsFreeList (parsed_batch bctx) in
    rw f (
      rw e (record {
        urls_kept = refl;
        cycles_kept = refl;
        free_kept = inr (
          record { count = g.count; named = g.named; distinct = g.distinct; empty = g.empty },
          refl,
        );
      }))

found_first :
    (urls : ℕ → UrlConfig) (n k : ℕ) (o : Option ℕ)
    → k < n
    → (urls k).url_dont_cycle ≡ false
    → IsFirst urls 0 n o
    → (i : ℕ) × (o ≡ some i)
found_first urls n k none p c h = absurd (ground (arith, c, h k))
found_first urls n k (some i) p c h = (i, refl)

found_last :
    (urls : ℕ → UrlConfig) (n k : ℕ) (o : Option ℕ)
    → k < n
    → (urls k).url_dont_cycle ≡ false
    → IsLast urls n o
    → (i : ℕ) × (o ≡ some i)
found_last urls n k none p c h = absurd (ground (arith, c, h k))
found_last urls n k (some i) p c h = (i, refl)

-- The least is not above the greatest.
ordered :
    (urls : ℕ → UrlConfig) (n i j : ℕ) → IsFirst urls 0 n (some i) → IsLast urls n (some j) → i ≤ j
ordered urls n i j f (q, d, l) = elim (lt-or-le j i) [
  | inl r ↦ absurd (ground (arith, f.3 j, d))
  | inr r ↦ r
]

module _ (bctx : BatchConfig) (b : BatchContext) (clients : ℕ → ClientContext) (k : ℕ) where
  loadable :
      IsMade bctx b
      → AreFresh clients
      → 0 < bctx.cycles_num
      → k < bctx.urls_num
      → (bctx.url_ctx_array k).url_dont_cycle ≡ false
      → IsLoadable bctx.url_ctx_array (
        (find_last_cycling_url bctx.url_ctx_array
            (find_first_cycling_url bctx.url_ctx_array b).1).1,
        clients,
      )
  unfolding find_first_cycling_url find_last_cycling_url
  loadable m fresh cycles inside c =
      let urls = bctx.url_ctx_array in
      let at : k < b.urls_num = ground (arith, m.urls_kept) in
      let first = first_from-IsFirst urls 0 b.urls_num b.urls_num (omega arith) in
      let last = last_below-IsLast urls b.urls_num in
      let (i, e) = found_first urls b.urls_num k (first_from urls 0 b.urls_num) at c first in
      let (j, d) = found_last urls b.urls_num k (last_below urls b.urls_num) at c last in
      let first' : IsFirst urls 0 b.urls_num (some i) = rw e at first in
      let last' : IsLast urls b.urls_num (some j) = rw d at last in
      rw e (
        rw d (record {
          are_urls = record {
            some_url = omega arith;
            cycle = ordered urls b.urls_num i j first' last';
            last_inside = last'.0;
          };
          first = first';
          last = last';
          free = elim m.free_kept [
            | inl r ↦ inl r
            | inr (g, f) ↦ inr (
              record { count = g.count; named = g.named; distinct = g.distinct; empty = g.empty },
              f,
            )
          ];
          underway = λ n. record {
            at_url = ground (arith, fresh n);
            cycles_left = λ _. ground (arith, fresh n, m.cycles_kept);
          };
        }))

initialised :
    (platform : Platform) (files_ready : BatchConfig → Bool) (bctx : BatchConfig) (k : ℕ)
    → 0 < bctx.cycles_num
    → k < bctx.urls_num
    → (bctx.url_ctx_array k).url_dont_cycle ≡ false
    → IfSome (IsLoadable bctx.url_ctx_array) (post_validate_init platform files_ready bctx)
unfolding post_validate_init
initialised platform files_ready bctx k cycles inside c =
    IfSome-chain (alloc_clients_lem platform (parsed_batch bctx)) λ b1 allocated.
      IfSome-branch (not (files_ready bctx)) (λ _. if_none)
        λ _.
          IfSome-chain
            (alloc_fetch-AreFresh platform bctx bctx.urls_num (λ _. fresh_client)
              (λ i. (refl, refl)))
            λ clients fresh.
              IfSome-chain (init_operational_statistics_lem platform b1) λ b2 counted. if_some (
                loadable bctx b2 clients k (made bctx b1 b2 allocated counted) fresh cycles inside
                  c)

pub post_validate_init-IsLoadable :
    (platform : Platform) (files_ready : BatchConfig → Bool) (read bctx : BatchConfig) (k : ℕ)
    → validate_batch read ≡ some bctx
    → k < bctx.urls_num
    → (bctx.url_ctx_array k).url_dont_cycle ≡ false
    → IfSome (IsLoadable bctx.url_ctx_array) (post_validate_init platform files_ready bctx)
post_validate_init-IsLoadable platform files_ready read bctx k valid inside c =
    let v = IfSome-value (validate_batch-IsValidated read) valid in
    initialised platform files_ready bctx k v.is_bounded.some_cycle inside c
