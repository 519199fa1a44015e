-- ===== src/Loader/Following.antt =====
-- load_urls_state for a client that has fetched a url.
use curl_loader.Base.{
  ℕ, ◌<◌, ◌≡◌, refl, ◌∙◌, ◌⊎◌, inl, inr, ◌&&◌, not, arith, ◌==◌, if◌then◌else◌, Option, none, some,
  Run, ok, Yields, yields, Yields-bind,
}
use curl_loader.Statistics.{CState}
use curl_loader.Context.{ClientContext, BatchContext, current_url_sleeping_timeout}
use curl_loader.Loader.Cycle.{IsUrls, IsUnderway, IsChosen, rounds_left, pick_loop-IsChosen}
use curl_loader.Loader.Step.{Outside, Loaded, setup_url, following_url, load_urls_state}

-- The client has been given a url of the batch, or is finished; it waits as its old url says.
abbrev pub IsFollowed : ℕ → ℕ → Loaded → Type 0
IsFollowed num timeout (state, wait_msec, bctx', cctx') =
    (cctx'.url_curr_index < num)
    × (cctx'.client_state ≡ state)
    × ((state ≡ CState.cstate_urls) ⊎ (state ≡ CState.cstate_finished_ok))
    × (wait_msec ≡ timeout)

setup_url_keeps :
    (env : Outside) (bctx : BatchContext) (cctx : ClientContext)
    → cctx.client_state ≡ CState.cstate_urls
    → ((setup_url env bctx cctx).1.url_curr_index ≡ cctx.url_curr_index)
      × ((setup_url env bctx cctx).1.client_state ≡ CState.cstate_urls)
unfolding setup_url
setup_url_keeps env bctx cctx e = (ground arith, ground (arith, e))

load_urls_state_follows :
    (env : Outside) (bctx : BatchContext) (cctx : ClientContext) (wait_msec : ℕ)
    → cctx.client_state ≡ CState.cstate_urls
    → load_urls_state env bctx cctx wait_msec ≡ following_url env bctx cctx
unfolding load_urls_state
load_urls_state_follows env bctx cctx wait_msec e = ground (arith, e)

module _ (env : Outside) (bctx : BatchContext) (cctx : ClientContext) where
  follow :
      IsUrls bctx
      → IsUnderway bctx cctx
      → rounds_left bctx cctx < env.fuel
      → cctx.client_state ≡ CState.cstate_urls
      → Yields
          (IsFollowed bctx.urls_num
            (current_url_sleeping_timeout env.scaled (bctx.url_ctx_array cctx.url_curr_index)))
          (following_url env bctx cctx)
  unfolding following_url
  follow u w enough state =
      Yields-bind (pick_loop-IsChosen env.probs env.fuel 0 bctx cctx u w enough)
        λ (picked, bctx', cctx') c. picked_case picked bctx' cctx' c
    where
      picked_case :
          (picked : Option ℕ) (bctx' : BatchContext) (cctx' : ClientContext)
          → IsChosen env.probs bctx.urls_num cctx.client_state (picked, bctx', cctx')
          → Yields
              (IsFollowed bctx.urls_num
                (current_url_sleeping_timeout env.scaled (bctx.url_ctx_array cctx.url_curr_index)))
              (elim picked as (λ _. Run Loaded) [
                | none ↦ ok (
                  CState.cstate_finished_ok,
                  current_url_sleeping_timeout env.scaled (bctx.url_ctx_array cctx.url_curr_index),
                  bctx',
                  record cctx' { client_state = CState.cstate_finished_ok },
                )
                | some index ↦
                    let cctx2 =
                      if (bctx'.url_ctx_array index).fresh_connect
                        && not (
                            current_url_sleeping_timeout env.scaled
                              (bctx.url_ctx_array cctx.url_curr_index)
                            == 0)
                      then cctx'
                      else (setup_url env bctx' cctx').1 in
                    ok (
                      cctx2.client_state,
                      current_url_sleeping_timeout env.scaled
                          (bctx.url_ctx_array cctx.url_curr_index),
                      bctx',
                      cctx2,
                    )
              ])
      picked_case none bctx' cctx' (inside, same) = yields (inside, refl, inr refl, refl)
      picked_case (some index) bctx' cctx' (inside, same, at, n, d) =
          let (index_kept, state_kept) = setup_url_keeps env bctx' cctx' (same ∙ state) in
          yields
            (ground (arith, index_kept), refl, inl (ground (arith, state_kept, same, state)), refl)

  -- For a client in CSTATE_URLS, at a url of a batch whose cycling urls are in order and among its
  -- urls, that has cycles left or has its batch done with cycling, and with as much fuel as urls
  -- that may be left to it, load_urls_state ends, whatever the curl calls answer. The client is at
  -- a url of the batch and its state is the result, which is CSTATE_URLS or CSTATE_FINISHED_OK and
  -- never an error. The time to wait is the sleeping timeout of the url that it came from.
  pub load_urls_state-IsFollowed :
      (wait_msec : ℕ)
      → IsUrls bctx
      → IsUnderway bctx cctx
      → rounds_left bctx cctx < env.fuel
      → cctx.client_state ≡ CState.cstate_urls
      → Yields
          (IsFollowed bctx.urls_num
            (current_url_sleeping_timeout env.scaled (bctx.url_ctx_array cctx.url_curr_index)))
          (load_urls_state env bctx cctx wait_msec)
  load_urls_state-IsFollowed wait_msec u w enough state =
      rw (load_urls_state_follows env bctx cctx wait_msec state) (follow u w enough state)
