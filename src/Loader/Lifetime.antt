-- ===== src/Loader/Lifetime.antt =====
-- The urls of a client from its configuration on: they come to an end.
use curl_loader.Base.{ℕ, zero, suc, ◌+◌, ◌<◌, ◌≡◌, refl, ap, arith, Option, none, some}
use curl_loader.Context.{ClientContext, BatchContext}
use curl_loader.Loader.{pick_up_next_url}
use curl_loader.Loader.Cycle.{
  IsUrls, IsUnderway, IsPicked, IsFewer, rounds_left, pick_up_next_url-IsPicked,
  pick_up_next_url-IsFewer,
}

-- Where the client is given urls of the batch one after the other, it runs out of them.
pub data Ends : BatchContext → ClientContext → Type 0 where
  done :
      {bctx : BatchContext} {cctx : ClientContext}
      → (pick_up_next_url bctx cctx).0 ≡ none
      → Ends bctx cctx
  goes_on :
      {bctx bctx' : BatchContext} {cctx cctx' : ClientContext} (index : ℕ)
      → pick_up_next_url bctx cctx ≡ (some index, bctx', cctx')
      → index < bctx.urls_num
      → Ends bctx' cctx'
      → Ends bctx cctx

pick_case :
    (bctx : BatchContext) (cctx : ClientContext) (picked : Option ℕ × BatchContext × ClientContext)
    → pick_up_next_url bctx cctx ≡ picked
    → IsPicked bctx cctx picked
    → IsFewer bctx cctx picked
    → ((bctx' : BatchContext) (cctx' : ClientContext)
        → IsUrls bctx'
        → IsUnderway bctx' cctx'
        → rounds_left bctx' cctx' < rounds_left bctx cctx
        → Ends bctx' cctx')
    → Ends bctx cctx
pick_case bctx cctx (none, bctx', cctx') e p f next = done (ap (λ r. r.0) e)
pick_case bctx cctx (some index, bctx', cctx') e (inside, _, urls, _, _) (fewer, underway) next =
    goes_on index e inside (next bctx' cctx' urls underway fewer)

client-Ends_within :
    (fuel : ℕ) (bctx : BatchContext) (cctx : ClientContext)
    → IsUrls bctx
    → IsUnderway bctx cctx
    → rounds_left bctx cctx < fuel
    → Ends bctx cctx
client-Ends_within zero bctx cctx u w p = absurd (omega arith)
client-Ends_within (suc fuel) bctx cctx u w p =
    pick_case bctx cctx (pick_up_next_url bctx cctx) refl
      (pick_up_next_url-IsPicked bctx cctx u w.at_url) (pick_up_next_url-IsFewer bctx cctx u w)
      λ bctx' cctx' u' w' fewer. client-Ends_within fuel bctx' cctx' u' w' (omega arith)

pub client-Ends :
    (bctx : BatchContext) (cctx : ClientContext)
    → IsUrls bctx
    → IsUnderway bctx cctx
    → Ends bctx cctx
client-Ends bctx cctx u w =
    client-Ends_within (rounds_left bctx cctx + 1) bctx cctx u w (omega arith)
