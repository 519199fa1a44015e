-- ===== src/Config/Cycling/Lifetime.antt =====
-- From the configuration to the end of a client.
use curl_loader.Base.{ℕ, ◌<◌, ◌≡◌, Bool, false, some, IfSome, IfSome-imp}
use curl_loader.Loader.Lifetime.{Ends, client-Ends}
use curl_loader.Config.{BatchConfig}
use curl_loader.Config.Parsing.{Platform}
use curl_loader.Config.Validate.{validate_batch}
use curl_loader.Config.Cycling.{post_validate_init}
use curl_loader.Config.Cycling.Loadable.{post_validate_init-IsLoadable}

-- For a batch that validate_batch has accepted and one of whose urls cycles, post_validate_init
-- fails, or every client of the batch that it gives comes to an end: given one url after the other
-- by pick_up_next_url, each of them a url of the batch, it runs out of urls.
pub post_validate_init-Ends :
    (platform : Platform) (files_ready : BatchConfig → Bool) (read bctx : BatchConfig) (k : ℕ)
    → validate_batch read ≡ some bctx
    → k < bctx.urls_num
    → (bctx.url_ctx_array k).url_dont_cycle ≡ false
    → IfSome
        (λ (loaded, clients). (i : ℕ) → Ends loaded (clients i))
        (post_validate_init platform files_ready bctx)
post_validate_init-Ends platform files_ready read bctx k valid inside cycles =
    IfSome-imp (post_validate_init-IsLoadable platform files_ready read bctx k valid inside cycles)
      λ (loaded, clients) h i. client-Ends loaded (clients i) h.are_urls (h.underway i)
