-- ===== src/Config/Sound/Statuses.antt =====
-- RESPONSE_STATUS_ERRORS keeps a batch in its ranges, and faults only at the status 600.
use curl_loader.Base.{
  ◌≡◌, ap, inl, inr, Bool, true, false, not, arith, List, [], ◌∷◌, ltb, ◌==◌, if_none, if_some,
}
use curl_loader.Config.Chars.{Text, ℤ, pos, negsuc, atol, strtok}
use curl_loader.Config.Parsing.{Platform}
use curl_loader.Config.Statuses.{
  Table, set_status, set_token, set_tokens, set_table, resp_status_errors_tbl_default,
  url_response_status_errors_table_size, response_status_errors_parser,
}
use curl_loader.Config.Sound.{
  Outcome, returns, faults, Outcome-branch, Outcome-explain, Outcome-bind, NamesPast, statuses,
  Sound, put_url_lem, with_url_from,
}

-- A table comes back, whatever is in it.
abbrev AnyTable : Table → Type 0
AnyTable tbl = Unit

set_status_lem :
    (tbl : Table) (error : Bool) (n : ℤ) → Outcome AnyTable (n ≡ pos 600) (set_status tbl error n)
unfolding set_status
set_status_lem tbl error (negsuc n) = returns if_none
set_status_lem tbl error (pos n) =
    Outcome-branch (ltb 600 n) (λ _. returns if_none)
      λ e.
        Outcome-branch (ltb n 600) (λ _. returns (if_some tt))
          (λ f. faults (let at : n ≡ 600 = ground (arith, e, f) in ap pos at))

-- What a token may name.
abbrev NamedBy : Text → Type 0
NamedBy token = NamesPast (token ∷ [])

set_token_lem :
    (tbl : Table) (token : Text) → Outcome AnyTable (NamedBy token) (set_token tbl token)
unfolding set_token
set_token_lem tbl [] = returns if_none
set_token_lem tbl (sign ∷ []) = returns if_none
set_token_lem tbl (sign ∷ c ∷ number) =
    Outcome-branch (sign == b'+')
      (λ _. Outcome-explain (set_status_lem tbl true (atol (c ∷ number))) inl)
      λ _.
        Outcome-branch (sign == b'-')
          (λ _. Outcome-explain (set_status_lem tbl false (atol (c ∷ number))) inl)
          (λ _. returns if_none)

named_first : (token : Text) (tokens : List Text) → NamedBy token → NamesPast (token ∷ tokens)
named_first [] tokens h = absurd h
named_first (sign ∷ number) tokens (inl e) = inl e
named_first (sign ∷ number) tokens (inr h) = absurd h

named_later : (token : Text) (tokens : List Text) → NamesPast tokens → NamesPast (token ∷ tokens)
named_later [] tokens h = h
named_later (sign ∷ number) tokens h = inr h

set_tokens_lem :
    (tokens : List Text) (tbl : Table) → Outcome AnyTable (NamesPast tokens) (set_tokens tbl tokens)
unfolding set_tokens
set_tokens_lem [] tbl = returns (if_some tt)
set_tokens_lem (token ∷ tokens) tbl =
    Outcome-bind (Outcome-explain (set_token_lem tbl token) (named_first token tokens))
      λ tbl' _. Outcome-explain (set_tokens_lem tokens tbl') (named_later token tokens)

pub response_status_errors_parser-Sound :
    (platform : Platform) → Sound platform.granted statuses (response_status_errors_parser platform)
unfolding response_status_errors_parser
response_status_errors_parser-Sound platform b value c =
    with_url_from b c inl (set_table platform b value) λ i.
      Outcome-branch (not (platform.granted url_response_status_errors_table_size))
        (λ _. returns if_none)
        (λ _.
          Outcome-bind
            (Outcome-explain (set_tokens_lem (strtok b',' value) resp_status_errors_tbl_default)
              inr)
            λ tbl _. returns (if_some (put_url_lem b c i _ (c.2 i))))
