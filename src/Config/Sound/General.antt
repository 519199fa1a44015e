-- ===== src/Config/Sound/General.antt =====
-- The parsers of the section GENERAL keep a batch in its ranges.
use curl_loader.Base.{
  ℕ, zero, suc, ◌-◌, ◌*◌, ◌^◌, ◌≤◌, ◌≡◌, refl, inl, inr, Bool, ◌||◌, not, arith, [], ◌∷◌, ltb, leb,
  ◌==◌, if◌then◌else◌, length, Bool-cases, if_none, if_some,
}
use curl_loader.Config.{BatchConfig}
use curl_loader.Config.Chars.{
  Text, ℤ, pos, negsuc, long_max, to_int, atol, atoi, has_char, take, strtok, sign_digits, is_space,
}
use curl_loader.Config.Parsing.{Platform, Parsed, fresh_url}
use curl_loader.Config.General.{
  batch_name_parser, clients_num_max_parser, clients_num_start_parser, clients_rampup_inc_parser,
  interface_parser, netmask_to_cidr, netmask_parser, ip_addr_min_parser, ip_addr_max_parser,
  ip_shared_num_parser, cycles_num_parser, run_msec, read_dhms, run_time_parser, user_agent_parser,
  urls_num_parser, dump_opstats_parser, req_rate_parser,
}
use curl_loader.Config.Sound.{
  IsInt, IsLong, IsUrl, Outcome, returns, faults, Outcome-branch, Outcome-option, nonnegative_lem,
  general, timed, Sound, to_int-IsInt,
}

pub length-take : (n : ℕ) (s : Text) → length (take n s) ≤ n
length-take zero s = omega arith
length-take (suc n) [] = omega arith
length-take (suc n) (c ∷ s) = omega (arith, length-take n s)

atoi-IsInt : (s : Text) (m : ℕ) → atoi s ≡ pos m → IsInt m
unfolding atoi
atoi-IsInt s m e = to_int-IsInt (atol s) m e

long_lem {κ} :
    {P : BatchConfig → Type κ} {Q : Type 0} {k j : ℕ → Parsed} (n : ℤ)
    → ((m : ℕ) → n ≡ pos m → Outcome P Q (k m))
    → ((m : ℕ) → Outcome P Q (j m))
    → Outcome P Q (elim n [ pos m ↦ k m | negsuc m ↦ j m ])
long_lem (pos n) h g = h n refl
long_lem (negsuc n) h g = g n

run_time_bound : (n : ℕ) → IsLong (if ltb n (2 ^ 63) then n else long_max - 1)
run_time_bound n = ground arith

abbrev run_time : Text → ℕ
run_time value = run_msec (read_dhms (pos 0, pos 0, pos 0, pos 0) (strtok b':' value))

sign_digits-IsLong : (s : Text) (m : ℕ) → sign_digits s ≡ pos m → IsLong m
unfolding sign_digits
sign_digits-IsLong [] m e = ground arith
sign_digits-IsLong (c ∷ s) m e = ground arith

pub atol-IsLong : (s : Text) (m : ℕ) → atol s ≡ pos m → IsLong m
unfolding atol
atol-IsLong [] m e = ground arith
atol-IsLong (c ∷ s) m e = elim (Bool-cases (is_space c)) [
  | inl sp ↦ atol-IsLong s m (rw sp at e)
  | inr sp ↦ sign_digits-IsLong (c ∷ s) m (rw sp at e)
]

pub fresh-IsUrl : IsUrl fresh_url
fresh-IsUrl = (
  (omega arith, omega arith, omega arith, tt),
  (omega arith, refl),
  omega arith,
  omega arith,
  inl (refl, inl refl),
  inl (refl, inl refl),
)

module _ (granted : ℕ → Bool) where
  pub batch_name_parser-Sound : Sound granted general batch_name_parser
  unfolding batch_name_parser
  batch_name_parser-Sound b value ((n, i, c, l), p, u) =
      returns (if_some (((omega (arith, length-take 64 value), n.1, n.2), i, c, l), p, u))

  pub clients_num_max_parser-Sound : Sound granted general clients_num_max_parser
  unfolding clients_num_max_parser
  clients_num_max_parser-Sound b value ((n, i, c, l), p, u) = nonnegative_lem (atoi value) λ m e.
      Outcome-branch (ltb m 1) (λ _. returns if_none)
        (λ _. returns (if_some ((n, (atoi-IsInt value m e, i.1, i.2), c, l), p, u)))

  pub clients_num_start_parser-Sound : Sound granted general clients_num_start_parser
  unfolding clients_num_start_parser
  clients_num_start_parser-Sound b value ((n, i, c, l), p, u) =
      nonnegative_lem (atoi value)
        λ m e. returns (if_some ((n, (i.0, atoi-IsInt value m e, i.2), c, l), p, u))

  pub interface_parser-Sound : Sound granted general interface_parser
  unfolding interface_parser
  interface_parser-Sound b value ((n, i, c, l), p, u) =
      returns (if_some (((n.0, omega (arith, length-take 15 value), n.2), i, c, l), p, u))

  pub ip_shared_num_parser-Sound : Sound granted general ip_shared_num_parser
  unfolding ip_shared_num_parser
  ip_shared_num_parser-Sound b value ((n, i, c, l), p, u) =
      nonnegative_lem (to_int (atol value)) λ m e.
        Outcome-branch (m == 0) (λ _. returns if_none)
          (λ _. returns (if_some ((n, i, (to_int-IsInt (atol value) m e, c.1, c.2), l), p, u)))

  pub cycles_num_parser-Sound : Sound granted general cycles_num_parser
  unfolding cycles_num_parser
  cycles_num_parser-Sound b value ((n, i, c, l), p, u) =
      long_lem (atol value)
        (λ m e. returns (if_some ((n, i, c, (l.0, atol-IsLong value m e, l.2)), p, u)))
        (λ m. returns (if_some ((n, i, c, (l.0, omega arith, l.2)), p, u)))

  pub req_rate_parser-Sound : Sound granted general req_rate_parser
  unfolding req_rate_parser
  req_rate_parser-Sound b value ((n, i, c, l), p, u) =
      long_lem (to_int (atol value))
        (λ m e. returns (if_some ((n, (i.0, i.1, to_int-IsInt (atol value) m e), c, l), p, u)))
        (λ m. returns (if_some ((n, (i.0, i.1, omega arith), c, l), p, u)))

  pub run_time_parser-Sound : Sound granted timed run_time_parser
  unfolding run_time_parser
  run_time_parser-Sound b value ((n, i, c, l), p, u) =
      Outcome-branch (leb 100 (length value)) (λ e. faults (ground (arith, e)))
        λ _.
          Outcome-branch (ltb 4 (length (strtok b':' value))) (λ _. returns if_none)
            (λ _. returns (if_some ((n, i, c, (l.0, l.1, run_time_bound (run_time value))), p, u)))

  pub clients_rampup_inc_parser-Sound : Sound granted general clients_rampup_inc_parser
  unfolding clients_rampup_inc_parser
  clients_rampup_inc_parser-Sound b value ((n, i, c, l), p, u) =
      nonnegative_lem (atol value)
        λ m e. returns (if_some ((n, i, c, (atol-IsLong value m e, l.1, l.2)), p, u))

  pub user_agent_parser-Sound : Sound granted general user_agent_parser
  unfolding user_agent_parser
  user_agent_parser-Sound b [] c = returns (if_some c)
  user_agent_parser-Sound b (d ∷ value) ((n, i, c, l), p, u) =
      returns (if_some (((n.0, n.1, omega (arith, length-take 255 (d ∷ value))), i, c, l), p, u))

  pub dump_opstats_parser-Sound : Sound granted general dump_opstats_parser
  unfolding dump_opstats_parser
  dump_opstats_parser-Sound b [] c = returns if_none
  dump_opstats_parser-Sound b (d ∷ value) c =
      Outcome-branch (d == b'Y' || d == b'y') (λ _. returns (if_some c))
        λ _.
          Outcome-branch (d == b'N' || d == b'n') (λ _. returns (if_some c)) (λ _. returns if_none)

module _ (platform : Platform) where
  abbrev SoundHere : (BatchConfig → Text → Parsed) → Type 0
  SoundHere = Sound platform.granted general

  pub netmask_parser-Sound : SoundHere (netmask_parser platform)
  unfolding netmask_parser
  netmask_parser-Sound b value ((n, i, c, l), p, u) =
      nonnegative_lem
        (if has_char b'.' value || has_char b':' value
          then netmask_to_cidr platform value
          else atoi value)
        λ m e.
          Outcome-branch (ltb m 1 || ltb 128 m) (λ _. returns if_none)
            (λ f. returns (if_some ((n, i, (c.0, ground arith, c.2), l), p, u)))

  pub ip_addr_min_parser-Sound : SoundHere (ip_addr_min_parser platform)
  unfolding ip_addr_min_parser
  ip_addr_min_parser-Sound b value c =
      Outcome-branch (has_char b':' value)
        (λ _.
          Outcome-option (platform.inet_pton6 value) (λ _. returns (if_some c))
            (λ _ _. returns (if_some c)))
        (λ _.
          Outcome-option (platform.inet_pton value) (λ _. returns (if_some c))
            (λ _ _. returns (if_some c)))

  pub ip_addr_max_parser-Sound : SoundHere (ip_addr_max_parser platform)
  unfolding ip_addr_max_parser
  ip_addr_max_parser-Sound b value c =
      Outcome-branch (has_char b':' value)
        (λ _.
          Outcome-option (platform.inet_pton6 value) (λ _. returns (if_some c))
            (λ _ _. returns (if_some c)))
        (λ _.
          Outcome-option (platform.inet_pton value) (λ _. returns (if_some c))
            (λ _ _. returns (if_some c)))

  pub urls_num_parser-Sound : SoundHere (urls_num_parser platform)
  unfolding urls_num_parser
  urls_num_parser-Sound b value ((n, i, c, l), p, u) = nonnegative_lem (atoi value) λ m e.
      Outcome-branch (ltb m 1 || not (platform.granted (m * platform.url_context_size)))
        (λ _. returns if_none)
        (λ f.
          returns (if_some ((n, i, (c.0, c.1, atoi-IsInt value m e), l), refl, λ _. fresh-IsUrl)))
