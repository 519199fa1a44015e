-- ===== src/Config/Sound.antt =====
-- What every value parser keeps of a batch, and when it can fault.
use curl_loader.Base.{
  ℕ, suc, ◌+◌, ◌-◌, ◌^◌, ◌≤◌, ◌<◌, ◌≡◌, refl, ◌⊎◌, inl, inr, Bool, true, false, not, arith, Option,
  none, some, List, [], ◌∷◌, Run, ok, fault, ◌>>=◌, ltb, ◌==◌, if◌then◌else◌, update, length,
  eq-or-ne, lt-or-le, IfSome, if_none, if_some,
}
use curl_loader.Config.{UrlConfig, BatchConfig}
use curl_loader.Config.Chars.{
  Text, ℤ, pos, negsuc, long_max, word, signed, to_int, atoi, atol, strtok, take,
}
use curl_loader.Config.Parsing.{
  Parsed, accept, reject, nonnegative, flag, with_url, put_url, set_url,
}
pub mod General
pub mod Urls
pub mod Forms
pub mod Statuses
pub mod Kinds
pub mod Lines

-- A time, or a range of times
abbrev pub IsRange : ℕ → ℕ → Type 0
IsRange lrange hrange = ((hrange ≡ 0) × ((lrange ≡ 0) ⊎ (20 ≤ lrange))) ⊎ (lrange < hrange)

-- The text is in an array of so many bytes, with its NUL.
abbrev pub FitsArray : ℕ → Text → Type 0
FitsArray n s = length s < n

abbrev pub HasLength : Option Text → ℕ → Type 0
HasLength none n = Unit
HasLength (some s) n = n ≡ length s + 1

-- The values of a url are in their ranges.
abbrev pub IsUrl : UrlConfig → Type 0
IsUrl u =
    (FitsArray 13 u.url_short_name
      × FitsArray 64 u.username
      × FitsArray 64 u.password
      × HasLength u.url_str u.url_str_len)
    × ((u.custom_http_hdrs_num ≤ 64) × (length u.custom_http_hdrs ≡ u.custom_http_hdrs_num))
    × (u.connect_timeout ≤ 50)
    × (u.fetch_probability ≤ 100)
    × IsRange u.timer_url_completion_lrange u.timer_url_completion_hrange
    × IsRange u.timer_after_url_sleep_lrange u.timer_after_url_sleep_hrange

-- A value of type int, or of type long, that is not negative
abbrev pub IsInt : ℕ → Type 0
IsInt n = n < 2 ^ 31

abbrev pub IsLong : ℕ → Type 0
IsLong n = n ≤ long_max

-- The numbers of a batch fit the C types of their fields, and its texts their arrays, but for the name,
-- which may lack its NUL.
abbrev pub IsGeneral : BatchConfig → Type 0
IsGeneral b =
    (FitsArray 65 b.batch_name × FitsArray 16 b.net_interface × FitsArray 256 b.user_agent)
    × (IsInt b.client_num_max × IsInt b.client_num_start × IsInt b.req_rate)
    × (IsInt b.ip_shared_num × (b.cidr_netmask ≤ 128) × IsInt b.urls_num)
    × (IsLong b.clients_rampup_inc × IsLong b.cycles_num × IsLong b.run_time)

-- The url in work is among the urls, if there are urls and one is in work.
abbrev pub IsPlaced : ℤ → ℕ → Type 0
IsPlaced (pos i) urls_num = (urls_num ≡ 0) ⊎ (i < urls_num)
IsPlaced (negsuc n) urls_num = n ≡ 0

abbrev pub IsConfig : BatchConfig → Type 0
IsConfig b = IsGeneral b × IsPlaced b.url_index b.urls_num × ((i : ℕ) → IsUrl (b.url_ctx_array i))

-- There is a url in work.
abbrev pub IsOpen : BatchConfig → Type 0
IsOpen b = elim b.url_index [ pos i ↦ i < b.urls_num | negsuc n ↦ ⊥ ]

-- The result is -1, or it keeps `P`, or it is a fault, which `Q` explains.
pub data Outcome {ℓ κ} {A : Type ℓ} (P : A → Type κ) (Q : Type 0)
    : Run (Option A) → Type (ℓ ⊔ κ) where
  returns : {o : Option A} → IfSome P o → Outcome P Q (ok o)
  faults : Q → Outcome P Q fault

module _ {ℓ κ} {A : Type ℓ} {P : A → Type κ} {Q : Type 0} where
  pub Outcome-branch :
      {x y : Run (Option A)} (b : Bool)
      → (b ≡ true → Outcome P Q x)
      → (b ≡ false → Outcome P Q y)
      → Outcome P Q (if b then x else y)
  Outcome-branch true p q = p refl
  Outcome-branch false p q = q refl

  pub Outcome-option {ℓ'} :
      {C : Type ℓ'} {x : Run (Option A)} {y : C → Run (Option A)} (o : Option C)
      → (o ≡ none → Outcome P Q x)
      → ((c : C) → o ≡ some c → Outcome P Q (y c))
      → Outcome P Q (elim o [ none ↦ x | some c ↦ y c ])
  Outcome-option none p q = p refl
  Outcome-option (some c) p q = q c refl

pub Outcome-explain {ℓ κ} :
    {A : Type ℓ} {P : A → Type κ} {Q R : Type 0} {m : Run (Option A)}
    → Outcome P Q m
    → (Q → R)
    → Outcome P R m
Outcome-explain (returns p) f = returns p
Outcome-explain (faults q) f = faults (f q)

pub Outcome-bind {ℓ κ κ'} :
    {A : Type ℓ} {B : Type κ} {P : A → Type κ'} {R : B → Type κ'} {Q : Type 0} {m : Run (Option A)}
    {k : A → Run (Option B)}
    → Outcome P Q m
    → ((a : A) → P a → Outcome R Q (k a))
    → Outcome R Q (m >>= λ o. elim o [ none ↦ ok none | some a ↦ k a ])
Outcome-bind (returns if_none) next = returns if_none
Outcome-bind (returns (if_some p)) next = next _ p
Outcome-bind (faults q) next = faults q

-- A token names the status 600, behind its sign.
abbrev pub NamesPast : List Text → Type 0
NamesPast [] = ⊥
NamesPast ([] ∷ tokens) = NamesPast tokens
NamesPast ((sign ∷ number) ∷ tokens) = (atol number ≡ pos 600) ⊎ NamesPast tokens

-- The tags, by what their parsers can meet
pub data Kind : Type 0 where
  general : Kind
  of_url : Kind
  timed : Kind
  statuses : Kind
  token : Kind
  other : Kind

-- Why a parser may fault on a value. Those of a general tag never do; those of a url, where no url is in
-- work; RUN_TIME, where the buffer for it has no NUL; RESPONSE_STATUS_ERRORS also at a status that is the
-- size of its table, URL_RANDOM_TOKEN also without memory for the token. Nothing is known of the other
-- tags, whose parsers are a parameter.
abbrev pub Hazard : (ℕ → Bool) → Kind → BatchConfig → Text → Type 0
Hazard granted general b value = ⊥
Hazard granted of_url b value = ¬ IsOpen b
Hazard granted timed b value = 100 ≤ length value
Hazard granted statuses b value = (¬ IsOpen b) ⊎ NamesPast (strtok b',' value)
Hazard granted token b value = (¬ IsOpen b) ⊎ (granted (length value + 1) ≡ false)
Hazard granted other b value = Unit

pub nonnegative_lem {κ} :
    {P : BatchConfig → Type κ} {Q : Type 0} {k : ℕ → Parsed} (n : ℤ)
    → ((m : ℕ) → n ≡ pos m → Outcome P Q (k m))
    → Outcome P Q (nonnegative n k)
nonnegative_lem (pos n) h = h n refl
nonnegative_lem (negsuc n) h = returns if_none

pub flag_lem {κ} :
    {P : BatchConfig → Type κ} {Q : Type 0} {k : Bool → Parsed} (n : ℤ)
    → ((b : Bool) → Outcome P Q (k b))
    → Outcome P Q (flag n k)
flag_lem n h =
    nonnegative_lem n λ m _. Outcome-branch (ltb 1 m) (λ _. returns if_none) (λ _. h (m == 1))

-- A closed index is no open one.
closed_above :
    (b : BatchConfig) (i : ℕ) → b.url_index ≡ pos i → ltb i b.urls_num ≡ false → ¬ IsOpen b
closed_above b i e f o = let inside : i < b.urls_num = rw e at o in absurd (ground (arith, f))

closed_below : (b : BatchConfig) (n : ℕ) → b.url_index ≡ negsuc n → ¬ IsOpen b
closed_below b n e o = rw e at o

if_both {ℓ κ} :
    {A : Type ℓ} (P : A → Type κ) (b : Bool) {x y : A} → P x → P y → P (if b then x else y)
if_both P true p q = p
if_both P false p q = q

module _ (granted : ℕ → Bool) where
  abbrev pub Sound : Kind → (BatchConfig → Text → Parsed) → Type 0
  Sound kind parser =
      (b : BatchConfig) (value : Text)
      → IsConfig b
      → Outcome IsConfig (Hazard granted kind b value) (parser b value)

module _ (b : BatchConfig) (c : IsConfig b) where
  pub put_url_lem : (i : ℕ) (url : UrlConfig) → IsUrl url → IsConfig (put_url b i url)
  put_url_lem i url h = (c.0, c.1, λ j. if_both IsUrl (i == j) h (c.2 j))

  module _ {Q : Type 0} (shut : ¬ IsOpen b → Q) where
    pub with_url_from :
        (k : ℕ → UrlConfig → Parsed)
        → ((i : ℕ) → Outcome IsConfig Q (k i (b.url_ctx_array i)))
        → Outcome IsConfig Q (with_url b k)
    with_url_from k h = at_index b.url_index refl
      where
        at_index :
            (z : ℤ)
            → b.url_index ≡ z
            → Outcome IsConfig Q (elim z [
              | pos i ↦ if ltb i b.urls_num then k i (b.url_ctx_array i) else fault
              | negsuc n ↦ fault
            ])
        at_index (pos i) e =
            Outcome-branch (ltb i b.urls_num) (λ _. h i) (λ f. faults (shut (closed_above b i e f)))
        at_index (negsuc n) e = faults (shut (closed_below b n e))

    pub set_url_from :
        (change : UrlConfig → UrlConfig)
        → ((u : UrlConfig) → IsUrl u → IsUrl (change u))
        → Outcome IsConfig Q (set_url b change)
    set_url_from change h =
        with_url_from (λ i url. accept (put_url b i (change url)))
          λ i. returns (if_some (put_url_lem i (change (b.url_ctx_array i)) (h _ (c.2 i))))

  pub with_url_lem :
      (k : ℕ → UrlConfig → Parsed)
      → ((i : ℕ) → Outcome IsConfig (¬ IsOpen b) (k i (b.url_ctx_array i)))
      → Outcome IsConfig (¬ IsOpen b) (with_url b k)
  with_url_lem = with_url_from (λ e. e)

  pub set_url_lem :
      (change : UrlConfig → UrlConfig)
      → ((u : UrlConfig) → IsUrl u → IsUrl (change u))
      → Outcome IsConfig (¬ IsOpen b) (set_url b change)
  set_url_lem = set_url_from (λ e. e)

-- Numbers in the range of their types
signed_bound : (m n : ℕ) → signed 32 m ≡ pos n → IsInt n
signed_bound m n e = ground arith

pub to_int-IsInt : (n : ℤ) (m : ℕ) → to_int n ≡ pos m → IsInt m
to_int-IsInt n m e = signed_bound (word 32 n) m e

pos-inj : {m n : ℕ} → pos m ≡ pos n → m ≡ n
pos-inj e = ground arith
