-- ===== src/Setup/Ipv6.antt =====
-- loader.c: ipv6_increment adds one to the last 14 bytes of an address.
use native.Mathlib.Nat.{pow-suc}
use curl_loader.Base.{
  ℕ, zero, suc, ◌+◌, ◌*◌, ◌/◌, ◌%◌, ◌^◌, ◌≤◌, ◌<◌, ◌≡◌, ◌∙◌, refl, inl, inr, false, arith, Option,
  none, some, ◌==◌, if◌then◌else◌, update, update_self, update_ne, Bool-cases, lt-or-le,
}

-- s6_addr, 16 bytes from the most significant on
abbrev pub Address6 : Type 0
Address6 = ℕ → ℕ

-- The loop from byte `n + 1` down to byte 2, and the carry behind it.
unfoldable pub carry_bytes : ℕ → ℕ → Address6 → Address6 → ℕ × Address6
carry_bytes zero temp src dest = (temp, dest)
carry_bytes (suc n) temp src dest =
    let sum = temp + src (n + 2) in carry_bytes n (sum / 256) src (update dest (n + 2) (sum % 256))

-- `none` is the result -1. The two addresses are different objects.
unfoldable pub ipv6_increment : Address6 → Address6 → Option Address6
ipv6_increment src dest =
    let (temp, counted) = carry_bytes 14 1 src dest in
    if temp == 0 then some (update (update counted 1 (src 1)) 0 (src 0)) else none

-- The number that bytes 2 to `n + 1` write.
unfoldable pub number : ℕ → Address6 → ℕ
number zero a = 0
number (suc n) a = number n a * 256 + a (n + 2)

-- Bytes behind those of the loop stay.
carry_bytes_frame :
    (n temp : ℕ) (src dest : Address6) (i : ℕ)
    → n + 2 ≤ i
    → (carry_bytes n temp src dest).1 i ≡ dest i
unfolding carry_bytes
carry_bytes_frame zero temp src dest i p = refl
carry_bytes_frame (suc n) temp src dest i p =
    carry_bytes_frame n ((temp + src (n + 2)) / 256) src
      (update dest (n + 2) ((temp + src (n + 2)) % 256)) i (omega arith)
    ∙ update_ne dest (n + 2) ((temp + src (n + 2)) % 256) i (omega arith)

-- One byte of the sum, with the weight of the carry
carry_step :
    (a byte c p rest t s : ℕ)
    → a + c * p ≡ rest + (t + s) / 256
    → byte ≡ (t + s) % 256
    → a * 256 + byte + c * (p * 256) ≡ rest * 256 + s + t
carry_step a byte c p rest t s h b = omega arith

-- The bytes and the carry write the number and what was added.
carry_bytes-number :
    (n temp : ℕ) (src dest : Address6)
    → let (carry, counted) = carry_bytes n temp src dest in
      number n counted + carry * 256 ^ n ≡ number n src + temp
unfolding carry_bytes number
carry_bytes-number zero temp src dest = omega arith
carry_bytes-number (suc n) temp src dest =
    let sum = temp + src (n + 2) in
    let dest' = update dest (n + 2) (sum % 256) in
    let (carry, counted) = carry_bytes n (sum / 256) src dest' in
    let written : counted (n + 2) ≡ sum % 256 =
      carry_bytes_frame n (sum / 256) src dest' (n + 2) (omega arith)
      ∙ update_self dest (n + 2) (sum % 256) in
    rw (pow-suc 256 n) (
      carry_step (number n counted) (counted (n + 2)) carry (256 ^ n) (number n src) temp
        (src (n + 2)) (carry_bytes-number n (sum / 256) src dest') written)

-- The bytes in the loop are bytes.
carry_bytes_byte :
    (n temp : ℕ) (src dest : Address6) (i : ℕ)
    → 2 ≤ i
    → i < n + 2
    → (carry_bytes n temp src dest).1 i < 256
unfolding carry_bytes
carry_bytes_byte zero temp src dest i p q = absurd (omega arith)
carry_bytes_byte (suc n) temp src dest i p q =
    let sum = temp + src (n + 2) in
    let dest' = update dest (n + 2) (sum % 256) in
    elim (lt-or-le i (n + 2)) [
      | inl r ↦ carry_bytes_byte n (sum / 256) src dest' i p r
      | inr r ↦
          let last : i ≡ n + 2 = omega arith in
          let written : (carry_bytes n (sum / 256) src dest').1 i ≡ dest' i =
            carry_bytes_frame n (sum / 256) src dest' i r in
          ground (arith, written)
    ]

-- The number does not see the first two bytes.
number_frame : (n : ℕ) (a b : Address6) → ((i : ℕ) → 2 ≤ i → a i ≡ b i) → number n a ≡ number n b
unfolding number
number_frame zero a b h = refl
number_frame (suc n) a b h = omega (arith, number_frame n a b h, h (n + 2) (omega arith))

-- The next address, or the last one of its scope
abbrev pub IsNext : Address6 → Option Address6 → Type 0
IsNext src (some dest) =
    (number 14 dest ≡ number 14 src + 1)
    × (dest 0 ≡ src 0)
    × (dest 1 ≡ src 1)
    × ((i : ℕ) → 2 ≤ i → i < 16 → dest i < 256)
IsNext src none = 256 ^ 14 ≤ number 14 src + 1

later_bytes : (src a : Address6) (i : ℕ) → 2 ≤ i → update (update a 1 (src 1)) 0 (src 0) i ≡ a i
later_bytes src a i p = ground arith

-- The result with its first two bytes
update-IsNext :
    (src counted : Address6) (carry : ℕ)
    → carry ≡ 0
    → number 14 counted + carry * 256 ^ 14 ≡ number 14 src + 1
    → ((i : ℕ) → 2 ≤ i → i < 16 → counted i < 256)
    → IsNext src (some (update (update counted 1 (src 1)) 0 (src 0)))
update-IsNext src counted carry e sum small =
    let result = update (update counted 1 (src 1)) 0 (src 0) in
    let same = number_frame 14 result counted (later_bytes src counted) in
    (omega (arith, same), refl, refl, λ i p q. rw (later_bytes src counted i p) (small i p q))

none_left :
    (src counted : Address6) (carry : ℕ)
    → (carry == 0) ≡ false
    → number 14 counted + carry * 256 ^ 14 ≡ number 14 src + 1
    → 256 ^ 14 ≤ number 14 src + 1
none_left src counted carry e sum = ground arith

pub ipv6_increment-IsNext : (src dest : Address6) → IsNext src (ipv6_increment src dest)
unfolding ipv6_increment
ipv6_increment-IsNext src dest =
    let (temp, counted) = carry_bytes 14 1 src dest in
    let sum = carry_bytes-number 14 1 src dest in
    elim (Bool-cases (temp == 0)) [
      | inl e ↦ rw e (
          update-IsNext src counted temp (ground (arith, e)) sum
            (λ i p q. carry_bytes_byte 14 1 src dest i p q))
      | inr e ↦ rw e (none_left src counted temp e sum)
    ]
