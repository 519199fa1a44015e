-- ===== src/Context/Shared.antt =====
-- batch.c: the shared addresses are given out in turn.
use native.Mathlib.Nat.{mod-eq_of_lt, add-mod_left}
use curl_loader.Base.{
  ℕ, zero, suc, ◌+◌, ◌%◌, ◌<◌, ◌≡◌, refl, sym, ap, ◌∙◌, true, false, arith, ◌==◌, if◌then◌else◌,
  Bool-cases, inl, inr,
}
use curl_loader.Context.{BatchContext, next_ipv4_shared_index}

-- The batch after `n` calls of next_ipv4_shared_index.
unfoldable pub after_calls : ℕ → BatchContext → BatchContext
unfolding next_ipv4_shared_index
after_calls zero bctx = bctx
after_calls (suc n) bctx = after_calls n (next_ipv4_shared_index bctx).1

-- From an index inside the shared addresses, call number n (from 0 on) of next_ipv4_shared_index
-- gives the index that is n further, counted round robin, and never one outside them.
pub next_ipv4_shared_index_turns :
    (n : ℕ) (bctx : BatchContext)
    → bctx.ipv4_shared_index < bctx.ip_shared_num
    → let given = (next_ipv4_shared_index (after_calls n bctx)).0 in
      (given < bctx.ip_shared_num) × (given ≡ (bctx.ipv4_shared_index + n) % bctx.ip_shared_num)
unfolding after_calls next_ipv4_shared_index
next_ipv4_shared_index_turns zero bctx inside =
    (inside, sym (mod-eq_of_lt (omega arith)) ∙ ap (λ k. k % bctx.ip_shared_num) (omega arith))
next_ipv4_shared_index_turns (suc n) bctx inside =
    let next = (next_ipv4_shared_index bctx).1 in
    elim (Bool-cases (bctx.ipv4_shared_index + 1 == bctx.ip_shared_num)) [
      | inl e ↦
          let (below, turn) = next_ipv4_shared_index_turns n next (rw e (omega arith)) in
          let around : bctx.ipv4_shared_index + suc n ≡ bctx.ip_shared_num + n = ground arith in
          (below, rw around (turn ∙ first e n ∙ sym (add-mod_left bctx.ip_shared_num n)))
      | inr e ↦
          let (below, turn) = next_ipv4_shared_index_turns n next (rw e (ground arith)) in
          let on : bctx.ipv4_shared_index + suc n ≡ bctx.ipv4_shared_index + 1 + n = omega arith in
          (below, rw on (turn ∙ second e n))
    ]
  where
    index : ℕ
    index =
        if bctx.ipv4_shared_index + 1 == bctx.ip_shared_num then 0 else bctx.ipv4_shared_index + 1

    first :
        (bctx.ipv4_shared_index + 1 == bctx.ip_shared_num) ≡ true
        → (n : ℕ) → (index + n) % bctx.ip_shared_num ≡ n % bctx.ip_shared_num
    first e n = rw e (ap (λ k. k % bctx.ip_shared_num) (omega arith))

    second :
        (bctx.ipv4_shared_index + 1 == bctx.ip_shared_num) ≡ false
        → (n : ℕ)
        → (index + n) % bctx.ip_shared_num ≡ (bctx.ipv4_shared_index + 1 + n) % bctx.ip_shared_num
    second e n = rw e refl
