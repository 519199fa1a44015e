-- ===== src/Loader/Clients.antt =====
-- put_free_client and get_free_client: the stack of clients free to send a request.
use mathlib.Core.Path.{fun_ext}
use curl_loader.Base.{
  ℕ, ◌+◌, ◌-◌, ◌≤◌, ◌<◌, ◌≡◌, ◌≢◌, refl, true, false, arith, ◌==◌, update, update_self, some, ok,
}
use curl_loader.Context.{BatchContext}
use curl_loader.Loader.{put_free_client, get_free_client}

-- The entries below the count are different clients of the batch, and those behind it are empty.
pub record IsFreeList (bctx : BatchContext) : Type 0 where
  pub count : bctx.free_clients_count ≤ bctx.client_num_max
  pub named :
      (i : ℕ)
      → i < bctx.free_clients_count
      → (0 < bctx.free_clients i) × (bctx.free_clients i ≤ bctx.client_num_max)
  pub distinct :
      (i j : ℕ)
      → i < bctx.free_clients_count
      → j < bctx.free_clients_count
      → bctx.free_clients i ≡ bctx.free_clients j
      → i ≡ j
  pub empty : (i : ℕ) → bctx.free_clients_count ≤ i → bctx.free_clients i ≡ 0

-- The client is in the list.
abbrev pub IsFree : BatchContext → ℕ → Type 0
IsFree bctx c = (i : ℕ) × (i < bctx.free_clients_count) × (bctx.free_clients i ≡ c + 1)

-- Where the free list is valid, has room, and does not hold a client of the batch, put_free_client
-- of this client succeeds, the list is valid and holds it, and get_free_client gives it back and
-- restores the batch.
pub put_free_client-IsFreeList :
    (bctx : BatchContext) (c : ℕ)
    → IsFreeList bctx
    → c < bctx.client_num_max
    → bctx.free_clients_count < bctx.client_num_max
    → ¬ IsFree bctx c
    → (bctx' : BatchContext) × (put_free_client bctx c ≡ ok (true, bctx'))
      × IsFreeList bctx'
      × IsFree bctx' c
      × (get_free_client bctx' ≡ (some c, bctx))
unfolding put_free_client get_free_client
put_free_client-IsFreeList bctx c f inside room absent =
    let put = record bctx {
      free_clients = update bctx.free_clients bctx.free_clients_count (c + 1);
      free_clients_count = bctx.free_clients_count + 1;
    } in
    let absent' : (i : ℕ) → i < bctx.free_clients_count → bctx.free_clients i ≢ c + 1 =
      λ i p e. absent (i, p, e) in
    let put_runs : put_free_client bctx c ≡ ok (true, put) =
      ground (arith, f.empty bctx.free_clients_count) in
    let before : update (update bctx.free_clients bctx.free_clients_count (c + 1))
          bctx.free_clients_count 0
        ≡ bctx.free_clients =
      fun_ext λ i. ground (arith, f.empty i) in
    let got : get_free_client put ≡ (some c, bctx) =
      let n = bctx.free_clients_count in
      let pos : (n + 1 == 0) ≡ false = ground arith in
      let down : n + 1 - 1 ≡ n = omega arith in
      let named : (c + 1 == 0) ≡ false = ground arith in
      let back : c + 1 - 1 ≡ c = omega arith in
      rw (pos, down, update_self bctx.free_clients n (c + 1), named, back, before) refl in
    (
      put,
      put_runs,
      record {
        count = omega arith;
        named = λ i p. ground (arith, f.named i);
        distinct = λ i j p q e. ground (arith, f.distinct i j, absent' i, absent' j);
        empty = λ i p. ground (arith, f.empty i);
      },
      (bctx.free_clients_count, omega arith, ground arith),
      got,
    )
