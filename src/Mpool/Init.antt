-- ===== src/Mpool/Init.antt =====
-- mpool_init: a pool with free objects.
use mathlib.Core.List.{append-nil}
use curl_loader.Base.{ℕ, ◌+◌, ◌/◌, ◌≤◌, ◌<◌, ◌≡◌, refl, true, arith, List, [], length, All, All-imp}
use curl_loader.Memory.{Machine}
use curl_loader.Mpool.{Mpool, zero_pool, chunk_size, allocate_steps, mpool_allocate, mpool_init}
use curl_loader.Mpool.Chain.{IsPool}
use curl_loader.Mpool.Grow.{allocate_steps_grows}
use curl_loader.Mpool.Take.{rounds}

-- What an mpool_allocate that succeeds has done.
allocate_ran :
    (m : Machine) (p : Mpool) (num : ℕ) {m' : Machine} {p' : Mpool}
    → mpool_allocate m p num ≡ (true, m', p')
    → let (count, m2, p2) = allocate_steps (rounds p num) 0 m p in
      (0 < count)
      × (0 < p.increase_step)
      × (m' ≡ m2)
      × (p' ≡ record p2 { obj_alloc_num = p2.obj_alloc_num + count })
unfolding mpool_allocate
allocate_ran m p num e = ground arith

-- What an mpool_init of the object size of the heap's nodes that succeeds has done.
init_ran :
    (pagesize : ℕ) (m : Machine) (num : ℕ) {m' : Machine} {p' : Mpool}
    → mpool_init pagesize m zero_pool 32 num ≡ (true, m', p')
    → mpool_allocate m
        (record zero_pool { obj_size = 32; increase_step = chunk_size pagesize / 32 })
        num
      ≡ (true, m', p')
unfolding mpool_init
init_ran pagesize m num e = ground arith

-- A pool for objects of 32 bytes that mpool_init made has free objects, all in fresh memory.
pub mpool_init-IsPool :
    (pagesize : ℕ) (m : Machine) (num : ℕ) {m' : Machine} {p' : Mpool}
    → 0 < m.os.brk
    → mpool_init pagesize m zero_pool 32 num ≡ (true, m', p')
    → (frees : List ℕ) × (0 < length frees)
      × IsPool m'.mem p' frees
      × All (λ x. x < m'.os.brk) frees
      × (m.os.brk ≤ m'.os.brk)
      × (p'.obj_size ≡ 32)
      × (0 < p'.increase_step)
mpool_init-IsPool pagesize m num pos e =
    let p = record zero_pool { obj_size = 32; increase_step = chunk_size pagesize / 32 } in
    let (positive, step, same_machine, same_pool) =
      allocate_ran m p num (init_ran pagesize m num e) in
    let (news, count, g, up) =
      allocate_steps_grows (rounds p num) 0 m p []
        (record { chain = refl; distinct = tt; size = refl }) pos (omega arith) tt in
    let pool = rw (append-nil news) at g.pool in
    rw (same_machine, same_pool)
      (
        news,
        omega (arith, count, positive),
        record { chain = pool.chain; distinct = pool.distinct; size = pool.size },
        All-imp news (λ x q. q.1) g.fresh,
        up,
        g.size_kept,
        omega (arith, g.step_kept, step),
      )
