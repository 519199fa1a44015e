-- ===== src/Mpool/Grow.antt =====
-- mpool_allocate: new objects go in front of the free list, and old memory is left alone.
use mathlib.Core.List.{append_assoc}
use curl_loader.Base.{
  ℕ, zero, suc, ◌+◌, ◌*◌, ◌≤◌, ◌<◌, ◌≡◌, refl, ◌∙◌, Bool, true, false, arith, List, [], ◌∷◌, ◌++◌,
  length, length-append, All, All-imp, All-append, IsOff-of_bound, update, ◌==◌, Bool-cases, inl,
  inr,
}
use curl_loader.Memory.{
  Store, Machine, after_calloc, after_denied, calloc_denied, calloc_ok, calloc_frame,
}
use curl_loader.Mpool.{Mpool, mpool_add, add_items, allocate_steps}
use curl_loader.Mpool.Chain.{IsPool, IsPool-frame, IsPool-update, mpool_add-IsPool}

-- From `(mem, p)` with the free objects `xs` to `(mem', p')`: the objects `news`, whose addresses lie
-- between `low` and `high`, are in front, and memory below `low` is as before.
pub record IsGrown (low high : ℕ) (mem : Store) (p : Mpool) (xs news : List ℕ) (mem' : Store)
    (p' : Mpool) : Type 0 where
  pub pool : IsPool mem' p' (news ++ xs)
  pub fresh : All (λ x. (low ≤ x) × (x < high)) news
  pub frame : (a : ℕ) → a < low → mem' a ≡ mem a
  pub step_kept : p'.increase_step ≡ p.increase_step
  pub size_kept : p'.obj_size ≡ p.obj_size
  pub number_kept : p'.obj_alloc_num ≡ p.obj_alloc_num

pub fresh-below :
    (low high : ℕ) (xs news : List ℕ)
    → low ≤ high
    → All (λ x. x < low) xs
    → All (λ x. (low ≤ x) × (x < high)) news
    → All (λ x. x < high) (news ++ xs)
fresh-below low high xs news p h f =
    All-append _ news xs (All-imp news (λ x q. q.1) f) (All-imp xs (λ x q. omega arith) h)

IsGrown-refl :
    (low high : ℕ) (mem : Store) (p : Mpool) (xs : List ℕ)
    → IsPool mem p xs
    → IsGrown low high mem p xs [] mem p
IsGrown-refl low high mem p xs h = record {
  pool = h;
  fresh = tt;
  frame = λ a q. refl;
  step_kept = refl;
  size_kept = refl;
  number_kept = refl;
}

-- Two growths in a row.
IsGrown-trans :
    (low mid high : ℕ) (m1 m2 m3 : Store) (p1 p2 p3 : Mpool) (xs ys zs : List ℕ)
    → low ≤ mid
    → mid ≤ high
    → IsGrown low mid m1 p1 xs ys m2 p2
    → IsGrown mid high m2 p2 (ys ++ xs) zs m3 p3
    → IsGrown low high m1 p1 xs (zs ++ ys) m3 p3
IsGrown-trans low mid high m1 m2 m3 p1 p2 p3 xs ys zs p q g k = record {
  pool = rw (append_assoc zs ys xs) k.pool;
  fresh =
      All-append _ zs ys (All-imp zs (λ x r. (omega arith, r.1)) k.fresh)
        (All-imp ys (λ x r. (r.0, omega arith)) g.fresh);
  frame = λ a r. k.frame a (omega arith) ∙ g.frame a r;
  step_kept = k.step_kept ∙ g.step_kept;
  size_kept = k.size_kept ∙ g.size_kept;
  number_kept = k.number_kept ∙ g.number_kept;
}

-- One round of the for loop: the item is marked and added.
item_added :
    (mem : Store) (p : Mpool) (item : ℕ) (start : Bool) (xs : List ℕ) (high : ℕ)
    → IsPool mem p xs
    → 0 < item
    → item < high
    → All (λ x. x < item) xs
    → (mem item).next ≡ 0
    → let (mem', p') =
        mpool_add (update mem item (record (mem item) { mem_block_start = start })) p item in
      IsGrown item high mem p xs (item ∷ []) mem' p' × ((a : ℕ) → item < a → mem' a ≡ mem a)
unfolding mpool_add
item_added mem p item start xs high h pos up below clear =
    let marked : Store = update mem item (record (mem item) { mem_block_start = start }) in
    let off = IsOff-of_bound item item xs below (omega arith) in
    let (pool, memory) =
      mpool_add-IsPool marked p item xs (IsPool-update mem p xs item _ off h) (omega arith) off
        (ground arith) in
    (
      record {
        pool = pool;
        fresh = (omega arith, tt);
        frame = λ a q. ground arith;
        step_kept = refl;
        size_kept = refl;
        number_kept = refl;
      },
      λ a q. ground arith,
    )

-- The for loop of mpool_allocate over the zeroed memory of a chunk that ends at `top`.
add_items_grows :
    (left chunk i top : ℕ) (mem : Store) (p : Mpool) (xs : List ℕ)
    → IsPool mem p xs
    → 0 < chunk
    → 0 < p.obj_size
    → All (λ x. x < chunk + i * p.obj_size) xs
    → chunk + i * p.obj_size + left * p.obj_size ≡ top
    → ((a : ℕ) → chunk + i * p.obj_size ≤ a → a < top → (mem a).next ≡ 0)
    → let (mem', p') = add_items left chunk i mem p in
      (news : List ℕ) × (length news ≡ left)
      × IsGrown (chunk + i * p.obj_size) top mem p xs news mem' p'
unfolding add_items
add_items_grows zero chunk i top mem p xs h pos size below e clear =
    ([], refl, IsGrown-refl _ top mem p xs h)
add_items_grows (suc left) chunk i top mem p xs h pos size below e clear =
    let item = chunk + i * p.obj_size in
    let next_item = chunk + (i + 1) * p.obj_size in
    let (g, above) =
      item_added mem p item (i == 0) xs next_item h (omega arith) (omega arith) below
        (clear item (omega arith) (omega arith)) in
    let marked : Store = update mem item (record (mem item) { mem_block_start = i == 0 }) in
    let (mem', p') = mpool_add marked p item in
    let (news, count, k) =
      add_items_grows left chunk (i + 1) top mem' p' (item ∷ xs) g.pool pos size
        (omega arith, All-imp xs (λ x q. omega arith) below) (omega arith)
        (λ a q r. rw (above a (omega arith)) (clear a (omega arith) r)) in
    (
      news ++ item ∷ [],
      omega (arith, count, length-append news (item ∷ [])),
      IsGrown-trans item next_item top mem mem' _ p p' _ xs (item ∷ []) news (omega arith)
          (omega arith) g k,
    )

pub step_denied :
    (steps acc : ℕ) (m : Machine) (p : Mpool)
    → m.os.denies m.os.calls ≡ true
    → allocate_steps (suc steps) acc m p ≡ (acc, after_denied m, p)
unfolding allocate_steps
step_denied steps acc m p e = ground (arith, calloc_denied m p.increase_step p.obj_size e)

-- The items of a chunk that calloc gives are added.
abbrev pub filled : Machine → Mpool → Store × Mpool
filled m p =
    add_items p.increase_step m.os.brk 0 (after_calloc m (p.increase_step * p.obj_size)).mem
      (record p { blocks_alloc_num = p.blocks_alloc_num + 1 })

abbrev pub after_chunk : Machine → Mpool → Machine
after_chunk m p = record (after_calloc m (p.increase_step * p.obj_size)) { mem = (filled m p).0 }

pub step_ok :
    (steps acc : ℕ) (m : Machine) (p : Mpool)
    → m.os.denies m.os.calls ≡ false
    → allocate_steps (suc steps) acc m p
      ≡ allocate_steps steps (acc + p.increase_step) (after_chunk m p) (filled m p).1
unfolding allocate_steps
step_ok steps acc m p e = ground (arith, calloc_ok m p.increase_step p.obj_size e)

filled_grows :
    (m : Machine) (p : Mpool) (xs : List ℕ)
    → IsPool m.mem p xs
    → 0 < m.os.brk
    → 0 < p.obj_size
    → All (λ x. x < m.os.brk) xs
    → (news : List ℕ) × (length news ≡ p.increase_step)
      × IsGrown m.os.brk
          (m.os.brk + p.increase_step * p.obj_size)
          m.mem
          p
          xs
          news
          (filled m p).0
          (filled m p).1
filled_grows m p xs h pos size below =
    let zeroed = (after_calloc m (p.increase_step * p.obj_size)).mem in
    let started = record p { blocks_alloc_num = p.blocks_alloc_num + 1 } in
    let top = m.os.brk + p.increase_step * p.obj_size in
    let start : m.os.brk + 0 * p.obj_size ≡ m.os.brk = omega arith in
    let old = All-imp xs (λ x q. calloc_frame m (p.increase_step * p.obj_size) x q) below in
    let (news, count, g) =
      add_items_grows p.increase_step m.os.brk 0 top zeroed started xs
        (IsPool-frame m.mem zeroed p started xs old refl refl h) pos size
        (All-imp xs (λ x q. omega arith) below) (omega arith) (λ a q r. ground arith) in
    (
      news,
      count,
      record {
        pool = g.pool;
        fresh = All-imp news (λ x q. (omega (arith, q.0), q.1)) g.fresh;
        frame = λ a q. g.frame a (omega arith) ∙ calloc_frame m (p.increase_step * p.obj_size) a q;
        step_kept = g.step_kept;
        size_kept = g.size_kept;
        number_kept = g.number_kept;
      },
    )

-- The while loop of mpool_allocate stops at the first chunk that calloc denies.
pub allocate_steps_grows :
    (steps acc : ℕ) (m : Machine) (p : Mpool) (xs : List ℕ)
    → IsPool m.mem p xs
    → 0 < m.os.brk
    → 0 < p.obj_size
    → All (λ x. x < m.os.brk) xs
    → let (acc', m', p') = allocate_steps steps acc m p in
      (news : List ℕ) × (acc' ≡ acc + length news)
      × IsGrown m.os.brk m'.os.brk m.mem p xs news m'.mem p'
      × (m.os.brk ≤ m'.os.brk)
unfolding allocate_steps
allocate_steps_grows zero acc m p xs h pos size below =
    ([], omega arith, IsGrown-refl m.os.brk m.os.brk m.mem p xs h, omega arith)
allocate_steps_grows (suc steps) acc m p xs h pos size below =
    elim (Bool-cases (m.os.denies m.os.calls)) [
      | inl e ↦
          rw (step_denied steps acc m p e)
            ([], omega arith, IsGrown-refl m.os.brk m.os.brk m.mem p xs h, omega arith)
      | inr e ↦ rw (step_ok steps acc m p e) (
          let (news, count, g) = filled_grows m p xs h pos size below in
          let mid = m.os.brk + p.increase_step * p.obj_size in
          let (more, total, k, q) =
            allocate_steps_grows steps (acc + p.increase_step) (after_chunk m p) (filled m p).1
              (news ++ xs) g.pool (omega arith) (rw g.size_kept size)
              (fresh-below m.os.brk mid xs news (omega arith) below g.fresh) in
          (
            more ++ news,
            omega (arith, total, count, length-append more news),
            IsGrown-trans m.os.brk mid _ m.mem (filled m p).0 _ p (filled m p).1 _ xs news more
                (omega arith) q g k,
            omega (arith, q),
          ))
    ]
