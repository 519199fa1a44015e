-- ===== src/Mpool/Take.antt =====
-- mpool_take_obj gives a zeroed link and an object that nothing else uses.
use mathlib.Core.List.{append-nil}
use curl_loader.Base.{
  ℕ, zero, suc, ◌+◌, ◌-◌, ◌/◌, ◌≤◌, ◌<◌, ◌≡◌, ◌≢◌, refl, sym, ap, ◌∙◌, Bool, true, false, arith,
  none, some, List, [], ◌∷◌, ◌++◌, length, All, All-imp, IsOff, ◌==◌, if◌then◌else◌, Bool-cases,
  inl, inr, ◌⊎◌,
}
use curl_loader.Memory.{Machine}
use curl_loader.Mpool.{Mpool, mpool_remove, allocate_steps, mpool_allocate, mpool_take_obj}
use curl_loader.Mpool.Chain.{IsPool, mpool_remove-IsPool, mpool_remove-empty}
use curl_loader.Mpool.Grow.{step_ok, step_denied, allocate_steps_grows, after_chunk, filled}

-- The object `obj` was taken from a pool with the free objects `xs`, and `ys` are left. No object in use,
-- which is below `brk` and off `xs`, is touched.
pub record IsTaken (m : Machine) (p : Mpool) (xs : List ℕ) (obj : ℕ) (ys : List ℕ) (m' : Machine)
    (p' : Mpool) : Type 0 where
  pub nonnull : obj ≢ 0
  pub pool : IsPool m'.mem p' ys
  pub off : IsOff obj ys
  pub used : (a : ℕ) → a < m.os.brk → IsOff a xs → (obj ≢ a) × IsOff a ys × (m'.mem a ≡ m.mem a)
  pub below : (obj < m'.os.brk) × All (λ x. x < m'.os.brk) ys
  pub grows : m.os.brk ≤ m'.os.brk
  pub clear : (m'.mem obj).next ≡ 0
  pub size_kept : p'.obj_size ≡ p.obj_size
  pub step_kept : p'.increase_step ≡ p.increase_step

allocated_mono : (steps acc : ℕ) (m : Machine) (p : Mpool) → acc ≤ (allocate_steps steps acc m p).0
unfolding allocate_steps
allocated_mono zero acc m p = omega arith
allocated_mono (suc steps) acc m p = elim (Bool-cases (m.os.denies m.os.calls)) [
  | inl e ↦ rw (step_denied steps acc m p e) (omega arith)
  | inr e ↦
      rw (step_ok steps acc m p e) (
        omega
          (arith, allocated_mono steps (acc + p.increase_step) (after_chunk m p) (filled m p).1))
]

allocated-pos :
    (steps : ℕ) (m : Machine) (p : Mpool)
    → m.os.denies m.os.calls ≡ false
    → 0 < p.increase_step
    → 0 < (allocate_steps (suc steps) 0 m p).0
allocated-pos steps m p e pos =
    rw (step_ok steps 0 m p e)
      (omega (arith, allocated_mono steps (0 + p.increase_step) (after_chunk m p) (filled m p).1))

-- The objects in use are apart from those of the pool.
first-IsTaken :
    (m : Machine) (p : Mpool) (x : ℕ) (xs : List ℕ)
    → IsPool m.mem p (x ∷ xs)
    → All (λ a. a < m.os.brk) (x ∷ xs)
    → let (r, mem, p') = mpool_remove m.mem p in
      (r ≡ some x) × IsTaken m p (x ∷ xs) x xs (record m { mem = mem }) p'
unfolding mpool_remove
first-IsTaken m p x xs h below =
    let (e, pool, memory) = mpool_remove-IsPool m.mem p x xs h in
    let (head, nonnull, rest) = h.chain in
    let some_head : (p.free_list_head == 0) ≡ false = ground (arith, head, nonnull) in
    (
      e,
      record {
        nonnull = nonnull;
        pool = pool;
        off = h.distinct.0;
        used = λ a q off. ((λ c. off.0 c), off.1, rw memory (ground (arith, off.0)));
        below = below;
        grows = omega arith;
        clear = rw memory (ground arith);
        size_kept = rw some_head refl;
        step_kept = rw some_head refl;
      },
    )

-- How often mpool_allocate calls calloc.
abbrev pub rounds : Mpool → ℕ → ℕ
rounds p num = if num / p.increase_step == 0 then 1 else num / p.increase_step

rounds-suc : (p : Mpool) (num : ℕ) → rounds p num ≡ suc (rounds p num - 1)
rounds-suc p num = ground arith

allocate_runs :
    (m : Machine) (p : Mpool) (num : ℕ)
    → 0 < num
    → 0 < p.increase_step
    → 0 < (allocate_steps (rounds p num) 0 m p).0
    → let (count, m', p') = allocate_steps (rounds p num) 0 m p in
      mpool_allocate m p num ≡ (true, m', record p' { obj_alloc_num = p'.obj_alloc_num + count })
unfolding mpool_allocate
allocate_runs m p num some_num step pos = ground arith

module _ (m : Machine) (p : Mpool) (xs : List ℕ) (num : ℕ) (h : IsPool m.mem p xs)
    (pos : 0 < m.os.brk) (size : 0 < p.obj_size) (step : 0 < p.increase_step) (some_num : 0 < num)
    (below : All (λ x. x < m.os.brk) xs) (given : m.os.denies m.os.calls ≡ false) where
  -- mpool_allocate with memory for one chunk at least.
  pub mpool_allocate-IsPool :
      (done : Bool) (m' : Machine) (p' : Mpool)
      → mpool_allocate m p num ≡ (done, m', p')
      → (done ≡ true)
        × (news : List ℕ) × (0 < length news)
        × (p'.obj_alloc_num ≡ p.obj_alloc_num + length news)
        × (m.os.brk ≤ m'.os.brk)
        × IsPool m'.mem p' (news ++ xs)
        × All (λ x. (m.os.brk ≤ x) × (x < m'.os.brk)) news
        × ((a : ℕ) → a < m.os.brk → m'.mem a ≡ m.mem a)
        × (p'.obj_size ≡ p.obj_size)
        × (p'.increase_step ≡ p.increase_step)
  mpool_allocate-IsPool done m' p' e =
      let some_given : 0 < (allocate_steps (rounds p num) 0 m p).0 =
        rw (rounds-suc p num) (allocated-pos (rounds p num - 1) m p given step) in
      let (news, count, g, up) = allocate_steps_grows (rounds p num) 0 m p xs h pos size below in
      let r = sym (allocate_runs m p num some_num step some_given) ∙ e in
      let same_machine : (allocate_steps (rounds p num) 0 m p).1 ≡ m' = ap (λ x. x.1) r in
      let same_pool = ap (λ (x : Bool × Machine × Mpool). x.2) r in
      rw (← same_pool, ← same_machine, ← ap (λ (x : Bool × Machine × Mpool). x.0) r)
        (
          refl,
          news,
          omega (arith, some_given, count),
          omega (arith, g.number_kept, count),
          up,
          record { chain = g.pool.chain; distinct = g.pool.distinct; size = g.pool.size },
          g.fresh,
          g.frame,
          g.size_kept,
          g.step_kept,
        )

take_first :
    (m : Machine) (p : Mpool) (x : ℕ)
    → (mpool_remove m.mem p).0 ≡ some x
    → let (r, mem, p') = mpool_remove m.mem p in
      mpool_take_obj m p ≡ (some x, record m { mem = mem }, p')
unfolding mpool_take_obj
take_first m p x e = ground (arith, e)

take_grown :
    (m : Machine) (p : Mpool) (x : ℕ)
    → (mpool_remove m.mem p).0 ≡ none
    → let (done, m2, p2) = mpool_allocate m p p.increase_step in
      let (r, mem, p') = mpool_remove m2.mem p2 in
      done ≡ true → r ≡ some x → mpool_take_obj m p ≡ (some x, record m2 { mem = mem }, p')
unfolding mpool_take_obj
take_grown m p x e d c = ground (arith, e, d, c)

module _ (m : Machine) (p : Mpool) (h : IsPool m.mem p []) (pos : 0 < m.os.brk)
    (size : 0 < p.obj_size) (step : 0 < p.increase_step)
    (given : m.os.denies m.os.calls ≡ false) where
  abbrev Taken : Type 0
  Taken =
      (obj : ℕ) × (ys : List ℕ) × (m' : Machine) × (p' : Mpool) × (mpool_take_obj m p
        ≡ (some obj, m', p'))
      × IsTaken m p [] obj ys m' p'

  abbrev m2 : Machine
  m2 = (mpool_allocate m p p.increase_step).1

  abbrev p2 : Mpool
  p2 = (mpool_allocate m p p.increase_step).2

  take_from :
      (mpool_allocate m p p.increase_step).0 ≡ true
      → m.os.brk ≤ m2.os.brk
      → ((a : ℕ) → a < m.os.brk → m2.mem a ≡ m.mem a)
      → p2.obj_size ≡ p.obj_size
      → p2.increase_step ≡ p.increase_step
      → (news : List ℕ) → 0 < length news
      → IsPool m2.mem p2 news
      → All (λ x. (m.os.brk ≤ x) × (x < m2.os.brk)) news
      → Taken
  take_from done up frame size_kept step_kept [] count pool fresh = absurd (omega arith)
  take_from done up frame size_kept step_kept (x ∷ xs) count pool fresh =
      let (e, t) = first-IsTaken m2 p2 x xs pool (All-imp (x ∷ xs) (λ a q. q.1) fresh) in
      let away : (a : ℕ) → a < m.os.brk → IsOff a (x ∷ xs) =
        λ a q. All-imp (x ∷ xs) (λ b r c. omega (arith, r.0, c)) fresh in
      (
        x,
        xs,
        _,
        _,
        take_grown m p x (ap (λ r. r.0) (mpool_remove-empty m.mem p h)) done e,
        record {
          nonnull = t.nonnull;
          pool = t.pool;
          off = t.off;
          used = λ a q off.
              let (apart, off', same) = t.used a (omega arith) (away a q) in
              (apart, off', same ∙ frame a q);
          below = t.below;
          grows = up;
          clear = t.clear;
          size_kept = t.size_kept ∙ size_kept;
          step_kept = t.step_kept ∙ step_kept;
        },
      )

  take_new : Taken
  take_new =
      let (succeeds, news, count, number, up, pool, fresh, frame, size_kept, step_kept) =
        mpool_allocate-IsPool m p [] p.increase_step h pos size step step tt given _ m2 p2 refl in
      take_from succeeds up frame size_kept step_kept news count (rw (append-nil news) at pool)
        fresh

-- mpool_take_obj gives an object if the pool has one or calloc gives memory. The object is not
-- NULL, is in use by nobody, and has a NULL next; the pool is valid without it, and no object in
-- use is changed.
pub mpool_take_obj_lem :
    (m : Machine) (p : Mpool) (xs : List ℕ)
    → IsPool m.mem p xs
    → 0 < m.os.brk
    → 0 < p.obj_size
    → 0 < p.increase_step
    → All (λ x. x < m.os.brk) xs
    → (xs ≢ []) ⊎ (m.os.denies m.os.calls ≡ false)
    → (obj : ℕ) × (ys : List ℕ) × (m' : Machine) × (p' : Mpool) × (mpool_take_obj m p
        ≡ (some obj, m', p'))
      × IsTaken m p xs obj ys m' p'
mpool_take_obj_lem m p [] h pos size step below some_obj = elim some_obj [
  | inl d ↦ absurd (d refl)
  | inr given ↦ take_new m p h pos size step given
]
mpool_take_obj_lem m p (x ∷ xs) h pos size step below some_obj =
    let (e, t) = first-IsTaken m p x xs h below in (x, xs, _, _, take_first m p x e, t)
