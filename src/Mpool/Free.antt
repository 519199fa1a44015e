-- ===== src/Mpool/Free.antt =====
-- mpool_free and mpool_mem_release: memory goes back to the operating system.
use curl_loader.Base.{
  ℕ, zero, suc, ◌-◌, ◌<◌, ◌≡◌, refl, ◌⊎◌, inl, inr, Bool, true, false, not, arith, none, some, Run,
  ok, fault, out_of_fuel, ◌>>=◌, within, List, [], ◌∷◌, ◌++◌, ltb, ◌==◌, if◌then◌else◌, length,
}
use curl_loader.Memory.{Store, Machine, calloc}
use curl_loader.Mpool.{Mpool, zero_pool, allocatable_get_next, mpool_remove}
use curl_loader.Mpool.Chain.{IsPool, mpool_remove-IsPool}

-- The for loop of mpool_free: the starts of the blocks, in the order of the free list. The array has
-- `left` entries more. The fuel is the length of the free list.
unfoldable pub block_starts : ℕ → Store → ℕ → ℕ → Run (List ℕ)
block_starts fuel mem zero left = ok []
block_starts zero mem (suc item) left = out_of_fuel
block_starts (suc fuel) mem (suc item) left =
    let node = suc item in
    let found : Run (List ℕ) = do
      rest ← block_starts fuel mem (allocatable_get_next mem node) (left - 1)
      within (ltb 0 left) (node ∷ rest)
    in let rest = block_starts fuel mem (allocatable_get_next mem node) left in
      if (mem node).mem_block_start then found else rest

-- The blocks that were freed, from the last one found to the first.
abbrev pub reversed : List ℕ → List ℕ
reversed [] = []
reversed (x ∷ xs) = reversed xs ++ x ∷ []

-- The result lists the calls of free: those of the blocks, and that of the array of their starts never comes.
unfoldable pub mpool_free : Machine → Mpool → Run (List ℕ × Machine × Mpool)
unfolding block_starts
mpool_free m p =
    let (memblock_array, m') = calloc m p.blocks_alloc_num 8 in
    let free_all : Run (List ℕ × Machine × Mpool) = do
      starts ← block_starts p.free_list_size m'.mem p.free_list_head p.blocks_alloc_num
      ok (reversed starts, m', zero_pool)
    in if not (p.obj_alloc_num == p.free_list_size)
      then ok ([], m, p)
      else if p.blocks_alloc_num == 0
      then ok ([], m, p)
      else elim memblock_array [ none ↦ ok ([], m', p) | some _ ↦ free_all ]

-- The for loop of mpool_mem_release, with the objects that it gives to free. An object that is not the start
-- of a block is not a pointer that calloc gave, and free faults on it. The free list may still hold objects
-- of a block that is freed; that they are read later is not followed.
unfoldable pub release_loop : ℕ → Store → Mpool → Run (List ℕ × Store × Mpool)
release_loop zero mem p = ok ([], mem, p)
release_loop (suc num_obj) mem p =
    let (item_to_free, mem', p') = mpool_remove mem p in
    let rest = release_loop num_obj mem' p' in
    let free : ℕ → Run (List ℕ × Store × Mpool) = λ item. do
      (freed, mem2, p2) ← if (mem' item).mem_block_start then rest else fault
      ok (item ∷ freed, mem2, p2)
    in elim item_to_free [ none ↦ ok ([], mem, p) | some item ↦ free item ]

unfoldable pub mpool_mem_release : Store → Mpool → ℕ → Run (Bool × List ℕ × Store × Mpool)
unfolding release_loop
mpool_mem_release mem p num_obj =
    let release : Run (Bool × List ℕ × Store × Mpool) = do
      (freed, mem', p') ← release_loop num_obj mem p
      ok (true, freed, mem', p')
    in if num_obj == 0 then ok (false, [], mem, p) else release

release_ends :
    (n : ℕ) (mem : Store) (p : Mpool) (item : ℕ)
    → (mpool_remove mem p).0 ≡ some item
    → (((mpool_remove mem p).1 item).mem_block_start ≡ false)
      ⊎ (release_loop n (mpool_remove mem p).1 (mpool_remove mem p).2 ≡ fault)
    → release_loop (suc n) mem p ≡ fault
unfolding release_loop
release_ends n mem p item e (inl f) = ground (arith, e, f)
release_ends n mem p item e (inr f) = ground (arith, e, f)

release_loop_interior :
    (num_obj : ℕ) (mem : Store) (p : Mpool) (before : List ℕ) (x : ℕ) (xs : List ℕ)
    → IsPool mem p (before ++ x ∷ xs)
    → (mem x).mem_block_start ≡ false
    → length before < num_obj
    → release_loop num_obj mem p ≡ fault
release_loop_interior zero mem p before x xs h inner few = absurd (omega (arith, few))
release_loop_interior (suc num_obj) mem p [] x xs h inner few =
    let (e, pool, memory) = mpool_remove-IsPool mem p x xs h in
    release_ends num_obj mem p x e (inl (rw memory (ground (arith, inner))))
release_loop_interior (suc num_obj) mem p (y ∷ before) x xs h inner few =
    let (e, pool, memory) = mpool_remove-IsPool mem p y (before ++ x ∷ xs) h in
    release_ends num_obj mem p y e (
      inr (
        release_loop_interior num_obj (mpool_remove mem p).1 (mpool_remove mem p).2 before x xs pool
          (rw memory (ground (arith, inner))) (omega (arith, few))))

-- On a valid pool, where one of the first num_obj objects of the free list is not the start of a
-- block, mpool_mem_release gives free a pointer that calloc did not give, which is a fault.
pub mpool_mem_release_interior :
    (mem : Store) (p : Mpool) (num_obj : ℕ) (before : List ℕ) (x : ℕ) (xs : List ℕ)
    → IsPool mem p (before ++ x ∷ xs)
    → (mem x).mem_block_start ≡ false
    → length before < num_obj
    → mpool_mem_release mem p num_obj ≡ fault
unfolding mpool_mem_release
mpool_mem_release_interior mem p num_obj before x xs h inner few =
    let asked : (num_obj == 0) ≡ false = ground (arith, few) in
    rw (asked, release_loop_interior num_obj mem p before x xs h inner few) refl
