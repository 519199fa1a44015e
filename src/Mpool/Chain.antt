-- ===== src/Mpool/Chain.antt =====
-- The free list of a pool is a list of pointers, linked through `next`.
use mathlib.Core.Path.{fun_ext}
use curl_loader.Base.{
  ℕ, ◌≡◌, ◌≢◌, refl, ap, ◌∙◌, false, arith, none, some, List, [], ◌∷◌, length, All, All-imp, IsOff,
  IsDistinct, update, ◌==◌, Bool-cases, inl, inr,
}
use curl_loader.Memory.{Hnode, Store}
use curl_loader.Mpool.{Mpool, mpool_add, mpool_remove}

abbrev pub IsChain : Store → ℕ → List ℕ → Type 0
IsChain mem p [] = p ≡ 0
IsChain mem p (x ∷ xs) = (p ≡ x) × (x ≢ 0) × IsChain mem (mem x).next xs

-- `xs` are the free objects of the pool, the next one to be taken first.
pub record IsPool (mem : Store) (p : Mpool) (xs : List ℕ) : Type 0 where
  pub chain : IsChain mem p.free_list_head xs
  pub distinct : IsDistinct xs
  pub size : p.free_list_size ≡ length xs

-- A write to a node that is off the list leaves the list.
pub IsChain-frame :
    (mem mem' : Store) (p : ℕ) (xs : List ℕ)
    → All (λ x. (mem' x).next ≡ (mem x).next) xs
    → IsChain mem p xs
    → IsChain mem' p xs
IsChain-frame mem mem' p [] f h = h
IsChain-frame mem mem' p (x ∷ xs) f h =
    (h.0, h.1, IsChain-frame mem mem' (mem' x).next xs f.1 (rw f.0 h.2))

-- Memory may change elsewhere, and the pool in its other fields.
pub IsPool-frame :
    (mem mem' : Store) (p p' : Mpool) (xs : List ℕ)
    → All (λ x. mem' x ≡ mem x) xs
    → p'.free_list_head ≡ p.free_list_head
    → p'.free_list_size ≡ p.free_list_size
    → IsPool mem p xs
    → IsPool mem' p' xs
IsPool-frame mem mem' p p' xs same head size h = record {
  chain = rw head (
      IsChain-frame mem mem' p.free_list_head xs
        (All-imp xs (λ x e. ap (λ (n : Hnode). n.next) e) same) h.chain);
  distinct = h.distinct;
  size = size ∙ h.size;
}

off_update :
    (mem : Store) (a : ℕ) (node : Hnode) (xs : List ℕ)
    → IsOff a xs
    → All (λ x. (update mem a node x).next ≡ (mem x).next) xs
off_update mem a node [] off = tt
off_update mem a node (x ∷ xs) off = (ground (arith, off.0), off_update mem a node xs off.1)

pub IsPool-update :
    (mem : Store) (p : Mpool) (xs : List ℕ) (a : ℕ) (node : Hnode)
    → IsOff a xs
    → IsPool mem p xs
    → IsPool (update mem a node) p xs
IsPool-update mem p xs a node off h = record {
  chain =
      IsChain-frame mem (update mem a node) p.free_list_head xs (off_update mem a node xs off)
        h.chain;
  distinct = h.distinct;
  size = h.size;
}

-- mpool_remove takes the head of the list.
pub mpool_remove-IsPool :
    (mem : Store) (p : Mpool) (x : ℕ) (xs : List ℕ)
    → IsPool mem p (x ∷ xs)
    → let (r, mem', p') = mpool_remove mem p in
      (r ≡ some x) × IsPool mem' p' xs × (mem' ≡ update mem x (record (mem x) { next = 0 }))
unfolding mpool_remove
mpool_remove-IsPool mem p x xs h =
    let cleared : Store = update mem x (record (mem x) { next = 0 }) in
    let (at, nonnull, rest) = h.chain in
    let some_head : (p.free_list_head == 0) ≡ false = ground (arith, at, nonnull) in
    rw (some_head, at)
      (
        refl,
        record {
          chain =
              IsChain-frame mem cleared (mem x).next xs (off_update mem x _ xs h.distinct.0) rest;
          distinct = h.distinct.1;
          size = omega (arith, h.size);
        },
        refl,
      )

pub mpool_remove-empty :
    (mem : Store) (p : Mpool) → IsPool mem p [] → mpool_remove mem p ≡ (none, mem, p)
unfolding mpool_remove
mpool_remove-empty mem p h = ground (arith, h.chain)

-- Where the list is empty, the `next` that mpool_add leaves alone is NULL already.
add_memory :
    (mem : Store) (p : Mpool) (item : ℕ)
    → (mem item).next ≡ 0
    → (mpool_add mem p item).0 ≡ update mem item (record (mem item) { next = p.free_list_head })
unfolding mpool_add
add_memory mem p item clear = elim (Bool-cases (p.free_list_head == 0)) [
  | inl e ↦ rw e (fun_ext λ a. ground arith)
  | inr e ↦ rw e
]

-- mpool_add of an object that is not NULL, not in the pool, and whose next is NULL puts it in front
-- of the free list, and writes to this object alone.
pub mpool_add-IsPool :
    (mem : Store) (p : Mpool) (item : ℕ) (xs : List ℕ)
    → IsPool mem p xs
    → item ≢ 0
    → IsOff item xs
    → (mem item).next ≡ 0
    → let (mem', p') = mpool_add mem p item in
      IsPool mem' p' (item ∷ xs)
      × (mem' ≡ update mem item (record (mem item) { next = p.free_list_head }))
unfolding mpool_add
mpool_add-IsPool mem p item xs h nonnull off clear =
    let linked = update mem item (record (mem item) { next = p.free_list_head }) in
    let to_head : (linked item).next ≡ p.free_list_head = ground arith in
    rw (add_memory mem p item clear) (
      record {
        chain = (
          refl,
          nonnull,
          rw to_head
              (IsChain-frame mem linked p.free_list_head xs (off_update mem item _ xs off) h.chain),
        );
        distinct = (off, h.distinct);
        size = omega (arith, h.size);
      },
      refl,
    )
