-- ===== src/Heap/Valid.antt =====
-- The invariant of a heap between two calls of heap.c, and the view of it that its clients have: a
-- partial map from node-ids to the pointers of the nodes.
use curl_loader.Base.{
  ℕ, suc, ◌+◌, ◌<◌, ◌≡◌, ◌≢◌, refl, ◌⊎◌, inl, inr, Bool, ◌&&◌, arith, ltb, ◌==◌, Option, none, some,
  if◌then◌else◌, lt-or-le, eq-or-ne,
}
use curl_loader.Base.Pigeonhole.{has_empty}
use curl_loader.Memory.{Hnode, Store}
use curl_loader.Heap.{Heap, less}
use curl_loader.Heap.Slots.{IsMapped}
use curl_loader.Heap.Order.{IsOrdered}
use curl_loader.Heap.Ids.{TracksIds}

-- The node that an id stands for: the id's slot holds a node with this id.
unfoldable pub node_at : Store → Heap → ℕ → Option ℕ
node_at mem h k = elim (h.ids_arr k) [
  | none ↦ none
  | some s ↦
      if ltb s h.curr_heap_size && (mem (h.heap s)).node_id == k then some (h.heap s) else none
]

-- `held` is the id that a popped periodic timer keeps, if there is one.
abbrev pub held_count : Option ℕ → ℕ
held_count none = 0
held_count (some k) = 1

pub record IsHeap (fcomp : Hnode → Hnode → Bool) (mem : Store) (held : Option ℕ) (h : Heap)
    : Type 0 where
  pub mapped : IsMapped mem h.curr_heap_size h
  pub ordered : IsOrdered (less fcomp mem) h.curr_heap_size h.heap
  pub solid : (i : ℕ) → i < h.curr_heap_size → h.heap i ≢ 0
  pub live :
      (k s : ℕ)
      → k < h.max_heap_size
      → h.ids_arr k ≡ some s
      → (held ≡ some k) ⊎ ((s < h.curr_heap_size) × ((mem (h.heap s)).node_id ≡ k))
  pub held_taken : (k : ℕ) → held ≡ some k → (k < h.max_heap_size) × (h.ids_arr k ≢ none)
  pub held_apart : (k i : ℕ) → held ≡ some k → i < h.curr_heap_size → (mem (h.heap i)).node_id ≢ k
  pub tracks : TracksIds h

module _ (mem : Store) (h : Heap) (m : IsMapped mem h.curr_heap_size h) where
  pub node_at_slot :
      (i : ℕ) → i < h.curr_heap_size → node_at mem h (mem (h.heap i)).node_id ≡ some (h.heap i)
  unfolding node_at
  node_at_slot i p = rw (m.mapped i p, node_at) (ground arith)

  -- Two slots never hold nodes with one id.
  pub slots_distinct :
      (i j : ℕ)
      → i < h.curr_heap_size
      → j < h.curr_heap_size
      → (mem (h.heap i)).node_id ≡ (mem (h.heap j)).node_id
      → i ≡ j
  slots_distinct i j p q e = ground (arith, m.mapped i p, m.mapped j q)

pub node_at_away :
    (mem : Store) (h : Heap) (k : ℕ)
    → ((i : ℕ) → i < h.curr_heap_size → (mem (h.heap i)).node_id ≢ k)
    → node_at mem h k ≡ none
unfolding node_at
node_at_away mem h k away = at (h.ids_arr k)
  where
    at :
        (o : Option ℕ)
        → (elim o as (λ _. Option ℕ) [
          | none ↦ none
          | some s ↦
              if ltb s h.curr_heap_size && (mem (h.heap s)).node_id == k
              then some (h.heap s)
              else none
        ])
          ≡ none
    at none = refl
    at (some s) = ground (arith, away s)

-- Whether the node with an id is in the heap can be told.
pub in_heap :
    (mem : Store) (h : Heap) (k : ℕ)
    → IsMapped mem h.curr_heap_size h
    → ((i : ℕ) × (i < h.curr_heap_size) × ((mem (h.heap i)).node_id ≡ k))
      ⊎ ((i : ℕ) → i < h.curr_heap_size → (mem (h.heap i)).node_id ≢ k)
in_heap mem h k m = at (h.ids_arr k) refl
  where
    unmapped : (i : ℕ) → i < h.curr_heap_size → h.ids_arr k ≢ some i → (mem (h.heap i)).node_id ≢ k
    unmapped i p d e = ground (arith, m.mapped i p)

    at :
        (o : Option ℕ)
        → h.ids_arr k ≡ o
        → ((i : ℕ) × (i < h.curr_heap_size) × ((mem (h.heap i)).node_id ≡ k))
          ⊎ ((i : ℕ) → i < h.curr_heap_size → (mem (h.heap i)).node_id ≢ k)
    at none e = inr (λ i p. unmapped i p (λ d. cc))
    at (some s) e = elim (lt-or-le s h.curr_heap_size) [
      | inl p ↦ elim (eq-or-ne (mem (h.heap s)).node_id k) [
        | inl here ↦ inl (s, p, here)
        | inr d ↦ inr (λ i q c. d (ground (arith, m.mapped i q)))
      ]
      | inr out ↦ inr (λ i p. unmapped i p (λ d. ground arith))
    ]

-- A heap with a slot to spare has an id to spare.
pub free_id :
    (fcomp : Hnode → Hnode → Bool) (mem : Store) (held : Option ℕ) (h : Heap)
    → IsHeap fcomp mem held h
    → h.curr_heap_size + held_count held < h.max_heap_size
    → (k : ℕ) × (k < h.max_heap_size) × (h.ids_arr k ≡ none)
free_id fcomp mem none h v space =
    has_empty h.ids_arr h.max_heap_size h.curr_heap_size (omega arith)
      (λ k s p e. ground (arith, v.live k s p e))
      (λ j k s p q d e. ground (arith, v.live j s p d, v.live k s q e))
free_id fcomp mem (some r) h v space =
    let (k, p, e) =
      has_empty (λ k. if r == k then some h.curr_heap_size else h.ids_arr k) h.max_heap_size
        (suc h.curr_heap_size) (omega arith) (λ k s p e. ground (arith, v.live k s p))
        (λ j k s p q d e. ground (arith, v.live j s p, v.live k s q)) in
    (k, p, ground arith)

-- The node of an id is in one of the slots.
pub node_at-slot :
    (mem : Store) (h : Heap) (k nd : ℕ)
    → node_at mem h k ≡ some nd
    → (i : ℕ) × (i < h.curr_heap_size)
      × (h.heap i ≡ nd)
      × ((mem nd).node_id ≡ k)
      × (h.ids_arr k ≡ some i)
unfolding node_at
node_at-slot mem h k nd e = at (h.ids_arr k) refl e
  where
    at :
        (o : Option ℕ)
        → h.ids_arr k ≡ o
        → (elim o as (λ _. Option ℕ) [
          | none ↦ none
          | some s ↦
              if ltb s h.curr_heap_size && (mem (h.heap s)).node_id == k
              then some (h.heap s)
              else none
        ])
          ≡ some nd
        → (i : ℕ) × (i < h.curr_heap_size)
          × (h.heap i ≡ nd)
          × ((mem nd).node_id ≡ k)
          × (h.ids_arr k ≡ some i)
    at none d e = absurd (ground (arith, e))
    at (some s) d e = (s, ground (arith, e), ground (arith, e), ground (arith, e), d)
