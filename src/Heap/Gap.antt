-- ===== src/Heap/Gap.antt =====
-- The first half of heap_remove_node: the gap that the removed node leaves is closed.
use curl_loader.Base.{
  ℕ, suc, ◌-◌, ◌<◌, ◌≡◌, ◌≢◌, refl, Bool, arith, ltb, ◌==◌, if◌then◌else◌, update, Yields, yields,
  Yields-imp, Yields-branch, ok,
}
use curl_loader.Memory.{Hnode, Store}
use curl_loader.Heap.{Heap, less}
use curl_loader.Heap.Operations.{size_t_dec, refill_slot}
use curl_loader.Heap.Slots.{IsMapped, Settled, Same-refl}
use curl_loader.Heap.Order.{IsStrictWeak, less-IsStrictWeak, IsOrdered}
use curl_loader.Heap.Refill.{refill_restores}

-- `v` has, in its first `n` slots, the pointers of the first `n + 1` slots of `hp` but that of `slot`.
pub record IsRest (n slot : ℕ) (hp v : ℕ → ℕ) : Type 0 where
  pub from : (i : ℕ) → i < n → (j : ℕ) × (j < suc n) × (j ≢ slot) × (v i ≡ hp j)
  pub into : (j : ℕ) → j < suc n → j ≢ slot → (i : ℕ) × (i < n) × (v i ≡ hp j)

refilled-IsRest : (n slot : ℕ) (hp : ℕ → ℕ) → slot < n → IsRest n slot hp (update hp slot (hp n))
refilled-IsRest n slot hp p = record {
  from = λ i q. (if i == slot then n else i, ground arith, ground arith, ground arith);
  into = λ j q d. (if j == n then slot else j, ground arith, ground arith);
}

shortened-IsRest : (n : ℕ) (hp : ℕ → ℕ) → IsRest n n hp hp
shortened-IsRest n hp = record {
  from = λ i q. (i, omega arith, omega arith, refl);
  into = λ j q d. (j, omega arith, refl);
}

pub size_t_dec_lem : (n : ℕ) → 0 < n → size_t_dec n ≡ n - 1
unfolding size_t_dec
size_t_dec_lem n p = ground arith

-- What heap_remove_node has done before it frees the id.
abbrev pub Rests : (Hnode → Hnode → Bool) → Store → Heap → ℕ → Heap → Type 0
Rests fcomp mem h slot h' =
    (v : ℕ → ℕ) × Settled mem h.curr_heap_size v h h'
    × IsOrdered (less fcomp mem) h.curr_heap_size h'.heap
    × IsRest h.curr_heap_size slot h.heap v

module _ (fcomp : Hnode → Hnode → Bool) (mem : Store) (sw : IsStrictWeak fcomp) (h : Heap)
    (slot : ℕ) (m : IsMapped mem (suc h.curr_heap_size) h)
    (o : IsOrdered (less fcomp mem) (suc h.curr_heap_size) h.heap) where
  last-Rests : slot ≡ h.curr_heap_size → Rests fcomp mem h slot h
  last-Rests e = (
    h.heap,
    record {
      mapped = record {
        room = omega (arith, m.room);
        mapped = λ i p. m.mapped i (omega arith);
        named = λ i p. m.named i (omega arith);
      };
      same = Same-refl _ _;
      others = λ k away. refl;
      beyond = λ i p. refl;
      rest = refl;
    },
    (λ c p q. o c p (omega arith)),
    rw e (shortened-IsRest h.curr_heap_size h.heap),
  )

  -- The heap without the node of `slot`.
  pub closes_gap :
      slot < suc h.curr_heap_size
      → Yields
          (Rests fcomp mem h slot)
          (if ltb slot h.curr_heap_size then refill_slot fcomp mem h slot else ok h)
  closes_gap p =
      Yields-branch (ltb slot h.curr_heap_size)
        (λ inner.
          let q : slot < h.curr_heap_size = ground arith in
          Yields-imp (refill_restores fcomp mem (less-IsStrictWeak fcomp mem sw) h slot m o q)
            λ h' (s, ordered). (_, s, ordered, refilled-IsRest _ slot h.heap q))
        (λ end. yields (last-Rests (ground arith)))
