-- ===== src/Heap/Slots.antt =====
-- The two arrays of heap.c agree: the id of the node in a slot is mapped to the slot. While a
-- filter runs, one slot is vacant and its node, the target, is held outside the array.
use mathlib.Core.Path.{fun_ext, subst}
use curl_loader.Base.{
  ℕ, ◌≤◌, ◌<◌, ◌≡◌, refl, sym, ◌∙◌, ◌≢◌, some, arith, ok, lt→ltb, ◌==◌, if◌then◌else◌, update,
  update_ne,
}
use curl_loader.Memory.{Store}
use curl_loader.Heap.{Heap, load, place, heap_put_node_to_slot}

-- The first `n` slots hold nodes whose ids lie in the arrays and lead back to the slots.
pub record IsMapped (mem : Store) (n : ℕ) (h : Heap) : Type 0 where
  pub room : n ≤ h.max_heap_size
  pub mapped : (i : ℕ) → i < n → h.ids_arr (mem (h.heap i)).node_id ≡ some i
  pub named : (i : ℕ) → i < n → (mem (h.heap i)).node_id < h.max_heap_size

-- The same for every slot but `cur`, which is vacant; the target has an id of its own.
pub record IsVacant (mem : Store) (n cur target : ℕ) (h : Heap) : Type 0 where
  pub room : n ≤ h.max_heap_size
  pub inside : cur < n
  pub mapped : (i : ℕ) → i < n → i ≢ cur → h.ids_arr (mem (h.heap i)).node_id ≡ some i
  pub named : (i : ℕ) → i < n → i ≢ cur → (mem (h.heap i)).node_id < h.max_heap_size
  pub own : (i : ℕ) → i < n → i ≢ cur → (mem (h.heap i)).node_id ≢ (mem target).node_id
  pub target_named : (mem target).node_id < h.max_heap_size

-- The slots of two arrays hold the same pointers.
pub record Same (n : ℕ) (v w : ℕ → ℕ) : Type 0 where
  pub found : (i : ℕ) → i < n → (j : ℕ) × (j < n) × (w j ≡ v i)
  pub origin : (j : ℕ) → j < n → (i : ℕ) × (i < n) × (v i ≡ w j)

pub Same-refl : (n : ℕ) (v : ℕ → ℕ) → Same n v v
Same-refl n v = record { found = λ i p. (i, p, refl); origin = λ i p. (i, p, refl) }

pub Same-trans : {n : ℕ} {u v w : ℕ → ℕ} → Same n u v → Same n v w → Same n u w
Same-trans s t = record {
  found = λ i p. let (j, q, e) = s.found i p in let (k, r, d) = t.found j q in (k, r, d ∙ e);
  origin = λ k r. let (j, q, e) = t.origin k r in let (i, p, d) = s.origin j q in (i, p, d ∙ e);
}

-- Which slot the pointer of slot `i` has after the move of `j`'s pointer to `cur`.
moved_to : ℕ → ℕ → ℕ → ℕ
moved_to cur j i = if i == cur then j else if i == j then cur else i

moved_to-lt : (n cur j i : ℕ) → cur < n → j < n → i < n → moved_to cur j i < n
unfolding moved_to
moved_to-lt n cur j i p q r = ground arith

move_values :
    (v : ℕ → ℕ) (cur j target i : ℕ)
    → cur ≢ j
    → update (update v cur (v j)) j target (moved_to cur j i) ≡ update v cur target i
unfolding moved_to
move_values v cur j target i d = ground arith

move_values_back :
    (v : ℕ → ℕ) (cur j target i : ℕ)
    → cur ≢ j
    → update v cur target (moved_to cur j i) ≡ update (update v cur (v j)) j target i
unfolding moved_to
move_values_back v cur j target i d = ground arith

-- The vacancy passes from `cur` to `j` when the pointer in `j` is copied to `cur`.
pub move-Same :
    (n : ℕ) (v : ℕ → ℕ) (cur j target : ℕ)
    → cur < n
    → j < n
    → cur ≢ j
    → Same n (update v cur target) (update (update v cur (v j)) j target)
move-Same n v cur j target p q d = record {
  found = λ i r. (moved_to cur j i, moved_to-lt n cur j i p q r, move_values v cur j target i d);
  origin =
      λ i r. (moved_to cur j i, moved_to-lt n cur j i p q r, move_values_back v cur j target i d);
}

pub load-ok : (h : Heap) (i : ℕ) → i < h.max_heap_size → load h i ≡ ok (h.heap i)
unfolding load
load-ok h i p = rw (lt→ltb _ _ p)

pub put-ok :
    (mem : Store) (h : Heap) (i nd : ℕ)
    → i < h.max_heap_size
    → (mem nd).node_id < h.max_heap_size
    → heap_put_node_to_slot mem h i nd ≡ ok (place mem h i nd)
unfolding heap_put_node_to_slot
put-ok mem h i nd p q = rw (lt→ltb _ _ p, lt→ltb _ _ q)

-- What a filter that starts with `target` held outside slot `cur` of `h` has done when it ends
-- with `h'`: the arrays agree again and hold the same nodes, and nothing else has changed.
pub record Settled (mem : Store) (n : ℕ) (v : ℕ → ℕ) (h h' : Heap) : Type 0 where
  pub mapped : IsMapped mem n h'
  pub same : Same n v h'.heap
  pub others : (k : ℕ) → ((i : ℕ) → i < n → (mem (v i)).node_id ≢ k) → h'.ids_arr k ≡ h.ids_arr k
  pub beyond : (i : ℕ) → n ≤ i → h'.heap i ≡ h.heap i
  pub rest : h' ≡ record h { heap = h'.heap; ids_arr = h'.ids_arr }

module _ (mem : Store) (n cur target : ℕ) (h : Heap) (v : IsVacant mem n cur target h) where
  place-IsMapped : IsMapped mem n (place mem h cur target)
  place-IsMapped = record {
    room = v.room;
    mapped = λ i p. ground (arith, v.mapped i p, v.own i p);
    named = λ i p. ground (arith, v.named i p, v.target_named);
  }

  pub place-Settled : Settled mem n (update h.heap cur target) h (place mem h cur target)
  place-Settled = record {
    mapped = place-IsMapped;
    same = Same-refl n _;
    others = λ k away. update_other k (away cur v.inside);
    beyond = λ i p. ground (arith, v.inside);
    rest = refl;
  }
    where
      update_other :
          (k : ℕ)
          → (mem (update h.heap cur target cur)).node_id ≢ k
          → update h.ids_arr (mem target).node_id (some cur) k ≡ h.ids_arr k
      update_other k d = ground arith

  module _ (j : ℕ) (p : j < n) (d : j ≢ cur) where
    distinct :
        (i : ℕ) → i < n → i ≢ cur → i ≢ j → (mem (h.heap i)).node_id ≢ (mem (h.heap j)).node_id
    distinct i q e f = ground (arith, v.mapped i q e, v.mapped j p d)

    pub place-IsVacant : IsVacant mem n j target (place mem h cur (h.heap j))
    place-IsVacant = record {
      room = v.room;
      inside = p;
      mapped = λ i q e. ground (arith, v.mapped i q, distinct i q);
      named = λ i q e. ground (arith, v.named i q, v.named j p d);
      own = λ i q e. ground (arith, v.own i q, v.own j p d);
      target_named = v.target_named;
    }

    -- A filter that moves a node and goes on has done what the rest of it has done.
    pub Settled-move :
        (h' : Heap)
        → Settled mem n
            (update (place mem h cur (h.heap j)).heap j target)
            (place mem h cur (h.heap j))
            h'
        → Settled mem n (update h.heap cur target) h h'
    Settled-move h' s = record {
      mapped = s.mapped;
      same = Same-trans step s.same;
      others = λ k away. s.others k (away_after k away) ∙ update_away k (away j p);
      beyond = λ i q. s.beyond i q ∙ update_ne h.heap cur (h.heap j) i (omega (arith, v.inside));
      rest = s.rest;
    }
      where
        step : Same n (update h.heap cur target) (update (update h.heap cur (h.heap j)) j target)
        step = move-Same n h.heap cur j target v.inside p (λ e. d (sym e))

        away_after :
            (k : ℕ)
            → ((i : ℕ) → i < n → (mem (update h.heap cur target i)).node_id ≢ k)
            → (i : ℕ) → i < n
            → (mem (update (update h.heap cur (h.heap j)) j target i)).node_id ≢ k
        away_after k away i q = let (i', r, e) = step.origin i q in rw (← e) (away i' r)

        update_away :
            (k : ℕ)
            → (mem (update h.heap cur target j)).node_id ≢ k
            → update h.ids_arr (mem (h.heap j)).node_id (some cur) k ≡ h.ids_arr k
        update_away k e = ground arith

-- A node put into slot `cur` may as well be held outside it.
pub put_twice : (v : ℕ → ℕ) (cur nd : ℕ) → update (update v cur nd) cur nd ≡ update v cur nd
put_twice v cur nd = fun_ext λ i. ground arith

pub Settled-put :
    (mem : Store) (n cur nd : ℕ) (h h' : Heap)
    → cur < n
    → Settled mem n (update (place mem h cur nd).heap cur nd) (place mem h cur nd) h'
    → Settled mem n (update h.heap cur nd) h h'
Settled-put mem n cur nd h h' inside s = record {
  mapped = s.mapped;
  same = rw (put_twice h.heap cur nd) at s.same;
  others = λ k away.
      s.others k (
        subst (λ w. (i : ℕ) → i < n → (mem (w i)).node_id ≢ k) (sym (put_twice h.heap cur nd)) away)
      ∙ put_other k (away cur inside);
  beyond = λ i q. s.beyond i q ∙ update_ne h.heap cur nd i (omega arith);
  rest = s.rest;
}
  where
    put_other :
        (k : ℕ)
        → (mem (update h.heap cur nd cur)).node_id ≢ k
        → update h.ids_arr (mem nd).node_id (some cur) k ≡ h.ids_arr k
    put_other k d = ground arith
