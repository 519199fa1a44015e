-- ===== src/Heap/Order.antt =====
-- The order of heap.c: no node is less than its parent.
use curl_loader.Base.{
  ℕ, zero, suc, ◌+◌, ◌-◌, ◌/◌, ◌<◌, ◌≤◌, ◌≡◌, ◌≢◌, Bool, true, false, arith, if◌then◌else◌, update,
  ◌⊎◌, inl, inr, Bool-cases,
}
use curl_loader.Memory.{Hnode, Store}
use curl_loader.Heap.{Heap, heap_parent, less}
use curl_loader.Heap.Slots.{Settled}

-- What heap.c needs of a comparator: `a < b` excludes `b < a`, and "not less" is transitive.
pub record IsStrictWeak {A : Type 0} (below : A → A → Bool) : Type 0 where
  pub asym : (a b : A) → below a b ≡ true → below b a ≡ false
  pub not_less_trans : (a b c : A) → below a b ≡ false → below b c ≡ false → below a c ≡ false

-- The order of nodes gives one of the pointers to them.
pub less-IsStrictWeak :
    (fcomp : Hnode → Hnode → Bool) (mem : Store)
    → IsStrictWeak fcomp
    → IsStrictWeak (less fcomp mem)
less-IsStrictWeak fcomp mem s = record {
  asym = λ a b. s.asym (mem a) (mem b);
  not_less_trans = λ a b c. s.not_less_trans (mem a) (mem b) (mem c);
}

abbrev pub parent : ℕ → ℕ
parent c = (c - 1) / 2

pub heap_parent_lem : (c : ℕ) → heap_parent c ≡ parent c
unfolding heap_parent
heap_parent_lem c = ground arith

-- Every edge is in order.
abbrev pub IsOrdered : (ℕ → ℕ → Bool) → ℕ → (ℕ → ℕ) → Type 0
IsOrdered less n v = (c : ℕ) → 0 < c → c < n → less (v c) (v (parent c)) ≡ false

-- What a filter of `h` with `target` outside slot `cur` ends with.
abbrev pub Filtered : (Hnode → Hnode → Bool) → Store → ℕ → ℕ → ℕ → Heap → Heap → Type 0
Filtered fcomp mem n cur target h h' =
    Settled mem n (update h.heap cur target) h h' × IsOrdered (less fcomp mem) n h'.heap

-- The children of `i` are in order with the parent of `i`.
abbrev pub IsBridged : (ℕ → ℕ → Bool) → ℕ → (ℕ → ℕ) → ℕ → Type 0
IsBridged less n v i =
    (c : ℕ) → 0 < c → c < n → parent c ≡ i → 0 < i → less (v c) (v (parent i)) ≡ false

-- Every edge but the one above `i` is in order.
pub record IsOrderedButAbove (less : ℕ → ℕ → Bool) (n : ℕ) (v : ℕ → ℕ) (i : ℕ) : Type 0 where
  pub edges : (c : ℕ) → 0 < c → c < n → c ≢ i → less (v c) (v (parent c)) ≡ false
  pub bridged : IsBridged less n v i

-- Every edge but those below `i` is in order.
pub record IsOrderedButBelow (less : ℕ → ℕ → Bool) (n : ℕ) (v : ℕ → ℕ) (i : ℕ) : Type 0 where
  pub edges : (c : ℕ) → 0 < c → c < n → parent c ≢ i → less (v c) (v (parent c)) ≡ false
  pub bridged : IsBridged less n v i

-- `m` is a child of `i`, and no child of `i` is less.
pub record IsLeastChild (less : ℕ → ℕ → Bool) (n : ℕ) (v : ℕ → ℕ) (i m : ℕ) : Type 0 where
  pub inside : m < n
  pub positive : 0 < m
  pub child : parent m ≡ i
  pub least : (c : ℕ) → 0 < c → c < n → parent c ≡ i → less (v c) (v m) ≡ false

children : (c i : ℕ) → 0 < c → parent c ≡ i → (c ≡ i + i + 1) ⊎ (c ≡ i + i + 1 + 1)
children c i p e = omega arith

module _ (less : ℕ → ℕ → Bool) (sw : IsStrictWeak less) (n : ℕ) where
  pub irrefl : (a : ℕ) → less a a ≡ false
  irrefl a = ground (arith, sw.asym a a)

  least_below :
      (k : ℕ) (v : ℕ → ℕ) (i : ℕ) → IsOrdered less n v → i < k → i < n → less (v i) (v 0) ≡ false
  least_below zero v i o f p = elim f [ ]
  least_below (suc k) v i o f p = ground (
    arith,
    irrefl (v 0),
    o i,
    least_below k v (parent i) o,
    sw.not_less_trans (v i) (v (parent i)) (v 0),
  )

  -- No node is less than the root.
  pub root_least : (v : ℕ → ℕ) (i : ℕ) → IsOrdered less n v → i < n → less (v i) (v 0) ≡ false
  root_least v i o p = least_below (suc i) v i o (omega arith) p

  module _ (hp : ℕ → ℕ) (cur target : ℕ) where
    -- A node that moves down to the vacant slot `cur` leaves the order broken only above its own.
    pub climb_above :
        0 < cur
        → cur < n
        → IsOrderedButAbove less n (update hp cur target) cur
        → less (hp (parent cur)) target ≡ false
        → IsOrderedButAbove less n
            (update (update hp cur (hp (parent cur))) (parent cur) target)
            (parent cur)
    climb_above pos inside o above = record {
      edges = λ c p q d. ground (
        arith,
        o.edges c p q,
        o.bridged c p q,
        sw.not_less_trans (hp c) (hp (parent cur)) target,
      );
      bridged = λ c p q e r. ground (
        arith,
        o.edges c p q,
        o.edges (parent cur),
        sw.not_less_trans (hp c) (hp (parent cur)) (hp (parent (parent cur))),
      );
    }

    pub settle_above :
        IsOrderedButAbove less n (update hp cur target) cur
        → (0 < cur → less target (hp (parent cur)) ≡ false)
        → IsOrdered less n (update hp cur target)
    settle_above o edge c p q = ground (arith, o.edges c p q, edge)

    pub sink_below :
        (m : ℕ)
        → IsOrderedButBelow less n (update hp cur target) cur
        → IsLeastChild less n hp cur m
        → less target (hp m) ≡ false
        → IsOrderedButBelow less n (update (update hp cur (hp m)) m target) m
    sink_below m o l below = record {
      edges = λ c p q d. ground (
        arith,
        o.edges c p q,
        o.bridged m l.positive l.inside l.child,
        l.least c p q,
        l.child,
        l.positive,
      );
      bridged = λ c p q e r. ground (arith, o.edges c p q, l.child, l.positive);
    }

    pub settle_below :
        IsOrderedButBelow less n (update hp cur target) cur
        → ((c : ℕ) → 0 < c → c < n → parent c ≡ cur → less (hp c) target ≡ false)
        → IsOrdered less n (update hp cur target)
    settle_below o edge c p q = ground (arith, o.edges c p q, edge c p q)

  -- The child that filter_down selects where both exist, and where only the left one does.
  pub both_children :
      (v : ℕ → ℕ) (i : ℕ)
      → i + i + 1 + 1 < n
      → IsLeastChild less n v i
          (if less (v (i + i + 1 + 1)) (v (i + i + 1)) then i + i + 1 + 1 else i + i + 1)
  both_children v i p = elim (Bool-cases (less (v (i + i + 1 + 1)) (v (i + i + 1)))) [
    | inl e ↦ rw e (record {
      inside = p;
      positive = omega arith;
      child = omega arith;
      least = λ c q r s. elim (children c i q s) [
        | inl l ↦ rw l (sw.asym _ _ e)
        | inr l ↦ rw l (irrefl _)
      ];
    })
    | inr e ↦ rw e (record {
      inside = omega arith;
      positive = omega arith;
      child = omega arith;
      least = λ c q r s. elim (children c i q s) [ inl l ↦ rw l (irrefl _) | inr l ↦ rw l e ];
    })
  ]

  pub left_child :
      (v : ℕ → ℕ) (i : ℕ) → i + i + 1 < n → n ≤ i + i + 1 + 1 → IsLeastChild less n v i (i + i + 1)
  left_child v i p q = record {
    inside = p;
    positive = omega arith;
    child = omega arith;
    least = λ c r s e. elim (children c i r e) [
      | inl l ↦ rw l (irrefl _)
      | inr l ↦ absurd (omega arith)
    ];
  }
