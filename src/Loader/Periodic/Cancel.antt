-- ===== src/Loader/Periodic/Cancel.antt =====
-- cancel_periodic_timers: the periodic timers leave the queue.
use curl_loader.Base.{
  ℕ, ◌<◌, ◌≡◌, ◌≢◌, refl, sym, ap, ◌∙◌, ◌⊎◌, inl, inr, Bool, true, false, ◌||◌, arith, Option, none,
  some, List, [], ◌∷◌, All, ok, Yields, yields, Yields-bind, Yields-imp, ◌>>=◌, ◌==◌, if◌then◌else◌,
  eq-or-ne, Bool-cases,
}
use curl_loader.Mpool.{Mpool}
use curl_loader.TimerQueue.{TimerNode, TimerQueue, set_timer_id, tq_cancel_timer}
use curl_loader.TimerQueue.Valid.{IsQueue, timer_at}
use curl_loader.TimerQueue.Schedule.{renamed-IsQueue}
use curl_loader.TimerQueue.Cancel.{IsCancelled, tq_cancel_timer_lem, tq_cancel_timer_unknown}
use curl_loader.Loader.Periodic.{
  PeriodicTimers, cancel_periodic, cancel_nodes, periodic_nodes, cancel_periodic_timers,
}

-- Whether `t` is among the nodes.
unfoldable pub among : ℕ → List ℕ → Bool
among t [] = false
among t (x ∷ xs) = t == x || among t xs

abbrev pub no_id : TimerNode → TimerNode
no_id t = record t { timer_id = none }

-- A node in the queue has its id as timer_id, and the id that it has is in range and, if it is in use,
-- that of one of the nodes `all`.
abbrev pub IsOwn : List ℕ → TimerQueue → ℕ → Type 0
IsOwn all q t =
    (k : ℕ)
    → (timer_at q k ≡ some t → (q.timers t).timer_id ≡ some k)
      × ((q.timers t).timer_id ≡ some k
          → (k < q.queue.max_heap_size) × ((u : ℕ) → timer_at q k ≡ some u → among u all ≡ true))

-- Ids keep their timers, but for those of nodes of `all`, which may have none.
abbrev KeepsOthers : List ℕ → TimerQueue → TimerQueue → ℕ → Type 0
KeepsOthers all q q' k =
    (timer_at q' k ≡ timer_at q k)
    ⊎ ((u : ℕ) × (timer_at q k ≡ some u) × (among u all ≡ true) × (timer_at q' k ≡ none))

-- The nodes `gone` have left the queue.
record AreGone (all gone : List ℕ) (q q' : TimerQueue) : Type 0 where
  valid : (p' : Mpool) × (frees' : List ℕ) × IsQueue none q' p' frees'
  view : (k : ℕ) → KeepsOthers all q q' k
  absent : (t k : ℕ) → among t gone ≡ true → timer_at q' k ≢ some t
  timers : (t : ℕ) → q'.timers t ≡ (if among t gone then no_id (q.timers t) else q.timers t)
  room : q'.queue.max_heap_size ≡ q.queue.max_heap_size

among-one : (u t : ℕ) → among u (t ∷ []) ≡ true → u ≡ t
unfolding among
among-one u t e = ground (arith, e)

-- A timer in the queue is not under the id of its node, if this id is not in use.
not_under :
    (all : List ℕ) (q : TimerQueue) (t : ℕ)
    → IsOwn all q t
    → (id : ℕ) → (q.timers t).timer_id ≡ some id
    → (u k : ℕ) → among u (t ∷ []) ≡ true
    → timer_at q k ≡ some u
    → k ≡ id
not_under all q t own id e u k c d =
    let same = among-one u t c in
    let named = (own k).0 (d ∙ ap some same) in ground (arith, e, named)

module _ (all : List ℕ) {q : TimerQueue} {p : Mpool} {frees : List ℕ} (v : IsQueue none q p frees)
    (t : ℕ) (own : IsOwn all q t) where
  -- A node that has no id, one whose id has no timer, and one whose id has a timer.
  no_id-AreGone : (q.timers t).timer_id ≡ none → AreGone all (t ∷ []) q q
  unfolding among
  no_id-AreGone e = record {
    valid = (p, frees, v);
    view = λ k. inl refl;
    absent = λ u k c d. ground (arith, e, c, (own k).0, d);
    timers = λ u. ground (arith, e);
    room = refl;
  }

  unused-AreGone :
      (id : ℕ)
      → (q.timers t).timer_id ≡ some id
      → timer_at q id ≡ none
      → AreGone all (t ∷ []) q (set_timer_id q t none)
  unfolding timer_at among
  unused-AreGone id e off = record {
    valid = (p, frees, renamed-IsQueue t none v);
    view = λ k. inl refl;
    absent =
        λ u k c d. ground (arith, ap (timer_at q) (not_under all q t own id e u k c d), d, off);
    timers = λ u. ground arith;
    room = refl;
  }

  used-AreGone :
      (id u : ℕ) {q1 : TimerQueue}
      → (q.timers t).timer_id ≡ some id
      → timer_at q id ≡ some u
      → IsCancelled none q id q1
      → AreGone all (t ∷ []) q (set_timer_id q1 t none)
  unfolding timer_at among
  used-AreGone id u {q1} e at c =
      let (p', frees', v') = c.valid in
      record {
        valid = (p', frees', renamed-IsQueue t none v');
        view = λ k. elim (eq-or-ne k id) [
          | inl r ↦
              inr (u, ap (timer_at q) r ∙ at, ((own id).1 e).1 u at, c.view k ∙ ground (arith, r))
          | inr r ↦ inl (c.view k ∙ ground (arith, r))
        ];
        absent = λ x k d g. elim (eq-or-ne k id) [
          | inl r ↦ absurd (ground (arith, c.view k, g, r))
          | inr r ↦ r (not_under all q t own id e x k d (sym (c.view k ∙ ground (arith, r)) ∙ g))
        ];
        timers = λ x. ground (arith, c.timers);
        room = c.room;
      }

  -- One node
  cancel_periodic-AreGone : Yields (AreGone all (t ∷ []) q) (cancel_periodic q t)
  unfolding cancel_periodic
  cancel_periodic-AreGone = at (q.timers t).timer_id refl
    where
      cancelled :
          (id : ℕ)
          → (q.timers t).timer_id ≡ some id
          → (o : Option ℕ) → timer_at q id ≡ o
          → Yields
              (AreGone all (t ∷ []) q)
              (tq_cancel_timer q (some id) >>= λ (done, q'). ok (set_timer_id q' t none))
      cancelled id e none d =
          rw (tq_cancel_timer_unknown v id refl ((own id).1 e).0 d) (yields (unused-AreGone id e d))
      cancelled id e (some u) d =
          Yields-bind (tq_cancel_timer_lem v id u d)
            λ (done, q1) (r, c). yields (used-AreGone id u e d c)

      at :
          (o : Option ℕ)
          → (q.timers t).timer_id ≡ o
          → Yields (AreGone all (t ∷ []) q) (elim o [
            | none ↦ ok q
            | some id ↦ tq_cancel_timer q (some id) >>= λ (done, q'). ok (set_timer_id q' t none)
          ])
      at none e = yields (no_id-AreGone e)
      at (some id) e = cancelled id e (timer_at q id) refl

-- From `q` over `q1`, where the node `t` is gone, to `q'`, where the others are gone too.
gone_more :
    (all : List ℕ) (t : ℕ) (nodes : List ℕ) {q q1 q' : TimerQueue}
    → AreGone all (t ∷ []) q q1
    → AreGone all nodes q1 q'
    → AreGone all (t ∷ nodes) q q'
unfolding among
gone_more all t nodes {q} {q1} {q'} c d = record {
  valid = d.valid;
  view = λ k. elim (d.view k) [
    | inl r ↦ elim (c.view k) [
      | inl s ↦ inl (r ∙ s)
      | inr (u, at, own, off) ↦ inr (u, at, own, r ∙ off)
    ]
    | inr (u, at, own, off) ↦ elim (c.view k) [
      | inl s ↦ inr (u, sym s ∙ at, own, off)
      | inr (x, here, mine, left) ↦ absurd (ground (arith, left, at))
    ]
  ];
  absent = λ u k e at. elim (eq-or-ne u t) [
    | inl r ↦ elim (d.view k) [
      | inl s ↦ c.absent u k (ground (arith, r)) (sym s ∙ at)
      | inr (x, here, mine, off) ↦ absurd (ground (arith, off, at))
    ]
    | inr r ↦ d.absent u k (ground (arith, e, r)) at
  ];
  timers = λ u. ground (arith, d.timers u, c.timers u);
  room = d.room ∙ c.room;
}

-- The nodes that are left own their ids as before.
gone-IsOwn :
    (all : List ℕ) (t u : ℕ) {q q1 : TimerQueue}
    → AreGone all (t ∷ []) q q1
    → IsOwn all q u
    → IsOwn all q1 u
unfolding among
gone-IsOwn all t u {q} {q1} c own k = (
  λ e. elim (eq-or-ne u t) [
    | inl r ↦ absurd (c.absent u k (ground (arith, r)) e)
    | inr r ↦ let named = (own k).0 (stays u e) in ground (arith, c.timers u, r, named)
  ],
  λ e. elim (eq-or-ne u t) [
    | inl r ↦ absurd (ground (arith, c.timers u, r, e))
    | inr r ↦
        let (inside, mine) = (own k).1 (ground (arith, c.timers u, r, e)) in
        (rw (c.room) inside, λ x at. mine x (stays x at))
  ],
)
  where
    stays : (x : ℕ) → timer_at q1 k ≡ some x → timer_at q k ≡ some x
    stays x e = elim (c.view k) [
      | inl s ↦ sym s ∙ e
      | inr (y, at, mine, off) ↦ absurd (ground (arith, off, e))
    ]

gone-AllOwn :
    (all : List ℕ) (t : ℕ) (nodes : List ℕ) {q q1 : TimerQueue}
    → AreGone all (t ∷ []) q q1
    → All (IsOwn all q) nodes
    → All (IsOwn all q1) nodes
gone-AllOwn all t [] c own = tt
gone-AllOwn all t (u ∷ nodes) c own = (gone-IsOwn all t u c own.0, gone-AllOwn all t nodes c own.1)

cancel_nodes-AreGone :
    (all nodes : List ℕ) {q : TimerQueue} {p : Mpool} {frees : List ℕ}
    → IsQueue none q p frees
    → All (IsOwn all q) nodes
    → Yields (AreGone all nodes q) (cancel_nodes nodes q)
unfolding cancel_nodes among
cancel_nodes-AreGone all [] {q} {p} {frees} v own = yields (record {
  valid = (p, frees, v);
  view = λ k. inl refl;
  absent = λ t k e. absurd (ground (arith, e));
  timers = λ t. refl;
  room = refl;
})
cancel_nodes-AreGone all (t ∷ nodes) v own =
    Yields-bind (cancel_periodic-AreGone all v t own.0) λ q1 c.
      let (p1, frees1, v1) = c.valid in
      Yields-imp (cancel_nodes-AreGone all nodes v1 (gone-AllOwn all t nodes c own.1))
        λ q' d. gone_more all t nodes c d

-- What is left of the timer of an id without the nodes.
unfoldable pub unless : List ℕ → Option ℕ → Option ℕ
unfolding among
unless nodes none = none
unless nodes (some t) = if among t nodes then none else some t

-- The nodes have left the queue, and everything else is as before.
pub record AreCleared (nodes : List ℕ) (q q' : TimerQueue) : Type 0 where
  pub valid : (p' : Mpool) × (frees' : List ℕ) × IsQueue none q' p' frees'
  pub view : (k : ℕ) → timer_at q' k ≡ unless nodes (timer_at q k)
  pub timers : (t : ℕ) → q'.timers t ≡ (if among t nodes then no_id (q.timers t) else q.timers t)

gone-unless :
    (nodes : List ℕ) {q q' : TimerQueue}
    → AreGone nodes nodes q q'
    → (k : ℕ) (o : Option ℕ) → timer_at q k ≡ o
    → timer_at q' k ≡ unless nodes o
unfolding unless
gone-unless nodes c k none e = elim (c.view k) [ inl r ↦ r ∙ e | inr (u, at, own, off) ↦ off ]
gone-unless nodes c k (some t) e = elim (Bool-cases (among t nodes)) [
  | inl d ↦
      rw d
        (elim (c.view k) [ inl r ↦ absurd (c.absent t k d (r ∙ e)) | inr (u, at, own, off) ↦ off ])
  | inr d ↦ rw d (elim (c.view k) [
    | inl r ↦ r ∙ e
    | inr (u, at, own, off) ↦ absurd (ground (arith, e, at, own, d))
  ])
]

-- On a valid queue that keeps no id, where each of the four periodic nodes that is in the queue has
-- its id as timer_id, and where the timer_id of each is -1, or an id in range that is free or that
-- of one of the four, cancel_periodic_timers ends: the four are in the queue no more and have the
-- timer_id -1, every other timer keeps its id, and the queue is valid.
pub cancel_periodic_timers-AreCleared :
    {q : TimerQueue} {p : Mpool} {frees : List ℕ} (nodes : PeriodicTimers)
    → IsQueue none q p frees
    → All (IsOwn (periodic_nodes nodes) q) (periodic_nodes nodes)
    → Yields (AreCleared (periodic_nodes nodes) q) (cancel_periodic_timers nodes q)
unfolding cancel_periodic_timers
cancel_periodic_timers-AreCleared {q} nodes v own =
    Yields-imp (cancel_nodes-AreGone (periodic_nodes nodes) (periodic_nodes nodes) v own) λ q' c.
      record {
        valid = c.valid;
        view = λ k. gone-unless (periodic_nodes nodes) c k (timer_at q k) refl;
        timers = c.timers;
      }
