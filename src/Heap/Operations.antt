-- ===== src/Heap/Operations.antt =====
-- The operations of heap.c on whole heaps. A size of type size_t that falls below 0 wraps around.
use curl_loader.Base.{
  ℕ, zero, suc, ◌+◌, ◌-◌, ◌^◌, Bool, true, false, ◌&&◌, not, Option, none, some, Run, ok,
  out_of_fuel, ◌>>=◌, within, ltb, leb, ◌==◌, if◌then◌else◌, update, List, [],
}
use curl_loader.Memory.{Hnode, Store, Machine, calloc}
use curl_loader.Mpool.{zero_pool, mpool_init, mpool_allocate}
use curl_loader.Mpool.Free.{mpool_free}
use curl_loader.Heap.{Heap, load, heap_put_node_to_slot, heap_parent, less, filter_up, filter_down}

unfoldable pub node_reset : Store → ℕ → Store
node_reset mem node =
    if node == 0
    then mem
    else update mem node (record (mem node) { node_id = 0; ctx = 0; next = 0 })

-- The heap after `memset ((void*)h, 0, sizeof (*h))`; its arrays are NULL.
abbrev pub zero_heap : Heap
zero_heap = record {
  heap = λ _. 0;
  max_heap_size = 0;
  curr_heap_size = 0;
  heap_increase_step = 0;
  ids_arr = λ _. none;
  ids_last = 0;
  ids_min_free = 0;
  ids_min_free_restore = 0;
  nodes_mpool = none;
}

-- The size of a pointer, of a long and of the structs, in bytes.
abbrev pub pointer_size : ℕ
pointer_size = 8

abbrev pub hnode_size : ℕ
hnode_size = 32

abbrev pub mpool_struct_size : ℕ
mpool_struct_size = 32

-- `comparator` says whether a comparator is given. `true` is the result 0 and `false` is -1.
unfoldable pub heap_init : ℕ → Machine → ℕ → ℕ → Bool → ℕ → Bool × Machine × Heap
heap_init pagesize m initial_heap_size increase_step comparator nodes_prealloc =
    let (heap_array, m1) = calloc m initial_heap_size pointer_size in
    let (ids_array, m2) = calloc m1 initial_heap_size pointer_size in
    let sized = record zero_heap {
      max_heap_size = initial_heap_size;
      heap_increase_step = increase_step;
    } in
    let (pool_struct, m3) = calloc m2 1 mpool_struct_size in
    let (ready, m4, pool) = mpool_init pagesize m3 zero_pool hnode_size nodes_prealloc in
    elim heap_array [
      | none ↦ (false, m1, zero_heap)
      | some _ ↦ elim ids_array [
        | none ↦ (false, m2, zero_heap)
        | some _ ↦ if not comparator then (false, m2, sized) else elim pool_struct [
          | none ↦ (false, m3, sized)
          | some _ ↦ (ready, m4, record sized { nodes_mpool = some pool })
        ]
      ]
    ]

unfoldable pub heap_prealloc : Machine → Heap → ℕ → Bool × Machine × Heap
heap_prealloc m h nodes_prealloc =
    if nodes_prealloc == 0 then (false, m, h) else elim h.nodes_mpool [
      | none ↦ (false, m, h)
      | some p ↦
          let (done, m', p') = mpool_allocate m p nodes_prealloc in
          if p.increase_step == 0
          then (false, m, h)
          else (done, m', record h { nodes_mpool = some p' })
    ]

unfoldable pub heap_empty : Heap → Bool
heap_empty h = h.curr_heap_size == 0

unfoldable pub heap_size : Heap → ℕ
heap_size h = h.curr_heap_size

-- `none` is NULL.
unfoldable pub heap_top_node : Heap → Run (Option ℕ)
heap_top_node h = if h.curr_heap_size == 0 then ok none else (load h 0 >>= λ top. ok (some top))

-- Both arrays grow by heap_increase_step entries, empty and free.
unfoldable pub heap_increase : Machine → Heap → Bool × Machine × Heap
heap_increase m h =
    let new_size = h.max_heap_size + h.heap_increase_step in
    let (new_heap, m1) = calloc m new_size pointer_size in
    let (new_ids, m2) = calloc m1 new_size pointer_size in
    let grown = record h {
      heap = λ i. if ltb i h.max_heap_size then h.heap i else 0;
      ids_arr = λ k. if ltb k h.max_heap_size then h.ids_arr k else none;
      max_heap_size = new_size;
    } in
    if h.heap_increase_step == 0 then (false, m, h) else elim new_heap [
      | none ↦ (false, m1, h)
      | some _ ↦ elim new_ids [ none ↦ (false, m2, h) | some _ ↦ (true, m2, grown) ]
    ]

-- The while loop of heap_get_node_id: the value that ids_last stops at.
unfoldable pub scan_ids : ℕ → Heap → ℕ → Run ℕ
scan_ids zero h ids_last = out_of_fuel
scan_ids (suc fuel) h ids_last =
    let next = ids_last + 1 in
    let go_on = scan_ids fuel h next in
    if ltb next h.max_heap_size
    then elim (h.ids_arr next) [ none ↦ ok next | some _ ↦ go_on ]
    else ok next

-- Each round of the loop reads another entry of ids_arr, so its size is fuel enough.
unfoldable pub heap_get_node_id : Heap → Run (ℕ × Heap)
unfolding scan_ids
heap_get_node_id h = scan_ids (suc h.max_heap_size) h h.ids_last >>= λ last.
    if last == h.max_heap_size && ltb h.ids_min_free h.max_heap_size
    then ok (h.ids_min_free, record h { ids_last = h.ids_min_free; ids_min_free = h.max_heap_size })
    else ok (last, record h { ids_last = last })

unfoldable pub release_node_id : Heap → ℕ → Run Heap
release_node_id h node_id =
    let freed = record h { ids_arr = update h.ids_arr node_id none } in
    within (ltb node_id h.max_heap_size) (
      if ltb node_id h.ids_min_free && leb node_id h.ids_last
      then record freed { ids_min_free_restore = h.ids_min_free; ids_min_free = node_id }
      else freed)

unfoldable pub size_t_dec : ℕ → ℕ
size_t_dec n = if n == 0 then 2 ^ 64 - 1 else n - 1

module _ (fcomp : Hnode → Hnode → Bool) where
  -- heap_push once the id is chosen: `nd` goes behind the last slot and up.
  unfoldable pub place_node : Machine → Heap → ℕ → ℕ → Run (Option ℕ × Machine × Heap)
  place_node m h nd new_node_id = do
    let mem = update m.mem nd (record (m.mem nd) { node_id = new_node_id })
    h' ←
        (heap_put_node_to_slot mem h h.curr_heap_size nd >>= λ h1.
        filter_up fcomp mem h1 h1.curr_heap_size)
    ok (
      some new_node_id,
      record m { mem = mem },
      record h' { curr_heap_size = h'.curr_heap_size + 1 },
    )

  -- heap_push once the heap has room.
  unfoldable pub push_node : Machine → Heap → ℕ → Bool → Run (Option ℕ × Machine × Heap)
  push_node m h nd keep_node_id = do
    (new_node_id, h') ← if keep_node_id then ok ((m.mem nd).node_id, h) else heap_get_node_id h
    place_node m h' nd new_node_id

  -- `none` is the result -1.
  unfoldable pub heap_push : Machine → Heap → ℕ → Bool → Run (Option ℕ × Machine × Heap)
  unfolding push_node place_node
  heap_push m h nd keep_node_id =
      let (grown, m', h') = heap_increase m h in
      if nd == 0
      then ok (none, m, h)
      else if leb h.max_heap_size h.curr_heap_size
      then (if grown then push_node m' h' nd keep_node_id else ok (none, m', h'))
      else push_node m h nd keep_node_id

  -- The end node takes the slot of the removed one, and goes up or down.
  unfoldable pub refill_slot : Store → Heap → ℕ → Run Heap
  refill_slot mem h slot = do
    moved ← load h h.curr_heap_size
    h1 ← heap_put_node_to_slot mem h slot moved
    above ← load h1 (heap_parent slot)
    if less fcomp mem moved above
        then filter_up fcomp mem h1 slot
        else filter_down fcomp mem h1 slot

  unfoldable pub heap_remove_node : Store → Heap → ℕ → Bool → Run (Option ℕ × Heap)
  unfolding refill_slot
  heap_remove_node mem h slot reserve_slot = do
    removed ← load h slot
    let h1 = record h { curr_heap_size = size_t_dec h.curr_heap_size }
    let rest : Run (Option ℕ × Heap) = do
      h2 ← if ltb slot h1.curr_heap_size then refill_slot mem h1 slot else ok h1
      h3 ← if reserve_slot then ok h2 else release_node_id h2 (mem removed).node_id
      ok (some removed, h3)
    if removed == 0 then ok (none, h) else rest

  unfoldable pub heap_pop : Store → Heap → Bool → Run (Option ℕ × Heap)
  heap_pop mem h keep_timer_id =
      if h.curr_heap_size == 0 then ok (none, h) else heap_remove_node mem h 0 keep_timer_id

-- The result lists the calls of free on the nodes of the pool. Those of the arrays and of the pool itself
-- are not listed.
unfoldable pub heap_reset : Machine → Heap → Run (List ℕ × Machine × Heap)
heap_reset m h = elim h.nodes_mpool [
  | none ↦ ok ([], m, zero_heap)
  | some p ↦ mpool_free m p >>= λ (freed, m', p'). ok (freed, m', zero_heap)
]
