-- ===== src/Heap/Exhausted.antt =====
-- What heap.c does where its id counters no longer fit: after heap_increase, and while a popped
-- timer keeps its id.
use curl_loader.Base.{
  ℕ, suc, ◌+◌, ◌≤◌, ◌<◌, ◌≡◌, ◌≢◌, Bool, true, false, arith, none, ok, fault, Yields-ok,
}
use curl_loader.Memory.{Hnode, Machine}
use curl_loader.Heap.{Heap, heap_put_node_to_slot}
use curl_loader.Heap.Operations.{heap_increase, heap_get_node_id, heap_push, push_node, place_node}
use curl_loader.Heap.Push.{enough_room}
use curl_loader.Heap.Ids.{TracksIds, IsScanned, scan_ids_stops}

pub heap_increase_ok :
    (m : Machine) (h : Heap) {m' : Machine} {h' : Heap}
    → heap_increase m h ≡ (true, m', h')
    → (0 < h.heap_increase_step)
      × (h'.max_heap_size ≡ h.max_heap_size + h.heap_increase_step)
      × (h'.ids_last ≡ h.ids_last)
      × (h'.ids_min_free ≡ h.ids_min_free)
unfolding heap_increase
heap_increase_ok m h e = ground arith

-- Where the counters are right and every id is in use, a heap_increase that succeeds leaves
-- ids_min_free between ids_last and the new size, where the counters are wrong.
pub heap_increase-TracksIds :
    (m : Machine) (h : Heap) {m' : Machine} {h' : Heap}
    → TracksIds h
    → ((k : ℕ) → k < h.max_heap_size → h.ids_arr k ≢ none)
    → heap_increase m h ≡ (true, m', h')
    → (h'.ids_last < h'.ids_min_free) × (h'.ids_min_free < h'.max_heap_size) × (¬ TracksIds h')
heap_increase-TracksIds m h t full e =
    let low : h.ids_min_free ≡ h.max_heap_size =
      ground (arith, t.min_upto, t.min_free, full h.ids_min_free) in
    let (step, size, same_last, same_low) = heap_increase_ok m h e in
    (
      omega (arith, same_last, same_low, low, t.last_inside),
      omega (arith, step, size, same_low, low),
      λ t'. omega (arith, t'.min_passed, step, size, same_low, same_last, low, t.last_inside),
    )

-- All ids behind ids_last are in use.
abbrev pub IsScannedOut : Heap → Type 0
IsScannedOut h = (k : ℕ) → h.ids_last < k → k < h.max_heap_size → h.ids_arr k ≢ none

scan_to_end : (h : Heap) (r : ℕ) → IsScannedOut h → IsScanned h h.ids_last r → r ≡ h.max_heap_size
scan_to_end h r out s = ground (arith, s.upto, s.after, s.free, out r)

-- Where all ids behind ids_last are in use and ids_min_free is below the size, heap_get_node_id
-- gives ids_min_free, whether it is in use or not.
pub heap_get_node_id_blind :
    (h : Heap)
    → h.ids_last < h.max_heap_size
    → h.ids_min_free < h.max_heap_size
    → IsScannedOut h
    → heap_get_node_id h
      ≡ ok (h.ids_min_free, record h { ids_last = h.ids_min_free; ids_min_free = h.max_heap_size })
unfolding heap_get_node_id
heap_get_node_id_blind h p q out =
    let (r, e, s) = Yields-ok (scan_ids_stops (suc h.max_heap_size) h h.ids_last p (omega arith)) in
    rw e (ground (arith, scan_to_end h r out s))

get_id_outside :
    (h : Heap)
    → h.ids_last < h.max_heap_size
    → h.max_heap_size ≤ h.ids_min_free
    → IsScannedOut h
    → heap_get_node_id h ≡ ok (h.max_heap_size, record h { ids_last = h.max_heap_size })
unfolding heap_get_node_id
get_id_outside h p q out =
    let (r, e, s) = Yields-ok (scan_ids_stops (suc h.max_heap_size) h h.ids_last p (omega arith)) in
    rw e (ground (arith, scan_to_end h r out s))

place_outside :
    (fcomp : Hnode → Hnode → Bool) (m : Machine) (h : Heap) (nd id : ℕ)
    → h.max_heap_size ≤ id
    → place_node fcomp m h nd id ≡ fault
unfolding place_node heap_put_node_to_slot
place_outside fcomp m h nd id p = ground arith

-- Where a slot is free, ids_last is below the size of the heap, ids_min_free is not, and all ids
-- behind ids_last are in use, heap_push of a node that is not NULL, without its id kept, writes
-- behind the end of ids_arr.
pub heap_push_exhausted :
    (fcomp : Hnode → Hnode → Bool) (m : Machine) (h : Heap) (nd : ℕ)
    → nd ≢ 0
    → h.curr_heap_size < h.max_heap_size
    → h.ids_last < h.max_heap_size
    → h.max_heap_size ≤ h.ids_min_free
    → IsScannedOut h
    → heap_push fcomp m h nd false ≡ fault
unfolding push_node
heap_push_exhausted fcomp m h nd nonnull space p q out =
    rw (enough_room fcomp m h nd nonnull false space, get_id_outside h p q out)
      (place_outside fcomp m _ nd h.max_heap_size (omega arith))
