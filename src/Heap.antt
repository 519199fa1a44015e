-- ===== src/Heap.antt =====
-- heap.c and heap.h: a binary heap of hnode pointers with an array that maps a node-id to the
-- slot of its node.
use curl_loader.Memory.{Hnode, Store}
use curl_loader.Mpool.{Mpool}
pub mod Slots
pub mod Order
pub mod Up
pub mod Down
pub mod Operations
pub mod Insert
pub mod Ids
pub mod Valid
pub mod Finish
pub mod Frame
pub mod Placed
pub mod Push
pub mod Refill
pub mod Gap
pub mod Removed
pub mod Below
pub mod Remove
pub mod Init
pub mod Exhausted
use curl_loader.Base.{
  ℕ, zero, suc, ◌+◌, ◌-◌, ◌/◌, Bool, ◌&&◌, Option, some, Run, ok, out_of_fuel, ◌>>=◌, within, ltb,
  ◌==◌, if◌then◌else◌, update,
}

-- `ids_arr` holds `none` for -1, and `nodes_mpool` is `none` for NULL. The comparator is an argument
-- of the functions that call it. Both arrays have `max_heap_size` entries.
pub record Heap : Type 0 where
  pub heap : ℕ → ℕ
  pub max_heap_size : ℕ
  pub curr_heap_size : ℕ
  pub heap_increase_step : ℕ
  pub ids_arr : ℕ → Option ℕ
  pub ids_last : ℕ
  pub ids_min_free : ℕ
  pub ids_min_free_restore : ℕ
  pub nodes_mpool : Option Mpool

-- HEAP_PARENT
unfoldable pub heap_parent : ℕ → ℕ
heap_parent x = if x == 0 then 0 else (x - 1) / 2

-- HEAP_LCHILD
abbrev pub heap_lchild : ℕ → ℕ
heap_lchild x = x + x + 1

-- `h->heap[slot]`
unfoldable pub load : Heap → ℕ → Run ℕ
load h slot = within (ltb slot h.max_heap_size) (h.heap slot)

-- The two writes of heap_put_node_to_slot.
abbrev pub place : Store → Heap → ℕ → ℕ → Heap
place mem h slot nd = record h {
  heap = update h.heap slot nd;
  ids_arr = update h.ids_arr (mem nd).node_id (some slot);
}

unfoldable pub heap_put_node_to_slot : Store → Heap → ℕ → ℕ → Run Heap
heap_put_node_to_slot mem h slot nd =
    within (ltb slot h.max_heap_size && ltb (mem nd).node_id h.max_heap_size) (place mem h slot nd)

module _ (fcomp : Hnode → Hnode → Bool) (mem : Store) where
  -- `(*h->fcomp) (a, b)`
  abbrev pub less : ℕ → ℕ → Bool
  less a b = fcomp (mem a) (mem b)

  -- The while loop of filter_up. `curr_pos` falls in each round.
  filter_up_loop : ℕ → Heap → ℕ → ℕ → ℕ → Run Heap
  filter_up_loop zero h curr_pos parent_pos target = out_of_fuel
  filter_up_loop (suc fuel) h curr_pos parent_pos target =
      let climb : Run Heap = load h parent_pos >>= λ above.
      heap_put_node_to_slot mem h curr_pos above >>= λ h'.
      filter_up_loop fuel h' parent_pos ((parent_pos - 1) / 2) target in
      let settle = heap_put_node_to_slot mem h curr_pos target in
      let test : Run Heap =
        load h parent_pos >>= λ above. if less above target then settle else climb in
      if ltb 0 curr_pos then test else settle

  unfoldable pub filter_up : Heap → ℕ → Run Heap
  unfolding filter_up_loop
  filter_up h index = do
    target ← load h index
    filter_up_loop (suc index) h index (heap_parent index) target

  -- The choice of the child in filter_down: `&&` reads the right child only if it exists.
  select_child : Heap → ℕ → Run ℕ
  select_child h child_pos =
      let compared : Run ℕ = do
        right ← load h (child_pos + 1)
        left ← load h child_pos
        ok (if less right left then child_pos + 1 else child_pos)
      in if ltb (child_pos + 1) h.curr_heap_size then compared else ok child_pos

  -- The while loop of filter_down. `child_pos` grows in each round.
  filter_down_loop : ℕ → Heap → ℕ → ℕ → ℕ → Run Heap
  filter_down_loop zero h curr_pos child_pos target = out_of_fuel
  filter_down_loop (suc fuel) h curr_pos child_pos target =
      let settle = heap_put_node_to_slot mem h curr_pos target in
      let test : Run Heap = select_child h child_pos >>= λ child. load h child >>= λ below.
      let sink : Run Heap = heap_put_node_to_slot mem h curr_pos below >>= λ h'.
      filter_down_loop fuel h' child (heap_lchild child) target in
      if less target below then settle else sink in
      if ltb child_pos h.curr_heap_size then test else settle

  unfoldable pub filter_down : Heap → ℕ → Run Heap
  unfolding filter_down_loop select_child
  filter_down h index = do
    target ← load h index
    filter_down_loop (suc h.curr_heap_size) h index (heap_lchild index) target
