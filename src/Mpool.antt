-- ===== src/Mpool.antt =====
-- mpool.c and mpool.h: a pool of equal objects, whose free objects are linked through their `next`
-- fields.
pub mod Chain
pub mod Grow
pub mod Take
pub mod Init
pub mod Free
use curl_loader.Base.{
  ℕ, zero, suc, ◌+◌, ◌-◌, ◌*◌, ◌/◌, ◌%◌, Bool, true, false, ◌||◌, Option, none, some, Run, ok,
  fault, out_of_fuel, ◌>>=◌, ltb, leb, ◌==◌, if◌then◌else◌, update, List, [], ◌∷◌,
}
use curl_loader.Memory.{Hnode, Store, Machine, calloc}

pub record Mpool : Type 0 where
  pub free_list_head : ℕ
  pub free_list_size : ℕ
  pub increase_step : ℕ
  pub blocks_alloc_num : ℕ
  pub obj_size : ℕ
  pub obj_alloc_num : ℕ

-- The pool after `memset (mpool, 0, sizeof (*mpool))`.
abbrev pub zero_pool : Mpool
zero_pool = record {
  free_list_head = 0;
  free_list_size = 0;
  increase_step = 0;
  blocks_alloc_num = 0;
  obj_size = 0;
  obj_alloc_num = 0;
}

abbrev pub allocatable_set_next : Store → ℕ → ℕ → Store
allocatable_set_next mem item next_item = update mem item (record (mem item) { next = next_item })

abbrev pub allocatable_get_next : Store → ℕ → ℕ
allocatable_get_next mem item = (mem item).next

-- An empty list leaves the `next` of the new item as it is.
unfoldable pub mpool_add : Store → Mpool → ℕ → Store × Mpool
mpool_add mem p new_item = (
  if p.free_list_head == 0 then mem else allocatable_set_next mem new_item p.free_list_head,
  record p { free_list_head = new_item; free_list_size = p.free_list_size + 1 },
)

-- `none` is a NULL result. The list is empty exactly when its size is 0, so the size stays exact.
unfoldable pub mpool_remove : Store → Mpool → Option ℕ × Store × Mpool
mpool_remove mem p =
    let temp = p.free_list_head in
    if temp == 0 then (none, mem, p) else (
      some temp,
      allocatable_set_next mem temp 0,
      record p {
        free_list_head = allocatable_get_next mem temp;
        free_list_size = p.free_list_size - 1;
      },
    )

-- The for loop of mpool_allocate, for the items from `i` on; `left` of them are to be added.
unfoldable pub add_items : ℕ → ℕ → ℕ → Store → Mpool → Store × Mpool
unfolding mpool_add
add_items zero chunk i mem p = (mem, p)
add_items (suc left) chunk i mem p =
    let item = chunk + i * p.obj_size in
    let marked = update mem item (record (mem item) { mem_block_start = i == 0 }) in
    let (mem', p') = mpool_add marked p item in add_items left chunk (i + 1) mem' p'

-- The while loop of mpool_allocate, with the number of objects allocated.
unfoldable pub allocate_steps : ℕ → ℕ → Machine → Mpool → ℕ × Machine × Mpool
unfolding add_items
allocate_steps zero obj_allocated m p = (obj_allocated, m, p)
allocate_steps (suc steps) obj_allocated m p =
    let (answer, m') = calloc m p.increase_step p.obj_size in
    elim answer [
      | none ↦ (obj_allocated, m', p)
      | some chunk ↦
          let (mem, p') =
            add_items p.increase_step chunk 0 m'.mem
              (record p { blocks_alloc_num = p.blocks_alloc_num + 1 }) in
          allocate_steps steps (obj_allocated + p.increase_step) (record m' { mem = mem }) p'
    ]

-- `true` is the result 0 and `false` the result -1.
unfoldable pub mpool_allocate : Machine → Mpool → ℕ → Bool × Machine × Mpool
unfolding allocate_steps
mpool_allocate m p num_obj =
    let steps = num_obj / p.increase_step in
    let (obj_allocated, m', p') = allocate_steps (if steps == 0 then 1 else steps) 0 m p in
    if num_obj == 0
    then (false, m, p)
    else if p.increase_step == 0
    then (false, m, p)
    else if obj_allocated == 0
    then (false, m', p')
    else (true, m', record p' { obj_alloc_num = p'.obj_alloc_num + obj_allocated })

unfoldable pub mpool_take_obj : Machine → Mpool → Option ℕ × Machine × Mpool
unfolding mpool_remove mpool_allocate
mpool_take_obj m p =
    let (first, mem, p') = mpool_remove m.mem p in
    let (allocated, m2, p2) = mpool_allocate m p p.increase_step in
    let (second, mem3, p3) = mpool_remove m2.mem p2 in
    elim first [
      | some obj ↦ (some obj, record m { mem = mem }, p')
      | none ↦ if allocated then (second, record m2 { mem = mem3 }, p3) else (none, m2, p2)
    ]

unfoldable pub mpool_return_obj : Store → Mpool → ℕ → Bool × Store × Mpool
unfolding mpool_add
mpool_return_obj mem p item =
    let (mem', p') = mpool_add mem p item in if item == 0 then (false, mem, p) else (true, mem', p')

-- The size of a pointer, to which objects are aligned: `(n + 7) & ~7`.
abbrev pub aligned : ℕ → ℕ
aligned n = (n + 7) / 8 * 8

-- Nine tenths of the page, or of CL_PAGE_SIZE_DEF where getpagesize gives less than
-- CL_PAGE_SIZE_MIN (a failure gives -1, here 0).
unfoldable pub chunk_size : ℕ → ℕ
chunk_size pagesize = (if ltb pagesize 1024 then 4096 else pagesize) * 9 / 10

-- The static `os_free_list_chunk_size` is set by the first call and keeps its value, which the page
-- size fixes. `p` is the memory of the pool before the call.
unfoldable pub mpool_init : ℕ → Machine → Mpool → ℕ → ℕ → Bool × Machine × Mpool
unfolding chunk_size mpool_allocate
mpool_init pagesize m p object_size num_obj =
    let size = aligned object_size in
    let fresh = record p {
      free_list_size = 0;
      obj_size = size;
      increase_step = chunk_size pagesize / size;
    } in
    let allocated = mpool_allocate m fresh num_obj in
    if object_size == 0
    then (false, m, p)
    else if ltb (chunk_size pagesize) size
    then (false, m, p)
    else allocated

unfoldable pub mpool_size : Mpool → ℕ
mpool_size p = p.free_list_size
