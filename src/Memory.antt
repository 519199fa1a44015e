-- ===== src/Memory.antt =====
-- The memory that mpool.c and heap.c share: the nodes behind hnode pointers, and the allocator of
-- the C library. A pointer is a number, and 0 is NULL.
use curl_loader.Base.{
  ℕ, ◌+◌, ◌*◌, ◌/◌, ◌<◌, ◌≡◌, arith, Bool, true, false, ◌&&◌, ◌||◌, Option, none, some, ltb, leb,
  ◌==◌, if◌then◌else◌,
}

-- The housekeeping node of heap.h. It begins with the `allocatable` of mpool.h, whose fields are
-- `next` (of its `linkable`) and `mem_block_start`.
pub record Hnode : Type 0 where
  pub next : ℕ
  pub mem_block_start : Bool
  pub node_id : ℕ
  pub ctx : ℕ

abbrev pub zero_node : Hnode
zero_node = record { next = 0; mem_block_start = false; node_id = 0; ctx = 0 }

abbrev pub Store : Type 0
Store = ℕ → Hnode

-- `brk` is the first address that was never handed out, `calls` the number of calls of calloc, and
-- `denies` says which calls return NULL.
pub record Os : Type 0 where
  pub brk : ℕ
  pub calls : ℕ
  pub denies : ℕ → Bool

pub record Machine : Type 0 where
  pub os : Os
  pub mem : Store

-- `calloc (num, size)`: NULL, or a chunk beyond all earlier ones, filled with zeros.
unfoldable pub calloc : Machine → ℕ → ℕ → Option ℕ × Machine
calloc m num size =
    let os = record (m.os) { calls = m.os.calls + 1 } in
    if m.os.denies m.os.calls then (none, record m { os = os }) else (
      some m.os.brk,
      record {
        os = record os { brk = m.os.brk + num * size };
        mem = λ a. if leb m.os.brk a && ltb a (m.os.brk + num * size) then zero_node else m.mem a;
      },
    )

-- The machine after a call of calloc that fails, and after one that succeeds.
abbrev pub after_denied : Machine → Machine
after_denied m = record m { os = record (m.os) { calls = m.os.calls + 1 } }

abbrev pub after_calloc : Machine → ℕ → Machine
after_calloc m bytes = record m {
  os = record (m.os) { calls = m.os.calls + 1; brk = m.os.brk + bytes };
  mem = λ a. if leb m.os.brk a && ltb a (m.os.brk + bytes) then zero_node else m.mem a;
}

pub calloc_denied :
    (m : Machine) (num size : ℕ)
    → m.os.denies m.os.calls ≡ true
    → calloc m num size ≡ (none, after_denied m)
unfolding calloc
calloc_denied m num size e = rw e

pub calloc_ok :
    (m : Machine) (num size : ℕ)
    → m.os.denies m.os.calls ≡ false
    → calloc m num size ≡ (some m.os.brk, after_calloc m (num * size))
unfolding calloc
calloc_ok m num size e = rw e

-- calloc leaves the memory of earlier chunks alone.
pub calloc_frame :
    (m : Machine) (bytes a : ℕ) → a < m.os.brk → (after_calloc m bytes).mem a ≡ m.mem a
calloc_frame m bytes a p = ground arith

-- cl_calloc of cl_alloc.c: sizes are rounded up to that of a pointer.
unfoldable pub cl_calloc : Machine → ℕ → ℕ → Option ℕ × Machine
cl_calloc m obj_num obj_size =
    let aligned_obj_size = (obj_size + 7) / 8 * 8 in
    let allocated = calloc m obj_num aligned_obj_size in
    if (obj_num == 0) || (obj_size == 0) then (none, m) else allocated
