-- ===== src/Heap/Ids.antt =====
-- heap_get_node_id and release_node_id: how free ids are found again.
use curl_loader.Base.{
  ℕ, zero, suc, ◌+◌, ◌≤◌, ◌<◌, ◌≡◌, ◌≢◌, refl, ◌↔◌, inl, inr, ◌&&◌, arith, ltb, leb, ◌==◌, Option,
  none, update, Bool-cases, Yields, yields, Yields-imp, Yields-bind, Yields-branch, Yields-option,
  lt→ltb,
}
use curl_loader.Heap.{Heap}
use curl_loader.Heap.Operations.{scan_ids, heap_get_node_id, release_node_id}

-- Every free id up to ids_last is at least ids_min_free, which is a free id that the scan has
-- passed, or max_heap_size.
pub record TracksIds (h : Heap) : Type 0 where
  pub last_inside : h.ids_last < h.max_heap_size
  pub lowest : (k : ℕ) → k ≤ h.ids_last → h.ids_arr k ≡ none → h.ids_min_free ≤ k
  pub min_free : h.ids_min_free < h.max_heap_size → h.ids_arr h.ids_min_free ≡ none
  pub min_passed : h.ids_min_free < h.max_heap_size → h.ids_min_free ≤ h.ids_last
  pub min_upto : h.ids_min_free ≤ h.max_heap_size

-- The loop stops at the first free id behind `last`, or at the end.
pub record IsScanned (h : Heap) (last r : ℕ) : Type 0 where
  pub after : last < r
  pub upto : r ≤ h.max_heap_size
  pub used : (k : ℕ) → last < k → k < r → h.ids_arr k ≢ none
  pub free : r < h.max_heap_size → h.ids_arr r ≡ none

IsScanned-step :
    (h : Heap) (last r : ℕ)
    → h.ids_arr (last + 1) ≢ none
    → IsScanned h (last + 1) r
    → IsScanned h last r
IsScanned-step h last r taken s = record {
  after = omega (arith, s.after);
  upto = s.upto;
  used = λ k p q. ground (arith, s.used k, taken);
  free = s.free;
}

pub scan_ids_stops :
    (fuel : ℕ) (h : Heap) (last : ℕ)
    → last < h.max_heap_size
    → h.max_heap_size ≤ last + fuel
    → Yields (IsScanned h last) (scan_ids fuel h last)
unfolding scan_ids
scan_ids_stops zero h last p f = absurd (omega arith)
scan_ids_stops (suc fuel) h last p f =
    Yields-branch (ltb (last + 1) h.max_heap_size)
      (λ more.
        Yields-option (h.ids_arr (last + 1))
          (λ free. yields (record {
            after = omega arith;
            upto = omega arith;
            used = λ k q r. absurd (omega arith);
            free = λ q. free;
          }))
          (λ s taken.
            Yields-imp (scan_ids_stops fuel h (last + 1) (ground arith) (omega arith))
              λ r scanned. IsScanned-step h last r (λ e. cc) scanned))
      (λ end. yields (record {
        after = omega arith;
        upto = omega arith;
        used = λ k q r. absurd (omega arith);
        free = λ q. absurd (ground arith);
      }))

-- What heap_get_node_id gives: an id that was free, and counters that fit once it is taken.
pub record IsTakenId (h : Heap) (id last low : ℕ) : Type 0 where
  pub inside : id < h.max_heap_size
  pub free : h.ids_arr id ≡ none
  pub tracks :
      (ids : ℕ → Option ℕ)
      → ids id ≢ none
      → ((k : ℕ) → k ≢ id → (ids k ≡ none) ↔ (h.ids_arr k ≡ none))
      → TracksIds (record h { ids_last = last; ids_min_free = low; ids_arr = ids })

abbrev pub TakesId : Heap → ℕ × Heap → Type 0
TakesId h (id, h') =
    (last : ℕ) × (low : ℕ) × (h' ≡ record h { ids_last = last; ids_min_free = low })
    × IsTakenId h id last low

module _ (h : Heap) (t : TracksIds h) (r : ℕ) (s : IsScanned h h.ids_last r) where
  -- The scan ends at a free id.
  scanned_id : r < h.max_heap_size → IsTakenId h r r h.ids_min_free
  scanned_id p = record {
    inside = p;
    free = s.free p;
    tracks = λ ids taken same. record {
      last_inside = p;
      lowest = λ k q e. ground (arith, s.used k, t.lowest k, same k);
      min_free =
          λ q. (same h.ids_min_free (omega (arith, t.min_passed q, s.after))).1 (t.min_free q);
      min_passed = λ q. omega (arith, t.min_passed q, s.after);
      min_upto = t.min_upto;
    };
  }

  -- The scan reaches the end, and the lowest freed id is taken.
  lowest_id :
      h.ids_min_free < h.max_heap_size → IsTakenId h h.ids_min_free h.ids_min_free h.max_heap_size
  lowest_id p = record {
    inside = p;
    free = t.min_free p;
    tracks = λ ids taken same. record {
      last_inside = p;
      lowest = λ k q e. ground (arith, taken, e, same k, t.lowest k, t.min_passed p);
      min_free = λ q. absurd (omega arith);
      min_passed = λ q. absurd (omega arith);
      min_upto = omega arith;
    };
  }

-- While an id is free and the counters are right, heap_get_node_id ends, and gives a free id. It
-- changes ids_last and ids_min_free alone, and they are right again once the id is taken.
pub heap_get_node_id_finds :
    (h : Heap) (k : ℕ)
    → TracksIds h
    → k < h.max_heap_size
    → h.ids_arr k ≡ none
    → Yields (TakesId h) (heap_get_node_id h)
unfolding heap_get_node_id
heap_get_node_id_finds h k t p e =
    Yields-bind (scan_ids_stops (suc h.max_heap_size) h h.ids_last t.last_inside (omega arith))
      λ r s.
        Yields-branch (r == h.max_heap_size && ltb h.ids_min_free h.max_heap_size)
          (λ wrapped. yields (_, _, refl, lowest_id h t r s (ground arith)))
          (λ found.
            yields (_, _, refl, scanned_id h t r s (ground (arith, s.upto, s.used k, t.lowest k))))

-- The counters fit as long as the same ids are free.
pub TracksIds-status :
    (h : Heap) (ids : ℕ → Option ℕ)
    → ((k : ℕ) → (ids k ≡ none) ↔ (h.ids_arr k ≡ none))
    → TracksIds h
    → TracksIds (record h { ids_arr = ids })
TracksIds-status h ids same t = record {
  last_inside = t.last_inside;
  lowest = λ k p e. t.lowest k p ((same k).0 e);
  min_free = λ p. (same h.ids_min_free).1 (t.min_free p);
  min_passed = t.min_passed;
  min_upto = t.min_upto;
}

-- A released id is remembered if it is lower than the lowest one and the scan has passed it.
pub release_node_id_lem :
    (h : Heap) (id : ℕ)
    → TracksIds h
    → id < h.max_heap_size
    → Yields
        (λ h'.
          (low : ℕ) × (restore : ℕ) × (h' ≡ record h {
            ids_arr = update h.ids_arr id none;
            ids_min_free = low;
            ids_min_free_restore = restore;
          })
          × TracksIds h')
        (release_node_id h id)
unfolding release_node_id
release_node_id_lem h id t p =
    rw (lt→ltb _ _ p) (elim (Bool-cases (ltb id h.ids_min_free && leb id h.ids_last)) [
      | inl e ↦ rw e (
          yields (
            id,
            h.ids_min_free,
            refl,
            record {
              last_inside = t.last_inside;
              lowest = λ k q d. ground (arith, t.lowest k q);
              min_free = λ q. ground arith;
              min_passed = λ q. ground arith;
              min_upto = omega arith;
            },
          ))
      | inr e ↦ rw e (
          yields (
            h.ids_min_free,
            h.ids_min_free_restore,
            refl,
            record {
              last_inside = t.last_inside;
              lowest = λ k q d. ground (arith, t.lowest k q);
              min_free = λ q. ground (arith, t.min_free q);
              min_passed = t.min_passed;
              min_upto = t.min_upto;
            },
          ))
    ])
