-- ===== src/Loader/Cycle.antt =====
-- pick_up_next_url and the loop around it stay inside the array of urls, and come to an end.
use native.Mathlib.Nat.{suc-mul}
use curl_loader.Base.{
  ℕ, zero, suc, ◌+◌, ◌-◌, ◌*◌, ◌≤◌, ◌<◌, ◌≡◌, ◌≢◌, refl, inl, inr, Bool, true, false, not, ◌&&◌,
  arith, List, [], ◌∷◌, leb, map, ltb, ◌==◌, if◌then◌else◌, Option, none, some, Run, ok, Yields,
  yields, Yields-branch, Bool-cases,
}
use curl_loader.Statistics.{CState}
use curl_loader.Context.{ClientContext, BatchContext, UrlContext}
use curl_loader.Loader.{pick_up_next_url, fetching_decision, pick_loop}

-- The urls of a batch: the cycling ones are among them.
pub record IsUrls (bctx : BatchContext) : Type 0 where
  pub some_url : 0 < bctx.urls_num
  pub cycle : bctx.first_cycling_url ≤ bctx.last_cycling_url
  pub last_inside : bctx.last_cycling_url < bctx.urls_num

-- The client is at a url, and still has cycles to do unless the cycling is over.
pub record IsUnderway (bctx : BatchContext) (cctx : ClientContext) : Type 0 where
  pub at_url : cctx.url_curr_index < bctx.urls_num
  pub cycles_left : bctx.cycling_completed ≡ false → cctx.cycle_num < bctx.cycles_num

-- What one call of pick_up_next_url leads to.
abbrev pub IsPicked :
    BatchContext → ClientContext → Option ℕ × BatchContext × ClientContext → Type 0
IsPicked bctx cctx (none, bctx', cctx') =
    (cctx'.url_curr_index ≡ cctx.url_curr_index) × (cctx'.client_state ≡ cctx.client_state)
IsPicked bctx cctx (some index, bctx', cctx') =
    (index < bctx.urls_num)
    × (cctx'.url_curr_index ≡ index)
    × IsUrls bctx'
    × (bctx'.urls_num ≡ bctx.urls_num)
    × (cctx'.client_state ≡ cctx.client_state)

-- From a client at a url of a batch whose cycling urls are in order and among its urls,
-- pick_up_next_url gives the index of a url of the batch, to which the client moves, or gives -1
-- and leaves the client at its url. The state of the client is as before.
pub pick_up_next_url-IsPicked :
    (bctx : BatchContext) (cctx : ClientContext)
    → IsUrls bctx
    → cctx.url_curr_index < bctx.urls_num
    → IsPicked bctx cctx (pick_up_next_url bctx cctx)
unfolding pick_up_next_url
pick_up_next_url-IsPicked bctx cctx u at = elim (Bool-cases bctx.cycling_completed) [
  | inl c ↦ simp c (elim (Bool-cases (index == bctx.urls_num - 1)) [
    | inl e ↦ rw e (refl, refl)
    | inr e ↦ rw e (ground arith, refl, u, refl, refl)
  ])
  | inr c ↦ simp c (elim (Bool-cases (ltb index bctx.last_cycling_url)) [
    | inl e ↦ rw e (ground (arith, u.last_inside), refl, u, refl, refl)
    | inr e ↦ rw e (elim (Bool-cases (index == bctx.last_cycling_url)) [
      | inl d ↦
          rw d
            (elim (Bool-cases
              (not (bctx.cycles_num == 0) && cctx.cycle_num + 1 == bctx.cycles_num)) [
                | inl k ↦ rw k (elim (Bool-cases (index == bctx.urls_num - 1)) [
                  | inl l ↦ rw l (refl, refl)
                  | inr l ↦ rw l (ground arith, refl, completed, refl, refl)
                ])
                | inr k ↦ rw k (omega (arith, u.cycle, u.last_inside), refl, u, refl, refl)
              ])
      | inr d ↦ rw d (refl, refl)
    ])
  ])
]
  where
    index : ℕ
    index = cctx.url_curr_index

    completed : IsUrls (record bctx { cycling_completed = true })
    completed = record { some_url = u.some_url; cycle = u.cycle; last_inside = u.last_inside }

-- How many more urls the client can be given.
abbrev pub rounds_left : BatchContext → ClientContext → ℕ
rounds_left bctx cctx =
    if bctx.cycling_completed
    then bctx.urls_num - cctx.url_curr_index
    else suc (bctx.cycles_num - cctx.cycle_num) * bctx.urls_num - cctx.url_curr_index

-- A further url leaves fewer.
abbrev pub IsFewer : BatchContext → ClientContext → Option ℕ × BatchContext × ClientContext → Type 0
IsFewer bctx cctx (none, bctx', cctx') = Unit
IsFewer bctx cctx (some index, bctx', cctx') =
    (rounds_left bctx' cctx' < rounds_left bctx cctx) × IsUnderway bctx' cctx'

rounds_open :
    (bctx : BatchContext) (cctx : ClientContext)
    → bctx.cycling_completed ≡ false
    → rounds_left bctx cctx
      ≡ (bctx.cycles_num - cctx.cycle_num) * bctx.urls_num + bctx.urls_num - cctx.url_curr_index
rounds_open bctx cctx c = rw (c, suc-mul (bctx.cycles_num - cctx.cycle_num) bctx.urls_num) refl

module _ (bctx : BatchContext) (cctx : ClientContext) (u : IsUrls bctx)
    (w : IsUnderway bctx cctx) where
  moves_on :
      bctx.cycling_completed ≡ true
      → cctx.url_curr_index ≢ bctx.urls_num - 1
      → IsFewer bctx cctx (
        some (cctx.url_curr_index + 1),
        bctx,
        record cctx { url_curr_index = cctx.url_curr_index + 1 },
      )
  moves_on c d = (
    ground (arith, w.at_url),
    record { at_url = omega (arith, w.at_url); cycles_left = λ e. absurd (ground arith) },
  )

  in_cycle :
      bctx.cycling_completed ≡ false
      → cctx.url_curr_index < bctx.last_cycling_url
      → IsFewer bctx cctx (
        some (cctx.url_curr_index + 1),
        bctx,
        record cctx { url_curr_index = cctx.url_curr_index + 1 },
      )
  in_cycle c d = (
    rw
        (
          rounds_open bctx cctx c,
          rounds_open bctx (record cctx { url_curr_index = cctx.url_curr_index + 1 }) c,
        )
        (omega (arith, w.at_url)),
    record { at_url = omega (arith, u.last_inside); cycles_left = w.cycles_left },
  )

  restarts :
      bctx.cycling_completed ≡ false
      → cctx.url_curr_index ≡ bctx.last_cycling_url
      → cctx.cycle_num + 1 ≢ bctx.cycles_num
      → IsFewer bctx cctx (
        some bctx.first_cycling_url,
        bctx,
        record cctx { cycle_num = cctx.cycle_num + 1; url_curr_index = bctx.first_cycling_url },
      )
  restarts c d e =
      let left : bctx.cycles_num - cctx.cycle_num ≡ suc (bctx.cycles_num - (cctx.cycle_num + 1)) =
        omega (arith, w.cycles_left c, e) in
      (
        rw
            (
              rounds_open bctx cctx c,
              rounds_open bctx
                  (record cctx {
                    cycle_num = cctx.cycle_num + 1;
                    url_curr_index = bctx.first_cycling_url;
                  })
                  c,
              left,
              suc-mul (bctx.cycles_num - (cctx.cycle_num + 1)) bctx.urls_num,
            )
            (omega (arith, u.cycle, u.last_inside, w.at_url)),
        record {
          at_url = omega (arith, u.cycle, u.last_inside);
          cycles_left = λ k. omega (arith, w.cycles_left c, e);
        },
      )

  completes :
      bctx.cycling_completed ≡ false
      → cctx.url_curr_index ≢ bctx.urls_num - 1
      → IsFewer bctx cctx (
        some (cctx.url_curr_index + 1),
        record bctx { cycling_completed = true },
        record cctx { cycle_num = cctx.cycle_num + 1; url_curr_index = cctx.url_curr_index + 1 },
      )
  completes c d = (
    rw (rounds_open bctx cctx c) (omega (arith, w.at_url)),
    record { at_url = omega (arith, w.at_url); cycles_left = λ e. absurd (ground (arith, e)) },
  )

  -- pick_up_next_url gives a further url only if fewer are left then.
  pub pick_up_next_url-IsFewer : IsFewer bctx cctx (pick_up_next_url bctx cctx)
  unfolding pick_up_next_url
  pick_up_next_url-IsFewer = elim (Bool-cases bctx.cycling_completed) [
    | inl c ↦ simp c (elim (Bool-cases (cctx.url_curr_index == bctx.urls_num - 1)) [
      | inl e ↦ rw e tt
      | inr e ↦ rw e (moves_on c (ground arith))
    ])
    | inr c ↦ simp c (elim (Bool-cases (ltb cctx.url_curr_index bctx.last_cycling_url)) [
      | inl e ↦ rw e (in_cycle c (ground arith))
      | inr e ↦ rw e (elim (Bool-cases (cctx.url_curr_index == bctx.last_cycling_url)) [
        | inl d ↦
            rw d
              (elim (Bool-cases
                (not (bctx.cycles_num == 0) && cctx.cycle_num + 1 == bctx.cycles_num)) [
                  | inl k ↦ rw k (elim (Bool-cases (cctx.url_curr_index == bctx.urls_num - 1)) [
                    | inl l ↦ rw l tt
                    | inr l ↦ rw l (completes c (ground arith))
                  ])
                  | inr k ↦ rw k (restarts c (ground arith) (ground (arith, w.cycles_left c, k)))
                ])
        | inr d ↦ rw d tt
      ])
    ])
  ]

-- No decision is cached.
abbrev pub IsUndecided : ClientContext → Type 0
IsUndecided cctx = elim cctx.url_fetch_decision [
  | none ↦ Unit
  | some decisions ↦ decisions cctx.url_curr_index ≡ none
]

fetching_decision-cache :
    (prob : ℕ) (cctx : ClientContext) (url : UrlContext)
    → (fetching_decision prob cctx url).1 ≡ cctx
unfolding fetching_decision
fetching_decision-cache prob cctx url = ground arith

-- One decision after the other for the same url, with what get_prob gives for each
abbrev pub fetching_decisions : List ℕ → ClientContext → UrlContext → List Bool × ClientContext
fetching_decisions [] cctx url = ([], cctx)
fetching_decisions (prob ∷ probs) cctx url =
    let (fetch, cctx') = fetching_decision prob cctx url in
    let (fetches, cctx2) = fetching_decisions probs cctx' url in (fetch ∷ fetches, cctx2)

fetching_decision-drawn :
    (prob : ℕ) (cctx : ClientContext) (url : UrlContext)
    → url.fetch_probability ≢ 0
    → IsUndecided cctx
    → fetching_decision prob cctx url ≡ (leb prob url.fetch_probability, cctx)
unfolding fetching_decision
fetching_decision-drawn prob cctx url p h = ground (arith, p, h)

-- For a url with a FETCH_PROBABILITY and a client with no cached decision for its url, with the
-- array of FETCH_PROBABILITY_ONCE or without it, decisions that fetching_decision takes one after
-- the other are each drawn again: each is whether its number of get_prob is not above the
-- probability, and none of them is cached, as the client is left as it was.
pub fetching_decisions-drawn :
    (probs : List ℕ) (cctx : ClientContext) (url : UrlContext)
    → url.fetch_probability ≢ 0
    → IsUndecided cctx
    → fetching_decisions probs cctx url ≡ (map (λ prob. leb prob url.fetch_probability) probs, cctx)
fetching_decisions-drawn [] cctx url p h = refl
fetching_decisions-drawn (prob ∷ probs) cctx url p h =
    rw (fetching_decision-drawn prob cctx url p h, fetching_decisions-drawn probs cctx url p h) refl

-- A url that is given is the client's, and some draw decided for it.
abbrev pub IsChosen : (ℕ → ℕ) → ℕ → CState → Option ℕ × BatchContext × ClientContext → Type 0
IsChosen probs num state (none, bctx', cctx') =
    (cctx'.url_curr_index < num) × (cctx'.client_state ≡ state)
IsChosen probs num state (some index, bctx', cctx') =
    (index < num)
    × (cctx'.client_state ≡ state)
    × (cctx'.url_curr_index ≡ index)
    × (n : ℕ) × ((fetching_decision (probs n) cctx' (bctx'.url_ctx_array index)).0 ≡ true)

-- For a client at a url of a batch whose cycling urls are in order and among its urls, that has
-- cycles left or has its batch done with cycling, the loop of load_urls_state ends with as much
-- fuel as urls that may be left to it, whatever get_prob gives. A url that it gives is one of the
-- batch, is the client's, and some draw has decided for it; otherwise the client is still at a url.
-- The state of the client is as before.
pub pick_loop-IsChosen :
    (probs : ℕ → ℕ) (fuel n : ℕ) (bctx : BatchContext) (cctx : ClientContext)
    → IsUrls bctx
    → IsUnderway bctx cctx
    → rounds_left bctx cctx < fuel
    → Yields (IsChosen probs bctx.urls_num cctx.client_state) (pick_loop probs fuel n bctx cctx)
unfolding pick_loop
pick_loop-IsChosen probs zero n bctx cctx u w enough = absurd (omega arith)
pick_loop-IsChosen probs (suc fuel) n bctx cctx u w enough =
    at (pick_up_next_url bctx cctx) (pick_up_next_url-IsPicked bctx cctx u w.at_url)
      (pick_up_next_url-IsFewer bctx cctx u w)
      (λ bctx' cctx' u' w' p. pick_loop-IsChosen probs fuel (n + 1) bctx' cctx' u' w' p)
  where
    at :
        (r : Option ℕ × BatchContext × ClientContext)
        → IsPicked bctx cctx r
        → IsFewer bctx cctx r
        → ((b : BatchContext) (c : ClientContext)
            → IsUrls b
            → IsUnderway b c
            → rounds_left b c < fuel
            → Yields (IsChosen probs b.urls_num c.client_state) (pick_loop probs fuel (n + 1) b c))
        → Yields
            (IsChosen probs bctx.urls_num cctx.client_state)
            (elim r.0 as (λ _. Run (Option ℕ × BatchContext × ClientContext)) [
              | none ↦ ok (none, r.1, r.2)
              | some index ↦
                  let (fetch, cctx2) = fetching_decision (probs n) r.2 (r.1.url_ctx_array index) in
                  let rest = pick_loop probs fuel (n + 1) r.1 cctx2 in
                  if fetch then ok (some index, r.1, cctx2) else rest
            ])
    at (none, bctx', cctx') (same, state) f rest = yields (rw same w.at_url, state)
    at (some index, bctx', cctx') (inside, same, u', num, state) (fewer, w') rest =
        rw (fetching_decision-cache (probs n) cctx' (bctx'.url_ctx_array index)) (
          Yields-branch (fetching_decision (probs n) cctx' (bctx'.url_ctx_array index)).0
            (λ e. yields (inside, state, same, n, e))
            (λ e. rw (← num, ← state) (rest bctx' cctx' u' w' (omega (arith, fewer, enough)))))
