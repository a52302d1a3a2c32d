-- ===== src/Query/Flux/Series.antt =====
-- What a walk along the cursors misses: records of other tables than the first, and of the second of
-- a cursor, which has whole seconds.
use insight_collector.Prelude.{
  ℕ, zero, suc, ◌≤◌, ◌<◌, String, Option, none, some, List, [], ◌∷◌, ◌++◌, map, Result, ok, err,
  length, All, ◌≡◌, ◌≢◌, refl, arith, eqb, Option-cases, Bool-cases, inl, inr, ◌∙◌, ap, sym,
}
use insight_collector.Query.{
  PaginationRequest, Layouts, PaginationInfo, time, Row, last, take, get_pagination_info,
}
use insight_collector.Query.Descending.{older}
use insight_collector.Query.Flux.{QueryBuilderConfig, FluxError, list_page, walk}
use insight_collector.Query.Flux.Answers.{rows, flat, last-rows, IsWalk, page_after, page_first}
use insight_collector.Query.Flux.Tables.{
  All-append, All-take, All-last, All-weaken, rows-lack, All-flat-before, All-flat-older,
}

-- As a cursor a time is a text that parses, and does not read as a later time.
abbrev pub IsKept : Layouts → ℕ → Type 0
IsKept layouts t =
    (layouts.format_rfc3339 t ≢ "")
    × (c : ℕ) × (layouts.parse_rfc3339 (layouts.format_rfc3339 t) ≡ some c)
    × (c ≤ t)

same_time : (s t : ℕ) → ◌≡◌ {A = Option Row} (some (some (time s))) (some (some (time t))) → s ≡ t
same_time s t e = ground arith

-- The page of an answer
abbrev page_in : Result FluxError (List Row × PaginationInfo) → List Row
page_in (ok (page, _)) = page
page_in (err _) = []

last-rows-none : (ts : List ℕ) → last ts ≡ none → last (rows ts) ≡ none
last-rows-none [] e = refl
last-rows-none (t ∷ []) e = absurd (ground arith)
last-rows-none (t ∷ u ∷ ts) e = last-rows-none (u ∷ ts) e

module _ (layouts : Layouts) (to_lower : String → String) (config : QueryBuilderConfig)
    (db : String → Result FluxError (List Row)) (bucket : String) (req : PaginationRequest)
    (tables : List (List ℕ)) (w : IsWalk layouts to_lower config db bucket req tables)
    (total u : ℕ) where
  -- A walk ends with records of which none has the time `u`.
  abbrev Misses : ℕ → PaginationRequest → Type 0
  Misses fuel q =
      (shown : List Row) × (walk layouts to_lower config db bucket fuel q total ≡ ok shown)
      × All (λ r. r ≢ some (time u)) shown

  step :
      (fuel : ℕ) (q : PaginationRequest) (ts : List ℕ)
      → list_page layouts to_lower config db bucket q total
        ≡ ok (rows ts, get_pagination_info layouts q (rows ts) total)
      → All (λ r. r ≢ some (time u)) (rows ts)
      → ((t : ℕ)
          → last ts ≡ some t
          → Misses fuel (record q { cursor = some (layouts.format_rfc3339 t) }))
      → Misses (suc fuel) q
  unfolding walk get_pagination_info
  step fuel q ts page lacks later = elim (Bool-cases (eqb (length (rows ts)) q.length)) [
    | inr short ↦ (rows ts, rw (page, short) refl, lacks)
    | inl full ↦ elim (Option-cases (last ts)) [
      | inl nothing ↦ (rows ts, rw (page, full, last-rows-none ts nothing) refl, lacks)
      | inr (t, ends) ↦
          let (shown, walked, missed) = later t ends in
          (
            rows ts ++ shown,
            rw (page, full, last-rows t ts ends, walked) refl,
            All-append (λ r. r ≢ some (time u)) (rows ts) shown (lacks) missed,
          )
    ]
  ]

  module _ (kept : All (All (IsKept layouts)) tables) where
    follow :
        (fuel c : ℕ) (text : String)
        → text ≢ ""
        → layouts.parse_rfc3339 text ≡ some c
        → c ≤ u
        → Misses fuel (record req { cursor = some text })
    unfolding walk
    follow zero c text nonempty parsed before = ([], refl, tt)
    follow (suc fuel) c text nonempty parsed before =
        let answer = flat (map (older c) tables) in
        let page = take req.length answer in
        let earlier = All-take (λ t. t < c) req.length answer (All-flat-before c tables) in
        let page_kept =
          All-take (IsKept layouts) req.length answer
            (All-flat-older (IsKept layouts) c tables kept) in
        step fuel (record req { cursor = some text }) page
          (page_after layouts to_lower config db bucket req tables w total c text nonempty parsed)
          (rows-lack u page
            (All-weaken (λ t. t < c) (λ t. t ≢ u) (λ t lt e. absurd (omega arith)) page earlier))
          (λ t ends.
            let (nonempty', d, parsed', low) = All-last (IsKept layouts) t page ends page_kept in
            let lt = All-last (λ s. s < c) t page ends earlier in
            follow fuel d (layouts.format_rfc3339 t) nonempty' parsed' (omega arith))

    -- A client asks for the first page, newest first, and follows the cursors. A record that is
    -- not on the first page, and whose time is not before what the cursor made of the page's last
    -- record reads as, is on no page, however long the client goes on: a newer record of another
    -- table of the query's stream, or, as the cursor has whole seconds, an older one of the same
    -- second. This rests on times whose texts as cursors parse and do not read as a later time,
    -- and on a database that sorts, limits and narrows each table as the texts of the queries say.
    pub passed_over_is_lost :
        (fuel t c : ℕ) (page : List Row) (info : PaginationInfo)
        → list_page layouts to_lower config db bucket req total ≡ ok (page, info)
        → last page ≡ some (some (time t))
        → layouts.format_rfc3339 t ≢ ""
        → layouts.parse_rfc3339 (layouts.format_rfc3339 t) ≡ some c
        → c ≤ u
        → All (λ r. r ≢ some (time u)) page
        → (shown : List Row) × (walk layouts to_lower config db bucket fuel req total ≡ ok shown)
          × All (λ r. r ≢ some (time u)) shown
    unfolding walk
    passed_over_is_lost zero t c page info listed ends nonempty parsed before absent =
        ([], refl, tt)
    passed_over_is_lost (suc fuel) t c page info listed ends nonempty parsed before absent =
        let (n, enough, first) = page_first layouts to_lower config db bucket req tables w total in
        let ts = take req.length (flat (map (take n) tables)) in
        let same : page ≡ rows ts = ap page_in (sym listed ∙ first) in
        step fuel req ts first (rw same at absent) (λ s ended.
          let is_t : s ≡ t =
            same_time s t (sym (last-rows s ts ended) ∙ ap last (sym same) ∙ ends) in
          rw is_t (follow fuel c (layouts.format_rfc3339 t) nonempty parsed before))
