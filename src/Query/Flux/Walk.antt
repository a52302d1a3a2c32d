-- ===== src/Query/Flux/Walk.antt =====
-- A client that follows the cursors from the first page on, against the list of all records, where
-- they stand in one table.
use mathlib.Core.List.{append-nil}
use insight_collector.Prelude.{
  ℕ, zero, suc, ◌≤◌, ◌<◌, String, Option, some, List, [], ◌∷◌, ◌++◌, Result, ok, leb, eqb, length,
  All, ◌≡◌, ◌≢◌, refl, arith, Bool-cases, inl, inr, ◌∙◌, ap, sym,
}
use insight_collector.Query.{PaginationRequest, Layouts, Row, take, get_pagination_info}
use insight_collector.Query.Validation.{validate_request_iff}
use insight_collector.Query.Descending.{
  Descending, older, drop, take-append-drop, length-drop, take_of_length-le, take-take, older-older,
  cut, IsCut, listed-before, listed-All, older-Descending, All-older,
}
use insight_collector.Query.Flux.Answers.{
  rows, length-map, rows-append, last-rows, length-take-eq, IsExact, IsWalk, page_of, page_after,
  page_first,
}
use insight_collector.Query.Flux.{QueryBuilderConfig, FluxError, list_page, walk}

module _ (layouts : Layouts) (to_lower : String → String) (config : QueryBuilderConfig)
    (db : String → Result FluxError (List Row)) (bucket : String) (req : PaginationRequest)
    (times : List ℕ) where
  module _ (w : IsWalk layouts to_lower config db bucket req (times ∷ [])) (total : ℕ) where
    has_next-page_of :
        (q : PaginationRequest) (ts : List ℕ)
        → q.length ≡ req.length
        → eqb (length (rows (take req.length ts))) q.length ≡ leb req.length (length ts)
    has_next-page_of q ts same =
        rw (same, length-map (take req.length ts)) (length-take-eq req.length ts)

    -- A page, and the walk from its last record on
    step :
        (fuel : ℕ) (cursor : Option String) (ts : List ℕ)
        → list_page layouts to_lower config db bucket (record req { cursor = cursor }) total
          ≡ page_of layouts to_lower config db bucket req
              (times ∷ [])
              w
              total
              (record req { cursor = cursor })
              ts
        → Descending ts
        → ((c : IsCut req.length ts)
            → req.length ≤ length ts
            → walk layouts to_lower config db bucket fuel
                (record req { cursor = some (layouts.format_rfc3339 c.time) })
                total
              ≡ ok (rows (drop req.length ts)))
        → walk layouts to_lower config db bucket (suc fuel) (record req { cursor = cursor }) total
          ≡ ok (rows ts)
    unfolding walk get_pagination_info
    step fuel cursor ts page descending later =
        let ((low, high), _, _, _) = (validate_request_iff layouts req).0 w.valid in
        let next = has_next-page_of (record req { cursor = cursor }) ts refl in
        elim (Bool-cases (leb req.length (length ts))) [
          | inr short ↦
              rw (page, next, short)
                (ap (λ us. ok (rows us)) (take_of_length-le req.length ts (ground arith)))
          | inl full ↦
              let long : req.length ≤ length ts = ground arith in
              let c = cut req.length ts descending low long in
              let ends = last-rows c.time (take req.length ts) c.ends in
              rw (page, next, full, ends, later c long)
                (ap ok (
                  rows-append (take req.length ts) (drop req.length ts)
                  ∙ ap rows (take-append-drop req.length ts)))
        ]

    module _ (descending : Descending times) (exact : All (IsExact layouts) times) where
      follow :
          (fuel c : ℕ) (text : String)
          → text ≢ ""
          → layouts.parse_rfc3339 text ≡ some c
          → length (older c times) < fuel
          → walk layouts to_lower config db bucket fuel (record req { cursor = some text }) total
            ≡ ok (rows (older c times))
      follow zero c text nonempty parsed enough = absurd (omega arith)
      follow (suc fuel) c text nonempty parsed enough =
          let ((low, high), _, _, _) = (validate_request_iff layouts req).0 w.valid in
          step fuel (some text) (older c times)
            (rw (append-nil (older c times)) at (
              page_after layouts to_lower config db bucket req (times ∷ []) w total c text nonempty
                parsed))
            (older-Descending c times descending)
            (λ k long.
              let (nonempty', parsed') =
                listed-All (IsExact layouts) k.time (older c times) k.listed
                  (All-older (IsExact layouts) c times exact) in
              let before = listed-before c k.time times k.listed in
              let rest : older k.time times ≡ drop req.length (older c times) =
                sym (older-older k.time c times (omega arith)) ∙ k.rest in
              let shorter = length-drop req.length (older c times) in
              follow fuel k.time (layouts.format_rfc3339 k.time) nonempty' parsed'
                (rw rest (omega arith))
              ∙ ap (λ us. ok (rows us)) rest)

      -- A client that asks for the first page, newest first, and follows the cursors as long as a
      -- page says that there is a next one, is done after one page more than there are records, or
      -- before, and has then seen every record once, in order. This rests on a valid request, on
      -- records that stand in one table of the query's stream, at different times that the cursors'
      -- layout keeps, and on a database that sorts, limits and narrows that table as the texts of
      -- the queries say.
      pub walk_complete :
          (fuel : ℕ)
          → length times < fuel
          → walk layouts to_lower config db bucket fuel req total ≡ ok (rows times)
      walk_complete zero enough = absurd (omega arith)
      walk_complete (suc fuel) enough =
          let ((low, high), _, _, _) = (validate_request_iff layouts req).0 w.valid in
          let (n, enough', page) =
            page_first layouts to_lower config db bucket req (times ∷ []) w total in
          let same : take req.length (take n times ++ []) ≡ take req.length times =
            ap (take req.length) (append-nil (take n times))
            ∙ take-take req.length n times enough' in
          step fuel req.cursor times
            (page ∙ ap (λ ts. ok (rows ts, get_pagination_info layouts req (rows ts) total)) same)
            descending
            (λ k long.
              let (nonempty', parsed') = listed-All (IsExact layouts) k.time times k.listed exact in
              let shorter = length-drop req.length times in
              follow fuel k.time (layouts.format_rfc3339 k.time) nonempty' parsed'
                (rw k.rest (omega arith))
              ∙ ap (λ us. ok (rows us)) k.rest)
