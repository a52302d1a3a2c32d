-- ===== src/Query/Pages.antt =====
-- The limits and the metadata of a page.
use insight_collector.Prelude.{
  ℕ, zero, suc, ◌*◌, ◌%◌, ◌^◌, ◌≤◌, true, none, some, List, [], ◌∷◌, if◌then◌else◌, ltb, length, ok,
  ◌≡◌, ◌↔◌, refl, arith, Bool-cases, inl, inr,
}
use insight_collector.Int64.{exceeds}
use insight_collector.Query.{
  PaginationRequest, Layouts, given_cursor, validate_request, safety_limit, Row, take,
  limit_results, get_pagination_info,
}
use insight_collector.Query.Validation.{validate_request_iff}

-- A valid request for the first page has a limit from 50 to 1000 that is not below its length.
pub safety_limit_bounds :
    (layouts : Layouts) (req : PaginationRequest)
    → validate_request layouts req ≡ ok tt
    → given_cursor req.cursor ≡ none
    → (limit : ℕ) × (safety_limit req ≡ some limit)
      × (50 ≤ limit)
      × (limit ≤ 1000)
      × (req.length ≤ limit)
unfolding safety_limit
safety_limit_bounds layouts req valid first =
    let ((low, high), direction, cursor, range) = (validate_request_iff layouts req).0 valid in
    let limit = (req.length * 10) % 2 ^ 64 in
    let at_least = if exceeds limit 49 then limit else 50 in
    (
      if exceeds at_least 1000 then 1000 else at_least,
      ground arith,
      ground arith,
      ground arith,
      ground arith,
    )

length-take : {A : Type 0} (n : ℕ) (xs : List A) → n ≤ length xs → length (take n xs) ≡ n
length-take zero xs h = refl
length-take (suc n) [] h = absurd (omega arith)
length-take (suc n) (x ∷ xs) h = omega (arith, length-take n xs (omega arith))

-- A page is cut to the length of its request, and says that there is a next page exactly when the
-- database has answered with that many records or more.
pub limit_results-has_next_iff :
    (layouts : Layouts) (req : PaginationRequest) (rows : List Row) (total : ℕ)
    → (length (limit_results req rows) ≤ req.length)
      × (((get_pagination_info layouts req (limit_results req rows) total).has_next ≡ true)
          ↔ (req.length ≤ length rows))
unfolding limit_results get_pagination_info
limit_results-has_next_iff layouts req rows total =
    elim (Bool-cases (ltb req.length (length rows))) [
      | inl more ↦
          let cut = length-take req.length rows (ground arith) in
          (ground arith, (λ h. ground arith, λ h. ground arith))
      | inr all_here ↦ (ground arith, (λ h. ground arith, λ h. ground arith))
    ]
