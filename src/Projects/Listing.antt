-- ===== src/Projects/Listing.antt =====
-- That the loop ends, and what it lists.
use testnexa.Base.{
  ℕ, zero, suc, ◌+◌, ◌-◌, ◌*◌, ◌≤◌, ◌<◌, ◌≡◌, refl, ap, ◌∙◌, true, false, ◌||◌, List, [], ◌++◌,
  length, min, take, drop, take-add, take-all, leb, ltb, arith, length-append, length-take,
  length-drop, Bool-cases, inl, inr,
}
use testnexa.Navigation.OrgContext.{ProjectSummary}
use testnexa.Projects.{
  ProjectListResponse, Answer, answers, done, page_size, is_last, loop, list_projects,
}

-- A page is answered, with a total up to a bound.
abbrev pub IsAnswered : (ℕ → Answer) → ℕ → ℕ → Type 0
IsAnswered fetch bound page =
    (response : ProjectListResponse) × (fetch page ≡ answers response) × (response.total ≤ bound)

module _ (fetch : ℕ → Answer) (fuel page : ℕ) (items : List ProjectSummary)
    (response : ProjectListResponse) (e : fetch page ≡ answers response) where
  loop-last :
      is_last (items ++ response.items) response ≡ true
      → loop fetch (suc fuel) page items ≡ done (items ++ response.items)
  unfolding loop
  loop-last h = rw (loop, e, h) refl

  loop-more :
      is_last (items ++ response.items) response ≡ false
      → loop fetch (suc fuel) page items ≡ loop fetch fuel (suc page) (items ++ response.items)
  unfolding loop
  loop-more h = rw (loop, e, h) refl

module _ (fetch : ℕ → Answer) (bound : ℕ) (h : (page : ℕ) → IsAnswered fetch bound page) where
  loop-done :
      (fuel page : ℕ) (items : List ProjectSummary)
      → 0 < fuel
      → bound ≤ length items + fuel * page_size
      → (all : List ProjectSummary) × (loop fetch fuel page items ≡ done all)
  loop-done zero page items p q = absurd (omega (arith, p))
  loop-done (suc fuel) page items p q =
      let (response, e, small) = h page in
      let next : List ProjectSummary = items ++ response.items in
      elim (Bool-cases (is_last next response)) [
        | inl last ↦ (next, loop-last fetch fuel page items response e last)
        | inr more ↦
            let longer : length next ≡ length items + length response.items =
              length-append items response.items in
            let below : length next < response.total = ground (arith, more) in
            let full : page_size ≤ length response.items = ground (arith, more) in
            let (all, f) =
              loop-done fuel (suc page) next (omega (arith, below, small, q, longer, full))
                (omega (arith, q, longer, full)) in
            (all, loop-more fetch fuel page items response e more ∙ f)
      ]

  -- If every page is answered and no total is above a bound, the loop ends: the pages that the bound
  -- needs, and one at least, are enough.
  pub list_projects-done :
      (fuel : ℕ)
      → 0 < fuel
      → bound ≤ fuel * page_size
      → (all : List ProjectSummary) × (list_projects fetch fuel ≡ done all)
  unfolding list_projects
  list_projects-done fuel p q = loop-done fuel 1 [] p (omega (arith, q))

-- A server that pages a list.
abbrev pub response_of : List ProjectSummary → ℕ → ProjectListResponse
response_of rows page = record {
  items = take page_size (drop ((page - 1) * page_size) rows);
  total = length rows;
  page = page;
  page_size = page_size;
}

abbrev pub serve : List ProjectSummary → ℕ → Answer
serve rows page = answers (response_of rows page)

-- The items after the page behind the first `k`.
joined :
    (rows : List ProjectSummary) (k : ℕ)
    → take (k * page_size) rows ++ (response_of rows (suc k)).items
      ≡ take (k * page_size + page_size) rows
joined rows k =
    let start : suc k - 1 ≡ k = omega arith in rw start (take-add (k * page_size) page_size rows)

-- What the test of the loop says of the counts, `n` having been read before.
all_counted :
    (total now size n : ℕ)
    → (leb total now || ltb size page_size) ≡ true
    → now ≡ min (n + page_size) total
    → size ≡ min page_size (total - n)
    → total ≤ n + page_size
all_counted total now size n h p q = ground (arith, h, p, q)

some_counted :
    (total now size n : ℕ)
    → (leb total now || ltb size page_size) ≡ false
    → now ≡ min (n + page_size) total
    → n + page_size < total
some_counted total now size n h p = ground (arith, h, p)

loop-serve :
    (rows : List ProjectSummary) (fuel k : ℕ)
    → 0 < fuel
    → length rows ≤ (k + fuel) * page_size
    → loop (serve rows) fuel (suc k) (take (k * page_size) rows) ≡ done rows
loop-serve rows zero k p q = absurd (omega (arith, p))
loop-serve rows (suc fuel) k p q =
    let items : List ProjectSummary = take (k * page_size) rows in
    let response : ProjectListResponse = response_of rows (suc k) in
    let read : length (items ++ response.items) ≡ min (k * page_size + page_size) (length rows) =
      ap length (joined rows k) ∙ length-take (k * page_size + page_size) rows in
    let size : length response.items ≡ min page_size (length rows - k * page_size) =
      length-take page_size (drop ((suc k - 1) * page_size) rows)
      ∙ ap (min page_size) (length-drop ((suc k - 1) * page_size) rows ∙ omega arith) in
    elim (Bool-cases (is_last (items ++ response.items) response)) [
      | inl last ↦
          let all_read : length rows ≤ k * page_size + page_size =
            all_counted (length rows) (length (items ++ response.items)) (length response.items)
              (k * page_size) last read size in
          loop-last (serve rows) fuel (suc k) items response refl last
          ∙ ap done (joined rows k ∙ take-all (k * page_size + page_size) rows all_read)
      | inr more ↦
          let some_left : k * page_size + page_size < length rows =
            some_counted (length rows) (length (items ++ response.items)) (length response.items)
              (k * page_size) more read in
          let next : k * page_size + page_size ≡ suc k * page_size = omega arith in
          loop-more (serve rows) fuel (suc k) items response refl more
          ∙ ap (loop (serve rows) fuel (suc (suc k))) (joined rows k ∙ ap (λ n. take n rows) next)
          ∙ loop-serve rows fuel (suc k) (omega (arith, some_left, q)) (omega (arith, q))
    ]

-- From a server that pages a list, a hundred at a time and with the right total, the loop lists
-- exactly the list, however long it is, in as many pages as it has, and one at least.
pub list_projects-serve :
    (rows : List ProjectSummary) (fuel : ℕ)
    → 0 < fuel
    → length rows ≤ fuel * page_size
    → list_projects (serve rows) fuel ≡ done rows
unfolding list_projects
list_projects-serve rows fuel p q = loop-serve rows fuel 0 p (omega (arith, q))
