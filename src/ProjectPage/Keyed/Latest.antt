-- ===== src/ProjectPage/Keyed/Latest.antt =====
-- Each list under a row goes its own way.
use testnexa.Base.{
  ◌≡◌, refl, ◌∙◌, String, Bool, true, false, not, ◌&&◌, ◌==◌, Option, none, some, List, [], ◌∷◌,
  is_some, if◌then◌else◌, if_keeps, arith, eq_iff,
}
use testnexa.Base.Names.{has, has-append}
use testnexa.Base.Dedup.{has-filter}
use testnexa.Base.Dict.{lookup, lookup-insert}
use testnexa.Workflow.{Reply, ok, failed}
use testnexa.ProjectPage.Keyed.{
  Keyed, Event, toggled, refreshed, answered, fetch, receive, fetch_first, flip_id, toggle, step,
  after,
}

has-flip_id :
    (id : String) (b : Bool) (i : String) (ids : List String)
    → has ids i ≡ b
    → has (flip_id b i ids) id ≡ (if i == id then not (has ids id) else has ids id)
unfolding flip_id
has-flip_id id true i ids h =
    ground (arith, h, has-filter (λ j. not (j == i)) ids id, eq_iff i id, eq_iff id i)
has-flip_id id false i ids h =
    ground (arith, h, has-append ids (i ∷ []) id, eq_iff i id, eq_iff id i)

module _ {A : Type 0} (id : String) where
  -- What the history says of one row.
  abbrev pub is_open_after : List (Event A) → Bool
  is_open_after [] = false
  is_open_after (toggled i ∷ es) = if i == id then not (is_open_after es) else is_open_after es
  is_open_after (refreshed i ∷ es) = is_open_after es
  is_open_after (answered i reply ∷ es) = is_open_after es

  abbrev pub latest : List (Event A) → Option A
  latest [] = none
  latest (toggled i ∷ es) = latest es
  latest (refreshed i ∷ es) = latest es
  latest (answered i (ok items) ∷ es) = if i == id then some items else latest es
  latest (answered i (failed e) ∷ es) = latest es

  -- The row is open, and has this list.
  abbrev pub Shows : Bool → Option A → Keyed A → Type 0
  Shows b items s = (has s.expanded_ids id ≡ b) × (lookup id s.lists ≡ items)

  fetch_first-Shows :
      (b : Bool) (i : String) (c : Bool) (items : Option A) (s : Keyed A)
      → Shows c items s
      → Shows c items (fetch_first b i s)
  unfolding fetch_first fetch
  fetch_first-Shows b i c items s h =
      if_keeps (Shows c items) (not b && not (is_some (lookup i s.lists))) _ _ (λ _. h) (λ _. h)

  receive-Shows :
      (i : String) (reply : Reply A) (es : List (Event A)) (s : Keyed A)
      → Shows (is_open_after es) (latest es) s
      → Shows (is_open_after es) (latest (answered i reply ∷ es)) (receive i reply s)
  unfolding receive
  receive-Shows i (ok items) es s h = (h.0, lookup-insert i id items s.lists ∙ rw h.1 refl)
  receive-Shows i (failed e) es s h = h

  -- After every history of the two kinds of lists, with answers at any time and in any order, a row is
  -- open when it has been toggled an odd number of times, and has the list of the latest answer to a
  -- request for it that has not failed; the other rows have no part in it.
  pub after-Shows : (es : List (Event A)) → Shows (is_open_after es) (latest es) (after es)
  unfolding after step toggle fetch
  after-Shows [] = (refl, refl)
  after-Shows (toggled i ∷ es) =
      let s = after es in
      let (open_eq, list_eq) = after-Shows es in
      fetch_first-Shows (has s.expanded_ids i) i (is_open_after (toggled i ∷ es)) (latest es)
        (record s { expanded_ids = flip_id (has s.expanded_ids i) i s.expanded_ids })
        (has-flip_id id (has s.expanded_ids i) i s.expanded_ids refl ∙ rw open_eq refl, list_eq)
  after-Shows (refreshed i ∷ es) = after-Shows es
  after-Shows (answered i reply ∷ es) = receive-Shows i reply es (after es) (after-Shows es)
