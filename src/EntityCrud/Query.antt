-- ===== src/EntityCrud/Query.antt =====
-- lib/api/entityCrud.ts: the query string of a list, as the entries of its URLSearchParams. How they
-- are written in a URL is left to the browser.
use testnexa.Base.{
  ℕ, String, ◌≡◌, refl, ◌∙◌, true, false, ◌==◌, Option, none, some, List, [], ◌∷◌, truthy, num_eq,
  if◌then◌else◌, Bool-cases, inl, inr, arith, eq_iff, eq_refl,
}
use testnexa.Base.Names.{has, Distinct}
use testnexa.Base.Dict.{keys, insert, lookup, lookup-insert}
use testnexa.Json.{num}
use testnexa.Json.Text.{string_of}

-- The page and the size are 0 where they are undefined, which is falsy too.
pub record ListQuery : Type 0 where
  pub page : ℕ
  pub page_size : ℕ
  pub q : Option String
  pub sort : Option String
  pub params : List (String × String)

-- `if (n) { search.set(name, String(n)); }`
set_number : String → ℕ → List (String × String) → List (String × String)
set_number name n search = if num_eq n 0 then search else insert name (string_of (num n)) search

-- `if (value) { search.set(name, value); }`
set_text : String → Option String → List (String × String) → List (String × String)
set_text name none search = search
set_text name (some value) search = if truthy value then insert name value search else search

-- The loop over the parameters.
unfoldable pub set_params : List (String × String) → List (String × String) → List (String × String)
unfolding set_text
set_params [] search = search
set_params ((name, value) ∷ params) search = set_params params (set_text name (some value) search)

unfoldable pub build_query : ListQuery → List (String × String)
unfolding set_number set_text set_params
build_query query = set_params query.params (
    set_text "sort" query.sort (
      set_text "q" query.q
        (set_number "page_size" query.page_size (set_number "page" query.page []))))

lookup-set_text_other :
    (key name value : String) (search : List (String × String))
    → (name == key) ≡ false
    → lookup key (set_text name (some value) search) ≡ lookup key search
unfolding set_text
lookup-set_text_other key name value search h = elim (Bool-cases (truthy value)) [
  | inl e ↦ rw (e, lookup-insert, h) refl
  | inr e ↦ rw e refl
]

lookup-set_text_here :
    (key value : String) (search : List (String × String))
    → truthy value ≡ true
    → lookup key (set_text key (some value) search) ≡ some value
unfolding set_text
lookup-set_text_here key value search t = rw (t, lookup-insert, eq_refl) refl

lookup-set_params_other :
    (key : String) (params search : List (String × String))
    → has (keys params) key ≡ false
    → lookup key (set_params params search) ≡ lookup key search
unfolding set_params
lookup-set_params_other key [] search h = refl
lookup-set_params_other key ((name, value) ∷ params) search h =
    lookup-set_params_other key params (set_text name (some value) search) (ground (arith, h))
    ∙ lookup-set_text_other key name value search (ground (arith, h))

-- A parameter with a value is in the query, whatever the query has besides.
pub lookup-set_params :
    (key value : String) (params search : List (String × String))
    → Distinct (keys params)
    → truthy value ≡ true
    → lookup key params ≡ some value
    → lookup key (set_params params search) ≡ some value
unfolding set_params
lookup-set_params key value [] search d t h = cc
lookup-set_params key value ((name, old) ∷ params) search d t h = elim (Bool-cases (name == key)) [
  | inl e ↦
      let same : old ≡ value = ground (arith, h, e) in
      lookup-set_params_other key params (set_text name (some old) search)
        (rw (← (eq_iff name key).0 e) d.0)
      ∙ rw ((eq_iff name key).0 e, same) (lookup-set_text_here key value search t)
  | inr e ↦
      lookup-set_params key value params (set_text name (some old) search) d.1 t
        (ground (arith, h, e))
]
