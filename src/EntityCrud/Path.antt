-- ===== src/EntityCrud/Path.antt =====
-- What the two interpolations leave alone, and when the second one fails.
use Prim.Native.Char.{Char}
use Prim.Native.String.{[], ◌∷◌ as ◌:>◌}
use text.Mathlib.TextLemmas.{append_assoc, append-nil, cons-append, nil-append}
use text.Mathlib.TextEquality.{Char-path}
use mathlib.Core.Option.{map}
use testnexa.Base.{
  String, ◌≡◌, refl, sym, ap, ◌∙◌, Bool, true, false, not, ◌&&◌, ◌==◌, Option, none, some, ◌<>◌,
  arith, eq_iff, Bool-cases, inl, inr,
}
use testnexa.EntityCrud.{
  is_letter, is_colon, replaced, scan, interpolate, is_word, is_open, is_close, filled, scan_link,
  interpolate_link_path,
}

-- No parameter is known.
abbrev unknown : String → Option String
unknown name = none

replaced-unknown : (name : String) → replaced unknown name ≡ ":" <> name
replaced-unknown name = elim (Bool-cases (name == "")) [
  | inl e ↦ rw (e, (eq_iff name "").0 e) refl
  | inr e ↦ rw e refl
]

-- What has been read of a placeholder.
before : Option String → String
before none = ""
before (some name) = ":" <> name

colon : Char
colon = ":"

colon_text : (c : Char) → is_colon c ≡ true → (c :> "") ≡ ":"
unfolding colon
colon_text c h = ap (λ d. d :> "") (Char-path c colon (ground (arith, h)))

cons_text : (c : Char) (t : String) → (c :> "") <> t ≡ c :> t
cons_text c t = cons-append c "" t ∙ ap (◌:>◌ c) (nil-append t)

-- A character in front of a text goes to the text before it.
shift : (s : String) (c : Char) (t : String) → s <> (c :> t) ≡ (s <> (c :> "")) <> t
shift s c t = ap (◌<>◌ s) (sym (cons_text c t)) ∙ sym (append_assoc s (c :> "") t)

step_outside :
    (b : Bool) (c : Char) (t x y : String)
    → (b ≡ true → (c :> "") ≡ ":")
    → x ≡ ":" <> t
    → y ≡ t
    → elim b [ true ↦ x | false ↦ (c :> "") <> y ] ≡ c :> t
step_outside true c t x y h p q = p ∙ ap (λ u. u <> t) (sym (h refl)) ∙ cons_text c t
step_outside false c t x y h p q = ap (◌<>◌ (c :> "")) q ∙ cons_text c t

step_inside :
    (b : Bool) (name : String) (c : Char) (t x y z : String)
    → x ≡ (":" <> (name <> (c :> ""))) <> t
    → y ≡ ":" <> name
    → z ≡ c :> t
    → elim b [ true ↦ x | false ↦ y <> z ] ≡ (":" <> name) <> (c :> t)
step_inside true name c t x y z p q r =
    p ∙ ap (λ u. u <> t) (sym (append_assoc ":" name (c :> ""))) ∙ sym (shift (":" <> name) c t)
step_inside false name c t x y z p q r = ap (λ u. u <> z) q ∙ ap (◌<>◌ (":" <> name)) r

scan-unknown : (o : Option String) (s : String) → scan unknown o s ≡ before o <> s
unfolding scan before
scan-unknown none [] = refl
scan-unknown (some name) [] = replaced-unknown name ∙ sym (append-nil (":" <> name))
scan-unknown none (c :> s) =
    step_outside (is_colon c) c s (scan unknown (some "") s) (scan unknown none s) (colon_text c)
      (scan-unknown (some "") s) (scan-unknown none s ∙ nil-append s)
    ∙ sym (nil-append (c :> s))
scan-unknown (some name) (c :> s) =
    step_inside (is_letter c) name c s _ _ _ (scan-unknown (some (name <> (c :> ""))) s)
      (replaced-unknown name)
      (step_outside (is_colon c) c s (scan unknown (some "") s) (scan unknown none s) (colon_text c)
        (scan-unknown (some "") s) (scan-unknown none s ∙ nil-append s))

-- A template none of whose parameters is known is left as it is, with its placeholders.
interpolate-unknown : (template : String) → interpolate template (λ name. none) ≡ template
unfolding interpolate before
interpolate-unknown template = scan-unknown none template ∙ nil-append template

-- A step fails only where what it goes on with fails.
map-none : (f : String → String) (o : Option String) → map f o ≡ none → o ≡ none
map-none f none h = refl
map-none f (some a) h = cc

branch-none :
    (P : Type 0) (b : Bool) (x y : Option String)
    → elim b [ true ↦ x | false ↦ y ] ≡ none
    → (x ≡ none → P)
    → (y ≡ none → P)
    → P
branch-none P true x y h p q = p h
branch-none P false x y h p q = q h

value-none :
    (P : Type 0) (o rest : Option String)
    → elim o [ none ↦ none | some value ↦ map (◌<>◌ value) rest ] ≡ none
    → (o ≡ none → P)
    → (rest ≡ none → P)
    → P
value-none P none rest h p q = p refl
value-none P (some value) rest h p q = q (map-none (◌<>◌ value) rest h)

abbrev pub IsMissing : (String → Option String) → Type 0
IsMissing values = (name : String) × (filled (values name) ≡ none)

scan_link-none :
    (values : String → Option String) (o : Option String) (s : String)
    → scan_link values o s ≡ none
    → IsMissing values
unfolding scan_link
scan_link-none values none [] h = cc
scan_link-none values (some name) [] h = cc
scan_link-none values none (c :> s) h =
    branch-none (IsMissing values) (is_open c) _ _ h (scan_link-none values (some "") s)
      (λ k. scan_link-none values none s (map-none (◌<>◌ (c :> "")) _ k))
scan_link-none values (some name) (c :> s) h =
    branch-none (IsMissing values) (is_word c) _ _ h
      (scan_link-none values (some (name <> (c :> ""))) s)
      (λ k.
        branch-none (IsMissing values) (is_close c && not (name == "")) _ _ k
          (λ l.
            value-none (IsMissing values) (filled (values name)) _ l (λ m. (name, m))
              (scan_link-none values none s))
          (λ l.
            branch-none (IsMissing values) (is_open c) _ _ (map-none (◌<>◌ ("{" <> name)) _ l)
              (scan_link-none values (some "") s)
              (λ m. scan_link-none values none s (map-none (◌<>◌ (c :> "")) _ m))))

-- The path of a link row fails to build only where a value is missing or empty, so with every value
-- at hand the request is sent.
interpolate_link_path-none :
    (template : String) (values : String → Option String)
    → interpolate_link_path template values ≡ none
    → IsMissing values
unfolding interpolate_link_path
interpolate_link_path-none template values h = scan_link-none values none template h
