-- ===== src/Admin/Schema/Resolved.antt =====
-- The route slug of a name, by `resolveEntityKey`.
use testnexa.Base.{String, ◌≡◌, refl, Bool-cases, inl, inr, Bool, ◌||◌, ◌<>◌, if◌then◌else◌}
use testnexa.Admin.Registry.{is_admin_entity_key}
use testnexa.Admin.Schema.{resolve_entity_key}

-- The choice, for any test of keys.
choose : (String → Bool) → String → String
choose p key = if p key then key else if p (key <> "s") then key <> "s" else key

choose-choose : (p : String → Bool) (key : String) → choose p (choose p key) ≡ choose p key
unfolding choose
choose-choose p key = elim (Bool-cases (p key)) [
  | inl e ↦ rw (e, e) refl
  | inr e ↦ elim (Bool-cases (p (key <> "s"))) [
    | inl f ↦ rw (e, f, f) refl
    | inr f ↦ rw (e, f, e, f) refl
  ]
]

choose-holds : (p : String → Bool) (key : String) → p (choose p key) ≡ (p key || p (key <> "s"))
unfolding choose
choose-holds p key = elim (Bool-cases (p key)) [
  | inl e ↦ rw (e, e) refl
  | inr e ↦ elim (Bool-cases (p (key <> "s"))) [
    | inl f ↦ rw (e, f, f) refl
    | inr f ↦ rw (e, f, e) refl
  ]
]

-- Resolving a name twice is resolving it once, so every surface asks for the same slug.
resolve_entity_key-resolve_entity_key :
    (key : String) → resolve_entity_key (resolve_entity_key key) ≡ resolve_entity_key key
unfolding resolve_entity_key choose
resolve_entity_key-resolve_entity_key key = choose-choose is_admin_entity_key key

-- The slug of a name is in the registry exactly when the name or its plural is: a name that the
-- registry has in neither form is passed on as it is.
is_admin_entity_key-resolve_entity_key :
    (key : String)
    → is_admin_entity_key (resolve_entity_key key)
      ≡ (is_admin_entity_key key || is_admin_entity_key (key <> "s"))
unfolding resolve_entity_key choose
is_admin_entity_key-resolve_entity_key key = choose-holds is_admin_entity_key key
