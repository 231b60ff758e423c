-- ===== src/Safety/Scopes.antt =====
-- safety/authorization.go: what an authorization allows.
use headless_minecraft.Base.{
  ◌≡◌, refl, arith, Bool, false, ◌&&◌, none, some, List, str_leb, string_key, Option-cases, inl,
  inr,
}
use headless_minecraft.Base.Sort.{sort, compact, contains, contains-sort, contains-compact}
use headless_minecraft.Safety.{
  Scope, Unicode, Text, Authorization, Authorized, authorize, allows, normalize_endpoint, text_beq,
}

-- Whether two endpoints have a normal form, and the same.
abbrev pub same_endpoint : Unicode → Text → Text → Bool
same_endpoint u a b = elim (normalize_endpoint u a) [
  | none ↦ false
  | some x ↦ elim (normalize_endpoint u b) [ none ↦ false | some y ↦ text_beq x y ]
]

authorize_shape :
    (u : Unicode) (declared : Text) (scopes : List Scope) (a : Authorization)
    → authorize u declared scopes ≡ Authorized.authorized a
    → (n : Text) × (normalize_endpoint u declared ≡ some n)
      × (a.endpoint ≡ n)
      × (a.scopes ≡ compact (sort str_leb scopes))
unfolding authorize
authorize_shape u declared scopes a h = elim (Option-cases (normalize_endpoint u declared)) [
  | inl e ↦ absurd (ground (arith, h, e))
  | inr (n, e) ↦ (n, e, ground (arith, h, e), ground (arith, h, e))
]

-- An authorization for an endpoint and scopes allows a scope at an endpoint exactly where that endpoint
-- has the normal form of the declared one and the scope was among the declared ones.
pub allows-authorize :
    (u : Unicode) (declared endpoint : Text) (scopes : List Scope) (scope : Scope)
    {a : Authorization}
    → authorize u declared scopes ≡ Authorized.authorized a
    → allows u a endpoint scope ≡ (same_endpoint u endpoint declared && contains scope scopes)
unfolding allows
allows-authorize u declared endpoint scopes scope {a} h =
    let (n, e, here, owned) = authorize_shape u declared scopes a h in
    let kept = contains-compact scope (sort str_leb scopes) in
    let listed = contains-sort str_leb scope scopes in
    elim (Option-cases (normalize_endpoint u endpoint)) [
      | inl q ↦ rw (allows, same_endpoint, q) refl
      | inr (m, q) ↦ rw (allows, same_endpoint, q, e, here, owned, kept, listed) refl
    ]
