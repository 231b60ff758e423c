-- ===== src/Safety/Tests.antt =====
-- Concrete runs of safety/authorization.go, over the ASCII part of the Unicode tables.
use headless_minecraft.Base.{
  ◌+◌, ◌≡◌, refl, ◌&&◌, some, List, [], ◌∷◌, leb, if◌then◌else◌, ◌==◌, nat_key, string_key,
}
use headless_minecraft.Base.Sort.{contains, compact, sort}
use headless_minecraft.Safety.{
  Unicode, Text, Authorization, Authorized, Scope, authorize, allows, normalize_endpoint,
  split_host_port, last_index, trim_right, trim_left, index, join_host_port, scope_dig,
  scope_observe,
}
use headless_minecraft.Safety.Scopes.{same_endpoint, allows-authorize}

abbrev ascii : Unicode
ascii = record { is_space = λ c. c == 32; lower = λ c. if leb 65 c && leb c 90 then c + 32 else c }

-- `Host:25`
abbrev upper_host : Text
upper_host = 72 ∷ 111 ∷ 58 ∷ 50 ∷ 53 ∷ []

-- ` host:25`
abbrev spaced_host : Text
spaced_host = 32 ∷ 104 ∷ 111 ∷ 58 ∷ 50 ∷ 53 ∷ []

abbrev declared_scopes : List Scope
declared_scopes = scope_observe ∷ scope_dig ∷ scope_observe ∷ []

abbrev granted : Authorization
granted = record {
  endpoint = 104 ∷ 111 ∷ 58 ∷ 50 ∷ 53 ∷ [];
  scopes = scope_dig ∷ scope_observe ∷ [];
}

-- `[::1]:25` keeps its brackets.
bracketed_endpoint :
    normalize_endpoint ascii (91 ∷ 58 ∷ 58 ∷ 49 ∷ 93 ∷ 58 ∷ 50 ∷ 53 ∷ [])
    ≡ some (91 ∷ 58 ∷ 58 ∷ 49 ∷ 93 ∷ 58 ∷ 50 ∷ 53 ∷ [])
unfolding normalize_endpoint split_host_port last_index trim_right trim_left index join_host_port
bracketed_endpoint = refl

granted_lem : authorize ascii upper_host declared_scopes ≡ Authorized.authorized granted
unfolding authorize normalize_endpoint split_host_port last_index trim_right trim_left index compact
    sort join_host_port
granted_lem = refl

allows-authorize_example :
    allows ascii granted spaced_host scope_dig
    ≡ (same_endpoint ascii spaced_host upper_host && contains scope_dig declared_scopes)
allows-authorize_example =
    allows-authorize ascii upper_host spaced_host declared_scopes scope_dig granted_lem
