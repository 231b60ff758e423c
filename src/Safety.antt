-- ===== src/Safety.antt =====
-- safety/authorization.go and safety/profile.go: the endpoint and scopes that an application declares.
-- An endpoint is its code points. `is_space` and `lower` are the Unicode tables of `strings.TrimSpace`
-- and `strings.ToLower`; the host-port functions of `net` are written out.
pub mod Scopes
mod Tests
use headless_minecraft.Base.{
  ℕ, ◌+◌, ◌-◌, String, Bool, true, false, not, ◌&&◌, ◌||◌, Option, none, some, List, [], ◌∷◌, ◌++◌,
  ◌≡◌, ◌↔◌, arith, ==_iff, map, if◌then◌else◌, ◌==◌, nat_key, string_key, str_leb, is_empty,
  is_some, take, drop,
}
use headless_minecraft.Base.Sort.{sort, compact, contains}

abbrev pub Scope : Type 0
Scope = String

abbrev pub scope_observe : Scope
scope_observe = "observe"

abbrev pub scope_move : Scope
scope_move = "move"

abbrev pub scope_inventory : Scope
scope_inventory = "inventory"

abbrev pub scope_interact : Scope
scope_interact = "interact"

abbrev pub scope_attack : Scope
scope_attack = "attack"

abbrev pub scope_dig : Scope
scope_dig = "dig"

abbrev pub scope_build : Scope
scope_build = "build"

pub record Profile : Type 0 where
  pub retry_ambiguous : Bool
  pub reconnect : Bool
  pub resume_after_correction : Bool
  pub require_known_collision : Bool

-- `Strict`
abbrev pub strict : Profile
strict = record {
  retry_ambiguous = false;
  reconnect = false;
  resume_after_correction = false;
  require_known_collision = true;
}

abbrev pub Text : Type 0
Text = List ℕ

pub record Unicode : Type 0 where
  pub is_space : ℕ → Bool
  pub lower : ℕ → ℕ

abbrev pub text_beq : Text → Text → Bool
text_beq [] [] = true
text_beq (x ∷ xs) (y ∷ ys) = let rest = text_beq xs ys in x == y && rest
text_beq _ _ = false

pub text_beq_iff : (a b : Text) → (text_beq a b ≡ true) ↔ (a ≡ b)
text_beq_iff [] [] = ground arith
text_beq_iff [] (y ∷ ys) = ground arith
text_beq_iff (x ∷ xs) [] = ground arith
text_beq_iff (x ∷ xs) (y ∷ ys) = ground (arith, text_beq_iff xs ys, ==_iff x y)

abbrev pub colon : ℕ
colon = 58

abbrev pub opening : ℕ
opening = 91

abbrev pub closing : ℕ
closing = 93

unfoldable pub last_index : ℕ → Text → Option ℕ
last_index c [] = none
last_index c (x ∷ xs) = elim (last_index c xs) [
  | some i ↦ some (i + 1)
  | none ↦ if x == c then some 0 else none
]

unfoldable pub index : ℕ → Text → Option ℕ
index c [] = none
index c (x ∷ xs) =
    let rest = index c xs in
    if x == c then some 0 else elim rest [ some i ↦ some (i + 1) | none ↦ none ]

abbrev pub starts_with : ℕ → Text → Bool
starts_with c [] = false
starts_with c (x ∷ xs) = x == c

-- `net.SplitHostPort`: the host, with its brackets taken off, and the port. No bracket may stand in
-- `before` or, closing, in `after`.
abbrev pub split : Text → Text → Text → Text → Option (Text × Text)
split host port before after =
    if is_some (index opening before) || is_some (index closing after)
    then none
    else some (host, port)

unfoldable pub split_host_port : Text → Option (Text × Text)
split_host_port hostport = elim (last_index colon hostport) [
  | none ↦ none
  | some i ↦
      if starts_with opening hostport
      then elim (index closing hostport) [
        | none ↦ none
        | some end ↦
            if end + 1 == i
            then split (take (end - 1) (drop 1 hostport)) (drop (i + 1) hostport) (drop 1 hostport)
                (drop (end + 1) hostport)
            else none
      ]
      else if is_some (index colon (take i hostport))
      then none
      else split (take i hostport) (drop (i + 1) hostport) hostport hostport
]

-- `net.JoinHostPort`
unfoldable pub join_host_port : Text → Text → Text
join_host_port host port =
    if is_some (index colon host)
    then opening ∷ host ++ closing ∷ colon ∷ port
    else host ++ colon ∷ port

unfoldable pub trim_left : (ℕ → Bool) → Text → Text
trim_left is_space [] = []
trim_left is_space (x ∷ xs) =
    let rest = trim_left is_space xs in if is_space x then rest else x ∷ xs

unfoldable pub trim_right : (ℕ → Bool) → Text → Text
trim_right is_space [] = []
trim_right is_space (x ∷ xs) =
    let rest = trim_right is_space xs in if is_empty rest && is_space x then [] else x ∷ rest

abbrev pub trim_space : Unicode → Text → Text
trim_space u text = trim_right u.is_space (trim_left u.is_space text)

unfoldable pub normalize_endpoint : Unicode → Text → Option Text
normalize_endpoint u endpoint = elim (split_host_port (trim_space u endpoint)) [
  | none ↦ none
  | some (host, port) ↦
      if is_empty host || is_empty port then none else some (join_host_port (map u.lower host) port)
]

pub record Authorization : Type 0 where
  pub endpoint : Text
  pub scopes : List Scope

-- `ErrUnauthorized`, with what was wrong.
pub data Unauthorized : Type 0 where
  not_host_port : Unauthorized
  no_scopes : Unauthorized

pub data Authorized : Type 0 where
  authorized : Authorization → Authorized
  refused : Unauthorized → Authorized

unfoldable pub authorize : Unicode → Text → List Scope → Authorized
authorize u endpoint scopes = elim (normalize_endpoint u endpoint) [
  | none ↦ Authorized.refused not_host_port
  | some normalized ↦
      let owned = compact (sort str_leb scopes) in
      if is_empty owned
      then Authorized.refused no_scopes
      else Authorized.authorized (record { endpoint = normalized; scopes = owned })
]

unfoldable pub allows : Unicode → Authorization → Text → Scope → Bool
allows u a endpoint scope = elim (normalize_endpoint u endpoint) [
  | none ↦ false
  | some normalized ↦ text_beq normalized a.endpoint && contains scope a.scopes
]
