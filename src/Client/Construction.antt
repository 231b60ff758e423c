-- ===== src/Client/Construction.antt =====
-- client/client.go: the options of a client and `New`, with the check of a profile in version/profile.go.
-- Identity providers and loggers are any types, and a nil one is `none`; a duration is its nanoseconds.
pub mod Settings
mod Tests
use headless_minecraft.Base.{
  ℕ, zero, suc, String, string_key, Bool, true, false, not, ◌&&◌, Option, none, some, List, [], ◌∷◌,
  ℤ, pos, negsuc, is_empty, is_some, if◌then◌else◌, ◌==◌,
}
use headless_minecraft.Safety.{Text, Unicode, Authorization, allows, scope_observe}
use headless_minecraft.World.Core.{World, Reducer, WorldError, register}

-- `WireProfile`, with what `Validate` asks of it: the identifiers of the protocol and of the adapter where
-- there are ones, the reducers that the adapter builds for a world where it can, and whether the limits are
-- valid and the other parts are given.
pub record WireProfile (W R : Type 0) : Type 0 where
  pub id : String
  pub protocol_id : Option String
  pub adapter_id : Option String
  pub reducers : Option (W → List (Option R))
  pub limits_valid : Bool
  pub readiness : Bool
  pub collector : Bool
  pub outbox : Bool

pub data InvalidProfile : Type 0 where
  missing_id : InvalidProfile
  missing_protocol : InvalidProfile
  missing_adapter : InvalidProfile
  mismatch : String → String → InvalidProfile
  bad_limits : InvalidProfile
  missing_readiness : InvalidProfile
  missing_collector : InvalidProfile
  missing_outbox : InvalidProfile

module _ {W R : Type 0} where
  -- The checks of `Validate` after the protocol and the adapter.
  abbrev pub validate_parts : WireProfile W R → Option InvalidProfile
  validate_parts p =
      if not p.limits_valid
      then some bad_limits
      else if not p.readiness
      then some missing_readiness
      else if not p.collector
      then some missing_collector
      else if not p.outbox
      then some missing_outbox
      else none

  -- `Validate`
  unfoldable pub validate : WireProfile W R → Option InvalidProfile
  validate p = if p.id == "" then some missing_id else elim p.protocol_id [
    | none ↦ some missing_protocol
    | some protocol ↦ elim p.adapter_id [
      | none ↦ some missing_adapter
      | some adapter ↦
          if not (protocol == adapter) then some (mismatch protocol adapter) else validate_parts p
    ]
  ]

pub data ConfigError : Type 0 where
  nil_option : ConfigError
  empty_address : ConfigError
  nil_provider : ConfigError
  nil_logger : ConfigError
  bad_timeout : ℤ → ConfigError
  bad_bundle_limit : ℤ → ConfigError
  bad_grace : ℤ → ConfigError
  nil_world : ConfigError
  no_address : ConfigError
  no_provider : ConfigError
  invalid_profile : InvalidProfile → ConfigError
  unauthorized : ConfigError
  no_reducers : ConfigError
  not_registered : ConfigError

module _ (P E Menus Others Err Provider Logger : Type 0) where
  abbrev pub Profile : Type 0
  Profile = WireProfile (World P E Menus Others Err) (Reducer P E Menus Others Err)

  -- The fields of `Client` that the options set.
  pub record Config : Type 0 where
    pub address : Text
    pub provider : Option Provider
    pub profile : Profile
    pub authorization : Authorization
    pub logger : Option Logger
    pub connect_timeout : ℤ
    pub bundle_limit : ℤ
    pub observation_grace : ℤ
    pub world : Option (World P E Menus Others Err)

  -- `Option`, one constructor for each function that makes one.
  pub data Setting : Type 0 where
    with_address : Text → Setting
    with_auth : Option Provider → Setting
    with_version : Profile → Setting
    with_authorization : Authorization → Setting
    with_logger : Option Logger → Setting
    with_connect_timeout : ℤ → Setting
    with_bundle_limit : ℤ → Setting
    with_observation_grace : ℤ → Setting
    with_world : Option (World P E Menus Others Err) → Setting

  pub data Configured : Type 0 where
    configured : Config → Configured
    rejected : ConfigError → Configured

abbrev pub is_above_zero : ℤ → Bool
is_above_zero (pos (suc n)) = true
is_above_zero _ = false

module _ {P E Menus Others Err : Type 0} where
  -- The loop of `registerReducers`, which an error ends.
  unfoldable pub register_all :
      World P E Menus Others Err
      → List (Option (Reducer P E Menus Others Err))
      → Option (World P E Menus Others Err)
  register_all w [] = some w
  register_all w (r ∷ rs) =
      let registered = register w r in
      let rest = register_all registered.0 rs in elim registered.1 [ none ↦ rest | some e ↦ none ]

module _ {P E Menus Others Err Provider Logger : Type 0} where
  -- The client that `New` begins with; the zero profile and authorization have empty fields, and a logger
  -- that is `none` here is the one that discards.
  abbrev pub default_config : Config P E Menus Others Err Provider Logger
  default_config = record {
    address = [];
    provider = none;
    profile = record {
      id = "";
      protocol_id = none;
      adapter_id = none;
      reducers = none;
      limits_valid = false;
      readiness = false;
      collector = false;
      outbox = false;
    };
    authorization = record { endpoint = []; scopes = [] };
    logger = none;
    connect_timeout = pos 30000000000;
    bundle_limit = pos 4096;
    observation_grace = pos 10000000000;
    world = none;
  }

  -- A call of one option.
  unfoldable pub set_option :
      Config P E Menus Others Err Provider Logger
      → Setting P E Menus Others Err Provider Logger
      → Configured P E Menus Others Err Provider Logger
  set_option c (with_address []) = rejected empty_address
  set_option c (with_address (x ∷ xs)) = configured (record c { address = x ∷ xs })
  set_option c (with_auth none) = rejected nil_provider
  set_option c (with_auth (some p)) = configured (record c { provider = some p })
  set_option c (with_version profile) = configured (record c { profile = profile })
  set_option c (with_authorization a) = configured (record c { authorization = a })
  set_option c (with_logger none) = rejected nil_logger
  set_option c (with_logger (some l)) = configured (record c { logger = some l })
  set_option c (with_connect_timeout d) =
      if is_above_zero d
      then configured (record c { connect_timeout = d })
      else rejected (bad_timeout d)
  set_option c (with_bundle_limit n) =
      if is_above_zero n
      then configured (record c { bundle_limit = n })
      else rejected (bad_bundle_limit n)
  set_option c (with_observation_grace d) =
      if is_above_zero d
      then configured (record c { observation_grace = d })
      else rejected (bad_grace d)
  set_option c (with_world none) = rejected nil_world
  set_option c (with_world (some w)) = configured (record c { world = some w })

  -- What follows a configuration that was not rejected.
  unfoldable pub if_configured :
      Configured P E Menus Others Err Provider Logger
      → (Config P E Menus Others Err Provider Logger
          → Configured P E Menus Others Err Provider Logger)
      → Configured P E Menus Others Err Provider Logger
  if_configured (configured c) f = f c
  if_configured (rejected e) f = rejected e

  -- The loop over the options, of which a nil one is `none`.
  unfoldable pub set_options :
      Config P E Menus Others Err Provider Logger
      → List (Option (Setting P E Menus Others Err Provider Logger))
      → Configured P E Menus Others Err Provider Logger
  set_options c [] = configured c
  set_options c (none ∷ rest) = rejected nil_option
  set_options c (some option ∷ rest) = if_configured (set_option c option) (λ d. set_options d rest)

  unfoldable pub register_reducers :
      Config P E Menus Others Err Provider Logger → Configured P E Menus Others Err Provider Logger
  register_reducers c = elim c.world [
    | none ↦ configured c
    | some w ↦ elim c.profile.reducers [
      | none ↦ rejected no_reducers
      | some source ↦
          if is_empty (source w) then rejected no_reducers else elim (register_all w (source w)) [
            | none ↦ rejected not_registered
            | some next ↦ configured (record c { world = some next })
          ]
    ]
  ]

  -- The checks of `New` once the options are set.
  unfoldable pub check_config :
      Unicode
      → Config P E Menus Others Err Provider Logger
      → Configured P E Menus Others Err Provider Logger
  check_config u c =
      if is_empty c.address
      then rejected no_address
      else if not (is_some c.provider)
      then rejected no_provider
      else elim (validate c.profile) [
        | some e ↦ rejected (invalid_profile e)
        | none ↦
            if not (allows u c.authorization c.address scope_observe)
            then rejected unauthorized
            else register_reducers c
      ]

  -- `New`
  unfoldable pub new_client :
      Unicode
      → List (Option (Setting P E Menus Others Err Provider Logger))
      → Configured P E Menus Others Err Provider Logger
  new_client u options = if_configured (set_options default_config options) (check_config u)
