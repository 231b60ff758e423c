-- ===== src/Client/Construction/Settings.antt =====
-- client/client.go: what a client that `New` returns has.
use headless_minecraft.Base.{
  ◌≡◌, refl, arith, inl, inr, true, false, Option, none, some, List, [], ◌∷◌, ◌++◌, is_empty,
  is_some, Bool-cases, Option-cases,
}
use headless_minecraft.Safety.{Unicode, allows, scope_observe}
use headless_minecraft.World.Core.{World, Reducer, register}
use headless_minecraft.Client.Construction.{
  Config, Setting, Configured, configured, rejected, ConfigError, validate, is_above_zero,
  default_config, set_option, if_configured, set_options, register_all, register_reducers,
  check_config, new_client, with_address, with_auth, with_version, with_authorization, with_logger,
  with_connect_timeout, with_bundle_limit, with_observation_grace, with_world,
}

is_empty-++ : {A : Type 0} (xs : List A) (x : A) → is_empty (xs ++ x ∷ []) ≡ false
is_empty-++ [] x = refl
is_empty-++ (y ∷ ys) x = refl

module _ {P E Menus Others Err Provider Logger : Type 0} where
  -- The bounds that the client keeps are positive.
  pub record IsPositive (c : Config P E Menus Others Err Provider Logger) : Type 0 where
    pub connect_timeout : is_above_zero c.connect_timeout ≡ true
    pub bundle_limit : is_above_zero c.bundle_limit ≡ true
    pub observation_grace : is_above_zero c.observation_grace ≡ true

  keep :
      {c d : Config P E Menus Others Err Provider Logger}
      → IsPositive c
      → d.connect_timeout ≡ c.connect_timeout
      → d.bundle_limit ≡ c.bundle_limit
      → d.observation_grace ≡ c.observation_grace
      → IsPositive d
  keep v timeout limit grace = record {
    connect_timeout = rw timeout v.connect_timeout;
    bundle_limit = rw limit v.bundle_limit;
    observation_grace = rw grace v.observation_grace;
  }

  -- A configuration with a property, or an error.
  pub data Holds (Q : Config P E Menus Others Err Provider Logger → Type 0)
      : Configured P E Menus Others Err Provider Logger → Type 0 where
    failed : (e : ConfigError) → Holds Q (rejected e)
    held : (c : Config P E Menus Others Err Provider Logger) → Q c → Holds Q (configured c)

  set_option-IsPositive :
      (c : Config P E Menus Others Err Provider Logger)
      (s : Setting P E Menus Others Err Provider Logger)
      → IsPositive c
      → Holds IsPositive (set_option c s)
  unfolding set_option
  set_option-IsPositive c (with_address []) v = failed _
  set_option-IsPositive c (with_address (x ∷ xs)) v = held _ (keep v refl refl refl)
  set_option-IsPositive c (with_auth none) v = failed _
  set_option-IsPositive c (with_auth (some p)) v = held _ (keep v refl refl refl)
  set_option-IsPositive c (with_version profile) v = held _ (keep v refl refl refl)
  set_option-IsPositive c (with_authorization a) v = held _ (keep v refl refl refl)
  set_option-IsPositive c (with_logger none) v = failed _
  set_option-IsPositive c (with_logger (some l)) v = held _ (keep v refl refl refl)
  set_option-IsPositive c (with_connect_timeout d) v = elim (Bool-cases (is_above_zero d)) [
    | inl good ↦ rw good (
        held _ (record {
          connect_timeout = good;
          bundle_limit = v.bundle_limit;
          observation_grace = v.observation_grace;
        }))
    | inr bad ↦ rw bad (failed _)
  ]
  set_option-IsPositive c (with_bundle_limit n) v = elim (Bool-cases (is_above_zero n)) [
    | inl good ↦ rw good (
        held _ (record {
          connect_timeout = v.connect_timeout;
          bundle_limit = good;
          observation_grace = v.observation_grace;
        }))
    | inr bad ↦ rw bad (failed _)
  ]
  set_option-IsPositive c (with_observation_grace d) v = elim (Bool-cases (is_above_zero d)) [
    | inl good ↦ rw good (
        held _ (record {
          connect_timeout = v.connect_timeout;
          bundle_limit = v.bundle_limit;
          observation_grace = good;
        }))
    | inr bad ↦ rw bad (failed _)
  ]
  set_option-IsPositive c (with_world none) v = failed _
  set_option-IsPositive c (with_world (some w)) v = held _ (keep v refl refl refl)

  if_configured-Holds :
      {Q R : Config P E Menus Others Err Provider Logger → Type 0}
      {r : Configured P E Menus Others Err Provider Logger}
      (f : Config P E Menus Others Err Provider Logger
        → Configured P E Menus Others Err Provider Logger)
      → Holds Q r
      → ((c : Config P E Menus Others Err Provider Logger) → Q c → Holds R (f c))
      → Holds R (if_configured r f)
  unfolding if_configured
  if_configured-Holds f (failed e) next = failed e
  if_configured-Holds f (held c q) next = next c q

  set_options-IsPositive :
      (c : Config P E Menus Others Err Provider Logger)
      (options : List (Option (Setting P E Menus Others Err Provider Logger)))
      → IsPositive c
      → Holds IsPositive (set_options c options)
  unfolding set_options
  set_options-IsPositive c [] v = held c v
  set_options-IsPositive c (none ∷ rest) v = failed _
  set_options-IsPositive c (some option ∷ rest) v =
      if_configured-Holds (λ d. set_options d rest) (set_option-IsPositive c option v)
        (λ d w. set_options-IsPositive d rest w)

module _ {P E Menus Others Err : Type 0} where
  register-is_empty :
      (w : World P E Menus Others Err) (r : Option (Reducer P E Menus Others Err))
      → (register w r).1 ≡ none
      → is_empty (register w r).0.reducers ≡ false
  unfolding register
  register-is_empty w none fine = absurd (ground (arith, fine))
  register-is_empty w (some r) fine = elim (Bool-cases w.started) [
    | inl started ↦ absurd (ground (arith, rw (register, started) at fine))
    | inr fresh ↦ rw (register, fresh) (is_empty-++ w.reducers r)
  ]

  register_all-is_empty :
      (w next : World P E Menus Others Err) (rs : List (Option (Reducer P E Menus Others Err)))
      → is_empty w.reducers ≡ false
      → register_all w rs ≡ some next
      → is_empty next.reducers ≡ false
  unfolding register_all
  register_all-is_empty w next [] given done =
      let same : w ≡ next = ground (arith, done) in rw⁻¹ same given
  register_all-is_empty w next (r ∷ rs) given done = elim (Option-cases (register w r).1) [
    | inl fine ↦
        register_all-is_empty (register w r).0 next rs (register-is_empty w r fine)
          (rw (register_all, fine) at done)
    | inr (e, failing) ↦ absurd (ground (arith, rw (register_all, failing) at done))
  ]

  register_all_nonempty :
      (w next : World P E Menus Others Err) (rs : List (Option (Reducer P E Menus Others Err)))
      → is_empty rs ≡ false
      → register_all w rs ≡ some next
      → is_empty next.reducers ≡ false
  unfolding register_all
  register_all_nonempty w next [] given done = absurd (ground (arith, given))
  register_all_nonempty w next (r ∷ rs) given done = elim (Option-cases (register w r).1) [
    | inl fine ↦
        register_all-is_empty (register w r).0 next rs (register-is_empty w r fine)
          (rw (register_all, fine) at done)
    | inr (e, failing) ↦ absurd (ground (arith, rw (register_all, failing) at done))
  ]

module _ {P E Menus Others Err Provider Logger : Type 0} (u : Unicode) where
  -- What `Connect` relies on.
  pub record IsReady (c : Config P E Menus Others Err Provider Logger) : Type 0 where
    pub positive : IsPositive c
    pub addressed : is_empty c.address ≡ false
    pub identified : is_some c.provider ≡ true
    pub valid : validate c.profile ≡ none
    pub allowed : allows u c.authorization c.address scope_observe ≡ true
    pub observes : (w : World P E Menus Others Err) → c.world ≡ some w → is_empty w.reducers ≡ false

  register_reducers-IsReady :
      (c : Config P E Menus Others Err Provider Logger)
      → IsPositive c
      → is_empty c.address ≡ false
      → is_some c.provider ≡ true
      → validate c.profile ≡ none
      → allows u c.authorization c.address scope_observe ≡ true
      → Holds IsReady (register_reducers c)
  unfolding register_reducers
  register_reducers-IsReady c v addressed identified valid allowed = elim (Option-cases c.world) [
    | inl blind ↦
        rw (register_reducers, blind)
          (held c (record {
            positive = v;
            addressed = addressed;
            identified = identified;
            valid = valid;
            allowed = allowed;
            observes = λ w given. absurd (ground (arith, blind, given));
          }))
    | inr (w, given) ↦ elim (Option-cases c.profile.reducers) [
      | inl missing ↦ rw (register_reducers, given, missing) (failed _)
      | inr (source, supplied) ↦ elim (Bool-cases (is_empty (source w))) [
        | inl empty ↦ rw (register_reducers, given, supplied, empty) (failed _)
        | inr some_there ↦ elim (Option-cases (register_all w (source w))) [
          | inl refused ↦ rw (register_reducers, given, supplied, some_there, refused) (failed _)
          | inr (next, done) ↦
              rw (register_reducers, given, supplied, some_there, done)
                (held (record c { world = some next })
                  (record {
                    positive = keep v refl refl refl;
                    addressed = addressed;
                    identified = identified;
                    valid = valid;
                    allowed = allowed;
                    observes = λ x same.
                        let e : next ≡ x = ground (arith, same) in
                        rw⁻¹ e (register_all_nonempty w next (source w) some_there done);
                  }))
        ]
      ]
    ]
  ]

  check_config-IsReady :
      (c : Config P E Menus Others Err Provider Logger)
      → IsPositive c
      → Holds IsReady (check_config u c)
  unfolding check_config
  check_config-IsReady c v = elim (Bool-cases (is_empty c.address)) [
    | inl empty ↦ rw (check_config, empty) (failed _)
    | inr addressed ↦ elim (Bool-cases (is_some c.provider)) [
      | inr missing ↦ rw (check_config, addressed, missing) (failed _)
      | inl identified ↦ elim (Option-cases (validate c.profile)) [
        | inr (e, bad) ↦ rw (check_config, addressed, identified, bad) (failed _)
        | inl valid ↦ elim (Bool-cases (allows u c.authorization c.address scope_observe)) [
          | inr refused ↦ rw (check_config, addressed, identified, valid, refused) (failed _)
          | inl allowed ↦
              rw (check_config, addressed, identified, valid, allowed)
                (register_reducers-IsReady c v addressed identified valid allowed)
        ]
      ]
    ]
  ]

  -- Over any options: `New` either returns an error, or a client whose timeouts and bundle limit are
  -- positive, with an address, an identity provider and a valid profile, authorized to observe its address,
  -- and whose world, where it has one, has a reducer.
  pub new_client-IsReady :
      (options : List (Option (Setting P E Menus Others Err Provider Logger)))
      → Holds IsReady (new_client u options)
  unfolding new_client
  new_client-IsReady options =
      if_configured-Holds (check_config u)
        (set_options-IsPositive default_config options
          (record { connect_timeout = refl; bundle_limit = refl; observation_grace = refl }))
        check_config-IsReady
