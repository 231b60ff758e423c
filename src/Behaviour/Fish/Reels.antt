-- ===== src/Behaviour/Fish/Reels.antt =====
-- behaviour/fish.go: what fishing has sent when it is complete.
use headless_minecraft.Base.{
  ℕ, suc, ◌+◌, ◌*◌, ◌≡◌, ◌≤◌, refl, arith, true, false, ◌&&◌, List, [], ◌∷◌, ltb, leb, Bool-cases,
  inl, inr, ◌==◌, int_key, none, some, pos, is_some, if◌then◌else◌,
}
use headless_minecraft.Version.Actions.{Action, use_item}
use headless_minecraft.Behaviour.{run, completed, follow, Ticked, Run}
use headless_minecraft.Behaviour.Observed.{Snapshot, get}
use headless_minecraft.Behaviour.Fish.{
  Fish, Bite, uncast, Tick, angle, fish_tick, set_bobber, wait_for_bite,
}
use headless_minecraft.Behaviour.Fish.Casts.{fish_run}

module _ {F32 F64 Claim : Type 0} where
  unfoldable pub uses : List (Action F32 F64 Claim) → ℕ
  uses [] = 0
  uses (action ∷ actions) =
      let rest = uses actions in elim action [ use_item hand ↦ suc rest | _ ↦ rest ]

module _ (F32 F64 Value Claim Err : Type 0) where
  -- Casts, and reels, that a fish has sent; a line that is out has been cast once more.
  abbrev sent_so_far : Fish F32 F64 Value → ℕ
  sent_so_far f = 2 * f.reeled + (if f.out then 1 else 0)

  -- A run that completes has used the rod twice for each cast, the uses before it counted.
  abbrev IsTwice : List (Tick F32 F64 Value) → Type 0
  IsTwice seen =
      (f : Fish F32 F64 Value)
      → 1 ≤ f.casts
      → f.reeled + (if f.out then 1 else 0) ≤ f.casts
      → completed (fish_run F32 F64 Value Claim Err f seen) ≡ true
      → uses (fish_run F32 F64 Value Claim Err f seen).actions + sent_so_far f ≡ 2 * f.casts

  wait_balances :
      (rest : List (Tick F32 F64 Value))
      → IsTwice rest
      → (f : Fish F32 F64 Value) → f.out ≡ true
      → 1 ≤ f.casts
      → f.reeled + 1 ≤ f.casts
      → let t : Fish F32 F64 Value × Ticked (Action F32 F64 Claim) Err = wait_for_bite f in
        let r : Run (Tick F32 F64 Value) (Action F32 F64 Claim) Err =
          follow t.1 rest (run angle t.0 rest) in
        completed r ≡ true → uses r.actions + (2 * f.reeled + 1) ≡ 2 * f.casts
  unfolding wait_for_bite uses
  wait_balances rest ih f is_out some_casts within =
      elim (Bool-cases (ltb 0 f.patience && leb f.patience (f.waited + 1))) [
        | inl late ↦ rw late (λ h. ground (arith, h))
        | inr early ↦
            rw (early, is_out)
              (λ h. ih (record f { out = true; waited = f.waited + 1 }) some_casts within h)
      ]

  -- A line that is out: it waits, or is reeled in.
  out_balances :
      (o : Snapshot F32 F64 Value) (rest : List (Tick F32 F64 Value))
      → IsTwice rest
      → (f : Fish F32 F64 Value) → o.player.known ≡ true
      → o.player.dead ≡ false
      → f.out ≡ true
      → 1 ≤ f.casts
      → f.reeled + 1 ≤ f.casts
      → completed (fish_run F32 F64 Value Claim Err f ((none, o) ∷ rest)) ≡ true
      → uses (fish_run F32 F64 Value Claim Err f ((none, o) ∷ rest)).actions + (2 * f.reeled + 1)
        ≡ 2 * f.casts
  unfolding run fish_tick uses
  out_balances o rest ih f known lives is_out some_casts within =
      let reels = record f { out = false; reeled = f.reeled + 1 } in
      let waits = wait_balances rest ih (record f { out = true }) refl some_casts within in
      elim (Bool-cases (f.bobber == pos 0)) [
        | inl nameless ↦ rw (known, lives, is_out, nameless) waits
        | inr named ↦ elim (Bool-cases (is_some (get o.entities f.bobber))) [
          | inr gone ↦ rw (known, lives, is_out, named, gone) (λ h. ground (arith, h))
          | inl there ↦ elim (Bool-cases (f.detector o f.bobber)) [
            | inl bites ↦
                rw (bites, known, lives, is_out, named, there)
                  (λ h. omega (arith, ih reels some_casts (omega (arith, within)) h))
            | inr calm ↦ rw (calm, known, lives, is_out, named, there) waits
          ]
        ]
      ]

  tick_balances :
      (o : Snapshot F32 F64 Value) (rest : List (Tick F32 F64 Value))
      → IsTwice rest
      → IsTwice ((none, o) ∷ rest)
  unfolding run fish_tick uses
  tick_balances o rest ih f some_casts within =
      let casts = record f { out = true; waited = 0 } in
      elim (Bool-cases o.player.known) [
        | inr unknown ↦ rw unknown (ih f some_casts within)
        | inl known ↦ elim (Bool-cases o.player.dead) [
          | inl died ↦ rw (known, died) (λ h. ground (arith, h))
          | inr lives ↦ elim (Bool-cases f.out) [
            | inl is_out ↦ rw is_out (
                out_balances o rest ih (record f { out = true }) known lives refl some_casts
                  (ground (arith, within, is_out)))
            | inr is_in ↦ elim (Bool-cases (ltb 0 f.casts && leb f.casts f.reeled)) [
              | inl reached ↦
                  rw (known, lives, is_in, reached)
                    (λ h. ground (arith, within, is_in, some_casts, reached))
              | inr more ↦
                  rw (known, lives, is_in, more)
                    (λ h. omega (arith, ih casts some_casts (ground (arith, more, some_casts)) h))
            ]
          ]
        ]
      ]

  balances : (seen : List (Tick F32 F64 Value)) → IsTwice seen
  unfolding run uses set_bobber
  balances [] f some_casts within = λ h. ground (arith, h)
  balances ((none, o) ∷ rest) f some_casts within =
      tick_balances o rest (balances rest) f some_casts within
  balances ((some id, o) ∷ rest) f some_casts within =
      tick_balances o rest (balances rest) (set_bobber f id) some_casts within

  -- Where fishing for a count of casts completes, it has used the rod exactly twice for each: every cast
  -- was reeled in, and no more were made.
  pub uses-fish_run :
      (slot : ℕ) (bit : Bite F32 F64 Value) (casts patience : ℕ) (seen : List (Tick F32 F64 Value))
      → 1 ≤ casts
      → let r = fish_run F32 F64 Value Claim Err (uncast slot bit casts patience) seen in
        completed r ≡ true → uses r.actions ≡ 2 * casts
  uses-fish_run slot bit casts patience seen some_casts done =
      omega (arith, balances seen (uncast slot bit casts patience) some_casts (omega arith) done)
