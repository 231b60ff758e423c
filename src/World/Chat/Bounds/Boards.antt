-- ===== src/World/Chat/Bounds/Boards.antt =====
-- The bounds of boss bars, scoreboards and teams are kept.
use headless_minecraft.Base.{
  ◌+◌, ◌≡◌, refl, String, Bool, true, false, not, ◌&&◌, [], ℤ, leb, string_key, arith, Option-cases,
  Bool-cases, inl, inr,
}
use headless_minecraft.Base.Map
use headless_minecraft.Base.Map.{
  Map, AllValues, AllValues-insert, AllValues-delete, AllValues-lookup, size-insert, size-delete-le,
  lookup-insert_self,
}
use headless_minecraft.Event.Chat.{ChatBossBarChanged, ChatTeamsChanged}
use headless_minecraft.World.Chat.{
  Chat, Events, BossBar, Objective, Team, new_objective, max_objectives, max_scores,
}
use headless_minecraft.World.Chat.Boards.{
  with_health, put_objective, boss_bar_changed, objective_changed, score_target, score_changed,
  undisplay_all, objective_displayed, with_players, team_changed,
}
use headless_minecraft.World.Chat.Bounds.{
  dropped-IsBounded, put_objective-IsBounded, size-undisplay_all, undisplay_all-AllValues,
  ObjectiveIsBounded, IsBounded,
}

module _ {F32 F64 : Type 0} where
  pub boss_bar_changed-IsBounded :
      (zero : F32) (s : Chat F32) (c : Events F32 F64) (bar : ChatBossBarChanged F32)
      → IsBounded s
      → IsBounded (boss_bar_changed zero s c bar).0
  unfolding boss_bar_changed
  boss_bar_changed-IsBounded zero s c bar v =
      let empty : BossBar F32 = record { uuid = bar.uuid; health = zero; health_known = false } in
      elim (Option-cases (Map.lookup bar.uuid s.boss_bars)) [
        | inl e ↦
            rw (e, boss_bar_changed)
              (ground (
                arith,
                e,
                v.log,
                v.boss_bars,
                v.objectives,
                v.each,
                v.teams,
                size-delete-le bar.uuid s.boss_bars,
                size-insert bar.uuid (with_health empty bar) s.boss_bars,
              ))
        | inr (existing, e) ↦
            rw (e, boss_bar_changed)
              (ground (
                arith,
                e,
                v.log,
                v.boss_bars,
                v.objectives,
                v.each,
                v.teams,
                size-delete-le bar.uuid s.boss_bars,
                size-insert bar.uuid (with_health existing bar) s.boss_bars,
              ))
      ]

  pub objective_changed-IsBounded :
      (s : Chat F32) (c : Events F32 F64) (name : String) (gone : Bool)
      → IsBounded s
      → IsBounded (objective_changed s c name gone).0
  unfolding objective_changed
  objective_changed-IsBounded s c name true v = record {
    log = v.log;
    boss_bars = v.boss_bars;
    objectives = omega (arith, v.objectives, size-delete-le name s.objectives);
    each = AllValues-delete ObjectiveIsBounded name s.objectives v.each;
    teams = v.teams;
  }
  objective_changed-IsBounded s c name false v =
      elim (Bool-cases (Map.contains name s.objectives)) [
        | inl e ↦ rw e v
        | inr e ↦ elim (Bool-cases (leb max_objectives (Map.size s.objectives))) [
          | inl full ↦ rw (e, full) (dropped-IsBounded s (s.dropped + 1) v)
          | inr room ↦
              rw (e, room)
                (put_objective-IsBounded s name (new_objective name) v
                  (record { scores = omega arith }) (inr (ground arith)))
        ]
      ]

  score_target-IsBounded :
      (s : Chat F32) (c : Events F32 F64) (target : Objective) (objective entry : String)
      (value : ℤ) (gone : Bool)
      → IsBounded s
      → ObjectiveIsBounded target
      → Map.contains objective s.objectives ≡ true
      → IsBounded (score_target s c target objective entry value gone).0
  unfolding score_target
  score_target-IsBounded s c target objective entry value true v w there =
      put_objective-IsBounded s objective
        (record target { scores = Map.delete entry target.scores }) v
        (record { scores = omega (arith, w.scores, size-delete-le entry target.scores) })
        (inl there)
  score_target-IsBounded s c target objective entry value false v w there =
      elim (Bool-cases
        (leb max_scores (Map.size target.scores) && not (Map.contains entry target.scores))) [
          | inl full ↦ rw full (dropped-IsBounded s (s.dropped + 1) v)
          | inr room ↦ rw room (
              put_objective-IsBounded s objective
                (record target { scores = Map.insert entry value target.scores }) v
                (record {
                  scores = ground (arith, w.scores, size-insert entry value target.scores);
                })
                (inl there))
        ]

  pub score_changed-IsBounded :
      (s : Chat F32) (c : Events F32 F64) (objective entry : String) (value : ℤ) (gone : Bool)
      → IsBounded s
      → IsBounded (score_changed s c objective entry value gone).0
  unfolding score_changed
  score_changed-IsBounded s c objective entry value gone v =
      elim (Option-cases (Map.lookup objective s.objectives)) [
        | inr (target, e) ↦
            rw (e, score_changed)
              (score_target-IsBounded s c target objective entry value gone v
                (AllValues-lookup ObjectiveIsBounded objective target s.objectives v.each e)
                (rw e refl))
        | inl e ↦ elim (Bool-cases (leb max_objectives (Map.size s.objectives))) [
          | inl full ↦ rw (e, score_changed, full) (dropped-IsBounded s (s.dropped + 1) v)
          | inr room ↦
              let fresh = new_objective objective in
              rw (e, score_changed, room)
                (score_target-IsBounded (put_objective s objective fresh) c fresh objective entry
                  value gone
                  (put_objective-IsBounded s objective fresh v (record { scores = omega arith })
                    (inr (ground arith)))
                  (record { scores = omega arith })
                  (rw (lookup-insert_self objective fresh s.objectives) refl))
        ]
      ]

  pub objective_displayed-IsBounded :
      (s : Chat F32) (c : Events F32 F64) (name : String) (position : ℤ)
      → IsBounded s
      → IsBounded (objective_displayed s c name position).0
  unfolding objective_displayed
  objective_displayed-IsBounded s c name position v =
      let t = record s { objectives = undisplay_all position s.objectives } in
      let cleared : IsBounded t = record {
        log = v.log;
        boss_bars = v.boss_bars;
        objectives = omega (arith, v.objectives, size-undisplay_all position s.objectives);
        each = undisplay_all-AllValues position s.objectives v.each;
        teams = v.teams;
      } in
      elim (Option-cases (Map.lookup name (undisplay_all position s.objectives))) [
        | inl e ↦ rw (e, objective_displayed) cleared
        | inr (o, e) ↦
            rw (e, objective_displayed)
              (put_objective-IsBounded t name (record o { displayed = true; position = position })
                cleared
                (record {
                  scores =
                      (AllValues-lookup ObjectiveIsBounded name o t.objectives cleared.each
                        e).scores;
                })
                (inl (rw e refl)))
      ]

  pub team_changed-IsBounded :
      (s : Chat F32) (c : Events F32 F64) (changed : ChatTeamsChanged)
      → IsBounded s
      → IsBounded (team_changed s c changed).0
  unfolding team_changed
  team_changed-IsBounded s c changed v =
      let empty : Team = record { name = changed.team; players = [] } in
      elim (Option-cases (Map.lookup changed.team s.teams)) [
        | inl e ↦
            rw (e, team_changed)
              (ground (
                arith,
                e,
                v.log,
                v.boss_bars,
                v.objectives,
                v.each,
                v.teams,
                size-delete-le changed.team s.teams,
                size-insert changed.team (with_players empty changed.players) s.teams,
              ))
        | inr (team, e) ↦
            rw (e, team_changed)
              (ground (
                arith,
                e,
                v.log,
                v.boss_bars,
                v.objectives,
                v.each,
                v.teams,
                size-delete-le changed.team s.teams,
                size-insert changed.team (with_players team changed.players) s.teams,
              ))
      ]
