-- ===== src/World/Chat/Boards.antt =====
-- world/chat.go: boss bars, scoreboards and teams.
use headless_minecraft.Base.{
  ◌+◌, String, Bool, true, false, not, ◌&&◌, none, some, List, [], ◌∷◌, ◌++◌, ℤ, pos, leb, is_empty,
  if◌then◌else◌, ◌==◌, string_key, int_key, str_leb,
}
use headless_minecraft.Base.Map
use headless_minecraft.Base.Map.{Map}
use headless_minecraft.Base.Sort.{sort, compact}
use headless_minecraft.Event.{emit}
use headless_minecraft.Event.Chat.{ChatEvent, ChatBossBarChanged, ChatTeamsChanged}
use headless_minecraft.World.Chat.{
  Chat, Events, BossBar, Objective, Team, new_objective, max_boss_bars, max_objectives, max_scores,
  max_teams,
}

abbrev pub with_players : Team → List String → Team
with_players team players =
    if is_empty players
    then team
    else record team { players = compact (sort str_leb (team.players ++ players)) }

abbrev pub undisplay : ℤ → Objective → Objective
undisplay position objective =
    if objective.position == position && objective.displayed
    then record objective { displayed = false }
    else objective

unfoldable pub undisplay_all : ℤ → Map String Objective → Map String Objective
undisplay_all position [] = []
undisplay_all position ((key, objective) ∷ rest) =
    (key, undisplay position objective) ∷ undisplay_all position rest

module _ {F32 : Type 0} where
  abbrev pub with_health : BossBar F32 → ChatBossBarChanged F32 → BossBar F32
  with_health existing bar =
      if bar.health_known
      then record existing { health = bar.health; health_known = true }
      else existing

  abbrev pub set_bar : Chat F32 → ChatBossBarChanged F32 → BossBar F32 → Chat F32
  set_bar s bar existing = record s {
    boss_bars = Map.insert bar.uuid (with_health existing bar) s.boss_bars;
  }

  abbrev pub put_objective : Chat F32 → String → Objective → Chat F32
  put_objective s name objective = record s { objectives = Map.insert name objective s.objectives }

module _ {F32 F64 : Type 0} where
  -- `zero` is the float's zero value.
  unfoldable pub boss_bar_changed :
      F32 → Chat F32 → Events F32 F64 → ChatBossBarChanged F32 → Chat F32 × Events F32 F64
  unfolding emit
  boss_bar_changed zero s c bar =
      let done = emit c (ChatEvent.boss_bar_changed bar) in
      if bar.removed
      then (record s { boss_bars = Map.delete bar.uuid s.boss_bars }, done)
      else elim (Map.lookup bar.uuid s.boss_bars) [
        | some existing ↦ (set_bar s bar existing, done)
        | none ↦
            if leb max_boss_bars (Map.size s.boss_bars)
            then (record s { dropped = s.dropped + 1 }, c)
            else (
              set_bar s bar (record { uuid = bar.uuid; health = zero; health_known = false }),
              done,
            )
      ]

  unfoldable pub objective_changed :
      Chat F32 → Events F32 F64 → String → Bool → Chat F32 × Events F32 F64
  unfolding emit
  objective_changed s c name gone =
      let done = emit c (
        ChatEvent.scoreboard_changed (record {
          objective = name;
          entry = "";
          value = pos 0;
          removed = gone;
          displayed = false;
          position = pos 0;
        })) in
      if gone
      then (record s { objectives = Map.delete name s.objectives }, done)
      else if Map.contains name s.objectives
      then (s, done)
      else if leb max_objectives (Map.size s.objectives)
      then (record s { dropped = s.dropped + 1 }, c)
      else (put_objective s name (new_objective name), done)

  -- What follows once the objective is there; a write to its scores is a write to the stored map.
  unfoldable pub score_target :
      Chat F32 → Events F32 F64 → Objective → String → String → ℤ → Bool → Chat F32 × Events F32 F64
  unfolding emit
  score_target s c target objective entry value gone =
      let done = emit c (
        ChatEvent.scoreboard_changed (record {
          objective = objective;
          entry = entry;
          value = value;
          removed = gone;
          displayed = false;
          position = pos 0;
        })) in
      if gone
      then (
        put_objective s objective (record target { scores = Map.delete entry target.scores }),
        done,
      )
      else if leb max_scores (Map.size target.scores) && not (Map.contains entry target.scores)
      then (record s { dropped = s.dropped + 1 }, c)
      else (
        put_objective s objective (record target { scores = Map.insert entry value target.scores }),
        done,
      )

  unfoldable pub score_changed :
      Chat F32 → Events F32 F64 → String → String → ℤ → Bool → Chat F32 × Events F32 F64
  unfolding score_target
  score_changed s c objective entry value gone = elim (Map.lookup objective s.objectives) [
    | some target ↦ score_target s c target objective entry value gone
    | none ↦
        if leb max_objectives (Map.size s.objectives)
        then (record s { dropped = s.dropped + 1 }, c)
        else score_target (put_objective s objective (new_objective objective)) c
            (new_objective objective) objective entry value gone
  ]

  unfoldable pub objective_displayed :
      Chat F32 → Events F32 F64 → String → ℤ → Chat F32 × Events F32 F64
  unfolding undisplay_all emit
  objective_displayed s c name position =
      let cleared = undisplay_all position s.objectives in
      (
        record s {
          objectives = elim (Map.lookup name cleared) [
            | none ↦ cleared
            | some objective ↦
                Map.insert name (record objective { displayed = true; position = position }) cleared
          ];
        },
        emit c (
            ChatEvent.scoreboard_changed (record {
              objective = name;
              entry = "";
              value = pos 0;
              removed = false;
              displayed = true;
              position = position;
            })),
      )

  unfoldable pub team_changed :
      Chat F32 → Events F32 F64 → ChatTeamsChanged → Chat F32 × Events F32 F64
  unfolding emit compact sort
  team_changed s c changed =
      let done = emit c (ChatEvent.teams_changed changed) in
      if changed.removed
      then (record s { teams = Map.delete changed.team s.teams }, done)
      else elim (Map.lookup changed.team s.teams) [
        | some team ↦ (
          record s { teams = Map.insert changed.team (with_players team changed.players) s.teams },
          done,
        )
        | none ↦
            if leb max_teams (Map.size s.teams)
            then (record s { dropped = s.dropped + 1 }, c)
            else (
              record s {
                teams =
                    Map.insert changed.team
                      (with_players (record { name = changed.team; players = [] }) changed.players)
                      s.teams;
              },
              done,
            )
      ]
