-- ===== src/Version/Batch/Tests.antt =====
-- Concrete streams through version/batch.go.
use headless_minecraft.Base.{
  ◌≡◌, refl, String, true, false, not, none, some, List, [], ◌∷◌, ◌++◌, pos, string_key, arith,
  keep,
}
use headless_minecraft.Version.Packet.{Packet}
use headless_minecraft.Version.Batch.{Batcher, accept_all}
use headless_minecraft.Version.Batch.Laws.{
  IsWellFormed, is_delimiter, packets_of, accept_all_conserves,
}
use headless_minecraft.Version.Batch.Bundles.{accept_all-bundle, accept_all-too_large}

-- A packet that is its own name.
abbrev named : Packet String
named = record { name = λ p. p; state = λ p. "play"; id = λ p. pos 0 }

abbrev fresh : Batcher String
fresh = record { delimiter = "delimiter"; limit = 2; pending = []; is_open = false; state = "" }

abbrev stream : List String
stream = "a" ∷ "delimiter" ∷ "b" ∷ "c" ∷ "delimiter" ∷ "d" ∷ []

fresh-IsWellFormed : IsWellFormed fresh
fresh-IsWellFormed = record { within = omega arith; idle = λ h. refl; plain = λ h. refl }

stream_has_no_error : (accept_all named fresh stream).2 ≡ none
unfolding accept_all
stream_has_no_error = refl

accept_all_conserves_example :
    keep (λ x. not (is_delimiter named "delimiter" x)) stream
    ≡ packets_of (accept_all named fresh stream).1 ++ (accept_all named fresh stream).0.pending
accept_all_conserves_example =
    accept_all_conserves named fresh stream fresh-IsWellFormed stream_has_no_error

accept_all-bundle_example : accept_all named fresh ("delimiter" ∷ "b" ∷ "c" ∷ "delimiter" ∷ []) ≡ (
  record fresh { pending = []; is_open = false; state = "play" },
  record { packets = "b" ∷ "c" ∷ []; bundled = true; state = "play" } ∷ [],
  none,
)
accept_all-bundle_example =
    accept_all-bundle named fresh refl refl refl "delimiter" "delimiter" ("b" ∷ "c" ∷ []) refl refl
      (refl, (refl, tt)) (omega arith)

accept_all-too_large_example :
    ((accept_all named fresh ("delimiter" ∷ "b" ∷ "c" ∷ "d" ∷ [])).1 ≡ [])
    × ((accept_all named fresh ("delimiter" ∷ "b" ∷ "c" ∷ "d" ∷ [])).2 ≡ some 2)
accept_all-too_large_example =
    accept_all-too_large named fresh refl refl refl "delimiter" "d" ("b" ∷ "c" ∷ []) [] refl
      (refl, (refl, tt)) refl refl
