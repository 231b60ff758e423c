-- ===== src/Version/Batch/Laws.antt =====
-- What version/batch.go promises: nothing is lost, repeated or reordered, a bundle is one batch, and
-- no bundle grows past the limit.
use mathlib.Core.List.{append_assoc, append-nil}
use headless_minecraft.Base.{
  ℕ, ◌≤◌, ◌≡◌, refl, sym, ◌∙◌, ap, String, Bool, true, false, not, ◌&&◌, Option, none, List, [],
  ◌∷◌, ◌++◌, leb, if◌then◌else◌, ◌==◌, string_key, length, length-append, arith, Bool-cases, inl,
  inr, keep,
}
use headless_minecraft.Version.Packet.{Packet}
use headless_minecraft.Version.Batch.{
  Batch, Batcher, Accepted, incomplete, complete, too_large, single, at_delimiter, at_packet,
  accept, after_one, accept_all,
}

module _ {P : Type 0} where
  -- The packets of a run of batches, in order.
  unfoldable pub packets_of : List (Batch P) → List P
  packets_of [] = []
  packets_of (b ∷ bs) = b.packets ++ packets_of bs

  pub record IsWellFormed (b : Batcher P) : Type 0 where
    pub within : length b.pending ≤ b.limit
    pub idle : b.is_open ≡ false → b.pending ≡ []
    pub plain : (b.delimiter == "") ≡ true → b.is_open ≡ false

module _ {P : Type 0} (packet : Packet P) where
  -- Whether a packet opens or closes a bundle.
  abbrev pub is_delimiter : String → P → Bool
  is_delimiter delimiter p = not (delimiter == "") && packet.name p == delimiter

  -- The three ways in which a packet is taken.
  accept_plain :
      (b : Batcher P) (p : P)
      → (b.delimiter == "") ≡ true
      → accept packet b p ≡ (b, complete (single packet p))
  unfolding accept
  accept_plain b p e = rw e

  pub accept_delimiter :
      (b : Batcher P) (p : P)
      → (b.delimiter == "") ≡ false
      → (packet.name p == b.delimiter) ≡ true
      → accept packet b p ≡ at_delimiter packet b p
  unfolding accept
  accept_delimiter b p e d = rw (e, d)

  pub accept_packet :
      (b : Batcher P) (p : P)
      → (b.delimiter == "") ≡ false
      → (packet.name p == b.delimiter) ≡ false
      → accept packet b p ≡ at_packet packet b p
  unfolding accept
  accept_packet b p e d = rw (e, d)

  accept_cases {ℓ} :
      (Q : Batcher P × Accepted P → Type ℓ) (b : Batcher P) (p : P)
      → ((b.delimiter == "") ≡ true → Q (b, complete (single packet p)))
      → ((b.delimiter == "") ≡ false
          → (packet.name p == b.delimiter) ≡ true
          → Q (at_delimiter packet b p))
      → ((b.delimiter == "") ≡ false
          → (packet.name p == b.delimiter) ≡ false
          → Q (at_packet packet b p))
      → Q (accept packet b p)
  accept_cases Q b p plain delimited other = elim (Bool-cases (b.delimiter == "")) [
    | inl e ↦ rw (accept_plain b p e) (plain e)
    | inr e ↦ elim (Bool-cases (packet.name p == b.delimiter)) [
      | inl d ↦ rw (accept_delimiter b p e d) (delimited e d)
      | inr d ↦ rw (accept_packet b p e d) (other e d)
    ]
  ]

  accept-IsWellFormed :
      (b : Batcher P) (p : P) → IsWellFormed b → IsWellFormed (accept packet b p).0
  unfolding at_delimiter at_packet
  accept-IsWellFormed b p v =
      accept_cases (λ r. IsWellFormed r.0) b p (λ e. v)
        (λ e d. elim (Bool-cases b.is_open) [
          | inl o ↦ rw o (record { within = omega arith; idle = λ h. refl; plain = λ h. refl })
          | inr o ↦ rw o (record { within = v.within; idle = λ h. cc; plain = λ h. cc })
        ])
        (λ e d. elim (Bool-cases b.is_open) [
          | inr o ↦ rw o (record { within = v.within; idle = λ h. v.idle o; plain = λ h. refl })
          | inl o ↦ rw o (elim (Bool-cases (leb b.limit (length b.pending))) [
            | inl full ↦ rw full (record { within = v.within; idle = λ h. cc; plain = λ h. cc })
            | inr room ↦ rw room (record {
              within = ground (arith, length-append b.pending (p ∷ []));
              idle = λ h. cc;
              plain = λ h. cc;
            })
          ])
        ])

  delimiter-accept : (b : Batcher P) (p : P) → (accept packet b p).0.delimiter ≡ b.delimiter
  unfolding at_delimiter at_packet
  delimiter-accept b p =
      accept_cases (λ r. r.0.delimiter ≡ b.delimiter) b p (λ e. refl) (λ e d. ground arith)
        (λ e d. ground arith)

  abbrev delivered : Accepted P → List P
  delivered incomplete = []
  delivered (complete b) = b.packets
  delivered (too_large n) = []

  abbrev carried : String → P → List P
  carried delimiter p = if is_delimiter delimiter p then [] else p ∷ []

  abbrev IsAccepted : Accepted P → Type 0
  IsAccepted (too_large n) = ⊥
  IsAccepted r = Unit

  accept_conserves :
      (b : Batcher P) (p : P)
      → IsWellFormed b
      → IsAccepted (accept packet b p).1
      → b.pending ++ carried b.delimiter p
        ≡ delivered (accept packet b p).1 ++ (accept packet b p).0.pending
  unfolding at_delimiter at_packet single
  accept_conserves b p v =
      accept_cases
        (λ r. IsAccepted r.1 → b.pending ++ carried b.delimiter p ≡ delivered r.1 ++ r.0.pending) b
        p (λ e h. rw (e, v.idle (v.plain e)))
        (λ e d h. rw (e, d) (ground (arith, v.idle, append-nil b.pending)))
        (λ e d h. rw (e, d) (ground (arith, v.idle, append-nil b.pending)))

  keep-carried :
      (delimiter : String) (p : P) (ps : List P)
      → keep (λ x. not (is_delimiter delimiter x)) (p ∷ ps)
        ≡ carried delimiter p ++ keep (λ x. not (is_delimiter delimiter x)) ps
  unfolding keep
  keep-carried delimiter p ps = elim (Bool-cases (is_delimiter delimiter p)) [
    | inl e ↦ rw e
    | inr e ↦ rw e
  ]

  after_one_conserves :
      (b : Batcher P) (taken : List P) (ps : List P) (r : Batcher P × Accepted P)
      (rest : Batcher P × List (Batch P) × Option ℕ)
      → (IsAccepted r.1 → b.pending ++ taken ≡ delivered r.1 ++ r.0.pending)
      → (rest.2 ≡ none → r.0.pending ++ ps ≡ packets_of rest.1 ++ rest.0.pending)
      → (after_one packet r rest).2 ≡ none
      → b.pending ++ (taken ++ ps)
        ≡ packets_of (after_one packet r rest).1 ++ (after_one packet r rest).0.pending
  unfolding after_one packets_of
  after_one_conserves b taken ps (b', incomplete) rest one more h =
      sym (append_assoc b.pending taken ps) ∙ ap (λ xs. xs ++ ps) (one tt) ∙ more h
  after_one_conserves b taken ps (b', complete x) (s, bs, e) one more h =
      sym (append_assoc b.pending taken ps)
      ∙ ap (λ xs. xs ++ ps) (one tt)
      ∙ append_assoc x.packets b'.pending ps
      ∙ ap (λ xs. x.packets ++ xs) (more h)
      ∙ sym (append_assoc x.packets (packets_of bs) s.pending)
  after_one_conserves b taken ps (b', too_large n) rest one more h = cc

  -- Without an error, the packets of the batches, in order, then those still pending, are the packets
  -- that were pending, then those of the stream but for the delimiters: none lost, repeated or moved.
  pub accept_all_conserves :
      (b : Batcher P) (ps : List P)
      → IsWellFormed b
      → (accept_all packet b ps).2 ≡ none
      → b.pending ++ keep (λ x. not (is_delimiter b.delimiter x)) ps
        ≡ packets_of (accept_all packet b ps).1 ++ (accept_all packet b ps).0.pending
  unfolding accept_all packets_of
  accept_all_conserves b [] v h = unfold keep in append-nil b.pending
  accept_all_conserves b (p ∷ ps) v h = rw (keep-carried b.delimiter p ps) (
      after_one_conserves b (carried b.delimiter p) _ (accept packet b p)
        (accept_all packet (accept packet b p).0 ps) (accept_conserves b p v)
        (rw (delimiter-accept b p) at
          (accept_all_conserves (accept packet b p).0 ps (accept-IsWellFormed b p v)))
        h)

  -- The batcher stays well formed, whatever the stream and also at an error.
  pub accept_all-IsWellFormed :
      (b : Batcher P) (ps : List P) → IsWellFormed b → IsWellFormed (accept_all packet b ps).0
  unfolding accept_all after_one
  accept_all-IsWellFormed b [] v = v
  accept_all-IsWellFormed b (p ∷ ps) v =
      next (accept packet b p) (accept_all packet (accept packet b p).0 ps)
        (accept-IsWellFormed b p v)
        (accept_all-IsWellFormed (accept packet b p).0 ps (accept-IsWellFormed b p v))
    where
      next :
          (r : Batcher P × Accepted P) (rest : Batcher P × List (Batch P) × Option ℕ)
          → IsWellFormed r.0
          → IsWellFormed rest.0
          → IsWellFormed (after_one packet r rest).0
      next (b', incomplete) rest w h = h
      next (b', complete x) (s, bs, e) w h = h
      next (b', too_large n) rest w h = w
