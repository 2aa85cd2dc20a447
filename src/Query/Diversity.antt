-- ===== src/Query/Diversity.antt =====
-- backend/internal/store/articles_query.go: ApplySourceDiversity. A card is known by its source here.
use afghanistan_news.Base.{
  ℕ, zero, suc, String, Bool, not, ◌&&◌, ◌||◌, Option, none, some, List, [], ◌∷◌, str_eq, leb, ltb,
  ◌==◌, length, if◌then◌else◌,
}

-- The first card that passes, and the others in their order.
unfoldable pub pull {ℓ} : {A : Type ℓ} → (A → Bool) → List A → Option (A × List A)
pull p [] = none
pull p (c ∷ cs) =
    let rest = pull p cs in
    if p c
    then some (c, cs)
    else elim rest [ none ↦ none | some (found, others) ↦ some (found, c ∷ others) ]

module _ {ℓ} {A : Type ℓ} (source : A → String) where
  -- The card that the inner loop picks: the first whose source has not had its run, or else the first.
  unfoldable pub pick : ℕ → String → ℕ → A → List A → A × List A
  unfolding pull
  pick most last run c cs =
      elim (pull (λ x. not (str_eq (source x) last && leb most run)) (c ∷ cs)) [
        | none ↦ (c, cs)
        | some (found, others) ↦ (found, others)
      ]

  unfoldable pub next_run : String → ℕ → A → ℕ
  next_run last run c = if str_eq (source c) last then suc run else 1

  -- The outer loop, which takes a card out of `pending` in each round; `none` if the rounds run out.
  unfoldable pub spread : ℕ → ℕ → String → ℕ → List A → Option (List A)
  spread most rounds last run [] = some []
  spread most zero last run (c ∷ cs) = none
  spread most (suc rounds) last run (c ∷ cs) =
      let picked = pick most last run c cs in
      elim (spread most rounds (source picked.0) (next_run last run picked.0) picked.1) [
        | none ↦ none
        | some out ↦ some (picked.0 ∷ out)
      ]

  unfoldable pub apply_source_diversity : ℕ → List A → Option (List A)
  apply_source_diversity most cards =
      if most == 0 || ltb (length cards) 3
      then some cards
      else spread most (length cards) "" 0 cards
