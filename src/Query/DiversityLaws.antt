-- ===== src/Query/DiversityLaws.antt =====
-- backend/internal/store/articles_query.go: ApplySourceDiversity loses no card, and lets a source go on
-- after its run only where no other source is left.
use afghanistan_news.Base.{
  ℕ, zero, suc, ◌≤◌, String, Bool, true, false, not, ◌&&◌, ◌||◌, Option, none, some, List, [], ◌∷◌,
  ◌≡◌, refl, inl, inr, str_eq, leb, ltb, ◌==◌, length, All, Bool-cases, Option-cases, arith,
}
use mathlib.Core.List.{Perm}
use mathlib.Core.List.Perm
use afghanistan_news.Base.Keyset.{All-imp}
use afghanistan_news.Query.Diversity.{pull, pick, next_run, spread, apply_source_diversity}

pull_found :
    {A : Type 0} (p : A → Bool) (cs : List A) (found : A) (others : List A)
    → pull p cs ≡ some (found, others)
    → Perm cs (found ∷ others) × (p found ≡ true) × (length cs ≡ suc (length others))
unfolding pull
pull_found p [] found others h = cc
pull_found p (c ∷ cs) found others h = elim (Bool-cases (p c)) [
  | inl e ↦
      let head : c ≡ found = ground arith in
      let tail : cs ≡ others = ground arith in
      (rw (head, tail) (Perm.refl _), ground arith, ground arith)
  | inr e ↦ elim (Option-cases (pull p cs)) [
    | inl n ↦ ground arith
    | inr (r, q) ↦
        let ih = pull_found p cs r.0 r.1 q in
        let head : r.0 ≡ found = ground arith in
        let tail : c ∷ r.1 ≡ others = ground arith in
        (
          rw (← head, ← tail) (Perm.trans (Perm.cons c ih.0) (Perm.swap r.0 c r.1)),
          rw (← head) ih.1,
          rw (← tail) (omega (arith, ih.2)),
        )
  ]
]

pull-none : {A : Type 0} (p : A → Bool) (cs : List A) → pull p cs ≡ none → All (λ c. p c ≡ false) cs
unfolding pull
pull-none p [] h = tt
pull-none p (c ∷ cs) h = elim (Option-cases (pull p cs)) [
  | inl n ↦ (ground arith, pull-none p cs n)
  | inr (r, q) ↦ ground arith
]

All_pull :
    {A : Type 0} (P : A → Type 0) (p : A → Bool) (cs : List A) (found : A) (others : List A)
    → pull p cs ≡ some (found, others)
    → All P cs
    → P found × All P others
unfolding pull
All_pull P p [] found others h all = cc
All_pull P p (c ∷ cs) found others h all = elim (Bool-cases (p c)) [
  | inl e ↦
      let head : c ≡ found = ground arith in
      let tail : cs ≡ others = ground arith in rw (← head, ← tail) all
  | inr e ↦ elim (Option-cases (pull p cs)) [
    | inl n ↦ ground arith
    | inr (r, q) ↦
        let ih = All_pull P p cs r.0 r.1 q all.1 in
        let head : r.0 ≡ found = ground arith in
        let tail : c ∷ r.1 ≡ others = ground arith in rw (← head, ← tail) (ih.0, (all.0, ih.1))
  ]
]

module _ {A : Type 0} (source : A → String) where
  -- A card whose source has had its run is followed by cards of this source only.
  abbrev pub WellSpread : ℕ → String → ℕ → List A → Type 0
  WellSpread most last run [] = Unit
  WellSpread most last run (c ∷ out) =
      (str_eq (source c) last ≡ true → most ≤ run → All (λ x. str_eq (source x) last ≡ true) out)
      × WellSpread most (source c) (next_run source last run c) out

  may_pass : ℕ → String → ℕ → A → Bool
  may_pass most last run x = not (str_eq (source x) last && leb most run)

  -- The two ways to pick: a card that may pass, or the first where none may.
  record Picked (most : ℕ) (last : String) (run : ℕ) (c : A) (cs : List A) (r : A × List A)
      : Type 1 where
    perm : Perm (c ∷ cs) (r.0 ∷ r.1)
    fewer : length cs ≡ length r.1
    kept : (P : A → Type 0) → All P (c ∷ cs) → P r.0 × All P r.1
    forced :
        str_eq (source r.0) last ≡ true
        → most ≤ run
        → All (λ x. str_eq (source x) last ≡ true) (c ∷ cs)

  forced_found :
      (most : ℕ) (last : String) (run : ℕ) (x : A)
      → may_pass most last run x ≡ true
      → str_eq (source x) last ≡ true
      → most ≤ run
      → ⊥
  unfolding may_pass
  forced_found most last run x p e le = ground arith

  forced_none :
      (most : ℕ) (last : String) (run : ℕ) (x : A)
      → may_pass most last run x ≡ false
      → str_eq (source x) last ≡ true
  unfolding may_pass
  forced_none most last run x p = ground arith

  pick_lem :
      (most : ℕ) (last : String) (run : ℕ) (c : A) (cs : List A)
      → Picked most last run c cs (pick source most last run c cs)
  unfolding pick may_pass
  pick_lem most last run c cs = elim (Option-cases (pull (may_pass most last run) (c ∷ cs))) [
    | inl n ↦
        let all = pull-none (may_pass most last run) (c ∷ cs) n in
        rw (n, pick)
          (record {
            perm = Perm.refl (c ∷ cs);
            fewer = refl;
            kept = λ P h. h;
            forced = λ e le. All-imp (c ∷ cs) (λ x p. forced_none most last run x p) all;
          })
    | inr (r, q) ↦
        let found = pull_found (may_pass most last run) (c ∷ cs) r.0 r.1 q in
        rw (q, pick)
          (record {
            perm = found.0;
            fewer = omega (arith, found.2);
            kept = λ P h. All_pull P (may_pass most last run) (c ∷ cs) r.0 r.1 q h;
            forced = λ e le. absurd (forced_found most last run r.0 found.1 e le);
          })
  ]

  -- What the outer loop gives back of the cards that are left.
  record Spread (most : ℕ) (last : String) (run : ℕ) (cards : List A) (out : Option (List A))
      : Type 1 where
    cards_out : List A
    returned : out ≡ some cards_out
    perm : Perm cards cards_out
    kept : (P : A → Type 0) → All P cards → All P cards_out
    well : WellSpread most last run cards_out

  spread_lem :
      (most rounds : ℕ) (last : String) (run : ℕ) (cards : List A)
      → length cards ≤ rounds
      → Spread most last run cards (spread source most rounds last run cards)
  unfolding spread
  spread_lem most rounds last run [] h = record {
    cards_out = [];
    returned = refl;
    perm = Perm.refl [];
    kept = λ P all. tt;
    well = tt;
  }
  spread_lem most zero last run (c ∷ cs) h = absurd (omega arith)
  spread_lem most (suc rounds) last run (c ∷ cs) h =
      let r = pick source most last run c cs in
      let picked = pick_lem most last run c cs in
      let ih =
        spread_lem most rounds (source r.0) (next_run source last run r.0) r.1
          (omega (arith, picked.fewer)) in
      record {
        cards_out = r.0 ∷ ih.cards_out;
        returned = rw (ih.returned, spread) refl;
        perm = Perm.trans picked.perm (Perm.cons r.0 ih.perm);
        kept = λ P all. let k = picked.kept P all in (k.0, ih.kept P k.1);
        well = (
          λ e le.
              ih.kept _ (picked.kept (λ x. str_eq (source x) last ≡ true) (picked.forced e le)).1,
          ih.well,
        );
      }

  -- The loop of ApplySourceDiversity ends: as many rounds as there are cards are enough, and the cards
  -- that it gives back are the given ones in some order, whatever bound is asked for.
  pub apply_source_diversity-Perm :
      (most : ℕ) (cards : List A)
      → (out : List A) × (apply_source_diversity source most cards ≡ some out) × Perm cards out
  unfolding apply_source_diversity
  apply_source_diversity-Perm most cards = elim (Bool-cases (most == 0 || ltb (length cards) 3)) [
    | inl e ↦ (cards, rw e refl, Perm.refl cards)
    | inr e ↦
        let s = spread_lem most (length cards) "" 0 cards (omega arith) in
        (s.cards_out, rw e s.returned, s.perm)
  ]
