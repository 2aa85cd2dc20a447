-- ===== src/Text/PlainLaws.antt =====
-- backend/internal/feed/normalize/normalize.go: the lengths and the dates that come out.
use Prim.Native.Char.{Char, code}
use Prim.Native.String.{String, ◌++◌ as ◌+++◌, count}
use text.Mathlib.TextLemmas
use afghanistan_news.Base.{
  ℕ, zero, suc, ◌+◌, ◌*◌, ◌/◌, ◌%◌, ◌^◌, ◌≤◌, ◌<◌, Option, none, some, ◌≡◌, refl, sym, ap, ◌∙◌, ◌⊎◌,
  inl, inr, true, ltb, leb, Bool-cases, arith, if◌then◌else◌, [], ◌∷◌,
}
use afghanistan_news.Model.{hour}
use afghanistan_news.Text.Plain.{
  PlainLib, is_blank, utf8_length, take_chars, is_break, before_break, kept_part, truncate,
  year_1995, clamp_future, is_all_digits, epoch_date, dated, parse_date, replace_pairs,
}

none_no : {d : ℕ} → none ≡ some d → ⊥
none_no e = cc

count-take_chars : (n : ℕ) (s : String) → count (take_chars n s) ≤ n
count-take_chars zero s = omega (arith, TextLemmas.length-nil)
count-take_chars (suc n) String.[] = omega (arith, TextLemmas.length-nil)
count-take_chars (suc n) (String.◌∷◌ c s) =
    omega (arith, TextLemmas.length-cons c (take_chars n s), count-take_chars n s)

abbrev BreakFits : ℕ → Option (String × ℕ) → Type 0
BreakFits n none = Unit {0}
BreakFits n (some (t, i)) = count t ≤ n

after_head :
    (c : Char) (s : String) (o : Option (String × ℕ))
    → BreakFits (count s) o
    → BreakFits (count (String.◌∷◌ c s)) (elim o [
      | some (t, n) ↦ some (String.◌∷◌ c t, utf8_length (code c) + n)
      | none ↦ if is_break (code c) then some (String.[], 0) else none
    ])
after_head c s (some (t, n)) h =
    omega (arith, TextLemmas.length-cons c t, TextLemmas.length-cons c s, h)
after_head c s none h = elim (Bool-cases (is_break (code c))) [
  | inl e ↦ rw e (omega (arith, TextLemmas.length-nil))
  | inr e ↦ rw e tt
]

before_break-BreakFits : (s : String) → BreakFits (count s) (before_break s)
unfolding before_break
before_break-BreakFits String.[] = tt
before_break-BreakFits (String.◌∷◌ c s) = after_head c s (before_break s) (before_break-BreakFits s)

-- strings.TrimSpace makes no text longer.
pub record Trims (l : PlainLib) : Type 0 where
  pub no_longer : (s : String) → count (l.trim_space s) ≤ count s

count-append : (s t : String) → count (s +++ t) ≡ count s + count t
count-append String.[] t = ap count (TextLemmas.nil-append t) ∙ omega (arith, TextLemmas.length-nil)
count-append (String.◌∷◌ c s) t =
    ap count (TextLemmas.cons-append c s t)
    ∙ omega
        (arith, TextLemmas.length-cons c s, TextLemmas.length-cons c (s +++ t), count-append s t)

count-cut :
    (n k : ℕ) (cut : String) (o : Option (String × ℕ))
    → count cut ≤ n
    → BreakFits (count cut) o
    → let kept : String = elim o [ none ↦ cut | some (t, i) ↦ if ltb k i then t else cut ] in
      count kept ≤ n
count-cut n k cut none h b = h
count-cut n k cut (some (t, i)) h b = elim (Bool-cases (ltb k i)) [
  | inl e ↦ rw e (omega (arith, h, b))
  | inr e ↦ rw e h
]

-- The first character is one of those that Truncate cuts at.
abbrev pub StartsWithBreak : String → Type 0
StartsWithBreak String.[] = ⊥
StartsWithBreak (String.◌∷◌ c s) = is_break (code c) ≡ true

-- A text and a part of it that ends at a break.
pub record EndsAtBreak (s p : String) : Type 0 where
  pub rest : String
  pub parts : s ≡ p +++ rest
  pub at_break : StartsWithBreak rest

abbrev FoundBreak : String → Option (String × ℕ) → Type 0
FoundBreak s none = Unit {0}
FoundBreak s (some (t, i)) = EndsAtBreak s t

break_after :
    (c : Char) (s : String) (o : Option (String × ℕ))
    → FoundBreak s o
    → FoundBreak (String.◌∷◌ c s) (elim o [
      | some (t, n) ↦ some (String.◌∷◌ c t, utf8_length (code c) + n)
      | none ↦ if is_break (code c) then some (String.[], 0) else none
    ])
break_after c s (some (t, n)) h = record {
  rest = h.rest;
  parts = ap (λ (u : String). String.◌∷◌ c u) h.parts ∙ sym (TextLemmas.cons-append c t h.rest);
  at_break = h.at_break;
}
break_after c s none h = elim (Bool-cases (is_break (code c))) [
  | inl e ↦ rw e (record {
    rest = String.◌∷◌ c s;
    parts = sym (TextLemmas.nil-append (String.◌∷◌ c s));
    at_break = e;
  })
  | inr e ↦ rw e tt
]

before_break-FoundBreak : (s : String) → FoundBreak s (before_break s)
unfolding before_break
before_break-FoundBreak String.[] = tt
before_break-FoundBreak (String.◌∷◌ c s) =
    break_after c s (before_break s) (before_break-FoundBreak s)

-- What Truncate keeps of the first n characters: all of them, or a part that ends at a break.
abbrev pub WholeOrAtBreak : ℕ → String → String → Type 0
WholeOrAtBreak n s p = (p ≡ take_chars n s) ⊎ EndsAtBreak (take_chars n s) p

kept_whole_or_cut :
    (k : ℕ) (cut : String) (o : Option (String × ℕ))
    → FoundBreak cut o
    → let kept : String = elim o [ none ↦ cut | some (t, i) ↦ if ltb k i then t else cut ] in
      (kept ≡ cut) ⊎ EndsAtBreak cut kept
kept_whole_or_cut k cut none h = inl refl
kept_whole_or_cut k cut (some (t, i)) h = elim (Bool-cases (ltb k i)) [
  | inl e ↦ rw e (inr h)
  | inr e ↦ rw e (inl refl)
]

-- A text of at most n characters is left as it is. A longer one becomes the trimmed form of its first n
-- characters, or of a part of these that ends at a break, and the ellipsis; that is n + 1 characters at
-- most.
pub truncate_cuts :
    (l : PlainLib) (s : String) (n : ℕ)
    → Trims l
    → (count s ≤ n → truncate l s n ≡ s)
      × (n < count s
          → (p : String) × (truncate l s n ≡ l.trim_space p +++ "…")
            × WholeOrAtBreak n s p
            × (count (l.trim_space p) ≤ n))
      × (count (truncate l s n) ≤ suc n)
unfolding truncate
truncate_cuts l s n trims =
    let p = kept_part n (take_chars n s) in
    let fits : count (l.trim_space p) ≤ n = omega (
      arith,
      trims.no_longer p,
      count-cut n (n * 6 / 10) (take_chars n s) (before_break (take_chars n s))
          (count-take_chars n s) (before_break-BreakFits (take_chars n s)),
    ) in
    elim (Bool-cases (leb (count s) n)) [
      | inl short ↦ (λ h. rw short refl, λ h. absurd (ground arith), rw short (ground arith))
      | inr long ↦ (
        λ h. absurd (ground arith),
        λ h. (
          p,
          rw long refl,
          kept_whole_or_cut (n * 6 / 10) (take_chars n s) _
              (before_break-FoundBreak (take_chars n s)),
          fits,
        ),
        rw long (rw (count-append (l.trim_space p) "…") (omega (arith, fits))),
      )
    ]

clamp_future_bounds :
    (now t d : ℕ) → clamp_future now t ≡ some d → (year_1995 ≤ d) × (d ≤ now + 48 * hour)
unfolding clamp_future
clamp_future_bounds now t d h = ground arith

epoch_date_bounds :
    (now n d : ℕ) → epoch_date now n ≡ some d → (year_1995 ≤ d) × (d ≤ now + 48 * hour)
unfolding epoch_date
epoch_date_bounds now n d h = elim (Bool-cases (ltb 1000000000000 n)) [
  | inl many ↦ elim (Bool-cases (ltb (n * 1000000 % 2 ^ 64) (2 ^ 63))) [
    | inl e ↦ clamp_future_bounds now (n * 1000000 % 2 ^ 64) d (rw (many, e) at h)
    | inr e ↦ absurd (none_no (rw (many, e) at h))
  ]
  | inr few ↦ elim (Bool-cases (ltb 1000000000 n)) [
    | inl e ↦ clamp_future_bounds now (n * 1000000000) d (rw (few, e) at h)
    | inr e ↦ absurd (none_no (rw (few, e) at h))
  ]
]

found_time_bounds :
    (l : PlainLib) (now : ℕ) (raw : String) (o : Option ℕ) (d : ℕ)
    → (let answer : Option ℕ = elim o [
      | some t ↦ clamp_future now t
      | none ↦ if is_all_digits l raw then epoch_date now (l.scan_number raw) else none
    ] in
        answer ≡ some d)
    → (year_1995 ≤ d) × (d ≤ now + 48 * hour)
found_time_bounds l now raw (some t) d h = clamp_future_bounds now t d h
found_time_bounds l now raw none d h = elim (Bool-cases (is_all_digits l raw)) [
  | inl e ↦ epoch_date_bounds now (l.scan_number raw) d (rw e at h)
  | inr e ↦ absurd (none_no (rw e at h))
]

-- Whatever a publisher writes, a date that is accepted lies between 1995 and two days from now, also
-- where a number of milliseconds overflows.
pub parse_date_bounds :
    (l : PlainLib) (now : ℕ) (raw : String) (d : ℕ)
    → parse_date l now raw ≡ some d
    → (year_1995 ≤ d) × (d ≤ now + 48 * hour)
unfolding parse_date dated
parse_date_bounds l now raw d h = elim (Bool-cases (is_blank (l.trim_space raw))) [
  | inl e ↦ absurd (none_no (rw e at h))
  | inr e ↦
      found_time_bounds l now (replace_pairs (("  ", " ") ∷ []) 0 (l.trim_space raw)) _ d
        (rw e at h)
]
