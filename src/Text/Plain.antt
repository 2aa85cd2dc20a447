-- ===== src/Text/Plain.antt =====
-- backend/internal/feed/normalize/normalize.go: plain texts, dates and addresses. The functions of
-- strings, unicode, regexp, net/url and time that the code calls are the record PlainLib.
use Prim.Native.Char.{code}
use Prim.Native.String.{String, [], ◌∷◌, ◌++◌ as ◌+++◌, count}
use afghanistan_news.Base.{
  ℕ, zero, suc, ◌+◌, ◌-◌, ◌*◌, ◌/◌, ◌%◌, ◌^◌, Bool, true, false, not, ◌&&◌, ◌||◌, Option, none,
  some, List, [], ◌∷◌, ltb, leb, ◌==◌, str_eq, length, if◌then◌else◌,
}
use afghanistan_news.Base.Text.{codes, is_prefix}
use afghanistan_news.Model.{hour}

-- The scheme and the host of a parsed URL, and the text of u.String().
pub record Address : Type 0 where
  pub scheme : String
  pub host : String
  pub written : String

-- A time is in nanoseconds from 1970; time.Parse gives 0 for one before, which ParseDate refuses.
pub record PlainLib : Type 0 where
  pub trim_space : String → String
  pub lower : String → String
  pub equal_fold : String → String → Bool
  pub is_digit : ℕ → Bool
  -- ReplaceAllString for htmlTagRe and wsRe, with a space
  pub drop_tags : String → String
  pub join_spaces : String → String
  -- the group of the expression for the source of an image
  pub first_source : String → Option String
  pub parse_url : String → Option Address
  pub parse_time : String → String → Option ℕ
  -- fmt.Sscanf with %d, 0 where it fails
  pub scan_number : String → ℕ

abbrev pub is_blank : String → Bool
is_blank s = str_eq s ""

-- The first pair whose old text begins here.
abbrev pub first_prefix : List (String × String) → List ℕ → Option (String × String)
first_prefix [] here = none
first_prefix ((old, new) ∷ pairs) here =
    if is_prefix (codes old) here then some (old, new) else first_prefix pairs here

-- strings.NewReplacer(pairs).Replace(s), without empty old texts; `skip` characters belong to the last
-- text that was replaced.
unfoldable pub replace_pairs : List (String × String) → ℕ → String → String
replace_pairs pairs skip String.[] = String.[]
replace_pairs pairs (suc skip) (String.◌∷◌ c s) = replace_pairs pairs skip s
replace_pairs pairs zero (String.◌∷◌ c s) = elim (first_prefix pairs (codes (String.◌∷◌ c s))) [
  | none ↦ String.◌∷◌ c (replace_pairs pairs zero s)
  | some (old, new) ↦ new +++ replace_pairs pairs (length (codes old) - 1) s
]

unfoldable pub entities : List (String × String)
entities =
    ("&nbsp;", " ")
    ∷ ("&amp;", "&")
    ∷ ("&lt;", "<")
    ∷ ("&gt;", ">")
    ∷ ("&quot;", "\"")
    ∷ ("&#39;", "'")
    ∷ ("&apos;", "'")
    ∷ ("&hellip;", "…")
    ∷ ("&mdash;", "—")
    ∷ ("&ndash;", "–")
    ∷ ("&#8217;", "'")
    ∷ ("&#8220;", "\"")
    ∷ ("&#8221;", "\"")
    ∷ []

unfoldable pub strip_html : PlainLib → String → String
unfolding replace_pairs entities
strip_html l s =
    if is_blank s
    then ""
    else l.trim_space (l.join_spaces (replace_pairs entities 0 (l.drop_tags s)))

abbrev pub is_web_address : Option Address → Bool
is_web_address none = false
is_web_address (some u) =
    (str_eq u.scheme "http" || str_eq u.scheme "https") && not (is_blank u.host)

unfoldable pub is_safe_external_url : PlainLib → String → Bool
is_safe_external_url l raw = is_web_address (l.parse_url (l.trim_space raw))

unfoldable pub sanitize_image_url : PlainLib → String → String
sanitize_image_url l raw =
    if is_blank (l.trim_space raw) then "" else elim (l.parse_url (l.trim_space raw)) [
      | none ↦ ""
      | some u ↦
          if str_eq (l.lower u.scheme) "http" || str_eq (l.lower u.scheme) "https"
          then u.written
          else ""
    ]

unfoldable pub extract_first_image : PlainLib → String → String
unfolding sanitize_image_url
extract_first_image l html =
    if is_blank html
    then ""
    else elim (l.first_source html) [ none ↦ "" | some raw ↦ sanitize_image_url l raw ]

-- The bytes of one character in UTF-8.
abbrev pub utf8_length : ℕ → ℕ
utf8_length c = if ltb c 128 then 1 else if ltb c 2048 then 2 else if ltb c 65536 then 3 else 4

-- The first characters of a text.
abbrev pub take_chars : ℕ → String → String
take_chars zero s = String.[]
take_chars (suc n) String.[] = String.[]
take_chars (suc n) (String.◌∷◌ c s) = String.◌∷◌ c (take_chars n s)

-- The characters of " \n\t،,.".
unfoldable pub is_break : ℕ → Bool
is_break c = c == 32 || c == 10 || c == 9 || c == 1548 || c == 44 || c == 46

-- What stands before the last break of a text, with its number of bytes; `none` without a break.
unfoldable pub before_break : String → Option (String × ℕ)
unfolding is_break
before_break String.[] = none
before_break (String.◌∷◌ c s) = elim (before_break s) [
  | some (t, n) ↦ some (String.◌∷◌ c t, utf8_length (code c) + n)
  | none ↦ if is_break (code c) then some (String.[], 0) else none
]

-- What is kept of the first n characters: what stands before the last break, if that is far enough.
-- The index of the break counts bytes, n counts characters; 0.6 n is exact.
abbrev pub kept_part : ℕ → String → String
kept_part n cut = elim (before_break cut) [
  | none ↦ cut
  | some (t, i) ↦ if ltb (n * 6 / 10) i then t else cut
]

unfoldable pub truncate : PlainLib → String → ℕ → String
unfolding before_break
truncate l s n = if leb (count s) n then s else l.trim_space (kept_part n (take_chars n s)) +++ "…"

abbrev pub year_1995 : ℕ
year_1995 = 788918400000000000

unfoldable pub clamp_future : ℕ → ℕ → Option ℕ
clamp_future now t =
    if ltb (now + 48 * hour) t then none else if ltb t year_1995 then none else some t

unfoldable pub date_layouts : List String
date_layouts =
    "2006-01-02T15:04:05.999999999Z07:00" ∷ "2006-01-02T15:04:05Z07:00"
    ∷ "Mon, 02 Jan 2006 15:04:05 -0700" ∷ "Mon, 02 Jan 2006 15:04:05 MST" ∷ "02 Jan 06 15:04 -0700"
    ∷ "02 Jan 06 15:04 MST" ∷ "Mon Jan _2 15:04:05 2006" ∷ "Mon Jan _2 15:04:05 MST 2006"
    ∷ "Mon Jan 02 15:04:05 -0700 2006" ∷ "Mon, 2 Jan 2006 15:04:05 -0700"
    ∷ "Mon, 2 Jan 2006 15:04 -0700" ∷ "Mon, 2 Jan 2006 15:04:05 MST" ∷ "2 Jan 2006 15:04:05 -0700"
    ∷ "2 Jan 2006" ∷ "02 Jan 2006" ∷ "2 January 2006" ∷ "02 January 2006" ∷ "Jan 2 2006"
    ∷ "2006-01-02T15:04:05Z0700" ∷ "2006-01-02T15:04:05" ∷ "2006-01-02 15:04:05"
    ∷ "2006-01-02 15:04" ∷ "2006-01-02" ∷ "2006/01/02 15:04:05" ∷ "02/01/2006 15:04:05"
    ∷ "January 2, 2006" ∷ "Jan 2, 2006" ∷ []

-- The loop over the layouts: the first that fits.
unfoldable pub first_time : PlainLib → String → List String → Option ℕ
first_time l raw [] = none
first_time l raw (layout ∷ layouts) = elim (l.parse_time layout raw) [
  | some t ↦ some t
  | none ↦ first_time l raw layouts
]

abbrev pub all_chars : (ℕ → Bool) → String → Bool
all_chars p String.[] = true
all_chars p (String.◌∷◌ c s) = p (code c) && all_chars p s

unfoldable pub is_all_digits : PlainLib → String → Bool
is_all_digits l s = all_chars l.is_digit s && not (is_blank s)

-- Seconds or milliseconds from 1970. The milliseconds are multiplied in an int64, whose negative
-- values are times before 1970.
unfoldable pub epoch_date : ℕ → ℕ → Option ℕ
unfolding clamp_future
epoch_date now n =
    if ltb 1000000000000 n
    then (let t = n * 1000000 % 2 ^ 64 in if ltb t (2 ^ 63) then clamp_future now t else none)
    else if ltb 1000000000 n
    then clamp_future now (n * 1000000000)
    else none

-- A text that has been trimmed. RFC3339 is tried first, then the layouts in their order.
unfoldable pub dated : PlainLib → ℕ → String → Option ℕ
unfolding first_time date_layouts is_all_digits epoch_date clamp_future
dated l now raw = elim (first_time l raw ("2006-01-02T15:04:05Z07:00" ∷ date_layouts)) [
  | some t ↦ clamp_future now t
  | none ↦ if is_all_digits l raw then epoch_date now (l.scan_number raw) else none
]

unfoldable pub parse_date : PlainLib → ℕ → String → Option ℕ
unfolding dated replace_pairs
parse_date l now raw =
    if is_blank (l.trim_space raw)
    then none
    else dated l now (replace_pairs (("  ", " ") ∷ []) 0 (l.trim_space raw))
