-- ===== src/Common/Text.antt =====
-- Text as its UTF-8 bytes, and the methods of Rust's `str` that the program calls.
use Prim.Native.Nat.{ℕ, zero, suc, ◌+◌, ◌-◌, ◌*◌, ◌/◌, ◌%◌, ◌^◌}
use Prim.Native.Char.{code}
use Prim.Native.String.{String}
use mathlib.Core.Path.{◌≡◌, refl}
use mathlib.Core.Logic.{◌↔◌}
use mathlib.Core.Bool.{Bool, true, false, ◌&&◌, ◌||◌}
use mathlib.Core.Option.{Option, none, some}
use mathlib.Core.List.{List, [], ◌∷◌, ◌++◌, map, reverse}
use native.Mathlib.Omega.{arith}
use ruskery.Common.Tests.{leb, ltb, ◌==◌, if◌then◌else◌, option_map}
use ruskery.Common.Lists.{length, drop}

abbrev pub Str : Type 0
Str = List ℕ

-- The bytes of a text literal; every literal of the program is ASCII.
abbrev pub codes : String → Str
codes String.[] = []
codes (String.◌∷◌ c s) = code c ∷ codes s

unfoldable pub str_eq : Str → Str → Bool
str_eq [] [] = true
str_eq (x ∷ xs) (y ∷ ys) = x == y && str_eq xs ys
str_eq _ _ = false

-- The order of `str` and of SQLite's TEXT columns: by bytes, a prefix first.
unfoldable pub str_ltb : Str → Str → Bool
str_ltb [] [] = false
str_ltb [] (y ∷ ys) = true
str_ltb (x ∷ xs) [] = false
str_ltb (x ∷ xs) (y ∷ ys) = ltb x y || (x == y && str_ltb xs ys)

-- `s.contains(c)`
unfoldable pub str_contains : ℕ → Str → Bool
str_contains c [] = false
str_contains c (x ∷ xs) = x == c || str_contains c xs

unfoldable pub starts_with : Str → Str → Bool
starts_with [] s = true
starts_with (p ∷ ps) [] = false
starts_with (p ∷ ps) (x ∷ xs) = p == x && starts_with ps xs

unfoldable pub strip_prefix : Str → Str → Option Str
unfolding starts_with
strip_prefix p s = if starts_with p s then some (drop (length p) s) else none

-- `s.strip_suffix(t)`: the rest before a suffix.
unfoldable pub strip_suffix : Str → Str → Option Str
unfolding str_eq
strip_suffix t [] = if str_eq [] t then some [] else none
strip_suffix t (x ∷ xs) =
    if str_eq (x ∷ xs) t then some [] else option_map (◌∷◌ x) (strip_suffix t xs)

-- `s.split_once(c)`
unfoldable pub split_once : ℕ → Str → Option (Str × Str)
split_once c [] = none
split_once c (x ∷ xs) =
    if x == c then some ([], xs) else option_map (λ p. (x ∷ p.0, p.1)) (split_once c xs)

-- `s.find(t)`: the text before the first occurrence, and after it.
unfoldable pub find : Str → Str → Option (Str × Str)
unfolding starts_with
find t [] = if starts_with t [] then some ([], []) else none
find t (x ∷ xs) =
    if starts_with t (x ∷ xs)
    then some ([], drop (length t) (x ∷ xs))
    else option_map (λ p. (x ∷ p.0, p.1)) (find t xs)

-- `s.rfind(t)`: the text before the last occurrence, and after it.
unfoldable pub rfind : Str → Str → Option (Str × Str)
unfolding starts_with
rfind t [] = if starts_with t [] then some ([], []) else none
rfind t (x ∷ xs) = elim (rfind t xs) [
  | some p ↦ some (x ∷ p.0, p.1)
  | none ↦ if starts_with t (x ∷ xs) then some ([], drop (length t) (x ∷ xs)) else none
]

abbrev head_onto : ℕ → List Str → List Str
head_onto x [] = (x ∷ []) ∷ []
head_onto x (s ∷ ss) = (x ∷ s) ∷ ss

-- `s.split(c)`: never empty.
unfoldable pub split : ℕ → Str → List Str
split c [] = [] ∷ []
split c (x ∷ xs) = let rest = split c xs in if x == c then [] ∷ rest else head_onto x rest

-- `to_ascii_lowercase`, and SQLite's `lower`
unfoldable pub to_lower : ℕ → ℕ
to_lower c = if leb b'A' c && leb c b'Z' then c + 32 else c

unfoldable pub lower : Str → Str
unfolding to_lower
lower = map to_lower

-- ASCII white space
abbrev is_space : ℕ → Bool
is_space c = c == 32 || (leb 9 c && leb c 13)

unfoldable pub trim_start : Str → Str
trim_start [] = []
trim_start (x ∷ xs) = if is_space x then trim_start xs else x ∷ xs

unfoldable pub trim : Str → Str
unfolding trim_start
trim s = reverse (trim_start (reverse (trim_start s)))

-- `s.trim_end_matches('/')`
unfoldable pub trim_end_slashes : Str → Str
trim_end_slashes [] = []
trim_end_slashes (x ∷ xs) = elim (trim_end_slashes xs) [
  | [] ↦ if x == b'/' then [] else x ∷ []
  | y ∷ ys ↦ x ∷ y ∷ ys
]

-- `String::from_utf8_lossy`, one byte at a time: what has been read of a sequence, how many bytes
-- it still lacks, and the range of the next one.
record Utf8 : Type 0 where
  seen : Str
  lacks : ℕ
  lo : ℕ
  hi : ℕ

abbrev fresh : Utf8
fresh = record { seen = []; lacks = 0; lo = 0; hi = 0 }

abbrev replacement : Str
replacement = 0xef ∷ 0xbf ∷ 0xbd ∷ []

abbrev expect : ℕ → ℕ → ℕ → ℕ → Str × Utf8
expect b lacks lo hi = ([], record { seen = b ∷ []; lacks = lacks; lo = lo; hi = hi })

utf8_start : ℕ → Str × Utf8
utf8_start b =
    if ltb b 0x80
    then (b ∷ [], fresh)
    else if leb 0xc2 b && leb b 0xdf
    then expect b 1 0x80 0xbf
    else if b == 0xe0
    then expect b 2 0xa0 0xbf
    else if b == 0xed
    then expect b 2 0x80 0x9f
    else if leb 0xe1 b && leb b 0xef
    then expect b 2 0x80 0xbf
    else if b == 0xf0
    then expect b 3 0x90 0xbf
    else if leb 0xf1 b && leb b 0xf3
    then expect b 3 0x80 0xbf
    else if b == 0xf4
    then expect b 3 0x80 0x8f
    else (replacement, fresh)

utf8_step : Utf8 → ℕ → Str × Utf8
unfolding utf8_start
utf8_step u b = elim u.lacks [
  | zero ↦ utf8_start b
  | suc more ↦
      if leb u.lo b && leb b u.hi
      then (if more == 0
          then (u.seen ++ b ∷ [], fresh)
          else ([], record { seen = u.seen ++ b ∷ []; lacks = more; lo = 0x80; hi = 0xbf }))
      else (let (out, next) = utf8_start b in (replacement ++ out, next))
]

lossy_from : Utf8 → Str → Str
unfolding utf8_step
lossy_from u [] = if u.lacks == 0 then [] else replacement
lossy_from u (b ∷ s) = let (out, next) = utf8_step u b in out ++ lossy_from next s

unfoldable pub from_utf8_lossy : Str → Str
unfolding lossy_from
from_utf8_lossy s = lossy_from fresh s

-- `s.parse::<u64>().ok()`: an optional plus sign, then digits that stay below 2 ^ 64.
digits_value : ℕ → Str → Option ℕ
digits_value acc [] = if ltb acc (2 ^ 64) then some acc else none
digits_value acc (c ∷ s) =
    let rest = digits_value (acc * 10 + (c - b'0')) s in
    if leb b'0' c && leb c b'9' then rest else none

unfoldable pub parse_u64 : Str → Option ℕ
unfolding digits_value
parse_u64 [] = none
parse_u64 (c ∷ s) =
    if c == b'+'
    then (elim s [ [] ↦ none | d ∷ r ↦ digits_value 0 (d ∷ r) ])
    else digits_value 0 (c ∷ s)

decimal_from : ℕ → ℕ → Str
decimal_from zero n = []
decimal_from (suc fuel) n =
    let front = decimal_from fuel (n / 10) in
    if ltb n 10 then (n + b'0') ∷ [] else front ++ (n % 10 + b'0') ∷ []

-- `format!("{n}")`
unfoldable pub decimal : ℕ → Str
unfolding decimal_from
decimal n = decimal_from (suc n) n

str_eq-refl_lem : (s : Str) → str_eq s s ≡ true
unfolding str_eq
str_eq-refl_lem [] = refl
str_eq-refl_lem (x ∷ xs) = ground (arith, str_eq-refl_lem xs)

str_eq_sound : (s t : Str) → str_eq s t ≡ true → s ≡ t
unfolding str_eq
str_eq_sound [] [] h = refl
str_eq_sound (x ∷ xs) (y ∷ ys) h = ground (arith, str_eq_sound xs ys)
str_eq_sound _ _ h = ground arith

pub str_eq_refl : (s : Str) → str_eq s s ≡ true
str_eq_refl = str_eq-refl_lem

pub str_eq_iff : (s t : Str) → (str_eq s t ≡ true) ↔ (s ≡ t)
str_eq_iff s t = (str_eq_sound s t, λ e. rw e (str_eq_refl t))

pub str_eq_comm : (s t : Str) → str_eq s t ≡ str_eq t s
unfolding str_eq
str_eq_comm [] [] = refl
str_eq_comm (x ∷ xs) (y ∷ ys) = ground (arith, str_eq_comm xs ys)
str_eq_comm _ _ = ground arith
