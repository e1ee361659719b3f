-- ===== src/Text.antt =====
-- The methods of Python's `str` that the program calls, on native strings.
-- Characters are code points; `is_space` is the whole of `str.isspace`.
pub mod Strip
use Prim.Native.Char.{Char, code}
use sourceos_syncd.Prelude.{
  ℕ, zero, suc, String, ◌<>◌, Bool, false, ◌&&◌, ◌||◌, leb, nat_beq, if◌then◌else◌,
}

is_space : Char → Bool
is_space c =
    let n = code c in
    leb 9 n && leb n 13
    || leb 28 n && leb n 32
    || nat_beq n 133
    || nat_beq n 160
    || nat_beq n 5760
    || leb 8192 n && leb n 8202
    || nat_beq n 8232
    || nat_beq n 8233
    || nat_beq n 8239
    || nat_beq n 8287
    || nat_beq n 12288

unfoldable pub lstrip : (Char → Bool) → String → String
lstrip p String.[] = ""
lstrip p (String.◌∷◌ c s) = let rest = lstrip p s in if p c then rest else String.◌∷◌ c s

-- The rest of the text is stripped already: `c` goes if nothing is left of it.
unfoldable pub settle : (Char → Bool) → Char → String → String
settle p c String.[] = if p c then "" else String.◌∷◌ c ""
settle p c (String.◌∷◌ d t) = String.◌∷◌ c (String.◌∷◌ d t)

unfoldable pub rstrip : (Char → Bool) → String → String
unfolding settle
rstrip p String.[] = ""
rstrip p (String.◌∷◌ c s) = settle p c (rstrip p s)

-- `s.strip()`
unfoldable pub strip : String → String
unfolding is_space lstrip rstrip
strip s = rstrip is_space (lstrip is_space s)

-- `s[:n]`
unfoldable pub slice_to : ℕ → String → String
slice_to zero s = ""
slice_to (suc n) String.[] = ""
slice_to (suc n) (String.◌∷◌ c s) = String.◌∷◌ c (slice_to n s)

-- `s.replace(old, new)` for a single character `old`.
unfoldable pub replace_char : ℕ → String → String → String
replace_char old new String.[] = ""
replace_char old new (String.◌∷◌ c s) =
    let rest = replace_char old new s in
    if nat_beq (code c) old then new <> rest else String.◌∷◌ c rest

last_piece : ℕ → String → String → String
last_piece sep String.[] best = best
last_piece sep (String.◌∷◌ c t) best = last_piece sep t (if nat_beq (code c) sep then t else best)

-- `s.split(sep)[-1]`: what stands behind the last `sep`.
unfoldable pub after_last : ℕ → String → String
unfolding last_piece
after_last sep s = last_piece sep s s

-- `s.endswith(c)` for a single character.
unfoldable pub ends_with : ℕ → String → Bool
ends_with n String.[] = false
ends_with n (String.◌∷◌ c String.[]) = nat_beq (code c) n
ends_with n (String.◌∷◌ c (String.◌∷◌ d s)) = ends_with n (String.◌∷◌ d s)
