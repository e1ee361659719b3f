-- ===== src/SafeId.antt =====
-- `safe_record_id` of src/sourceos_syncd/local_store.py and `safe_id` of
-- src/sourceos_syncd/orchestration_events.py, which are the same code. `str.isalnum` is a parameter.
pub mod Portable
use Prim.Native.Char.{Char, code}
use sourceos_syncd.Prelude.{
  String, ◌<>◌, Bool, ◌||◌, Option, none, some, ◌==◌, string_eq, nat_beq, if◌then◌else◌,
}
use sourceos_syncd.Text.{lstrip, rstrip, strip}

unfoldable pub is_dot : Char → Bool
is_dot c = nat_beq (code c) b'.'

module _ (is_alnum : Char → Bool) where
  unfoldable pub is_safe : Char → Bool
  unfolding is_dot
  is_safe c = is_alnum c || nat_beq (code c) b'-' || nat_beq (code c) b'_' || is_dot c

  -- `"".join(ch if safe(ch) else "_" for ch in s)`
  unfoldable pub clean : String → String
  unfolding is_safe
  clean String.[] = ""
  clean (String.◌∷◌ c s) =
      let rest = clean s in if is_safe c then String.◌∷◌ c rest else "_" <> rest

  unfoldable pub cleaned : String → String
  unfolding strip clean lstrip rstrip is_dot
  cleaned s = rstrip is_dot (lstrip is_dot (clean (strip s)))

  -- `none` is the `ValueError` for an id that is empty.
  unfoldable pub safe_id : String → Option String
  unfolding cleaned
  safe_id s = if cleaned s == "" then none else some (cleaned s)
