-- ===== src/Show.antt =====
-- `str` on JSON values; `text_of` is its text of numbers and containers.
use sourceos_syncd.Prelude.{String, true, false, none, some}
use sourceos_syncd.Prelude.Dict
use sourceos_syncd.Json.{Json, null, bool, str, Object}

module _ (text_of : Json → String) where
  -- `str(j)`
  unfoldable pub to_str : Json → String
  to_str null = "None"
  to_str (bool true) = "True"
  to_str (bool false) = "False"
  to_str (str s) = s
  to_str j = text_of j

  -- `str(d.get(k, default))`
  unfoldable pub str_field : String → String → Object → String
  unfolding to_str Dict.get
  str_field k default d = elim (Dict.get k d) [ none ↦ default | some j ↦ to_str j ]
