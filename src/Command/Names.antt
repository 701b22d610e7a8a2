-- ===== src/Command/Names.antt =====
-- strings.ToUpper and strings.ToLower on ASCII text. (On other bytes Go decodes UTF-8; the model
-- leaves them alone.)
use goredis_main.Prelude.{ℕ, ◌+◌, ◌-◌, ◌&&◌, Bytes, map, leb, if◌then◌else◌}

unfoldable pub upper_byte : ℕ → ℕ
upper_byte c = if leb b'a' c && leb c b'z' then c - 32 else c

unfoldable pub lower_byte : ℕ → ℕ
lower_byte c = if leb b'A' c && leb c b'Z' then c + 32 else c

abbrev pub to_upper : Bytes → Bytes
to_upper s = map upper_byte s

abbrev pub to_lower : Bytes → Bytes
to_lower s = map lower_byte s
