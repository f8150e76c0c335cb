-- ===== src/Auth/Config.antt =====
-- The lines of auth.cfg and init-config.cfg: what internal/auth/store.go (LoadFromFile) and
-- cmd/keygen/main.go (readInitConfig) test of a line.
use eterrain_tf_upload.Base.{◌-◌, Bool, ◌&&◌, ◌||◌, [], length, take, drop}
use eterrain_tf_upload.Text.{Bytes, codes, equal, has_prefix, has_suffix, trim_space}

-- line == "" || strings.HasPrefix(line, "#")
unfoldable pub is_skipped : Bytes → Bool
unfolding equal has_prefix
is_skipped line = equal line [] || has_prefix line (codes "#")

-- strings.HasPrefix(line, "[") && strings.HasSuffix(line, "]")
unfoldable pub is_header : Bytes → Bool
unfolding has_prefix has_suffix
is_header line = has_prefix line (codes "[") && has_suffix line (codes "]")

-- strings.TrimSpace(line[1 : len(line)-1])
unfoldable pub header_text : Bytes → Bytes
unfolding trim_space
header_text line = trim_space (drop 1 (take (length line - 1) line))
