-- ===== src/Cypher/Token.antt =====
-- Tokens of pinchQL: `token` of internal/cypher/engine.go.
use pincher_mcp.Prelude.{Bool, true, false, Bytes, []}

-- The source's kind strings. `eof` is the kind that `peek` returns past the last token.
pub data Kind : Type 0 where
  keyword ident number string punct hops eof : Kind

pub record Token : Type 0 where
  pub kind : Kind
  pub value : Bytes

abbrev pub token : Kind → Bytes → Token
token k v = record { kind = k; value = v }

abbrev pub is_eof : Kind → Bool
is_eof eof = true
is_eof _ = false

abbrev pub is_ident : Kind → Bool
is_ident ident = true
is_ident _ = false

abbrev pub is_keyword : Kind → Bool
is_keyword keyword = true
is_keyword _ = false

abbrev pub is_hops : Kind → Bool
is_hops hops = true
is_hops _ = false

abbrev pub is_number : Kind → Bool
is_number number = true
is_number _ = false

abbrev pub end_of_query : Token
end_of_query = token eof []
