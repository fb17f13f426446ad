-- ===== src/Cypher/Examples/Parsing.antt =====
-- The scanner and the parser of internal/cypher/engine.go at concrete inputs.
use pincher_mcp.Cypher.Token.{ident}
use pincher_mcp.Cypher.Parser.{
  unexpected_token, peek, next, next_value, peek_is, skip, expect, raise, pure, ◌>>=◌, ◌>>◌,
}
use pincher_mcp.Cypher.Parser.Query.{clauses, clause, match_clause, other_token}
use pincher_mcp.Cypher.Parser.PatternClause.{
  parse_pattern, parse_node, kind_part, props_part, edge_part,
}
use pincher_mcp.Cypher.Typos.{nearest_clause_keyword, is_cypher_write_keyword}
use pincher_mcp.Prelude.{ok, error}
use pincher_mcp.Prelude.{
  ◌≡◌, ◌↔◌, refl, inl, inr, true, [], ◌∷◌, ◌++◌, some, codes, str_eq, has_byte, fail, panic, Ends,
}
use pincher_mcp.Cypher.Token.{token, string, punct, keyword}
use pincher_mcp.Cypher.Lexer.{tokenize, emit, backslash}
use pincher_mcp.Cypher.Lexer.Literals.{escape}
use pincher_mcp.Cypher.Lexer.Reading.{tokenize-literal}
use pincher_mcp.Cypher.Typos.{edit_distance_at_most1}
use pincher_mcp.Cypher.Typos.Distance.{Edit, edit_distance_at_most1-Edit}
use pincher_mcp.Cypher.Parser.Query.{parse, parse_query}
use pincher_mcp.Cypher.Parser.WellFormed.{
  IsWellFormed, parse_query-IsWellFormed, parse_no_backslash, parse_panics,
}
use pincher_mcp.Cypher.Examples.{sample_host, query_text}

parse_query-IsWellFormed_example :
    Ends IsWellFormed
      (parse_query sample_host (token keyword (codes "MATCH") ∷ token punct (codes "(") ∷ []))
parse_query-IsWellFormed_example =
    parse_query-IsWellFormed sample_host
      (token keyword (codes "MATCH") ∷ token punct (codes "(") ∷ [])

parse_no_backslash_example : Ends IsWellFormed (parse sample_host query_text)
parse_no_backslash_example = parse_no_backslash sample_host query_text (unfold has_byte in refl)

parse_panics_example : parse sample_host (b'"' ∷ codes "a" ++ backslash ∷ []) ≡ fail panic
parse_panics_example =
    parse_panics sample_host b'"' (codes "a") (inr refl) (unfold has_byte in refl)
      (unfold has_byte in refl)

tokenize-literal_example :
    tokenize (39 ∷ escape (codes "it's") ++ 39 ∷ codes " AND")
    ≡ emit (some (token string (codes "it's"))) (tokenize (codes " AND"))
tokenize-literal_example = tokenize-literal 39 (codes "it's") (codes " AND") (inl refl)

edit_distance_at_most1-Edit_example :
    (edit_distance_at_most1 (codes "WERE") (codes "WHERE") ≡ true)
    ↔ Edit (codes "WERE") (codes "WHERE")
edit_distance_at_most1-Edit_example = edit_distance_at_most1-Edit (codes "WERE") (codes "WHERE")

-- The tokens of a predicate, and the error at a misspelled clause keyword.
tokenize_example :
    tokenize (codes "n.name = 'it'")
    ≡ ok (
        token ident (codes "n")
        ∷ token punct (codes ".")
        ∷ token ident (codes "name")
        ∷ token punct (codes "=")
        ∷ token string (codes "it")
        ∷ [])
unfolding tokenize
tokenize_example = refl

misspelled_example :
    parse sample_host (codes "MATCH (n) WERE n.name = 1 RETURN n.name")
    ≡ fail (error (unexpected_token (codes "WERE") (some "WHERE")))
unfolding parse parse_query clauses clause match_clause parse_pattern parse_node kind_part
    props_part edge_part other_token peek next next_value peek_is skip expect raise pure ◌>>=◌ ◌>>◌
    str_eq nearest_clause_keyword is_cypher_write_keyword tokenize
misspelled_example = refl

nearest_where : nearest_clause_keyword (codes "were") ≡ some "WHERE"
unfolding nearest_clause_keyword
nearest_where = refl
