-- ===== src/Cypher/Parser/WellFormed.antt =====
-- The results of `parseQuery` and `parse` in internal/cypher/engine.go.
use pincher_mcp.Prelude.{
  ℕ, zero, suc, ◌≡◌, ◌≢◌, refl, sym, ap, ◌∙◌, false, List, [], ◌∷◌, ◌++◌, arith, Bytes, All,
  All-append, has_byte, length, Atoi, number, syntax, range, Result, ok, fail, error, panic,
  out_of_fuel, Ends,
}
use pincher_mcp.Cypher.Token.{Token}
use pincher_mcp.Cypher.Lexer.{backslash}
use pincher_mcp.Cypher.Lexer.Literals.{IsQuote}
use pincher_mcp.Cypher.Lexer.Totality.{tokenize_no_backslash}
use pincher_mcp.Cypher.Lexer.Reading.{tokenize_panics}
use pincher_mcp.Cypher.Ast.{Pattern, ReturnVar, QueryAst}
use pincher_mcp.Cypher.Flatten.{flatten_where}
use pincher_mcp.Cypher.Where.{Host}
use pincher_mcp.Cypher.Parser.{ParseError, Tokens, raise, peek, next}
use pincher_mcp.Cypher.Parser.Query.{
  Progress, start, match_clause, return_clause, order_clause, take_limit, limit_clause, other_token,
  finish, where_clause, clause, clauses, answer, parse_query, parse,
}
use pincher_mcp.Cypher.Parser.Total.{Leaves}
use pincher_mcp.Cypher.Parser.QueryTotality.{clauses-Leaves}
use pincher_mcp.Cypher.Parser.Ranges.{
  Gives, Returns, Gives-and_then, Returns-bind, Returns-any, Returns-then, Returns-if, Returns-pure,
  Returns-raise, HasRange, returns_rules, parse_pattern-HasRange,
}

-- What holds of a query between two clauses.
record IsGood (s : Progress) : Type 0 where
  ranges : All HasRange s.query.patterns
  flat : s.query.conditions ≡ flatten_where s.query.where_expr

module _ (s : Progress) (h : IsGood s) where
  IsGood-same :
      {t : Progress}
      → t.query.patterns ≡ s.query.patterns
      → t.query.conditions ≡ s.query.conditions
      → t.query.where_expr ≡ s.query.where_expr
      → IsGood t
  IsGood-same e k l = record {
    ranges = rw e h.ranges;
    flat = k ∙ h.flat ∙ ap flatten_where (sym l);
  }

  match_clause-IsGood : Returns IsGood (match_clause s)
  unfolding match_clause
  match_clause-IsGood = Returns-then next _ (
      Returns-bind HasRange IsGood _ _ parse_pattern-HasRange λ pat r. Returns-any peek _ λ t.
        Returns-if _ _ _ (Returns-raise _) (
          Returns-pure _ (record {
            ranges = All-append HasRange s.query.patterns (pat ∷ []) h.ranges (r, tt);
            flat = h.flat;
          })))

  return_clause-IsGood : Returns IsGood (return_clause s)
  unfolding return_clause
  return_clause-IsGood = Returns-then next _ (
      Returns-any _ _ λ distinct.
        Returns-if _ _ _
          (Returns-then next _
            (Returns-any _ _ λ vars. Returns-pure _ (IsGood-same refl refl refl)))
          (Returns-any _ _ λ vars. Returns-pure _ (IsGood-same refl refl refl)))

  order_clause-IsGood : Returns IsGood (order_clause s)
  unfolding order_clause
  order_clause-IsGood = Returns-then next _ (
      Returns-then _ _ (
        Returns-any _ _ λ key. Returns-any _ _ λ dir. Returns-any _ _ λ comma.
          Returns-if _ _ _ (Returns-raise _) (Returns-pure _ (IsGood-same refl refl refl))))

  take_limit-IsGood : (t : Token) (n : Atoi) → Returns IsGood (take_limit t s n)
  take_limit-IsGood t (number n) = Returns-pure _ (IsGood-same refl refl refl)
  take_limit-IsGood t syntax = Returns-raise _
  take_limit-IsGood t range = Returns-raise _

  limit_clause-IsGood : Returns IsGood (limit_clause s)
  unfolding limit_clause
  limit_clause-IsGood = search (returns_rules, take_limit-IsGood) depth 12

  other_token-IsGood : Returns IsGood (other_token s)
  unfolding other_token
  other_token-IsGood = search returns_rules depth 12

module _ (host : Host) where
  where_clause-IsGood : (s : Progress) → IsGood s → Returns IsGood (where_clause host s)
  unfolding where_clause
  where_clause-IsGood s h = Returns-if _ _ _ (Returns-raise _) (
      Returns-then next _
        (Returns-any _ _ λ w. Returns-pure _ (record { ranges = h.ranges; flat = refl })))

  clause-IsGood : (s : Progress) → IsGood s → Returns IsGood (clause host s)
  unfolding clause
  clause-IsGood s h = Returns-any _ _ λ t. Returns-if _ _ _ (match_clause-IsGood s h) (
      Returns-if _ _ _ (where_clause-IsGood s h) (
        Returns-if _ _ _ (return_clause-IsGood s h) (
          Returns-if _ _ _ (order_clause-IsGood s h) (
            Returns-if _ _ _ (limit_clause-IsGood s h)
              (Returns-if _ _ _ (Returns-raise _) (other_token-IsGood s h))))))

-- A query that the executor can run.
pub record IsWellFormed (q : QueryAst) : Type 0 where
  pub has_pattern : q.patterns ≢ []
  pub has_return : q.return_vars ≢ []
  pub ranges : All HasRange q.patterns
  pub flat : q.conditions ≡ flatten_where q.where_expr

finish-IsWellFormed : (s : Progress) → IsGood s → Returns IsWellFormed (finish s)
unfolding finish raise
finish-IsWellFormed s h = record { at = λ ts. go s.query.patterns s.query.return_vars refl refl ts }
  where
    go :
        (pats : List Pattern) (rvs : List ReturnVar)
        → s.query.patterns ≡ pats
        → s.query.return_vars ≡ rvs
        → (ts : Tokens) → Gives IsWellFormed (finish s ts)
    go [] rvs e k ts = rw e tt
    go (p ∷ ps) [] e k ts = rw e (rw k tt)
    go (p ∷ ps) (r ∷ rs) e k ts =
        rw (e, k)
          (record {
            has_pattern = λ n. cc;
            has_return = λ n. cc;
            ranges = rw e at h.ranges;
            flat = h.flat;
          })

module _ (host : Host) where
  clauses-IsWellFormed :
      (fuel : ℕ) (s : Progress) (ts : Tokens)
      → IsGood s
      → Gives IsWellFormed (clauses host fuel s ts)
  unfolding clauses
  clauses-IsWellFormed fuel s [] h = (finish-IsWellFormed s h).at []
  clauses-IsWellFormed zero s (t ∷ ts) h = tt
  clauses-IsWellFormed (suc fuel) s (t ∷ ts) h =
      Gives-and_then IsGood IsWellFormed (clause host s (t ∷ ts)) (clauses host fuel)
        ((clause-IsGood host s h).at (t ∷ ts))
        λ s' h'. record { at = λ rest. clauses-IsWellFormed fuel s' rest h' }

  answer-Ends :
      (n : ℕ) (r : Result ParseError (QueryAst × Tokens))
      → Leaves n r
      → Gives IsWellFormed r
      → Ends IsWellFormed (answer r)
  answer-Ends n (ok (q, ts)) l h = h
  answer-Ends n (fail (error e)) l h = tt
  answer-Ends n (fail panic) l h = l
  answer-Ends n (fail out_of_fuel) l h = l

  -- For every list of tokens the parser returns a well-formed query or an error: it does not panic
  -- and does not run out of fuel. Well-formed: a pattern and a RETURN item are there, each pattern's
  -- bounds are a range of path lengths from 1 on, and the flat conditions are those of the tree.
  pub parse_query-IsWellFormed : (ts : Tokens) → Ends IsWellFormed (parse_query host ts)
  unfolding parse_query
  parse_query-IsWellFormed ts =
      answer-Ends (length ts) (clauses host (length ts) start ts)
        (clauses-Leaves host (length ts) start ts (omega arith))
        (clauses-IsWellFormed (length ts) start ts
          (record { ranges = tt; flat = unfold flatten_where in refl }))

  -- For every query text without a backslash the parser returns a well-formed query or an error.
  pub parse_no_backslash :
      (text : Bytes) → has_byte backslash text ≡ false → Ends IsWellFormed (parse host text)
  unfolding parse
  parse_no_backslash text h =
      let (ts, e) = tokenize_no_backslash text h in rw e (parse_query-IsWellFormed ts)

  -- A query that opens a string literal, holds neither its quote nor a backslash after that, and
  -- ends in one backslash makes the parser panic.
  pub parse_panics :
      (q : ℕ) (s : Bytes)
      → IsQuote q
      → has_byte q s ≡ false
      → has_byte backslash s ≡ false
      → parse host (q ∷ s ++ backslash ∷ []) ≡ fail panic
  unfolding parse
  parse_panics q s h k l = rw (tokenize_panics q s h k l)
