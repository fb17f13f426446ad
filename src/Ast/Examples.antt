-- ===== src/Ast/Examples.antt =====
-- `disambiguateDuplicates` of internal/ast/extractor.go at concrete inputs.
use pincher_mcp.Prelude.{
  ℕ, ◌≡◌, refl, List, [], ◌∷◌, String, Bytes, codes, map, Once, str_eq, itoa, has_byte,
}
use pincher_mcp.Ast.Duplicates.{
  ExtractedSymbol, FileResult, symbol_key, disambiguate_duplicates, count_keys, rename, same_key,
  increment,
}
use pincher_mcp.Ast.Duplicates.Keys.{same_symbol, GivesAll-symbol_key, disambiguate_duplicates-Once}

abbrev symbol : String → String → ℕ → ExtractedSymbol
symbol qn kind line = record { qualified_name = codes qn; kind = codes kind; start_line = line }

abbrev file : List ExtractedSymbol → FileResult
file symbols = record { symbols = symbols; qn_collisions = [] }

abbrev overloads : List ExtractedSymbol
overloads =
    symbol "m.f" "Function" 3
    ∷ symbol "m.g" "Function" 8
    ∷ symbol "m.f" "Function" 10
    ∷ symbol "m.f" "Class" 14
    ∷ symbol "m.f" "Function" 120
    ∷ []

abbrev names : List ExtractedSymbol → List Bytes
unfolding disambiguate_duplicates
names ss =
    map (λ s. s.qualified_name) (disambiguate_duplicates (map symbol_key ss) (file ss)).symbols

overloads_by_line :
    names overloads
    ≡ codes "m.f" ∷ codes "m.g" ∷ codes "m.f~10" ∷ codes "m.f" ∷ codes "m.f~120" ∷ []
unfolding disambiguate_duplicates count_keys rename same_key increment str_eq itoa
overloads_by_line = refl

-- Three on one line keep two names between them.
three_on_one_line :
    names (symbol "f" "Function" 2 ∷ symbol "f" "Function" 2 ∷ symbol "f" "Function" 2 ∷ [])
    ≡ codes "f" ∷ codes "f~2" ∷ codes "f~2" ∷ []
unfolding disambiguate_duplicates count_keys rename same_key increment str_eq itoa
three_on_one_line = refl

abbrev two_kinds : List ExtractedSymbol
two_kinds =
    symbol "f" "Function" 1
    ∷ symbol "f" "Function" 2
    ∷ symbol "f" "Class" 3
    ∷ symbol "f" "Class" 4
    ∷ symbol "f" "Class" 5
    ∷ []

-- The count of a name that collides in two kinds is that of the kind that comes last.
counts_by_order :
    ((disambiguate_duplicates
        (symbol_key (symbol "f" "Function" 1) ∷ symbol_key (symbol "f" "Class" 3) ∷ [])
        (file two_kinds)).qn_collisions
      ≡ (codes "f", 3) ∷ [])
    × ((disambiguate_duplicates
          (symbol_key (symbol "f" "Class" 3) ∷ symbol_key (symbol "f" "Function" 1) ∷ [])
          (file two_kinds)).qn_collisions
        ≡ (codes "f", 2) ∷ [])
unfolding disambiguate_duplicates count_keys rename same_key increment str_eq itoa
counts_by_order = (refl, refl)

disambiguate_duplicates-Once_example :
    Once same_symbol (disambiguate_duplicates (map symbol_key overloads) (file overloads)).symbols
unfolding count_keys same_key has_byte str_eq
disambiguate_duplicates-Once_example =
    disambiguate_duplicates-Once (map symbol_key overloads) (file overloads)
      (refl, (refl, (refl, (refl, (refl, tt))))) (refl, (refl, (refl, (refl, (refl, tt)))))
      (GivesAll-symbol_key overloads)
