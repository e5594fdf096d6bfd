-- ===== src/Spl/Parser/Commands/Ends.antt =====
-- When the commands of internal/spl/parser/parser.go that are read word by word return.
use quetzalog.Base.{Bool, List, [], ◌∷◌, ◌≢◌, Text, ok, out_of_fuel, bind-Ended, arith}
use quetzalog.Spl.Unicode.{Unicode}
use quetzalog.Spl.Lexer.{Token}
use quetzalog.Spl.Ast.{SortField}
use quetzalog.Spl.Parser.Commands.{
  sort_fields, sort_of, parse_sort, parse_count, parse_head, parse_tail, parse_dedup, field_names,
  fields_of, parse_fields, table_names, table_of, parse_table, rename_pairs, rename_of,
  parse_rename, parse_rex, parse_bin, words, lookup_of, parse_lookup,
}

sort_of-Ended : (fs : List SortField) → sort_of fs ≢ out_of_fuel
sort_of-Ended [] h = cc
sort_of-Ended (f ∷ fs) h = cc

pub parse_sort-Ended : (u : Unicode) (ts : List Token) → parse_sort u ts ≢ out_of_fuel
unfolding parse_sort
parse_sort-Ended u ts = sort_of-Ended (sort_fields u ts)

parse_count-Ended : (ts : List Token) → parse_count ts ≢ out_of_fuel
unfolding parse_count
parse_count-Ended [] h = cc
parse_count-Ended (t ∷ ts) h = ground (arith, parse_count-Ended ts)

pub parse_head-Ended : (ts : List Token) → parse_head ts ≢ out_of_fuel
parse_head-Ended ts =
    unfold parse_head in bind-Ended (parse_count ts) _ (parse_count-Ended ts) (λ n h. cc)

pub parse_tail-Ended : (ts : List Token) → parse_tail ts ≢ out_of_fuel
parse_tail-Ended ts =
    unfold parse_tail in bind-Ended (parse_count ts) _ (parse_count-Ended ts) (λ n h. cc)

pub parse_dedup-Ended : (ts : List Token) → parse_dedup ts ≢ out_of_fuel
unfolding parse_dedup
parse_dedup-Ended [] h = cc
parse_dedup-Ended (t ∷ ts) h = ground (arith, parse_dedup-Ended ts)

fields_of-Ended : (include : Bool) (fs : List Text) → fields_of include fs ≢ out_of_fuel
fields_of-Ended include [] h = cc
fields_of-Ended include (f ∷ fs) h = cc

pub parse_fields-Ended : (ts : List Token) → parse_fields ts ≢ out_of_fuel
unfolding parse_fields
parse_fields-Ended ts = fields_of-Ended _ (field_names ts)

table_of-Ended : (fs : List Text) → table_of fs ≢ out_of_fuel
table_of-Ended [] h = cc
table_of-Ended (f ∷ fs) h = cc

pub parse_table-Ended : (ts : List Token) → parse_table ts ≢ out_of_fuel
unfolding parse_table
parse_table-Ended ts = table_of-Ended (table_names ts)

rename_pairs-Ended : (u : Unicode) (ts : List Token) → rename_pairs u ts ≢ out_of_fuel
unfolding rename_pairs
rename_pairs-Ended u [] h = cc
rename_pairs-Ended u (t ∷ []) h = ground arith
rename_pairs-Ended u (t ∷ w ∷ []) h = ground (arith, rename_pairs-Ended u (w ∷ []))
rename_pairs-Ended u (t ∷ w ∷ to ∷ ts) h = ground (
  arith,
  bind-Ended (rename_pairs u ts) (λ ps. ok ((t.value, to.value) ∷ ps)) (rename_pairs-Ended u ts)
      (λ ps k. cc),
  rename_pairs-Ended u (w ∷ to ∷ ts),
)

rename_of-Ended : (ps : List (Text × Text)) → rename_of ps ≢ out_of_fuel
rename_of-Ended [] h = cc
rename_of-Ended (p ∷ ps) h = cc

pub parse_rename-Ended : (u : Unicode) (ts : List Token) → parse_rename u ts ≢ out_of_fuel
parse_rename-Ended u ts =
    unfold parse_rename in
    bind-Ended (rename_pairs u ts) rename_of (rename_pairs-Ended u ts) rename_of-Ended

pub parse_rex-Ended : (u : Unicode) (ts : List Token) → parse_rex u ts ≢ out_of_fuel
unfolding parse_rex
parse_rex-Ended u ts h = ground arith

pub parse_bin-Ended : (u : Unicode) (ts : List Token) → parse_bin u ts ≢ out_of_fuel
unfolding parse_bin
parse_bin-Ended u ts h = ground arith

lookup_of-Ended : (u : Unicode) (ws : List Text) → lookup_of u ws ≢ out_of_fuel
lookup_of-Ended u [] h = cc
lookup_of-Ended u (w ∷ []) h = cc
lookup_of-Ended u (w ∷ v ∷ ws) h = cc

pub parse_lookup-Ended : (u : Unicode) (ts : List Token) → parse_lookup u ts ≢ out_of_fuel
unfolding parse_lookup
parse_lookup-Ended u ts = lookup_of-Ended u (words ts)
