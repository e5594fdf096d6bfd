-- ===== src/Spl/Serializer/Precedence.antt =====
-- Where internal/spl/serializer/serializer.go writes parentheses, and where it leaves them out.
use quetzalog.Base.{
  ℕ, Text, refl, sym, Option, none, ◌∙◌, ◌&&◌, arith, some, Bool, true, false, ◌≡◌, ap, List, [],
  ◌∷◌, ◌++◌, codes, append_assoc, equal, if◌then◌else◌,
}
use quetzalog.Spl.Ast.{
  where_expr, Expr, Exprs, nil, cons, or_of, cmp, search, not_of, and_pair, or_pair, Condition,
  Node, where_of,
}
use quetzalog.Spl.Parser.Source.{utf8, trim_space}
use quetzalog.Spl.Serializer.{serialize, serialize_parts, serialize_node, node_text, empty}
use quetzalog.Spl.Serializer.Text.{
  serialize_expr, maybe_paren, prec_or, prec_and, prec_leaf, join_texts, serialize_join,
  serialize_search, merge_search_expr, combine_and, exprs_of, add_fields, add_text, expr_has_field,
  expr_has_text, sort_keys, flatten_and,
}

-- Below OR, a conjunction under NOT and the conjunction of the negated half are written alike.
not_and-text :
    (a b : Expr)
    → serialize_expr (not_of (and_pair a b)) prec_or
      ≡ serialize_expr (and_pair (not_of a) b) prec_or
unfolding serialize_expr maybe_paren
not_and-text a b = rw append_assoc

or-not_and-text :
    (a b c : Expr) (parent : ℕ)
    → serialize_expr (or_pair (not_of (and_pair a b)) c) parent
      ≡ serialize_expr (or_pair (and_pair (not_of a) b) c) parent
unfolding serialize_expr
or-not_and-text a b c parent =
    ap (λ s. maybe_paren (s ++ codes " OR " ++ serialize_expr c prec_or) prec_or parent)
      (not_and-text a b)

-- A disjunction of a search is written in front of its fields and words, whatever it has.
add_fields-or :
    (es : Exprs) (nodes : List Expr) (m : List (Text × Text))
    → add_fields (or_of es ∷ nodes) m ≡ or_of es ∷ add_fields nodes m
unfolding add_fields expr_has_field
add_fields-or es nodes [] = refl
add_fields-or es nodes ((k, v) ∷ m) =
    ground (arith, add_fields-or es nodes m, add_fields-or es (nodes ++ cmp k (codes "=") v ∷ []) m)

add_text-or :
    (es : Exprs) (nodes : List Expr) (words : Text)
    → add_text (or_of es ∷ nodes) words ≡ or_of es ∷ add_text nodes words
unfolding add_text expr_has_text
add_text-or es nodes words = ground arith

merge-or :
    (names : List (Text × Text)) (words : Text) (es : Exprs)
    → merge_search_expr names words (some (or_of es))
      ≡ combine_and (or_of es ∷ add_text (add_fields [] (sort_keys names)) words)
unfolding merge_search_expr flatten_and
merge-or names words es = rw (add_fields-or es [] (sort_keys names), add_text-or) refl

abbrev search_text : Option Expr → Text
search_text none = []
search_text (some x) = serialize_expr x prec_leaf

-- Expressions that are written alike with the same ones behind them.
combined-text :
    (e f : Expr) (behind : List Expr)
    → ((parent : ℕ) → serialize_expr e parent ≡ serialize_expr f parent)
    → search_text (combine_and (e ∷ behind)) ≡ search_text (combine_and (f ∷ behind))
unfolding combine_and exprs_of serialize_expr
combined-text e f [] h = h prec_leaf
combined-text e f (g ∷ behind) h =
    ap
      (λ s.
        maybe_paren
          (s ++ codes " AND " ++ serialize_join (exprs_of (g ∷ behind)) (codes " AND ") prec_and)
          prec_and prec_leaf)
      (h prec_and)

serialize_search-not_and :
    (names : List (Text × Text)) (words : Text) (a b c : Expr)
    → serialize_search names words (some (or_pair (not_of (and_pair a b)) c))
      ≡ serialize_search names words (some (or_pair (and_pair (not_of a) b) c))
unfolding serialize_search
serialize_search-not_and names words a b c =
    let behind = add_text (add_fields [] (sort_keys names)) words in
    ap search_text (merge-or names words (cons (not_of (and_pair a b)) (cons c nil)))
    ∙ combined-text _ _ behind (or-not_and-text a b c)
    ∙ sym (ap search_text (merge-or names words (cons (and_pair (not_of a) b) (cons c nil))))

-- Commands that are written alike can be exchanged in a pipeline.
serialize_parts-exchange :
    (m n : Node) (before after : List Node) (first : Bool)
    → ((first : Bool) → serialize_node m first ≡ serialize_node n first)
    → serialize_parts (before ++ m ∷ after) first ≡ serialize_parts (before ++ n ∷ after) first
unfolding serialize_parts
serialize_parts-exchange m n [] after first h =
    ap
      (λ s.
        let more = serialize_parts after false in
        if equal (trim_space s) [] then more else s ∷ more)
      (h first)
serialize_parts-exchange m n (b ∷ before) after first h =
    ap
      (λ more. let s = serialize_node b first in if equal (trim_space s) [] then more else s ∷ more)
      (serialize_parts-exchange m n before after false h)

-- A filter `NOT (a AND b) OR c` and a filter `(NOT a AND b) OR c` are written as the same text, in
-- any place of any pipeline, be they the filter of a `where` command or of a `search` with any fields
-- and words: no parser can read back which of the two it was.
pub serialize-not_and :
    (before after : List Node) (conditions : List Condition) (names : List (Text × Text))
    (words : Text) (a b c : Expr)
    → (serialize (before ++ where_of conditions (some (or_pair (not_of (and_pair a b)) c)) ∷ after)
        ≡ serialize
            (before ++ where_of conditions (some (or_pair (and_pair (not_of a) b) c)) ∷ after))
      × (serialize (before ++ search names words (some (or_pair (not_of (and_pair a b)) c)) ∷ after)
          ≡ serialize
              (before ++ search names words (some (or_pair (and_pair (not_of a) b) c)) ∷ after))
unfolding serialize serialize_node node_text where_expr
serialize-not_and before after conditions names words a b c = (
  ap (join_texts (codes "\n| ")) (
      serialize_parts-exchange _ _ before after true
        (λ _. ap (λ s. utf8 (codes "where " ++ s)) (or-not_and-text a b c prec_leaf))),
  ap (join_texts (codes "\n| ")) (
      serialize_parts-exchange _ _ before after true (λ first.
        ap (λ s. utf8 (if empty s && first then codes "search" else s))
          (serialize_search-not_and names words a b c))),
)
