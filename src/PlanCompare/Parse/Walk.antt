-- ===== src/PlanCompare/Parse/Walk.antt =====
-- walk of internal/plancompare/compare.go against a description without an accumulator.
use sql_sentinel.Prelude.{
  Bool, false, ◌||◌, List, [], ◌++◌, ◌≡◌, arith, append_assoc, append-nil, ap, sym, ◌∙◌,
}
use sql_sentinel.Json.{Json, null, bool, num, str, arr, obj, Items, nil, cons, Fields, end, field}
use sql_sentinel.PlanCompare.{TableAccess, Summary}
use sql_sentinel.PlanCompare.Parse.{
  lookup_field, bool_field, accesses, note_object, walk, walk_fields, walk_items, empty_summary,
}

unfoldable mutual
  -- The accesses of the nodes that name a table, a node before its children.
  pub all_accesses : Json → List TableAccess
  all_accesses (obj fields) =
      accesses (lookup_field "table_name" fields) fields ++ fields_accesses fields
  all_accesses (arr items) = items_accesses items
  all_accesses null = []
  all_accesses (bool b) = []
  all_accesses (num n) = []
  all_accesses (str t) = []

  pub fields_accesses : Fields → List TableAccess
  fields_accesses end = []
  fields_accesses (field name v rest) = all_accesses v ++ fields_accesses rest

  pub items_accesses : Items → List TableAccess
  items_accesses nil = []
  items_accesses (cons v rest) = all_accesses v ++ items_accesses rest

unfoldable mutual
  -- A node of the tree sorts.
  pub sorts : Json → Bool
  sorts (obj fields) = bool_field fields "using_filesort" || fields_sort fields
  sorts (arr items) = items_sort items
  sorts null = false
  sorts (bool b) = false
  sorts (num n) = false
  sorts (str t) = false

  pub fields_sort : Fields → Bool
  fields_sort end = false
  fields_sort (field name v rest) = sorts v || fields_sort rest

  pub items_sort : Items → Bool
  items_sort nil = false
  items_sort (cons v rest) = sorts v || items_sort rest

-- A summary with more accesses and sorts.
abbrev plus : Summary → List TableAccess → Bool → Summary
plus s more sorted = record { tables = s.tables ++ more; uses_filesort = s.uses_filesort || sorted }

plus-plus :
    (s : Summary) (xs ys : List TableAccess) (b c : Bool)
    → plus (plus s xs b) ys c ≡ plus s (xs ++ ys) (b || c)
plus-plus s xs ys b c = ground (arith, append_assoc s.tables xs ys)

plus-nil : (s : Summary) → plus s [] false ≡ s
plus-nil s = ground (arith, append-nil s.tables)

mutual
  unfolding walk all_accesses sorts note_object

  walk-plus : (v : Json) (s : Summary) → walk v s ≡ plus s (all_accesses v) (sorts v)
  walk-plus (obj fields) s =
      fields-plus fields (note_object fields s)
      ∙ plus-plus s (accesses (lookup_field "table_name" fields) fields) (fields_accesses fields)
          (bool_field fields "using_filesort") (fields_sort fields)
  walk-plus (arr items) s = items-plus items s
  walk-plus null s = sym (plus-nil s)
  walk-plus (bool b) s = sym (plus-nil s)
  walk-plus (num n) s = sym (plus-nil s)
  walk-plus (str t) s = sym (plus-nil s)

  fields-plus :
      (fields : Fields) (s : Summary)
      → walk_fields fields s ≡ plus s (fields_accesses fields) (fields_sort fields)
  fields-plus end s = sym (plus-nil s)
  fields-plus (field name v rest) s =
      fields-plus rest (walk v s)
      ∙ ap (λ x. plus x (fields_accesses rest) (fields_sort rest)) (walk-plus v s)
      ∙ plus-plus s (all_accesses v) (fields_accesses rest) (sorts v) (fields_sort rest)

  items-plus :
      (items : Items) (s : Summary)
      → walk_items items s ≡ plus s (items_accesses items) (items_sort items)
  items-plus nil s = sym (plus-nil s)
  items-plus (cons v rest) s =
      items-plus rest (walk v s)
      ∙ ap (λ x. plus x (items_accesses rest) (items_sort rest)) (walk-plus v s)
      ∙ plus-plus s (all_accesses v) (items_accesses rest) (sorts v) (items_sort rest)

-- walk without its accumulator.
pub walk-eq :
    (v : Json) → walk v empty_summary ≡ record { tables = all_accesses v; uses_filesort = sorts v }
walk-eq v = walk-plus v empty_summary
