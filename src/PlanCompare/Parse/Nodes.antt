-- ===== src/PlanCompare/Parse/Nodes.antt =====
-- What walk of internal/plancompare/compare.go reads in the tree of a plan, object by object.
use sql_sentinel.Prelude.{
  refl, ◌≢◌, ◌⊎◌, inl, inr, String, Option, none, some, true, Bool-cases, ◌∷◌, All, All-append,
  subst, List, [], ◌++◌, ◌≡◌, arith, ap, sym, ◌∙◌,
}
use sql_sentinel.Json.{Json, null, bool, num, str, arr, obj, Items, nil, cons, Fields, end, field}
use sql_sentinel.PlanCompare.{TableAccess, Summary}
use sql_sentinel.PlanCompare.Parse.Walk.{
  all_accesses, fields_accesses, items_accesses, sorts, fields_sort, items_sort,
}
use sql_sentinel.PlanCompare.Parse.{
  access, text_of, flag_of, string_field, lookup_field, bool_field, accesses,
}

unfoldable mutual
  -- An object stands in the tree of a value: its fields.
  pub HasNode : Fields → Json → Type 0
  HasNode node (obj fields) = (node ≡ fields) ⊎ FieldsHave node fields
  HasNode node (arr items) = ItemsHave node items
  HasNode node null = ⊥
  HasNode node (bool b) = ⊥
  HasNode node (num n) = ⊥
  HasNode node (str t) = ⊥

  pub FieldsHave : Fields → Fields → Type 0
  FieldsHave node end = ⊥
  FieldsHave node (field name v rest) = HasNode node v ⊎ FieldsHave node rest

  pub ItemsHave : Fields → Items → Type 0
  ItemsHave node nil = ⊥
  ItemsHave node (cons v rest) = HasNode node v ⊎ ItemsHave node rest

-- The field holds true.
abbrev pub IsTrue : String → Fields → Type 0
IsTrue key node = lookup_field key node ≡ some (bool true)

-- A text of the summary: that of the field, and empty if the field holds no text.
abbrev pub TextIs : String → Fields → String → Type 0
TextIs key node text =
    (lookup_field key node ≡ some (str text))
    ⊎ (((t : String) → lookup_field key node ≢ some (str t)) × (text ≡ ""))

-- The access that a node with a table tells of.
pub record IsAccess (node : Fields) (a : TableAccess) : Type 0 where
  pub names : lookup_field "table_name" node ≡ some (str a.table_name)
  pub access_type : TextIs "access_type" node a.access_type
  pub key : TextIs "key" node a.key
  pub index_used : IsTrue "using_index" node → a.using_index ≡ true
  pub index_said : a.using_index ≡ true → IsTrue "using_index" node

flag_of-true : (o : Option Json) → flag_of o ≡ true → o ≡ some (bool true)
flag_of-true none h = absurd (ground (arith, h))
flag_of-true (some (bool b)) h = ap (λ c. some (bool c)) h
flag_of-true (some null) h = absurd (ground (arith, h))
flag_of-true (some (num n)) h = absurd (ground (arith, h))
flag_of-true (some (str t)) h = absurd (ground (arith, h))
flag_of-true (some (arr items)) h = absurd (ground (arith, h))
flag_of-true (some (obj fields)) h = absurd (ground (arith, h))

text_of-cases :
    (o : Option Json)
    → (o ≡ some (str (text_of o))) ⊎ (((t : String) → o ≢ some (str t)) × (text_of o ≡ ""))
text_of-cases none = inr (λ t h. ground (arith, h), refl)
text_of-cases (some (bool b)) = inr (λ t h. ground (arith, h), refl)
text_of-cases (some null) = inr (λ t h. ground (arith, h), refl)
text_of-cases (some (num n)) = inr (λ t h. ground (arith, h), refl)
text_of-cases (some (str t)) = inl refl
text_of-cases (some (arr items)) = inr (λ t h. ground (arith, h), refl)
text_of-cases (some (obj fields)) = inr (λ t h. ground (arith, h), refl)

bool_field-IsTrue : (key : String) (node : Fields) → bool_field node key ≡ true → IsTrue key node
unfolding bool_field
bool_field-IsTrue key node h = flag_of-true (lookup_field key node) h

IsTrue-bool_field : (key : String) (node : Fields) → IsTrue key node → bool_field node key ≡ true
unfolding bool_field
IsTrue-bool_field key node h = ap flag_of h

string_field-TextIs : (key : String) (node : Fields) → TextIs key node (string_field node key)
unfolding string_field
string_field-TextIs key node = text_of-cases (lookup_field key node)

mutual
  unfolding sorts HasNode

  sorts_node :
      (v : Json) → sorts v ≡ true → (node : Fields) × HasNode node v × IsTrue "using_filesort" node
  sorts_node (obj fields) h = elim (Bool-cases (bool_field fields "using_filesort")) [
    | inl own ↦ (fields, inl refl, bool_field-IsTrue "using_filesort" fields own)
    | inr not_own ↦
        let (node, at, sorted) = fields_sort_node fields (ground (arith, h)) in
        (node, inr at, sorted)
  ]
  sorts_node (arr items) h = items_sort_node items h
  sorts_node null h = absurd (ground (arith, h))
  sorts_node (bool b) h = absurd (ground (arith, h))
  sorts_node (num n) h = absurd (ground (arith, h))
  sorts_node (str t) h = absurd (ground (arith, h))

  fields_sort_node :
      (fields : Fields)
      → fields_sort fields ≡ true
      → (node : Fields) × FieldsHave node fields × IsTrue "using_filesort" node
  fields_sort_node end h = absurd (ground (arith, h))
  fields_sort_node (field name v rest) h = elim (Bool-cases (sorts v)) [
    | inl first ↦ let (node, at, sorted) = sorts_node v first in (node, inl at, sorted)
    | inr not_first ↦
        let (node, at, sorted) = fields_sort_node rest (ground (arith, h)) in (node, inr at, sorted)
  ]

  items_sort_node :
      (items : Items)
      → items_sort items ≡ true
      → (node : Fields) × ItemsHave node items × IsTrue "using_filesort" node
  items_sort_node nil h = absurd (ground (arith, h))
  items_sort_node (cons v rest) h = elim (Bool-cases (sorts v)) [
    | inl first ↦ let (node, at, sorted) = sorts_node v first in (node, inl at, sorted)
    | inr not_first ↦
        let (node, at, sorted) = items_sort_node rest (ground (arith, h)) in (node, inr at, sorted)
  ]

mutual
  unfolding sorts HasNode

  node_sorts :
      (v : Json) (node : Fields) → HasNode node v → IsTrue "using_filesort" node → sorts v ≡ true
  node_sorts (obj fields) node (inl same) h =
      let own =
        IsTrue-bool_field "using_filesort" fields
          (ap (lookup_field "using_filesort") (sym same) ∙ h) in
      ground (arith, own)
  node_sorts (obj fields) node (inr below) h = ground (arith, node_fields_sort fields node below h)
  node_sorts (arr items) node below h = node_items_sort items node below h
  node_sorts null node below h = absurd below
  node_sorts (bool b) node below h = absurd below
  node_sorts (num n) node below h = absurd below
  node_sorts (str t) node below h = absurd below

  node_fields_sort :
      (fields : Fields) (node : Fields)
      → FieldsHave node fields
      → IsTrue "using_filesort" node
      → fields_sort fields ≡ true
  node_fields_sort end node below h = absurd below
  node_fields_sort (field name v rest) node (inl at) h = ground (arith, node_sorts v node at h)
  node_fields_sort (field name v rest) node (inr at) h =
      ground (arith, node_fields_sort rest node at h)

  node_items_sort :
      (items : Items) (node : Fields)
      → ItemsHave node items
      → IsTrue "using_filesort" node
      → items_sort items ≡ true
  node_items_sort nil node below h = absurd below
  node_items_sort (cons v rest) node (inl at) h = ground (arith, node_sorts v node at h)
  node_items_sort (cons v rest) node (inr at) h = ground (arith, node_items_sort rest node at h)

access-IsAccess :
    (name : String) (node : Fields)
    → lookup_field "table_name" node ≡ some (str name)
    → IsAccess node (access name node)
access-IsAccess name node h = record {
  names = h;
  access_type = string_field-TextIs "access_type" node;
  key = string_field-TextIs "key" node;
  index_used = IsTrue-bool_field "using_index" node;
  index_said = bool_field-IsTrue "using_index" node;
}

module _ (P : TableAccess → Type 0) where
  own_accesses :
      (node : Fields) (o : Option Json)
      → lookup_field "table_name" node ≡ o
      → ((a : TableAccess) → IsAccess node a → P a)
      → All P (accesses o node)
  own_accesses node none h f = tt
  own_accesses node (some (str name)) h f = (f (access name node) (access-IsAccess name node h), tt)
  own_accesses node (some null) h f = tt
  own_accesses node (some (bool b)) h f = tt
  own_accesses node (some (num n)) h f = tt
  own_accesses node (some (arr items)) h f = tt
  own_accesses node (some (obj fields)) h f = tt

  mutual
    unfolding all_accesses HasNode

    accesses_of_nodes :
        (v : Json)
        → ((node : Fields) (a : TableAccess) → HasNode node v → IsAccess node a → P a)
        → All P (all_accesses v)
    accesses_of_nodes (obj fields) f =
        All-append P (accesses (lookup_field "table_name" fields) fields) (fields_accesses fields)
          (own_accesses fields (lookup_field "table_name" fields) refl (λ a. f fields a (inl refl)))
          (accesses_of_fields fields (λ node a at. f node a (inr at)))
    accesses_of_nodes (arr items) f = accesses_of_items items f
    accesses_of_nodes null f = tt
    accesses_of_nodes (bool b) f = tt
    accesses_of_nodes (num n) f = tt
    accesses_of_nodes (str t) f = tt

    accesses_of_fields :
        (fields : Fields)
        → ((node : Fields) (a : TableAccess) → FieldsHave node fields → IsAccess node a → P a)
        → All P (fields_accesses fields)
    accesses_of_fields end f = tt
    accesses_of_fields (field name v rest) f =
        All-append P (all_accesses v) (fields_accesses rest)
          (accesses_of_nodes v (λ node a at. f node a (inl at)))
          (accesses_of_fields rest (λ node a at. f node a (inr at)))

    accesses_of_items :
        (items : Items)
        → ((node : Fields) (a : TableAccess) → ItemsHave node items → IsAccess node a → P a)
        → All P (items_accesses items)
    accesses_of_items nil f = tt
    accesses_of_items (cons v rest) f =
        All-append P (all_accesses v) (items_accesses rest)
          (accesses_of_nodes v (λ node a at. f node a (inl at)))
          (accesses_of_items rest (λ node a at. f node a (inr at)))

-- An access stands in a list.
abbrev pub Among : TableAccess → List TableAccess → Type 0
Among a [] = ⊥
Among a (x ∷ xs) = (a ≡ x) ⊎ Among a xs

Among-first : (a : TableAccess) (xs ys : List TableAccess) → Among a xs → Among a (xs ++ ys)
Among-first a [] ys h = absurd h
Among-first a (x ∷ xs) ys (inl same) = inl same
Among-first a (x ∷ xs) ys (inr later) = inr (Among-first a xs ys later)

Among-second : (a : TableAccess) (xs ys : List TableAccess) → Among a ys → Among a (xs ++ ys)
Among-second a [] ys h = h
Among-second a (x ∷ xs) ys h = inr (Among-second a xs ys h)

module _ (node : Fields) (a : TableAccess)
    (mine : Among a (accesses (lookup_field "table_name" node) node)) where
  mutual
    unfolding all_accesses HasNode

    node-Among : (v : Json) → HasNode node v → Among a (all_accesses v)
    node-Among (obj fields) (inl same) =
        Among-first a (accesses (lookup_field "table_name" fields) fields) (fields_accesses fields)
          (subst (λ (n : Fields). Among a (accesses (lookup_field "table_name" n) n)) same mine)
    node-Among (obj fields) (inr below) =
        Among-second a (accesses (lookup_field "table_name" fields) fields) (fields_accesses fields)
          (fields-Among fields below)
    node-Among (arr items) below = items-Among items below
    node-Among null below = absurd below
    node-Among (bool b) below = absurd below
    node-Among (num n) below = absurd below
    node-Among (str t) below = absurd below

    fields-Among : (fields : Fields) → FieldsHave node fields → Among a (fields_accesses fields)
    fields-Among end below = absurd below
    fields-Among (field name v rest) (inl at) =
        Among-first a (all_accesses v) (fields_accesses rest) (node-Among v at)
    fields-Among (field name v rest) (inr at) =
        Among-second a (all_accesses v) (fields_accesses rest) (fields-Among rest at)

    items-Among : (items : Items) → ItemsHave node items → Among a (items_accesses items)
    items-Among nil below = absurd below
    items-Among (cons v rest) (inl at) =
        Among-first a (all_accesses v) (items_accesses rest) (node-Among v at)
    items-Among (cons v rest) (inr at) =
        Among-second a (all_accesses v) (items_accesses rest) (items-Among rest at)

-- A summary tells of the tree of a plan what its objects say.
pub record Summarizes (v : Json) (s : Summary) : Type 0 where
  pub sorted_by :
      s.uses_filesort ≡ true → (node : Fields) × HasNode node v × IsTrue "using_filesort" node
  pub sorts_if :
      (node : Fields) → HasNode node v → IsTrue "using_filesort" node → s.uses_filesort ≡ true
  pub nothing_else :
      All (λ (a : TableAccess). (node : Fields) × HasNode node v × IsAccess node a) s.tables
  pub each_table :
      (node : Fields) (name : String)
      → HasNode node v
      → lookup_field "table_name" node ≡ some (str name)
      → (a : TableAccess) × Among a s.tables × IsAccess node a
