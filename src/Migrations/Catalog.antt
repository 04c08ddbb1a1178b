-- ===== src/Migrations/Catalog.antt =====
-- The catalog of the database, as far as the migrations change it, and Alembic's operations on it. These
-- are Alembic's and PostgreSQL's, so they are the parameter Ddl, with documented behaviour as its laws.
use chekin_interview.Base.{
  ℕ, String, ◌≡◌, ◌≢◌, Bool, false, ◌||◌, Option, none, some, List, [], ◌∷◌, ◌++◌, str_eq,
  if◌then◌else◌,
}

pub data SqlType : Type 0 where
  uuid jsonb integer timestamp_tz : SqlType
  numeric : (precision scale : ℕ) → SqlType
  string : (length : ℕ) → SqlType

pub record Column : Type 0 where
  pub name : String
  pub type : SqlType
  pub nullable : Bool
  pub server_default : Option String

-- A CHECK, by its name and its text.
pub record Check : Type 0 where
  pub name : String
  pub sql : String

pub record ForeignKey : Type 0 where
  pub column : String
  pub table : String
  pub refers_to : String

pub record Table : Type 0 where
  pub columns : List Column
  pub checks : List Check
  pub primary_key : List String
  pub foreign_keys : List ForeignKey

pub record Index : Type 0 where
  pub table : String
  pub columns : List String
  pub unique : Bool

pub record Trigger : Type 0 where
  pub table : String
  pub function : String
  pub event : String
  pub each_row : Bool
  pub deferred : Bool

-- What a name of the catalog names.
pub data Key : Type 0 where
  table_key index_key function_key trigger_key : String → Key

pub data Object : Type 0 where
  a_table : Table → Object
  an_index : Index → Object
  a_function : Object
  a_trigger : Trigger → Object

abbrev pub same_key : Key → Key → Bool
same_key (table_key a) (table_key b) = str_eq a b
same_key (index_key a) (index_key b) = str_eq a b
same_key (function_key a) (function_key b) = str_eq a b
same_key (trigger_key a) (trigger_key b) = str_eq a b
same_key _ _ = false

-- What an object cannot be without.
abbrev referred : List ForeignKey → List Key
referred [] = []
referred (x ∷ xs) = table_key x.table ∷ referred xs

abbrev pub needs : Object → List Key
needs (a_table t) = referred t.foreign_keys
needs (an_index i) = table_key i.table ∷ []
needs a_function = []
needs (a_trigger t) = table_key t.table ∷ function_key t.function ∷ []

abbrev pub among : Key → List Key → Bool
among k [] = false
among k (x ∷ xs) = same_key k x || among k xs

-- A catalog by its names.
abbrev pub View : Type 0
View = Key → Option Object

abbrev pub put : Key → Option Object → View → View
put k o v j = if same_key j k then o else v j

-- Nothing in the catalog needs it.
abbrev pub IsFree : Key → View → Type 0
IsFree k v = (j : Key) (o : Object) → v j ≡ some o → among k (needs o) ≡ false

-- The changes of a table.
pub data Alteration : Type 0 where
  rename_column : (name new_name : String) → Alteration
  add_column : Column → Alteration
  set_default : (name : String) → Option String → Alteration
  drop_column : (name : String) → Alteration

abbrev each_column : (Column → Column) → String → List Column → List Column
each_column f n [] = []
each_column f n (c ∷ cs) = (if str_eq c.name n then f c else c) ∷ each_column f n cs

abbrev without_column : String → List Column → List Column
without_column n [] = []
without_column n (c ∷ cs) = if str_eq c.name n then without_column n cs else c ∷ without_column n cs

abbrev pub has_column : String → List Column → Bool
has_column n [] = false
has_column n (c ∷ cs) = str_eq c.name n || has_column n cs

-- `op.alter_column`, `op.add_column` and `op.drop_column` on a table; none where the column is missing,
-- or there already.
abbrev pub altered : Alteration → Table → Option Table
altered (rename_column n m) t =
    if has_column n t.columns
    then if has_column m t.columns
      then none
      else some (record t { columns = each_column (λ c. record c { name = m }) n t.columns })
    else none
altered (add_column c) t =
    if has_column c.name t.columns then none else some (record t { columns = t.columns ++ c ∷ [] })
altered (set_default n d) t =
    if has_column n t.columns
    then some
        (record t { columns = each_column (λ c. record c { server_default = d }) n t.columns })
    else none
altered (drop_column n) t =
    if has_column n t.columns
    then some (record t { columns = without_column n t.columns })
    else none

-- Each operation may be refused, and its law says what it has done if it was not. `lookup` tells of what
-- a statement has named; the index of a primary key goes with its table.
pub record Ddl : Type 1 where
  pub Catalog : Type 0
  pub lookup : Catalog → View
  -- `op.create_table`, `op.create_index` and the CREATE statements. What OR REPLACE and IF EXISTS allow
  -- besides is left open.
  pub create : Key → Object → Catalog → Option Catalog
  -- `op.drop_table`, `op.drop_index` and the DROP statements.
  pub drop : Key → Catalog → Option Catalog
  pub alter : String → Alteration → Catalog → Option Catalog
  pub create_makes :
      (k : Key) (o : Object) (s s' : Catalog)
      → lookup s k ≡ none
      → create k o s ≡ some s'
      → (j : Key) → lookup s' j ≡ put k (some o) (lookup s) j
  pub drop_removes :
      (k : Key) (s s' : Catalog)
      → lookup s k ≢ none
      → IsFree k (lookup s)
      → drop k s ≡ some s'
      → (j : Key) → lookup s' j ≡ put k none (lookup s) j
  pub alter_changes :
      (n : String) (a : Alteration) (t t' : Table) (s s' : Catalog)
      → lookup s (table_key n) ≡ some (a_table t)
      → IsFree (table_key n) (lookup s)
      → altered a t ≡ some t'
      → alter n a s ≡ some s'
      → (j : Key) → lookup s' j ≡ put (table_key n) (some (a_table t')) (lookup s) j
