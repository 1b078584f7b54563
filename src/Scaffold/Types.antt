-- ===== src/Scaffold/Types.antt =====
-- acton-dx/src/cli/htmx/scaffold/field_type.rs: the types of fields, and how they are written, in a
-- definition, in Rust and in SQL.
use acton_dx.Prelude.{Bool, List, [], ◌∷◌, ◌++◌, if◌then◌else◌}
use acton_dx.Prelude.Text.{Text, codes}
use acton_dx.Prelude.Parts.{join}

pub data FieldType : Type 0 where
  string text integer big_int boolean float double decimal : FieldType
  date date_time timestamp json uuid : FieldType
  reference : Text → FieldType
  array : FieldType → FieldType
  enum_of : Text → List Text → FieldType

pub record FieldDefinition : Type 0 where
  pub name : Text
  pub field_type : FieldType
  pub optional : Bool
  pub unique : Bool
  pub indexed : Bool

unfoldable pub show_type : FieldType → Text
show_type string = codes "string"
show_type text = codes "text"
show_type integer = codes "integer"
show_type big_int = codes "bigint"
show_type boolean = codes "boolean"
show_type float = codes "float"
show_type double = codes "double"
show_type decimal = codes "decimal"
show_type date = codes "date"
show_type date_time = codes "datetime"
show_type timestamp = codes "timestamp"
show_type json = codes "json"
show_type uuid = codes "uuid"
show_type (reference model) = codes "references:" ++ model
show_type (array t) = codes "array:" ++ show_type t
show_type (enum_of name variants) =
    codes "enum:" ++ (name ++ (codes "(" ++ (join b',' variants ++ codes ")")))

unfoldable pub show_modifiers : Bool → Bool → Bool → Text
show_modifiers o u i =
    (if o then codes ":optional" else [])
    ++ ((if u then codes ":unique" else []) ++ (if i then codes ":indexed" else []))

unfoldable pub show_definition : FieldDefinition → Text
show_definition d =
    d.name ++ b':' ∷ (show_type d.field_type ++ show_modifiers d.optional d.unique d.indexed)

unfoldable pub rust_type : FieldType → Text
rust_type string = codes "String"
rust_type text = codes "String"
rust_type integer = codes "i32"
rust_type big_int = codes "i64"
rust_type boolean = codes "bool"
rust_type float = codes "f32"
rust_type double = codes "f64"
rust_type decimal = codes "rust_decimal::Decimal"
rust_type date = codes "chrono::NaiveDate"
rust_type date_time = codes "chrono::NaiveDateTime"
rust_type timestamp = codes "chrono::DateTime<chrono::Utc>"
rust_type json = codes "serde_json::Value"
rust_type uuid = codes "uuid::Uuid"
rust_type (reference model) = model ++ codes "Id"
rust_type (array t) = codes "Vec<" ++ (rust_type t ++ codes ">")
rust_type (enum_of name variants) = name

unfoldable pub rust_type_of : FieldDefinition → Text
rust_type_of d =
    if d.optional
    then codes "Option<" ++ (rust_type d.field_type ++ codes ">")
    else rust_type d.field_type

unfoldable pub sql_type : FieldType → Text
sql_type string = codes "VARCHAR(255)"
sql_type text = codes "TEXT"
sql_type integer = codes "INTEGER"
sql_type big_int = codes "BIGINT"
sql_type boolean = codes "BOOLEAN"
sql_type float = codes "REAL"
sql_type double = codes "DOUBLE PRECISION"
sql_type decimal = codes "DECIMAL(19,4)"
sql_type date = codes "DATE"
sql_type date_time = codes "TIMESTAMP"
sql_type timestamp = codes "TIMESTAMP WITH TIME ZONE"
sql_type json = codes "JSONB"
sql_type uuid = codes "UUID"
sql_type (reference model) = codes "BIGINT"
sql_type (array t) = sql_type t ++ codes "[]"
sql_type (enum_of name variants) = codes "VARCHAR(50)"
