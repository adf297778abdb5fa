-- ===== src/Launch/Parameters.antt =====
-- Declared launch parameters: the schemas of src/harness-adapter-protocol.mjs,
-- `validateDeclaredLaunchParameters` of src/harness-launch.mjs, and the form of
-- src/cockpit-launch-parameters.mjs. Numbers are safe integers; other numbers, lists, objects and null
-- are `other`. The size of a JSON text and the number that a text stands for are parameters.
use sandking.Base.{
  ℕ, ◌+◌, Bool, true, false, not, ◌&&◌, ◌||◌, String, str_eq, List, [], ◌∷◌, Option, none, some,
  ltb, leb, length, any, all, Result, ok, err, if◌then◌else◌,
}
use sandking.Base.Identifiers.{codes}

pub data ℤ : Type 0 where
  pos negsuc : ℕ → ℤ

abbrev pub int_leb : ℤ → ℤ → Bool
int_leb (pos a) (pos b) = leb a b
int_leb (pos a) (negsuc b) = false
int_leb (negsuc a) (pos b) = true
int_leb (negsuc a) (negsuc b) = leb b a

pub data Value : Type 0 where
  number : ℤ → Value
  text : String → Value
  flag : Bool → Value
  other : Value

-- An object: its members in their order, each name once.
abbrev pub Parameters : Type 0
Parameters = List (String × Value)

-- `String.prototype.length` counts a character outside the basic plane twice.
units : List ℕ → ℕ
units [] = 0
units (c ∷ cs) = (if ltb c 65536 then 1 else 2) + units cs

unfoldable pub text_length : String → ℕ
unfolding units
text_length s = units (codes s)

pub data ValueType : Type 0 where
  integer : ℤ → ℤ → ValueType
  string : ℕ → ℕ → ValueType
  boolean : ValueType

pub record Field : Type 0 where
  pub name : String
  pub label : String
  pub cli_flag : Option String
  pub required : Bool
  pub value_type : ValueType

pub data Declaration : Type 0 where
  no_parameters : Declaration
  fields : List Field → Declaration

abbrev is_lower : ℕ → Bool
is_lower c = leb b'a' c && leb c b'z'

abbrev is_alphanumeric : ℕ → Bool
is_alphanumeric c = is_lower c || (leb b'A' c && leb c b'Z') || (leb b'0' c && leb c b'9')

-- `^[a-z][a-zA-Z0-9]*$`.
abbrev is_name : List ℕ → Bool
is_name [] = false
is_name (c ∷ cs) = is_lower c && all is_alphanumeric cs

unfoldable pub is_parameter_name : String → Bool
is_parameter_name s = leb (length (codes s)) 64 && is_name (codes s)

unfoldable pub type_accepts : ValueType → Bool
type_accepts (integer low high) = int_leb low high
type_accepts (string low high) = leb 1 high && leb high 4096 && leb low high
type_accepts boolean = true

abbrev pub is_named : String → List Field → Bool
is_named name = any (λ f. str_eq f.name name)

abbrev same_flag : Option String → Option String → Bool
same_flag none b = false
same_flag (some a) none = false
same_flag (some a) (some b) = str_eq a b

-- Names and flags are each unique.
unfoldable pub are_unique : List Field → Bool
are_unique [] = true
are_unique (f ∷ fs) =
    not (is_named f.name fs) && not (any (λ g. same_flag g.cli_flag f.cli_flag) fs) && are_unique fs

-- `harnessLaunchParametersDeclarationSchema`, of its members that the two readers use.
unfoldable pub declaration_accepts : Declaration → Bool
declaration_accepts no_parameters = true
declaration_accepts (fields fs) =
    leb (length fs) 16
    && all (λ f. is_parameter_name f.name && type_accepts f.value_type) fs
    && are_unique fs

-- `launchParametersSchema`.
unfoldable pub parameters_accept : (Parameters → ℕ) → Parameters → Bool
parameters_accept json_size ps =
    all (λ p. is_parameter_name p.0) ps && leb (length ps) 16 && leb (json_size ps) 8192

-- An own member.
unfoldable pub lookup : String → Parameters → Option Value
lookup name [] = none
lookup name ((n, v) ∷ ps) = if str_eq n name then some v else lookup name ps

-- What `Object.prototype` has under a name that a parameter can have.
unfoldable pub inherited_names : List String
inherited_names =
    "constructor" ∷ "hasOwnProperty" ∷ "isPrototypeOf" ∷ "propertyIsEnumerable" ∷ "toLocaleString"
    ∷ "toString" ∷ "valueOf" ∷ []

unfoldable pub is_inherited : String → Bool
unfolding inherited_names
is_inherited name = any (str_eq name) inherited_names

unfoldable pub inherited : String → Option Value
inherited name = if is_inherited name then some other else none

-- `parameters[name]`: an own member, or a function that the object inherits.
unfoldable pub member : String → Parameters → Option Value
member name ps = elim (lookup name ps) [ some v ↦ some v | none ↦ inherited name ]

abbrev pub fields_of : Declaration → List Field
fields_of no_parameters = []
fields_of (fields fs) = fs

unfoldable pub value_accepts : ValueType → Value → Bool
value_accepts (integer low high) (number n) = int_leb low n && int_leb n high
value_accepts (string low high) (text s) = leb low (text_length s) && leb (text_length s) high
value_accepts boolean (flag b) = true
value_accepts _ _ = false

unfoldable pub field_accepts : Field → Option Value → Bool
unfolding value_accepts
field_accepts f none = not f.required
field_accepts f (some v) = value_accepts f.value_type v

-- The parameters, or none where the source throws `bounded_configuration_invalid`.
unfoldable pub validate_declared_launch_parameters :
    (Parameters → ℕ) → Declaration → Parameters → Option Parameters
validate_declared_launch_parameters json_size declaration ps =
    if declaration_accepts declaration
      && parameters_accept json_size ps
      && all (λ p. is_named p.0 (fields_of declaration)) ps
      && all (λ f. field_accepts f (member f.name ps)) (fields_of declaration)
    then some ps
    else none

-- The errors of the form, with the label of the field.
pub data FormError : Type 0 where
  field_unavailable : FormError
  is_required is_invalid : String → FormError

-- `parameters[name] = value`.
unfoldable pub assign : String → Value → Parameters → Parameters
assign name value [] = (name, value) ∷ []
assign name value ((n, v) ∷ ps) =
    let rest = assign name value ps in if str_eq n name then (n, value) ∷ ps else (n, v) ∷ rest

integer_value : Field → ℤ → ℤ → Option ℤ → Result FormError Value
integer_value f low high none = err (is_invalid f.label)
integer_value f low high (some n) =
    if int_leb low n && int_leb n high then ok (number n) else err (is_invalid f.label)

-- A value that is not empty.
unfoldable pub typed_value :
    (String → Option ℤ) → Field → ValueType → String → Result FormError Value
unfolding integer_value
typed_value to_number f (integer low high) raw = integer_value f low high (to_number raw)
typed_value to_number f (string low high) raw =
    if leb low (text_length raw) && leb (text_length raw) high
    then ok (text raw)
    else err (is_invalid f.label)
typed_value to_number f boolean raw = ok (flag (str_eq raw "true"))

-- What one field adds.
unfoldable pub read_field :
    (String → Option ℤ) → Field → Option String → Parameters → Result FormError Parameters
unfolding typed_value
read_field to_number f none ps = err field_unavailable
read_field to_number f (some raw) ps =
    if str_eq raw ""
    then if f.required then err (is_required f.label) else ok ps
    else elim (typed_value to_number f f.value_type raw) [
      | err e ↦ err e
      | ok v ↦ ok (assign f.name v ps)
    ]

unfoldable pub read_fields :
    (String → Option ℤ)
    → (String → Option String)
    → List Field
    → Parameters
    → Result FormError Parameters
unfolding read_field
read_fields to_number inputs [] ps = ok ps
read_fields to_number inputs (f ∷ fs) ps = elim (read_field to_number f (inputs f.name) ps) [
  | err e ↦ err e
  | ok ps' ↦ read_fields to_number inputs fs ps'
]

-- `inputs` are the trimmed values of the container's inputs, none where there is no such input.
unfoldable pub read_harness_launch_parameters :
    (String → Option ℤ) → (String → Option String) → Declaration → Result FormError Parameters
unfolding read_fields
read_harness_launch_parameters to_number inputs declaration =
    read_fields to_number inputs (fields_of declaration) []
