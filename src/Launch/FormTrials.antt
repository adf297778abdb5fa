-- ===== src/Launch/FormTrials.antt =====
-- The form of src/cockpit-launch-parameters.mjs at a declaration with each type of field.
use sandking.Base.{
  all, not, ◌*◌, ◌≡◌, refl, true, false, String, str_eq, [], ◌∷◌, Option, none, some, ok, length,
  arith, if◌then◌else◌,
}
use sandking.Launch.Parameters.{
  ℤ, pos, number, flag, Parameters, integer, string, boolean, Declaration, fields, are_unique,
  declaration_accepts, is_inherited, inherited_names, fields_of, member, inherited, lookup,
  parameters_accept, field_accepts, value_accepts, is_parameter_name, type_accepts,
  validate_declared_launch_parameters, assign, typed_value, read_field, read_fields,
  read_harness_launch_parameters,
}
use sandking.Launch.Form.{read_harness_launch_parameters-validate_declared_launch_parameters}

abbrev declaration : Declaration
declaration = fields (
    record {
      name = "issueNumber";
      label = "Issue";
      cli_flag = some "--issue";
      required = true;
      value_type = integer (pos 1) (pos 1000);
    }
    ∷ record {
      name = "note";
      label = "Note";
      cli_flag = none;
      required = false;
      value_type = string 0 20;
    }
    ∷ record {
      name = "dryRun";
      label = "Dry run";
      cli_flag = none;
      required = false;
      value_type = boolean;
    }
    ∷ [])

abbrev inputs : String → Option String
inputs name =
    if str_eq name "issueNumber"
    then some "42"
    else if str_eq name "note"
    then some ""
    else some "true"

abbrev to_number : String → Option ℤ
to_number raw = if str_eq raw "42" then some (pos 42) else none

abbrev parameters : Parameters
parameters = ("issueNumber", number (pos 42)) ∷ ("dryRun", flag true) ∷ []

declaration_accepts_lem : declaration_accepts declaration ≡ true
unfolding declaration_accepts is_parameter_name type_accepts are_unique
declaration_accepts_lem = refl

declaration-is_inherited : all (λ f. not (is_inherited f.name)) (fields_of declaration) ≡ true
unfolding is_inherited inherited_names
declaration-is_inherited = refl

-- An optional field that is named like an inherited member and left empty: the form accepts it, and the
-- validation finds a function.
abbrev inheriting : Declaration
inheriting = fields (
    record {
      name = "constructor";
      label = "Constructor";
      cli_flag = none;
      required = false;
      value_type = string 0 20;
    }
    ∷ [])

inheriting_accepted :
    (declaration_accepts inheriting ≡ true)
    × (read_harness_launch_parameters to_number (λ name. some "") inheriting ≡ ok [])
unfolding declaration_accepts is_parameter_name type_accepts are_unique
    read_harness_launch_parameters read_fields read_field
inheriting_accepted = (refl, refl)

inheriting_rejected : validate_declared_launch_parameters (λ ps. 2) inheriting [] ≡ none
unfolding validate_declared_launch_parameters declaration_accepts is_parameter_name type_accepts
    are_unique parameters_accept member inherited lookup is_inherited inherited_names field_accepts
    value_accepts
inheriting_rejected = refl

read_harness_launch_parameters_lem :
    read_harness_launch_parameters to_number inputs declaration ≡ ok parameters
unfolding read_harness_launch_parameters read_fields read_field typed_value assign
read_harness_launch_parameters_lem = refl

read_harness_launch_parameters-validate_declared_launch_parameters_example :
    validate_declared_launch_parameters (λ ps. 40 * length ps) declaration parameters
    ≡ some parameters
read_harness_launch_parameters-validate_declared_launch_parameters_example =
    read_harness_launch_parameters-validate_declared_launch_parameters (λ ps. 40 * length ps)
      to_number inputs declaration parameters declaration_accepts_lem declaration-is_inherited
      read_harness_launch_parameters_lem (omega arith)
