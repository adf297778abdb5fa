-- ===== src/Launch/Form.antt =====
-- The form of src/cockpit-launch-parameters.mjs against the validation of src/harness-launch.mjs.
use sandking.Base.{
  ℕ, ◌+◌, ◌≤◌, ◌≡◌, refl, ap, ◌∙◌, subst, inl, inr, Bool, true, false, not, ◌&&◌, String, str_eq,
  List, [], ◌∷◌, Option, none, some, is_none, length, all, ok, Result-cases, Bool-cases,
  Option-cases, and_true, eq_iff, eq_refl, arith,
}
use sandking.Launch.Parameters.{
  ℤ, Value, Parameters, Field, ValueType, integer, string, boolean, Declaration, no_parameters,
  fields, is_named, are_unique, declaration_accepts, parameters_accept, lookup, value_accepts,
  field_accepts, is_parameter_name, type_accepts, validate_declared_launch_parameters, assign,
  typed_value, fields_of, is_inherited, inherited, member, read_field, read_fields,
  read_harness_launch_parameters,
}

lookup-assign_same :
    (name : String) (v : Value) (ps : Parameters) → lookup name (assign name v ps) ≡ some v
unfolding lookup assign
lookup-assign_same name v [] = ground (arith, eq_refl name)
lookup-assign_same name v ((n, w) ∷ ps) = ground (arith, lookup-assign_same name v ps)

lookup-assign_other :
    (name other : String) (v : Value) (ps : Parameters)
    → str_eq name other ≡ false
    → lookup other (assign name v ps) ≡ lookup other ps
unfolding lookup assign
lookup-assign_other name other v [] d = ground arith
lookup-assign_other name other v ((n, w) ∷ ps) d =
    ground (arith, lookup-assign_other name other v ps d, eq_iff n name)

-- What holds of the name of a field and of every other name holds of every name.
all-assign :
    (P : String → Bool) (name : String) (v : Value) (ps : Parameters)
    → P name ≡ true
    → all (λ p. P p.0) ps ≡ true
    → all (λ p. P p.0) (assign name v ps) ≡ true
unfolding assign
all-assign P name v [] h h' = ground arith
all-assign P name v ((n, w) ∷ ps) h h' = ground (arith, all-assign P name v ps h)

length-assign :
    (name : String) (v : Value) (ps : Parameters) → length (assign name v ps) ≤ length ps + 1
unfolding assign
length-assign name v [] = omega arith
length-assign name v ((n, w) ∷ ps) = ground (arith, length-assign name v ps)

-- A value that the form takes over is one that the validation accepts.
typed_value-value_accepts :
    (to_number : String → Option ℤ) (f : Field) (type : ValueType) (raw : String) (v : Value)
    → typed_value to_number f type raw ≡ ok v
    → value_accepts type v ≡ true
unfolding typed_value value_accepts
typed_value-value_accepts to_number f (integer low high) raw v e = ground arith
typed_value-value_accepts to_number f (string low high) raw v e = ground arith
typed_value-value_accepts to_number f boolean raw v e = ground arith

-- What one field has done to the parameters.
record IsRead (f : Field) (ps ps' : Parameters) : Type 0 where
  accepted : field_accepts f (lookup f.name ps') ≡ true
  others : (other : String) → str_eq f.name other ≡ false → lookup other ps' ≡ lookup other ps
  named :
      (P : String → Bool)
      → P f.name ≡ true
      → all (λ p. P p.0) ps ≡ true
      → all (λ p. P p.0) ps' ≡ true
  longer : length ps' ≤ length ps + 1

assigned-IsRead :
    (f : Field) (v : Value) (ps : Parameters)
    → value_accepts f.value_type v ≡ true
    → IsRead f ps (assign f.name v ps)
unfolding field_accepts
assigned-IsRead f v ps h = record {
  accepted = ap (field_accepts f) (lookup-assign_same f.name v ps) ∙ h;
  others = λ other d. lookup-assign_other f.name other v ps d;
  named = λ P h' h''. all-assign P f.name v ps h' h'';
  longer = length-assign f.name v ps;
}

skipped-IsRead :
    (f : Field) (ps : Parameters) → f.required ≡ false → lookup f.name ps ≡ none → IsRead f ps ps
unfolding field_accepts
skipped-IsRead f ps h free = record {
  accepted = ap (field_accepts f) free ∙ ap not h;
  others = λ other d. refl;
  named = λ P h' h''. h'';
  longer = omega arith;
}

read_field-IsRead :
    (to_number : String → Option ℤ) (f : Field) (input : Option String) (ps ps' : Parameters)
    → read_field to_number f input ps ≡ ok ps'
    → lookup f.name ps ≡ none
    → IsRead f ps ps'
unfolding read_field
read_field-IsRead to_number f none ps ps' e free = absurd (ground arith)
read_field-IsRead to_number f (some raw) ps ps' e free = elim (Bool-cases (str_eq raw "")) [
  | inl empty ↦
      subst (IsRead f ps) {x = ps} (ground arith) (skipped-IsRead f ps (ground arith) free)
  | inr full ↦ elim (Result-cases (typed_value to_number f f.value_type raw)) [
    | inl (v, typed) ↦
        subst (IsRead f ps) {x = assign f.name v ps} (ground arith)
          (assigned-IsRead f v ps (typed_value-value_accepts to_number f f.value_type raw v typed))
    | inr (x, failed) ↦ absurd (ground arith)
  ]
]

-- No field has a parameter yet.
abbrev are_free : List Field → Parameters → Bool
are_free fs ps = all (λ f. is_none (lookup f.name ps)) fs

str_eq_comm : (a b : String) → str_eq a b ≡ false → str_eq b a ≡ false
str_eq_comm a b h = ground (arith, eq_iff a b, eq_iff b a, eq_refl a)

are_free-others :
    (fs : List Field) (name : String) (ps ps' : Parameters)
    → is_named name fs ≡ false
    → ((other : String) → str_eq name other ≡ false → lookup other ps' ≡ lookup other ps)
    → are_free fs ps ≡ true
    → are_free fs ps' ≡ true
are_free-others [] name ps ps' u h free = refl
are_free-others (f ∷ fs) name ps ps' u h free = ground (
  arith,
  h f.name (str_eq_comm f.name name (ground arith)),
  are_free-others fs name ps ps' (ground arith) h (ground arith),
)

-- What all the fields have done to the parameters.
record AreRead (fs : List Field) (ps ps' : Parameters) : Type 0 where
  accepted : all (λ f. field_accepts f (lookup f.name ps')) fs ≡ true
  others : (other : String) → is_named other fs ≡ false → lookup other ps' ≡ lookup other ps
  named :
      (P : String → Bool)
      → all (λ f. P f.name) fs ≡ true
      → all (λ p. P p.0) ps ≡ true
      → all (λ p. P p.0) ps' ≡ true
  longer : length ps' ≤ length ps + length fs

AreRead-cons :
    (f : Field) (fs : List Field) (ps ps' ps'' : Parameters)
    → is_named f.name fs ≡ false
    → IsRead f ps ps'
    → AreRead fs ps' ps''
    → AreRead (f ∷ fs) ps ps''
AreRead-cons f fs ps ps' ps'' u h r = record {
  accepted = ground (arith, h.accepted, r.accepted, r.others f.name u);
  others = λ other d. r.others other (ground arith) ∙ h.others other (ground arith);
  named = λ P all_named before.
      r.named P (and_true (P f.name) _ all_named).1 (h.named P (and_true _ _ all_named).0 before);
  longer = omega (arith, h.longer, r.longer);
}

read_fields-AreRead :
    (to_number : String → Option ℤ) (inputs : String → Option String) (fs : List Field)
    (ps ps' : Parameters)
    → are_unique fs ≡ true
    → are_free fs ps ≡ true
    → read_fields to_number inputs fs ps ≡ ok ps'
    → AreRead fs ps ps'
unfolding read_fields are_unique
read_fields-AreRead to_number inputs [] ps ps' u free e = record {
  accepted = refl;
  others = λ other d. ground arith;
  named = λ P h h'. ground (arith, h');
  longer = ground arith;
}
read_fields-AreRead to_number inputs (f ∷ fs) ps ps' u free e =
    elim (Result-cases (read_field to_number f (inputs f.name) ps)) [
      | inl (read, made) ↦
          let first = read_field-IsRead to_number f (inputs f.name) ps read made (ground arith) in
          AreRead-cons f fs ps read ps' (ground arith) first (
            read_fields-AreRead to_number inputs fs read ps' (ground arith)
              (are_free-others fs f.name ps read (ground arith) first.others (ground arith))
              (ground arith))
      | inr (x, failed) ↦ absurd (ground arith)
    ]

are_free-empty : (fs : List Field) → are_free fs [] ≡ true
unfolding lookup
are_free-empty [] = refl
are_free-empty (f ∷ fs) = ground (arith, are_free-empty fs)

all-is_named_more :
    (g : Field) (fs hs : List Field)
    → all (λ f. is_named f.name fs) hs ≡ true
    → all (λ f. is_named f.name (g ∷ fs)) hs ≡ true
all-is_named_more g fs [] h = refl
all-is_named_more g fs (f ∷ hs) h = ground (arith, all-is_named_more g fs hs (ground arith))

-- Every field is named by the declaration that it is of.
all-is_named : (fs : List Field) → all (λ f. is_named f.name fs) fs ≡ true
all-is_named [] = refl
all-is_named (f ∷ fs) = ground (arith, eq_refl f.name, all-is_named_more f fs fs (all-is_named fs))

all-is_parameter_name :
    (fs : List Field)
    → all (λ f. is_parameter_name f.name && type_accepts f.value_type) fs ≡ true
    → all (λ f. is_parameter_name f.name) fs ≡ true
all-is_parameter_name [] h = refl
all-is_parameter_name (f ∷ fs) h = ground (arith, all-is_parameter_name fs (ground arith))

member-lookup :
    (name : String) (ps : Parameters) → is_inherited name ≡ false → member name ps ≡ lookup name ps
unfolding member inherited
member-lookup name ps own = elim (Option-cases (lookup name ps)) [
  | inl missing ↦ ground arith
  | inr (v, found) ↦ ground arith
]

-- A field accepts what it finds under a name that is not inherited, as it does an own member.
all-member :
    (fs : List Field) (ps : Parameters)
    → all (λ f. not (is_inherited f.name)) fs ≡ true
    → all (λ f. field_accepts f (lookup f.name ps)) fs ≡ true
    → all (λ f. field_accepts f (member f.name ps)) fs ≡ true
all-member [] ps own h = refl
all-member (f ∷ fs) ps own h = ground (arith, all-member fs ps, member-lookup f.name ps)

read_fields-validated :
    (json_size : Parameters → ℕ) (fs : List Field) (ps : Parameters)
    → declaration_accepts (fields fs) ≡ true
    → all (λ f. not (is_inherited f.name)) fs ≡ true
    → json_size ps ≤ 8192
    → AreRead fs [] ps
    → validate_declared_launch_parameters json_size (fields fs) ps ≡ some ps
unfolding validate_declared_launch_parameters declaration_accepts parameters_accept
read_fields-validated json_size fs ps h own small r = ground (
  arith,
  all-member fs ps own r.accepted,
  r.longer,
  r.named is_parameter_name (all-is_parameter_name fs (ground arith)) refl,
  r.named (λ n. is_named n fs) (all-is_named fs) refl,
)

-- What the form accepts for a valid declaration without a field named like a member that every object
-- inherits, the validation accepts unchanged, where the JSON text of the parameters is within its bound.
pub read_harness_launch_parameters-validate_declared_launch_parameters :
    (json_size : Parameters → ℕ) (to_number : String → Option ℤ) (inputs : String → Option String)
    (declaration : Declaration) (ps : Parameters)
    → declaration_accepts declaration ≡ true
    → all (λ f. not (is_inherited f.name)) (fields_of declaration) ≡ true
    → read_harness_launch_parameters to_number inputs declaration ≡ ok ps
    → json_size ps ≤ 8192
    → validate_declared_launch_parameters json_size declaration ps ≡ some ps
unfolding read_harness_launch_parameters read_fields validate_declared_launch_parameters
    declaration_accepts parameters_accept
read_harness_launch_parameters-validate_declared_launch_parameters json_size to_number inputs
      no_parameters ps h own e small =
    ground arith
read_harness_launch_parameters-validate_declared_launch_parameters json_size to_number inputs
      (fields fs) ps h own e small =
    read_fields-validated json_size fs ps h own small
      (read_fields-AreRead to_number inputs fs [] ps (ground arith) (are_free-empty fs) e)
