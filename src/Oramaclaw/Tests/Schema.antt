-- ===== src/Oramaclaw/Tests/Schema.antt =====
-- Runs of the manifest checks of src/oramaclaw/schema.py.
use orama_system.Base.{String, ◌≡◌, refl, true, false, some, [], ◌↔◌, pos}
use orama_system.Oramaclaw.Json.{
  Value, text, num, boolean, arr, obj, Items, nil, cons, Fields, end, field, get_field, value_eq,
}
use orama_system.Oramaclaw.Schema.{
  is_forbidden, has_no_credentials, resource_valid, resources_valid, validate_schema,
}
use orama_system.Oramaclaw.Schema.Credentials.{Leak, has_no_credentials_iff}
use orama_system.Oramaclaw.Schema.Accepted.{IsAccepted, validate_schema-IsAccepted}

-- A key two levels down, in a list.
abbrev leaky : Value
leaky = obj (field "auth" (arr (cons (obj (field "token" (text "s3cr3t") end)) nil)) end)

has_no_credentials_iff_example : (has_no_credentials leaky ≡ false) ↔ Leak leaky
has_no_credentials_iff_example = has_no_credentials_iff leaky

leaky_rejected : has_no_credentials leaky ≡ false
unfolding has_no_credentials is_forbidden
leaky_rejected = refl

abbrev entry : String → String → Fields
entry id policy = field "kind" (text "delegation") (
    field "id" (text id) (
      field "manager" (text "orama") (
        field "policy" (text policy) (
          field "spec" (obj (field "model" (text "new") end)) (
            field "managed_paths" (arr (cons (text "/model") nil))
              (field "security_topology" (boolean true) end))))))

abbrev two_resources : Items
two_resources = cons (obj (entry "a" "conflict")) (cons (obj (entry "b" "conflict")) nil)

abbrev two_fields : Fields
two_fields = field "version" (num (pos 1)) (field "resources" (arr two_resources) end)

abbrev shown : Value → String
shown v = "value"

two_valid : validate_schema shown (obj two_fields) ≡ true
unfolding validate_schema resources_valid resource_valid has_no_credentials is_forbidden get_field
    value_eq
two_valid = refl

strict_rejected : resource_valid shown [] (entry "a" "strict") ≡ false
unfolding resource_valid has_no_credentials is_forbidden get_field value_eq
strict_rejected = refl

validate_schema-IsAccepted_example :
    (xs : Items) × (get_field "resources" two_fields ≡ some (arr xs))
    × IsAccepted shown two_fields xs
validate_schema-IsAccepted_example = validate_schema-IsAccepted shown two_fields two_valid

no_resources_rejected : validate_schema shown (obj (field "version" (num (pos 1)) end)) ≡ false
unfolding validate_schema get_field value_eq
no_resources_rejected = refl
