-- ===== src/Oramaclaw/Tests/Plans.antt =====
-- Runs of the planner of src/oramaclaw/merge.py and of its pointers.
use orama_system.Base.{String, ◌≡◌, ◌≢◌, refl, false, [], ◌∷◌, ◌↔◌, eq_iff}
use mathlib.Core.Bool.{false≢true}
use orama_system.Oramaclaw.Json.{text, obj, value_eq, get_field}
use orama_system.Oramaclaw.Pointer.{
  extract_field, spec_value, set_path, unescape, walk, step, tokens_of, leaf_of,
}
use orama_system.Oramaclaw.Pointer.Roundtrip.{pointer, extract_field-set_path}
use orama_system.Oramaclaw.Types.{strict}
use orama_system.Oramaclaw.Store.{field_fingerprint}
use orama_system.Oramaclaw.Merge.{apply, plan_field, resource_key_of}
use orama_system.Oramaclaw.Merge.Policy.{IsClean, apply_iff}
use orama_system.Oramaclaw.Tests.Data.{print_of, empty_store, model_field, live_fields}

apply_iff_example :
    ((plan_field print_of (model_field strict) "/model" (obj live_fields) empty_store).action.kind
      ≡ apply)
    ↔ ((value_eq
            (spec_value (model_field strict).spec "/model")
            (extract_field (obj live_fields) "/model")
          ≡ false)
        × IsClean print_of
            (model_field strict)
            "/model"
            (obj live_fields)
            empty_store
            (field_fingerprint (resource_key_of (model_field strict)) "/model" empty_store))
apply_iff_example = apply_iff print_of (model_field strict) "/model" (obj live_fields) empty_store

pub values_differ :
    value_eq
      (spec_value (model_field strict).spec "/model")
      (extract_field (obj live_fields) "/model")
    ≡ false
unfolding value_eq spec_value extract_field walk step tokens_of leaf_of unescape get_field
values_differ = refl

abbrev old_text : String
old_text = "old"

abbrev new_text : String
new_text = "new"

texts_differ : old_text ≢ new_text
texts_differ h = absurd (false≢true ((eq_iff old_text new_text).1 h))

pub prints_differ :
    print_of (extract_field (obj live_fields) "/model")
    ≢ print_of (spec_value (model_field strict).spec "/model")
unfolding spec_value extract_field walk step tokens_of leaf_of unescape get_field
prints_differ h = texts_differ h

extract_field-set_path_example :
    extract_field
      (obj (set_path live_fields (pointer ("agents" ∷ "model" ∷ [])) (text "new")))
      (pointer ("agents" ∷ "model" ∷ []))
    ≡ text "new"
extract_field-set_path_example =
    extract_field-set_path live_fields "agents" ("model" ∷ []) (text "new")
      (
        record { nonempty = refl; no_slash = refl },
        (record { nonempty = refl; no_slash = refl }, tt),
      )
      (refl, (refl, tt))

abbrev escaped : String
escaped = "a~1b"

unescapes : unescape escaped ≢ escaped
unfolding unescape
unescapes h = absurd (false≢true ((eq_iff (unescape escaped) escaped).1 h))
